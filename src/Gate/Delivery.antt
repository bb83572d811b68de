-- ===== src/Gate/Delivery.antt =====
-- What the handlers of the gate's sessions send, and to whom.
use asio_utils.Base.{
  ℕ, ◌≡◌, ◌≤◌, refl, sym, ◌∙◌, ap, subst, inl, inr, Bool, true, ◌&&◌, ◌||◌, ◌^◌, ltb, List, ◌++◌,
  Option, some, leb, ◌==◌, if◌then◌else◌, ◌>>=◌, length, Bool-cases, ==_iff, arith,
}
use asio_utils.Net.Packet.{PacketHeader, to_size}
use asio_utils.Net.Session.Outgoing.{Outgoing}
use asio_utils.Net.IndexPool.{each, slot, get_object}
use asio_utils.Net.Sessions.{Sessions, send_msg, get_session}
use asio_utils.Net.Sessions.Deliver.{send_msg_one, send_msg_all, send_msg_to-get_session}
use asio_utils.Net.Sessions.Given.{Given, frame, dealt, listings}
use asio_utils.Gate.{Gate, trans_to_client, server_type_client, match_service_session}

-- The session that a client's message is for, 0 if there is none: the central server's from 11000 to
-- 12000, that of the match in the header from 15000 to 16000, the login server's from 10000 to 10500.
pub meant_for : ℕ → ℕ → Gate → ℕ
meant_for type mid g =
    if leb 11000 type && leb type 12000
    then g.central_session
    else if leb 15000 type && leb type 16000
    then match_service_session mid g
    else if leb 10000 type && leb type 10500
    then g.login_session
    else 0

-- Behind what each session was given before, the frame for the session, if there is one.
pub with_frame : ℕ → List ℕ → (ℕ → List ℕ) → ℕ → List ℕ
with_frame target bytes acc q =
    if target == 0 then acc q else if target == q then acc q ++ bytes else acc q

-- A gate whose sessions alone have changed, given these bytes.
pub record HasSent (g n : Gate) (given : ℕ → List ℕ) : Type 0 where
  pub sent : Given n.sessions.at given
  pub kernel : n.kernel ≡ g.kernel
  pub table : n.matches_services ≡ g.matches_services
  pub login : n.login_session ≡ g.login_session
  pub central : n.central_session ≡ g.central_session

trans_to_client_found :
    (max_num : ℕ) (body : List ℕ) (header : PacketHeader) (g : Gate) (acc : ℕ → List ℕ) (p : ℕ)
    → to_size header.size ≤ length body
    → Given g.sessions.at acc
    → get_session max_num header.extra_id g.sessions ≡ some p
    → listings 0 (each g.sessions.session_map) ≡ 0
    → (n : Gate) × (trans_to_client max_num body header g ≡ some n)
      × HasSent g n (
          if p == 0
          then (λ q.
              acc q
              ++ dealt server_type_client q
                  (each g.sessions.session_map)
                  (frame header body)
                  (g.sessions.at q))
          else with_frame p (frame header body) acc)
unfolding trans_to_client with_frame
trans_to_client_found max_num body header g acc p h given found real =
    let bytes = frame header body in
    let m = g.sessions in
    let all : ℕ → List ℕ =
      λ q. acc q ++ dealt server_type_client q (each m.session_map) bytes (m.at q) in
    let reached = send_msg_to-get_session max_num header.extra_id p body header 0 m found in
    let end : Option Sessions → Option Gate = λ o. o >>= (λ t. some (record g { sessions = t })) in
    elim (Bool-cases (p == 0)) [
      | inl z ↦
          let (t, e, d) = send_msg_all body header 0 m acc real h given in
          (
            record g { sessions = t },
            ap end (reached ∙ ap (λ q. send_msg q body header 0 m) ((==_iff p 0).0 z) ∙ e),
            subst
                (λ b.
                  HasSent g (record g { sessions = t }) (if b then all else with_frame p bytes acc))
                (sym z)
                (record { sent = d; kernel = refl; table = refl; login = refl; central = refl }),
          )
      | inr z ↦
          let (t, e, d) =
            send_msg_one p body header 0 m acc (λ e. absurd (ground (arith, z, e))) h given in
          (
            record g { sessions = t },
            ap end (reached ∙ e),
            subst
                (λ b.
                  HasSent g (record g { sessions = t })
                    (if b
                      then all
                      else (λ q. if b then acc q else if p == q then acc q ++ bytes else acc q)))
                (sym z)
                (record { sent = d; kernel = refl; table = refl; login = refl; central = refl }),
          )
    ]

-- An id that finds a session, or none, without failing: the pool has a slot for it, or, as an
-- `int32`, it is negative.
unfoldable pub is_in_range : ℕ → ℕ → Bool
is_in_range max_num id = leb id max_num || leb (2 ^ 31) id

get_session_total :
    (max_num id : ℕ) (m : Sessions)
    → is_in_range max_num id ≡ true
    → (p : ℕ) × (get_session max_num id m ≡ some p)
unfolding get_session get_object is_in_range
get_session_total max_num id m h = elim (Bool-cases (ltb id (2 ^ 31))) [
  | inl e ↦ (slot m.session_map.object_array id, ground (arith, e, h))
  | inr e ↦ (0, ground (arith, e))
]

-- Answering a client returns, where the body has as many bytes as the header says, the pool lists no
-- null pointer, and the id in the header is at most the greatest index of the pool or negative as an
-- `int32`. If the id finds a session, that session alone is given the frame. If it finds none, as that
-- of a client that has gone, every session of a client is given the frame, as often as the pool lists
-- it.
pub trans_to_client_lem :
    (max_num : ℕ) (body : List ℕ) (header : PacketHeader) (g : Gate) (acc : ℕ → List ℕ)
    → to_size header.size ≤ length body
    → Given g.sessions.at acc
    → is_in_range max_num header.extra_id ≡ true
    → listings 0 (each g.sessions.session_map) ≡ 0
    → (p : ℕ) × (get_session max_num header.extra_id g.sessions ≡ some p)
      × ((n : Gate) × (trans_to_client max_num body header g ≡ some n)
          × HasSent g n (
              if p == 0
              then (λ q.
                  acc q
                  ++ dealt server_type_client q
                      (each g.sessions.session_map)
                      (frame header body)
                      (g.sessions.at q))
              else with_frame p (frame header body) acc))
trans_to_client_lem max_num body header g acc h given ranged real =
    let (p, found) = get_session_total max_num header.extra_id g.sessions ranged in
    (p, found, trans_to_client_found max_num body header g acc p h given found real)
