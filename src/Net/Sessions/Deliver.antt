-- ===== src/Net/Sessions/Deliver.antt =====
-- What each session is given by a delivery of TCPSessionManager.cpp, and in what order it goes out.
use asio_utils.Base.{
  ℕ, ◌≤◌, ◌≡◌, ◌≢◌, sym, ap, ◌∙◌, inl, inr, Bool, false, List, ◌++◌, some, ◌==◌, ==_iff,
  if◌then◌else◌, ◌>>=◌, length, arith, subst, Bool-cases,
}
use asio_utils.Net.Packet.{PacketHeader, to_size}
use asio_utils.Net.IndexPool.{each}
use asio_utils.Net.Sessions.{
  Sessions, put, send_frame, send_each, deliver, send_msg, send_msg_to, get_session,
}
use asio_utils.Net.Sessions.Given.{
  Takes, frame, send_frame-Takes, listings, dealt, Given, Dealt, put-Given, send_each-Dealt,
}

-- Sending a message to a session that is there returns: behind all that it was given before, that
-- session alone is given the header and the body. Every session keeps what it was given in order.
pub send_msg_one :
    (p : ℕ) (body : List ℕ) (header : PacketHeader) (stype : ℕ) (m : Sessions) (acc : ℕ → List ℕ)
    → p ≢ 0
    → to_size header.size ≤ length body
    → Given m.at acc
    → (n : Sessions) × (send_msg p body header stype m ≡ some n)
      × Given n.at (λ q. if p == q then acc q ++ frame header body else acc q)
unfolding send_msg deliver Takes
send_msg_one p body header stype m acc ne h g =
    let bytes = frame header body in
    let takes = send_frame-Takes header body h in
    let (t, e, o, _) = takes (m.at p) (acc p) (g p) in
    let real : (p == 0) ≡ false = ground (arith, ne) in
    let f = send_frame header body in
    (
      record m { at = put m.at p t },
      ap
            (λ b.
              if b
              then (send_each f stype (each m.session_map) m.at
                  >>= (λ at. some (record m { at = at })))
              else (f (m.at p) >>= (λ s. some (record m { at = put m.at p s }))))
            real
          ∙ ap (λ o. o >>= (λ s. some (record m { at = put m.at p s }))) e,
      put-Given f bytes takes stype m.at acc p t g o,
    )

-- Sending a message to no session returns too: every session of the type is given the header and the
-- body, as often as the pool lists it, and no other session is given anything. The pool lists no
-- null pointer.
pub send_msg_all :
    (body : List ℕ) (header : PacketHeader) (stype : ℕ) (m : Sessions) (acc : ℕ → List ℕ)
    → listings 0 (each m.session_map) ≡ 0
    → to_size header.size ≤ length body
    → Given m.at acc
    → (n : Sessions) × (send_msg 0 body header stype m ≡ some n)
      × Given n.at (λ q. acc q ++ dealt stype q (each m.session_map) (frame header body) (m.at q))
unfolding send_msg deliver Dealt
send_msg_all body header stype m acc z h g =
    let bytes = frame header body in
    let f = send_frame header body in
    let (at, e, d) =
      send_each-Dealt f bytes (send_frame-Takes header body h) stype (each m.session_map) m.at acc z
        g in
    (record m { at = at }, ap (λ o. o >>= (λ at. some (record m { at = at }))) e, d)

-- Sending to an id is sending to the session that it finds.
pub send_msg_to-get_session :
    (max_num uuid p : ℕ) (body : List ℕ) (header : PacketHeader) (stype : ℕ) (m : Sessions)
    → get_session max_num uuid m ≡ some p
    → send_msg_to max_num uuid body header stype m ≡ send_msg p body header stype m
unfolding send_msg_to
send_msg_to-get_session max_num uuid p body header stype m e =
    ap (λ o. o >>= (λ p. send_msg p body header stype m)) e

-- What a message to a session, or to all of a type where there is none, leaves the sessions given.
unfoldable pub given_by : ℕ → List ℕ → ℕ → Sessions → (ℕ → List ℕ) → ℕ → List ℕ
given_by p bytes stype m acc q =
    if p == 0
    then acc q ++ dealt stype q (each m.session_map) bytes (m.at q)
    else if p == q
    then acc q ++ bytes
    else acc q

-- Sending a message returns. A session that is there is given the header and the body behind all that
-- it was given before, and no other session is given anything. Where there is none, every session
-- of the type is given them, as often as the pool lists it, and no session of another type. The pool
-- lists no null pointer, and the body has as many bytes as the header says.
pub send_msg_lem :
    (p : ℕ) (body : List ℕ) (header : PacketHeader) (stype : ℕ) (m : Sessions) (acc : ℕ → List ℕ)
    → listings 0 (each m.session_map) ≡ 0
    → to_size header.size ≤ length body
    → Given m.at acc
    → (n : Sessions) × (send_msg p body header stype m ≡ some n)
      × Given n.at (given_by p (frame header body) stype m acc)
unfolding given_by
send_msg_lem p body header stype m acc real h g =
    let bytes = frame header body in
    let given : Bool → ℕ → List ℕ = λ b q.
      if b
      then acc q ++ dealt stype q (each m.session_map) bytes (m.at q)
      else if p == q
      then acc q ++ bytes
      else acc q in
    elim (Bool-cases (p == 0)) [
      | inl z ↦
          let (n, e, d) = send_msg_all body header stype m acc real h g in
          (
            n,
            ap (λ i. send_msg i body header stype m) ((==_iff p 0).0 z) ∙ e,
            subst (λ b. Given n.at (given b)) (sym z) d,
          )
      | inr z ↦
          let (n, e, d) =
            send_msg_one p body header stype m acc (λ i. absurd (ground (arith, z, i))) h g in
          (n, e, subst (λ b. Given n.at (given b)) (sym z) d)
    ]
