-- ===== src/Net/Sessions/Ids.antt =====
-- The ids that TCPSessionManager.cpp gives its sessions.
use asio_utils.Base.{
  ℕ, ◌^◌, ◌≤◌, ◌<◌, ◌≡◌, ◌≢◌, refl, sym, ap, ◌∙◌, Bool, true, false, not, ◌&&◌, inl, inr, List,
  Option, some, ltb, ◌==◌, if◌then◌else◌, ◌>>=◌, arith, subst, Bool-cases, ==_iff,
}
use asio_utils.Net.Packet.{PacketHeader}
use asio_utils.Net.Session.{Session, Handlers}
use asio_utils.Net.Session.Closing.{IsClosed, closed-connect_destroyed}
use asio_utils.Net.Connector
use asio_utils.Net.Connector.{Connector}
use asio_utils.Net.IndexPool.{IndexPool, add_object, get_object}
use asio_utils.Net.IndexPool.Slots.{IsValid, add_object_lem, add_object-IsValid}
use asio_utils.Net.IndexPool.Removal.{remove_object_empties}
use asio_utils.Net.IndexPool.Lists.{In}
use asio_utils.Net.Sessions.{
  Sessions, Client, put, add_session, get_session, remove_session, send_msg, send_msg_to, reconnect,
  remove_session_ptr,
}

put_self {ℓ} : {A : Type ℓ} (f : ℕ → A) (p : ℕ) (v : A) → put f p v p ≡ v
put_self f p v = ground arith

module _ (max_num : ℕ) where
  -- An id that the pool gave is not negative.
  small_id :
      (i : ℕ) (m : Sessions)
      → max_num < 2 ^ 31
      → i ≤ max_num
      → get_session max_num i m ≡ get_object max_num m.session_map i
  unfolding get_session
  small_id i m small h =
      let low : ltb i (2 ^ 31) ≡ true = ground (arith, small, h) in
      ap (λ b. if b then get_object max_num m.session_map i else some 0) low

  removed_id :
      (i : ℕ) (m : Sessions)
      → max_num < 2 ^ 31
      → i ≤ max_num
      → get_session max_num i (remove_session max_num i m) ≡ some 0
  unfolding remove_session
  removed_id i m small h =
      small_id i (remove_session max_num i m) small h
      ∙ remove_object_empties max_num m.session_map i h

  checked : ℕ → Option ℕ → Option ℕ
  checked id o = if ltb id (2 ^ 31) then o else some 0

  -- While the pool is consistent, its indexes are below 2 ^ 31 and a fresh one is left, a session
  -- that is not in the pool is found by the id that it is given, and every other id finds what it
  -- found before. Once the id is removed no session is found by it, and a message to that id is sent
  -- to all the sessions of its type instead.
  pub ids_lem :
      (p : ℕ) (m : Sessions)
      → IsValid max_num m.session_map
      → max_num < 2 ^ 31
      → m.session_map.max_index ≤ max_num
      → p ≢ 0
      → ¬ (In p m.session_map.objects)
      → let n = add_session max_num p m in
        let uuid = (n.at p).uuid in
        ((id : ℕ)
          → get_session max_num id n ≡ (if id == uuid then some p else get_session max_num id m))
        × (get_session max_num uuid (remove_session max_num uuid n) ≡ some 0)
        × ((body : List ℕ) (header : PacketHeader) (stype : ℕ)
            → send_msg_to max_num uuid body header stype (remove_session max_num uuid n)
              ≡ send_msg 0 body header stype (remove_session max_num uuid n))
  unfolding add_session send_msg_to get_session checked
  ids_lem p m v small room ne new =
      let n = add_session max_num p m in
      let i = (add_object max_num m.session_map p).0 in
      let uuid = (n.at p).uuid in
      let given : uuid ≡ i =
        ap (λ (s : Session). s.uuid) (put_self m.at p (record (m.at p) { uuid = i })) in
      let fresh : uuid ≡ m.session_map.max_index =
        given ∙ ap (λ (r : ℕ × IndexPool). r.0) (add_object_lem max_num m.session_map p room) in
      let low : uuid ≤ max_num = omega (arith, fresh, room) in
      let (_, found, kept, _) =
        add_object-IsValid max_num m.session_map p v (omega (arith, small)) room ne new in
      let gone = removed_id uuid n small low in
      (
        λ id. elim (Bool-cases (id == uuid)) [
          | inl e ↦
              ap (λ j. get_session max_num j n) ((==_iff id uuid).0 e)
              ∙ small_id uuid n small low
              ∙ ap (get_object max_num n.session_map) given
              ∙ found
              ∙ ap (λ b. if b then some p else get_session max_num id m) (sym e)
          | inr e ↦
              ap (checked id) (kept id (λ q. absurd (ground (arith, e, q, given))))
              ∙ ap (λ b. if b then some p else get_session max_num id m) (sym e)
        ],
        gone,
        λ body header stype.
            ap (λ o. o >>= (λ p. send_msg p body header stype (remove_session max_num uuid n)))
              gone,
      )

-- The sessions after the close callback of one, `p`, which may connect again or not.
pub record HasEnded (max_num p : ℕ) (m n : Sessions) (again : Bool) : Type 0 where
  pub pool :
      n.session_map
      ≡ (if again then m.session_map else (remove_session max_num (m.at p).uuid m).session_map)
  pub closed : n.at p ≡ m.at p
  pub connector :
      (n.client_at p).connector
      ≡ (let c = (m.client_at p).connector in if again then Connector.restart c else c)

gone-HasEnded :
    (max_num p : ℕ) (m : Sessions)
    → HasEnded max_num p m (remove_session max_num (m.at p).uuid m) false
unfolding remove_session
gone-HasEnded max_num p m = record { pool = refl; closed = refl; connector = refl }

reconnect-HasEnded :
    (max_num : ℕ) (h : Handlers) (p : ℕ) (m : Sessions)
    → IsClosed (m.at p)
    → (m.client_at p).retry ≡ true
    → (n : Sessions) × (reconnect h p m ≡ some n) × HasEnded max_num p m n true
unfolding reconnect
reconnect-HasEnded max_num h p m closed r =
    let c = m.client_at p in
    let again : Bool → Client =
      λ b. if b then record c { connector = Connector.restart c.connector } else c in
    let back : Session → Option Sessions =
      λ s. some (record m { at = put m.at p s; client_at = put m.client_at p (again c.retry) }) in
    (
      record m { at = put m.at p (m.at p); client_at = put m.client_at p (again c.retry) },
      ap (λ o. o >>= back) (closed-connect_destroyed h (m.at p) closed),
      record {
        pool = refl;
        closed = put_self m.at p (m.at p);
        connector =
            ap (λ (k : Client). k.connector) (put_self m.client_at p (again c.retry) ∙ ap again r);
      },
    )

-- The close callback of a closed session returns. A client session that may retry keeps its id, and its
-- connector starts again with the shortest delay; any other session has its id removed from the
-- pool, and its connector, if it has one, is as it was. The session itself stays as it is.
pub remove_session_ptr_lem :
    (max_num : ℕ) (h : Handlers) (p : ℕ) (m : Sessions)
    → IsClosed (m.at p)
    → (n : Sessions) × (remove_session_ptr max_num h p m ≡ some n)
      × HasEnded max_num p m n ((m.at p).client && (m.client_at p).retry)
unfolding remove_session_ptr
remove_session_ptr_lem max_num h p m closed =
    let gone = remove_session max_num (m.at p).uuid m in
    let choose : Bool → Bool → Option Sessions =
      λ b r. if not b then some gone else if r then reconnect h p m else some gone in
    let left = gone-HasEnded max_num p m in
    elim (Bool-cases (m.at p).client) [
      | inl e ↦ elim (Bool-cases (m.client_at p).retry) [
        | inl r ↦
            let (n, q, d) = reconnect-HasEnded max_num h p m closed r in
            (
              n,
              ap (λ b. choose b (m.client_at p).retry) e ∙ ap (choose true) r ∙ q,
              subst (HasEnded max_num p m n) (ground (arith, e, r)) d,
            )
        | inr r ↦ (
          gone,
          ap (λ b. choose b (m.client_at p).retry) e ∙ ap (choose true) r,
          subst (HasEnded max_num p m gone) (ground (arith, e, r)) left,
        )
      ]
      | inr e ↦ (
        gone,
        ap (λ b. choose b (m.client_at p).retry) e,
        subst (HasEnded max_num p m gone) (ground (arith, e)) left,
      )
    ]
