-- ===== src/Net/Sessions/Given.antt =====
-- What the sessions of TCPSessionManager.cpp take, one after the other.
use asio_utils.Base.{
  ℕ, zero, suc, ◌≤◌, ◌≡◌, refl, sym, ap, ◌∙◌, inl, inr, Bool, true, false, List, [], ◌∷◌, ◌++◌,
  Option, none, some, le→leb, ◌==◌, ==_iff, if◌then◌else◌, ◌>>=◌, length, take, append_assoc,
  append-nil, arith, subst, Bool-cases,
}
use asio_utils.Net.Packet.{PacketHeader, header_bytes, to_size}
use asio_utils.Net.Session.{Session, add_more, send}
use asio_utils.Net.Session.Outgoing.{Outgoing, add_more-Outgoing}
use asio_utils.Net.Session.Kind.{send-Outgoing, add_more-type}
use asio_utils.Net.Sessions.{put, send_frame, send_each}

-- The session takes these bytes, behind all that it has been given, and stays of its type.
unfoldable pub Takes : (Session → Option Session) → List ℕ → Type 0
Takes f bytes =
    (s : Session) (acc : List ℕ)
    → Outgoing s acc
    → (t : Session) × (f s ≡ some t) × Outgoing t (acc ++ bytes) × (t.type ≡ s.type)

pub send-Takes : (bytes : List ℕ) → Takes (λ s. send s bytes) bytes
unfolding Takes
send-Takes bytes s acc o = send-Outgoing bytes o

-- The bytes of a frame.
unfoldable pub frame : PacketHeader → List ℕ → List ℕ
frame header body = header_bytes header ++ take header.size body

pub send_frame-Takes :
    (header : PacketHeader) (body : List ℕ)
    → to_size header.size ≤ length body
    → Takes (send_frame header body) (frame header body)
unfolding Takes send_frame frame
send_frame-Takes header body h s acc o =
    let head = header_bytes header in
    let rest = take header.size body in
    let (t, e, p) = add_more-Outgoing head o in
    let (u, f, q, k) = send-Takes rest t (acc ++ head) p in
    (
      u,
      ap (λ b. if b then (add_more s head >>= (λ t. send t rest)) else none)
            (le→leb (to_size header.size) (length body) h)
          ∙ ap (λ x. x >>= (λ t. send t rest)) e
          ∙ f,
      subst (Outgoing u) (append_assoc acc head rest) q,
      k ∙ add_more-type s t head e,
    )

-- How often a session is listed, and a message as often.
unfoldable pub listings : ℕ → List ℕ → ℕ
listings q [] = 0
listings q (p ∷ ps) = let rest = listings q ps in if p == q then suc rest else rest

unfoldable pub copies : ℕ → List ℕ → List ℕ
copies zero bytes = []
copies (suc n) bytes = bytes ++ copies n bytes

unfoldable pub dealt : ℕ → ℕ → List ℕ → List ℕ → Session → List ℕ
dealt stype q ps bytes s = if s.type == stype then copies (listings q ps) bytes else []

-- What the sessions have been given.
abbrev pub Given : (ℕ → Session) → (ℕ → List ℕ) → Type 0
Given at acc = (q : ℕ) → Outgoing (at q) (acc q)

module _ (f : Session → Option Session) (bytes : List ℕ) (takes : Takes f bytes) (stype : ℕ) where
  -- The result of sending to the listed sessions.
  unfoldable pub Dealt : (ℕ → Session) → (ℕ → List ℕ) → List ℕ → Option (ℕ → Session) → Type 0
  Dealt at acc ps o =
      (n : ℕ → Session) × (o ≡ some n)
      × ((q : ℕ) → Outgoing (n q) (acc q ++ dealt stype q ps bytes (at q)))

  -- What has been dealt when the first listed session has taken the bytes.
  pub put-Given :
      (at : ℕ → Session) (acc : ℕ → List ℕ) (p : ℕ) (t : Session)
      → Given at acc
      → Outgoing t (acc p ++ bytes)
      → Given (put at p t) (λ q. if p == q then acc q ++ bytes else acc q)
  put-Given at acc p t g o q = elim (Bool-cases (p == q)) [
    | inl e ↦
        let same : p ≡ q = (==_iff p q).0 e in
        rw e (subst (λ r. Outgoing t (acc r ++ bytes)) same o)
    | inr e ↦ rw e (g q)
  ]

  dealt-put :
      (at : ℕ → Session) (acc : ℕ → List ℕ) (p : ℕ) (t : Session) (ps : List ℕ) (q : ℕ)
      → t.type ≡ (at p).type
      → ((at p).type == stype) ≡ true
      → (if p == q then acc q ++ bytes else acc q) ++ dealt stype q ps bytes (put at p t q)
        ≡ acc q ++ dealt stype q (p ∷ ps) bytes (at q)
  unfolding dealt listings copies
  dealt-put at acc p t ps q k e = elim (Bool-cases (p == q)) [
    | inl h ↦
        let same : p ≡ q = (==_iff p q).0 h in
        let here : ((at q).type == stype) ≡ true =
          subst (λ r. ((at r).type == stype) ≡ true) same e in
        let there : (t.type == stype) ≡ true = ap (λ n. n == stype) k ∙ e in
        rw (h, here, there) (append_assoc (acc q) bytes (copies (listings q ps) bytes))
    | inr h ↦ rw h refl
  ]

  pub dealt-skip :
      (at : ℕ → Session) (p : ℕ) (ps : List ℕ) (q : ℕ)
      → ((at p).type == stype) ≡ false
      → dealt stype q ps bytes (at q) ≡ dealt stype q (p ∷ ps) bytes (at q)
  unfolding dealt listings
  dealt-skip at p ps q e = elim (Bool-cases (p == q)) [
    | inl h ↦
        let same : p ≡ q = (==_iff p q).0 h in
        let here : ((at q).type == stype) ≡ false =
          subst (λ r. ((at r).type == stype) ≡ false) same e in
        rw here refl
    | inr h ↦ rw h refl
  ]

  dealt_nil : (at : ℕ → Session) (q : ℕ) → dealt stype q [] bytes (at q) ≡ []
  unfolding dealt listings copies
  dealt_nil at q = ground arith

  pub send_each-Dealt :
      (ps : List ℕ) (at : ℕ → Session) (acc : ℕ → List ℕ)
      → listings 0 ps ≡ 0
      → Given at acc
      → Dealt at acc ps (send_each f stype ps at)
  unfolding Dealt send_each dealt listings copies Takes
  send_each-Dealt [] at acc z g = (
    at,
    refl,
    λ q.
        subst (Outgoing (at q)) (sym (ap (λ ys. acc q ++ ys) (dealt_nil at q) ∙ append-nil (acc q)))
          (g q),
  )
  send_each-Dealt (p ∷ ps) at acc z g =
      let real : (p == 0) ≡ false = ground (arith, z) in
      let z' : listings 0 ps ≡ 0 = ground (arith, z) in
      let after : Bool → Bool → Option (ℕ → Session) = λ b c.
        if b
        then none
        else if c
        then (f (at p) >>= (λ s. send_each f stype ps (put at p s)))
        else send_each f stype ps at in
      elim (Bool-cases ((at p).type == stype)) [
        | inl e ↦
            let (t, h, o, k) = takes (at p) (acc p) (g p) in
            let (n, r, d) =
              send_each-Dealt ps (put at p t) (λ q. if p == q then acc q ++ bytes else acc q) z'
                (put-Given at acc p t g o) in
            (
              n,
              ap (λ b. after b ((at p).type == stype)) real
                  ∙ ap (after false) e
                  ∙ ap (λ o. o >>= (λ s. send_each f stype ps (put at p s))) h
                  ∙ r,
              λ q. subst (Outgoing (n q)) (dealt-put at acc p t ps q k e) (d q),
            )
        | inr e ↦
            let (n, r, d) = send_each-Dealt ps at acc z' g in
            (
              n,
              ap (λ b. after b ((at p).type == stype)) real ∙ ap (after false) e ∙ r,
              λ q. subst (λ ys. Outgoing (n q) (acc q ++ ys)) (dealt-skip at p ps q e) (d q),
            )
      ]
