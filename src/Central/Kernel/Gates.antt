-- ===== src/Central/Kernel/Gates.antt =====
-- CSKernel.cpp: which gate a client is sent to.
use asio_utils.Base.{
  ℕ, ◌-◌, ◌^◌, ◌≡◌, ◌≤◌, ◌<◌, refl, sym, ◌∙◌, ap, subst, ◌⊎◌, inl, inr, Bool, true, ◌&&◌, List, [],
  ◌∷◌, Option, none, some, ltb, ltb→lt, ltb→le, ◌==◌, if◌then◌else◌, ◌>>=◌, Bool-cases, arith,
}
use asio_utils.Central.Kernel.{
  ServerInfo, Kernel, to_session, transmit, best_gate, gate_answer, request_best_gate_server,
}

-- The table has no null pointer.
unfoldable pub NoNull : List (ℕ × Option ServerInfo) → Type 0
NoNull [] = Unit
NoNull ((sid, none) ∷ servers) = ⊥
NoNull ((sid, some info) ∷ servers) = NoNull servers

-- The gates that have registered.
unfoldable pub gates : List (ℕ × Option ServerInfo) → List ServerInfo
gates [] = []
gates ((sid, none) ∷ servers) = gates servers
gates ((sid, some info) ∷ servers) =
    let rest = gates servers in if info.type == 1 then info ∷ rest else rest

unfoldable pub AllAtLeast : ℕ → List ServerInfo → Type 0
AllAtLeast n [] = Unit
AllAtLeast n (info ∷ infos) = (n ≤ info.loaded) × AllAtLeast n infos

unfoldable pub OneOf : ServerInfo → List ServerInfo → Type 0
OneOf g [] = ⊥
OneOf g (info ∷ infos) = (g ≡ info) ⊎ OneOf g infos

-- `b` is a gate with a load below `loaded` that no gate is below, or else it is `best`, and none is
-- below `loaded`.
Chosen : List ServerInfo → ℕ → Option ServerInfo → Option ServerInfo → Type 0
Chosen infos loaded best b =
    ((g : ServerInfo) × (b ≡ some g)
      × OneOf g infos
      × (g.loaded < loaded)
      × AllAtLeast g.loaded infos)
    ⊎ ((b ≡ best) × AllAtLeast loaded infos)

Chosen-less :
    (info : ServerInfo) (infos : List ServerInfo) (loaded : ℕ) (best b : Option ServerInfo)
    → info.loaded < loaded
    → Chosen infos info.loaded (some info) b
    → Chosen (info ∷ infos) loaded best b
unfolding Chosen OneOf AllAtLeast
Chosen-less info infos loaded best b h (inl (g, e, o, l, a)) =
    inl (g, e, inr o, omega (arith, l, h), (omega (arith, l), a))
Chosen-less info infos loaded best b h (inr (e, a)) = inl (info, e, inl refl, h, (omega arith, a))

Chosen-more :
    (info : ServerInfo) (infos : List ServerInfo) (loaded : ℕ) (best b : Option ServerInfo)
    → loaded ≤ info.loaded
    → Chosen infos loaded best b
    → Chosen (info ∷ infos) loaded best b
unfolding Chosen OneOf AllAtLeast
Chosen-more info infos loaded best b h (inl (g, e, o, l, a)) =
    inl (g, e, inr o, l, (omega (arith, l, h), a))
Chosen-more info infos loaded best b h (inr (e, a)) = inr (e, (h, a))

best_gate-Chosen :
    (servers : List (ℕ × Option ServerInfo)) (loaded : ℕ) (best : Option ServerInfo)
    → NoNull servers
    → (b : Option ServerInfo) × (best_gate servers loaded best ≡ some b)
      × Chosen (gates servers) loaded best b
unfolding best_gate NoNull gates Chosen AllAtLeast
best_gate-Chosen [] loaded best h = (best, refl, inr (refl, tt))
best_gate-Chosen ((sid, none) ∷ servers) loaded best h = absurd h
best_gate-Chosen ((sid, some info) ∷ servers) loaded best h =
    let rest = gates servers in
    let better = best_gate servers info.loaded (some info) in
    let same = best_gate servers loaded best in
    let choose : Bool → Option (Option ServerInfo) = λ b. if b then better else same in
    let (b, e, c) = best_gate-Chosen servers loaded best h in
    elim (Bool-cases (info.type == 1)) [
      | inr t ↦ (
        b,
        ap (λ x. choose (x && ltb info.loaded loaded)) t ∙ e,
        subst (λ x. Chosen (if x then info ∷ rest else rest) loaded best b) (sym t) c,
      )
      | inl t ↦ elim (Bool-cases (ltb info.loaded loaded)) [
        | inl l ↦
            let (d, f, a) = best_gate-Chosen servers info.loaded (some info) h in
            (
              d,
              ap (λ x. choose (x && ltb info.loaded loaded)) t ∙ ap choose l ∙ f,
              subst (λ x. Chosen (if x then info ∷ rest else rest) loaded best d) (sym t)
                  (Chosen-less info rest loaded best d (ltb→lt info.loaded loaded l) a),
            )
        | inr l ↦ (
          b,
          ap (λ x. choose (x && ltb info.loaded loaded)) t ∙ ap choose l ∙ e,
          subst (λ x. Chosen (if x then info ∷ rest else rest) loaded best b) (sym t)
              (Chosen-more info rest loaded best b (ltb→le info.loaded loaded l) c),
        )
      ]
    ]

-- The gate that a client is sent to, if it is: one with the smallest load.
pub IsLeastLoaded : List ServerInfo → Option ServerInfo → Type 0
IsLeastLoaded infos none = AllAtLeast (2 ^ 31 - 1) infos
IsLeastLoaded infos (some g) = OneOf g infos × AllAtLeast g.loaded infos

Chosen-IsLeastLoaded :
    (infos : List ServerInfo) (b : Option ServerInfo)
    → Chosen infos (2 ^ 31 - 1) none b
    → IsLeastLoaded infos b
unfolding Chosen IsLeastLoaded
Chosen-IsLeastLoaded infos b (inl (g, e, o, l, a)) = subst (IsLeastLoaded infos) (sym e) (o, a)
Chosen-IsLeastLoaded infos b (inr (e, a)) = subst (IsLeastLoaded infos) (sym e) a

-- A request for a gate returns, and is answered with a gate that no gate has a smaller load than. The
-- answer is an error when no gate has a load below the largest `int`: no gate at all, say. Nothing
-- but the answer changes. The table has no null pointer.
pub request_best_gate_server_lem :
    (p extra : ℕ) (k : Kernel)
    → NoNull k.servers
    → (b : Option ServerInfo) × IsLeastLoaded (gates k.servers) b
      × (request_best_gate_server p true extra k
          ≡ some (transmit (to_session p) 17002 extra (gate_answer b) k))
unfolding request_best_gate_server
request_best_gate_server_lem p extra k h =
    let (b, e, c) = best_gate-Chosen k.servers (2 ^ 31 - 1) none h in
    (
      b,
      Chosen-IsLeastLoaded (gates k.servers) b c,
      ap (λ o. o >>= (λ best. some (transmit (to_session p) 17002 extra (gate_answer best) k))) e,
    )
