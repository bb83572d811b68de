-- ===== src/Net/Services/Endpoints.antt =====
-- ServiceKernel.cpp: how many connections the table has to an endpoint.
use mathlib.Core.Option.{some-injective}
use asio_utils.Base.{
  ℕ, suc, ◌≡◌, ◌≢◌, refl, sym, ◌∙◌, ap, subst, ◌≤◌, Bool, true, false, List, [], ◌∷◌, none, some,
  ◌==◌, if◌then◌else◌, lookup, assign, discard, lookup-skip, Once, Bool-cases, inl, inr, arith,
}
use asio_utils.Net.Services.{ServiceConfig, invalid_uuid, same_endpoint, check_connect_service}

-- The number of connections to the endpoint of a configuration.
unfoldable pub connections_to : ServiceConfig → List (ℕ × ServiceConfig) → ℕ
connections_to c [] = 0
connections_to c ((k, d) ∷ m) =
    let rest = connections_to c m in if same_endpoint d c then suc rest else rest

pub record IsValid (m : List (ℕ × ServiceConfig)) : Type 0 where
  pub once : Once m
  pub no_invalid : lookup invalid_uuid m ≡ none
  pub one_each : (c : ServiceConfig) → connections_to c m ≤ 1

pub same_trans :
    (c d e : ServiceConfig) → same_endpoint c d ≡ true → same_endpoint e c ≡ same_endpoint e d
unfolding same_endpoint
same_trans c d e h = ground (arith, h)

pub connections-same :
    (c d : ServiceConfig) (m : List (ℕ × ServiceConfig))
    → same_endpoint c d ≡ true
    → connections_to c m ≡ connections_to d m
unfolding connections_to
connections-same c d [] h = refl
connections-same c d ((k, e) ∷ m) h = ground (arith, connections-same c d m h, same_trans c d e h)

pub connections-if :
    (c : ServiceConfig) (b : Bool) (m n : List (ℕ × ServiceConfig))
    → connections_to c (if b then m else n) ≡ (if b then connections_to c m else connections_to c n)
connections-if c true m n = refl
connections-if c false m n = refl

pub connections-assign_new :
    (c v : ServiceConfig) (k : ℕ) (m : List (ℕ × ServiceConfig))
    → lookup k m ≡ none
    → connections_to c (assign k v m)
      ≡ (if same_endpoint v c then suc (connections_to c m) else connections_to c m)
unfolding connections_to lookup assign
connections-assign_new c v k [] h = refl
connections-assign_new c v k ((j, d) ∷ m) h =
    connections-if c (k == j) ((j, v) ∷ m) ((j, d) ∷ assign k v m) ∙ elim (Bool-cases (k == j)) [
      | inl e ↦ ground (arith, e, h)
      | inr e ↦
          let r =
            connections-assign_new c v k m
              (ap (λ b. if b then some d else lookup k m) (sym e) ∙ h) in
          ground (arith, e, r)
    ]

pub connections-assign_old :
    (c v old : ServiceConfig) (k : ℕ) (m : List (ℕ × ServiceConfig))
    → lookup k m ≡ some old
    → same_endpoint v c ≡ same_endpoint old c
    → connections_to c (assign k v m) ≡ connections_to c m
unfolding connections_to lookup assign
connections-assign_old c v old k [] h s = ground (arith, h)
connections-assign_old c v old k ((j, d) ∷ m) h s =
    connections-if c (k == j) ((j, v) ∷ m) ((j, d) ∷ assign k v m) ∙ elim (Bool-cases (k == j)) [
      | inl e ↦
          let t : d ≡ old =
            some-injective _ _ (ap (λ b. if b then some d else lookup k m) (sym e) ∙ h) in
          ground (arith, e, s, ap (λ x. same_endpoint x c) t)
      | inr e ↦
          let r =
            connections-assign_old c v old k m
              (ap (λ b. if b then some d else lookup k m) (sym e) ∙ h) s in
          ground (arith, e, r)
    ]

pub connections-discard :
    (c : ServiceConfig) (k : ℕ) (m : List (ℕ × ServiceConfig))
    → connections_to c (discard k m) ≤ connections_to c m
unfolding connections_to discard
connections-discard c k [] = ground arith
connections-discard c k ((j, d) ∷ m) =
    subst (λ n. n ≤ connections_to c ((j, d) ∷ m))
      (sym (connections-if c (k == j) (discard k m) ((j, d) ∷ discard k m)))
      (ground (arith, connections-discard c k m))

pub check-none :
    (c : ServiceConfig) (m : List (ℕ × ServiceConfig))
    → lookup invalid_uuid m ≡ none
    → check_connect_service c m ≡ invalid_uuid
    → connections_to c m ≡ 0
unfolding connections_to lookup check_connect_service
check-none c [] h e = refl
check-none c ((k, d) ∷ m) h e = elim (Bool-cases (invalid_uuid == k)) [
  | inl a ↦ absurd (ground (arith, a, h))
  | inr a ↦
      let r = check-none c m (ap (λ b. if b then some d else lookup invalid_uuid m) (sym a) ∙ h) in
      ground (arith, a, r, e)
]

pub check-some :
    (c : ServiceConfig) (m : List (ℕ × ServiceConfig))
    → Once m
    → check_connect_service c m ≢ invalid_uuid
    → (old : ServiceConfig) × (lookup (check_connect_service c m) m ≡ some old)
      × (same_endpoint old c ≡ true)
unfolding lookup check_connect_service Once
check-some c [] o n = absurd (n refl)
check-some c ((k, d) ∷ m) (fresh, o) n = elim (Bool-cases (same_endpoint d c)) [
  | inl e ↦ (d, ground (arith, e), e)
  | inr e ↦
      let (old, l, s) = check-some c m o (λ i. n (ground (arith, e, i))) in
      (
        old,
        ap (λ b. lookup (if b then k else check_connect_service c m) ((k, d) ∷ m)) e
            ∙ lookup-skip (check_connect_service c m) k d old m fresh l,
        s,
      )
]
