-- ===== src/Base/Dict.antt =====
-- An association list as an `unordered_map` from numbers: its entries in the order of iteration, one
-- for each key.
use Prim.Native.Nat.{ℕ}
use mathlib.Core.Path.{◌≡◌, refl, sym, ap, subst, ◌∙◌}
use mathlib.Core.Logic.{inl, inr}
use mathlib.Core.List.{List, [], ◌∷◌}
use mathlib.Core.Option.{Option, none, some, none-ne-some}
use native.Mathlib.Omega.{arith}
use asio_utils.Base.Tests.{◌==◌, if◌then◌else◌, ==_iff, Bool-cases}

module _ {ℓ} {A : Type ℓ} where
  unfoldable pub lookup : ℕ → List (ℕ × A) → Option A
  lookup k [] = none
  lookup k ((j, a) ∷ m) = let rest = lookup k m in if k == j then some a else rest

  -- `m[k] = a`.
  unfoldable pub assign : ℕ → A → List (ℕ × A) → List (ℕ × A)
  assign k a [] = (k, a) ∷ []
  assign k a ((j, b) ∷ m) = let rest = assign k a m in if k == j then (j, a) ∷ m else (j, b) ∷ rest

  unfoldable pub discard : ℕ → List (ℕ × A) → List (ℕ × A)
  discard k [] = []
  discard k ((j, b) ∷ m) = let rest = discard k m in if k == j then rest else (j, b) ∷ rest

  pub lookup-assign :
      (k j : ℕ) (a : A) (m : List (ℕ × A))
      → lookup j (assign k a m) ≡ (if j == k then some a else lookup j m)
  unfolding lookup assign
  lookup-assign k j a [] = ground arith
  lookup-assign k j a ((i, b) ∷ m) = ground (arith, lookup-assign k j a m)

  pub lookup-discard :
      (k j : ℕ) (m : List (ℕ × A)) → lookup j (discard k m) ≡ (if j == k then none else lookup j m)
  unfolding lookup discard
  lookup-discard k j [] = ground arith
  lookup-discard k j ((i, b) ∷ m) = ground (arith, lookup-discard k j m)

  -- Every key once.
  unfoldable pub Once : List (ℕ × A) → Type ℓ
  Once [] = Unit
  Once ((k, a) ∷ m) = (lookup k m ≡ none) × Once m

  pub lookup-skip :
      (i k : ℕ) (d old : A) (m : List (ℕ × A))
      → lookup k m ≡ none
      → lookup i m ≡ some old
      → lookup i ((k, d) ∷ m) ≡ some old
  unfolding lookup
  lookup-skip i k d old m fresh h = elim (Bool-cases (i == k)) [
    | inl e ↦
        absurd (none-ne-some old (sym fresh ∙ ap (λ x. lookup x m) (sym ((==_iff i k).0 e)) ∙ h))
    | inr e ↦ ap (λ b. if b then some d else lookup i m) e ∙ h
  ]

  pub Once-assign : (k : ℕ) (v : A) (m : List (ℕ × A)) → Once m → Once (assign k v m)
  unfolding Once assign lookup
  Once-assign k v [] o = (refl, tt)
  Once-assign k v ((j, d) ∷ m) (fresh, o) = elim (Bool-cases (k == j)) [
    | inl e ↦
        subst Once (ap (λ b. if b then (j, v) ∷ m else (j, d) ∷ assign k v m) (sym e)) (fresh, o)
    | inr e ↦
        subst Once (ap (λ b. if b then (j, v) ∷ m else (j, d) ∷ assign k v m) (sym e))
          (lookup-assign k j v m ∙ ground (arith, e, fresh), Once-assign k v m o)
  ]

  pub Once-discard : (k : ℕ) (m : List (ℕ × A)) → Once m → Once (discard k m)
  unfolding Once discard
  Once-discard k [] o = o
  Once-discard k ((j, d) ∷ m) (fresh, o) = elim (Bool-cases (k == j)) [
    | inl e ↦
        subst Once (ap (λ b. if b then discard k m else (j, d) ∷ discard k m) (sym e))
          (Once-discard k m o)
    | inr e ↦
        subst Once (ap (λ b. if b then discard k m else (j, d) ∷ discard k m) (sym e))
          (lookup-discard k j m ∙ ground (arith, e, fresh), Once-discard k m o)
  ]
