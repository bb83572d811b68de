-- ===== src/Net/IndexPool/Lists.antt =====
-- What the writes of ObjectIndexPool.hpp do to its array and its list of objects.
use asio_utils.Base.{
  ℕ, zero, suc, ◌≤◌, ◌<◌, ◌≡◌, ◌≢◌, refl, ap, subst, ◌⊎◌, inl, inr, List, [], ◌∷◌, ◌++◌, false,
  arith, ◌==◌, ==_iff, if◌then◌else◌, Bool-cases, length, set, replicate, count,
}
use asio_utils.Net.IndexPool.{without, slot}

-- The object is in the list.
abbrev pub In : ℕ → List ℕ → Type 0
In a [] = ⊥
In a (x ∷ xs) = (x ≡ a) ⊎ In a xs

pub slot-set_self : (xs : List ℕ) (i v : ℕ) → i < length xs → slot (set xs i v) i ≡ v
slot-set_self [] i v h = elim h [ ]
slot-set_self (x ∷ xs) zero v h = refl
slot-set_self (x ∷ xs) (suc i) v h = slot-set_self xs i v (omega arith)

pub slot-set_ne : (xs : List ℕ) (i j v : ℕ) → i ≢ j → slot (set xs i v) j ≡ slot xs j
slot-set_ne [] i j v h = refl
slot-set_ne (x ∷ xs) zero zero v h = absurd (h refl)
slot-set_ne (x ∷ xs) zero (suc j) v h = refl
slot-set_ne (x ∷ xs) (suc i) zero v h = refl
slot-set_ne (x ∷ xs) (suc i) (suc j) v h = slot-set_ne xs i j v (λ e. h (ap suc e))

pub slot-set_zero : (xs : List ℕ) (i : ℕ) → slot (set xs i 0) i ≡ 0
slot-set_zero [] i = refl
slot-set_zero (x ∷ xs) zero = refl
slot-set_zero (x ∷ xs) (suc i) = slot-set_zero xs i

-- A written array, read anywhere.
pub slot-set :
    (xs : List ℕ) (i j v : ℕ)
    → i < length xs
    → slot (set xs i v) j ≡ (if i == j then v else slot xs j)
slot-set xs i j v h = elim (Bool-cases (i == j)) [
  | inl same ↦
      rw same (subst (λ k. slot (set xs i v) k ≡ v) ((==_iff i j).0 same) (slot-set_self xs i v h))
  | inr other ↦ rw other (slot-set_ne xs i j v (λ e. cc (other, (==_iff i j).1 e)))
]

pub slot-replicate : (n i : ℕ) → slot (replicate n 0) i ≡ 0
slot-replicate zero i = refl
slot-replicate (suc n) zero = refl
slot-replicate (suc n) (suc i) = slot-replicate n i

pub In-append : (a : ℕ) (xs ys : List ℕ) → In a (xs ++ ys) → In a xs ⊎ In a ys
In-append a [] ys h = inr h
In-append a (x ∷ xs) ys (inl e) = inl (inl e)
In-append a (x ∷ xs) ys (inr h) = elim (In-append a xs ys h) [ inl p ↦ inl (inr p) | inr q ↦ inr q ]

pub In-append_left : (a : ℕ) (xs ys : List ℕ) → In a xs → In a (xs ++ ys)
In-append_left a [] ys h = absurd h
In-append_left a (x ∷ xs) ys (inl e) = inl e
In-append_left a (x ∷ xs) ys (inr h) = inr (In-append_left a xs ys h)

pub In-append_right : (a : ℕ) (xs ys : List ℕ) → In a ys → In a (xs ++ ys)
In-append_right a [] ys h = h
In-append_right a (x ∷ xs) ys h = inr (In-append_right a xs ys h)

pub In-without : (a b : ℕ) (xs : List ℕ) → In b (without a xs) → In b xs × (b ≢ a)
unfolding without
In-without a b [] h = absurd h
In-without a b (x ∷ xs) h = elim (Bool-cases (x == a)) [
  | inl same ↦ let r = In-without a b xs (rw same at h) in (inr r.0, r.1)
  | inr other ↦ elim (the_rest other) [
    | inl e ↦ (inl e, λ f. ground arith)
    | inr k ↦ let r = In-without a b xs k in (inr r.0, r.1)
  ]
]
  where
    the_rest : (x == a) ≡ false → (x ≡ b) ⊎ In b (without a xs)
    the_rest other = rw other at h

pub without-In : (a b : ℕ) (xs : List ℕ) → In b xs → b ≢ a → In b (without a xs)
unfolding without
without-In a b [] h ne = h
without-In a b (x ∷ xs) (inl e) ne = elim (Bool-cases (x == a)) [
  | inl same ↦ absurd (ne (ground arith))
  | inr other ↦ rw other (inl e)
]
without-In a b (x ∷ xs) (inr h) ne = elim (Bool-cases (x == a)) [
  | inl same ↦ rw same (without-In a b xs h ne)
  | inr other ↦ rw other (inr (without-In a b xs h ne))
]

pub In-count : (a : ℕ) (xs : List ℕ) → In a xs → 1 ≤ count a xs
unfolding count
In-count a [] h = absurd h
In-count a (x ∷ xs) (inl e) = ground (arith, e)
In-count a (x ∷ xs) (inr h) = ground (arith, In-count a xs h)

pub In-length : (a : ℕ) (xs : List ℕ) → In a xs → 1 ≤ length xs
In-length a [] h = absurd h
In-length a (x ∷ xs) h = omega arith

pub count-absent : (a : ℕ) (xs : List ℕ) → ¬ (In a xs) → count a xs ≡ 0
unfolding count
count-absent a [] h = refl
count-absent a (x ∷ xs) h = elim (Bool-cases (a == x)) [
  | inl e ↦ absurd (h (inl (ground (arith, e))))
  | inr e ↦ ground (arith, e, count-absent a xs (λ k. h (inr k)))
]

pub count-without : (b a : ℕ) (xs : List ℕ) → count b (without a xs) ≤ count b xs
unfolding count without
count-without b a [] = omega arith
count-without b a (x ∷ xs) = ground (arith, count-without b a xs)

length-without_absent : (a : ℕ) (xs : List ℕ) → count a xs ≡ 0 → length (without a xs) ≡ length xs
unfolding count without
length-without_absent a [] h = refl
length-without_absent a (x ∷ xs) h = ground (arith, length-without_absent a xs)

pub length-without :
    (a : ℕ) (xs : List ℕ) → count a xs ≡ 1 → suc (length (without a xs)) ≡ length xs
unfolding count without
length-without a [] h = cc
length-without a (x ∷ xs) h = ground (arith, length-without a xs, length-without_absent a xs)
