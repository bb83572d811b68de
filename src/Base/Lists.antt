-- ===== src/Base/Lists.antt =====
-- Lists measured and indexed by native numbers, under the library's names, and writes into an array.
use Prim.Native.Nat.{ℕ, zero, suc, ◌+◌, ◌-◌, ◌<◌, ◌≤◌, min}
use mathlib.Core.Path.{◌≡◌, refl, sym, ap, subst, ◌∙◌}
use mathlib.Core.Logic.{◌≢◌}
use mathlib.Core.List.{List, [], ◌∷◌, ◌++◌}
use mathlib.Core.Option.{Option, none, some}
use native.Mathlib.Omega.{arith}

module _ {ℓ} {A : Type ℓ} where
  abbrev pub length : List A → ℕ
  length [] = 0
  length (x ∷ xs) = suc (length xs)

  abbrev pub get_elem? : List A → ℕ → Option A
  get_elem? [] i = none
  get_elem? (x ∷ xs) zero = some x
  get_elem? (x ∷ xs) (suc i) = get_elem? xs i

  -- A write out of bounds changes nothing.
  abbrev pub set : List A → ℕ → A → List A
  set [] i v = []
  set (x ∷ xs) zero v = v ∷ xs
  set (x ∷ xs) (suc i) v = x ∷ set xs i v

  abbrev pub take : ℕ → List A → List A
  take zero xs = []
  take (suc n) [] = []
  take (suc n) (x ∷ xs) = x ∷ take n xs

  abbrev pub drop : ℕ → List A → List A
  drop zero xs = xs
  drop (suc n) [] = []
  drop (suc n) (x ∷ xs) = drop n xs

  abbrev pub replicate : ℕ → A → List A
  replicate zero a = []
  replicate (suc n) a = a ∷ replicate n a

  pub length-append : (xs ys : List A) → length (xs ++ ys) ≡ length xs + length ys
  length-append [] ys = omega arith
  length-append (x ∷ xs) ys = omega (arith, length-append xs ys)

  pub length-set : (xs : List A) (i : ℕ) (v : A) → length (set xs i v) ≡ length xs
  length-set [] i v = refl
  length-set (x ∷ xs) zero v = refl
  length-set (x ∷ xs) (suc i) v = ap suc (length-set xs i v)

  pub get_elem?-set_self :
      (xs : List A) (i : ℕ) (v : A) → i < length xs → get_elem? (set xs i v) i ≡ some v
  get_elem?-set_self [] i v h = elim h [ ]
  get_elem?-set_self (x ∷ xs) zero v h = refl
  get_elem?-set_self (x ∷ xs) (suc i) v h = get_elem?-set_self xs i v (omega arith)

  pub get_elem?-set_ne :
      (xs : List A) {i j : ℕ} (v : A) → i ≢ j → get_elem? (set xs i v) j ≡ get_elem? xs j
  get_elem?-set_ne [] v h = refl
  get_elem?-set_ne (x ∷ xs) {i = zero} {j = zero} v h = absurd (h refl)
  get_elem?-set_ne (x ∷ xs) {i = zero} {j = suc j} v h = refl
  get_elem?-set_ne (x ∷ xs) {i = suc i} {j = zero} v h = refl
  get_elem?-set_ne (x ∷ xs) {i = suc i} {j = suc j} v h = get_elem?-set_ne xs v (λ e. h (ap suc e))

  pub length-take : (n : ℕ) (xs : List A) → length (take n xs) ≡ min n (length xs)
  length-take zero xs = omega arith
  length-take (suc n) [] = omega arith
  length-take (suc n) (x ∷ xs) = omega (arith, length-take n xs)

  pub length-drop : (n : ℕ) (xs : List A) → length (drop n xs) ≡ length xs - n
  length-drop zero xs = omega arith
  length-drop (suc n) [] = omega arith
  length-drop (suc n) (x ∷ xs) = omega (arith, length-drop n xs)

  pub length-replicate : (n : ℕ) (a : A) → length (replicate n a) ≡ n
  length-replicate zero a = refl
  length-replicate (suc n) a = ap suc (length-replicate n a)

  -- The end of the prefix is a variable with an equation, so that every call fits.
  pub take_all : (n : ℕ) (xs : List A) → length xs ≤ n → take n xs ≡ xs
  take_all zero [] h = refl
  take_all zero (x ∷ xs) h = elim h [ ]
  take_all (suc n) [] h = refl
  take_all (suc n) (x ∷ xs) h = ap (◌∷◌ x) (take_all n xs (omega arith))

  pub drop_all : (n : ℕ) (xs : List A) → length xs ≤ n → drop n xs ≡ []
  drop_all zero [] h = refl
  drop_all zero (x ∷ xs) h = elim h [ ]
  drop_all (suc n) [] h = refl
  drop_all (suc n) (x ∷ xs) h = drop_all n xs (omega arith)

  pub take-length-append : (n : ℕ) (xs ys : List A) → length xs ≡ n → take n (xs ++ ys) ≡ xs
  take-length-append zero [] ys e = refl
  take-length-append zero (x ∷ xs) ys e = absurd (omega arith)
  take-length-append (suc n) [] ys e = absurd (omega arith)
  take-length-append (suc n) (x ∷ xs) ys e = ap (◌∷◌ x) (take-length-append n xs ys (omega arith))

  pub drop-length-append : (n : ℕ) (xs ys : List A) → length xs ≡ n → drop n (xs ++ ys) ≡ ys
  drop-length-append zero [] ys e = refl
  drop-length-append zero (x ∷ xs) ys e = absurd (omega arith)
  drop-length-append (suc n) [] ys e = absurd (omega arith)
  drop-length-append (suc n) (x ∷ xs) ys e = drop-length-append n xs ys (omega arith)

  pub take-append : (n : ℕ) (xs ys : List A) → n ≤ length xs → take n (xs ++ ys) ≡ take n xs
  take-append zero xs ys h = refl
  take-append (suc n) [] ys h = elim h [ ]
  take-append (suc n) (x ∷ xs) ys h = ap (◌∷◌ x) (take-append n xs ys (omega arith))

  pub drop-append : (n : ℕ) (xs ys : List A) → n ≤ length xs → drop n (xs ++ ys) ≡ drop n xs ++ ys
  drop-append zero xs ys h = refl
  drop-append (suc n) [] ys h = elim h [ ]
  drop-append (suc n) (x ∷ xs) ys h = drop-append n xs ys (omega arith)

  pub drop-drop : (m n k : ℕ) (xs : List A) → m + n ≡ k → drop n (drop m xs) ≡ drop k xs
  drop-drop zero n k xs e = ap (λ j. drop j xs) (omega arith)
  drop-drop (suc m) zero zero xs e = absurd (omega arith)
  drop-drop (suc m) (suc n) zero xs e = absurd (omega arith)
  drop-drop (suc m) zero (suc k) [] e = refl
  drop-drop (suc m) (suc n) (suc k) [] e = refl
  drop-drop (suc m) n (suc k) (x ∷ xs) e = drop-drop m n k xs (omega arith)

  pub drop-take : (m n k : ℕ) (xs : List A) → m + n ≡ k → drop m (take k xs) ≡ take n (drop m xs)
  drop-take zero n k xs e = ap (λ j. take j xs) (omega arith)
  drop-take (suc m) n zero xs e = absurd (omega arith)
  drop-take (suc m) zero (suc k) [] e = refl
  drop-take (suc m) (suc n) (suc k) [] e = refl
  drop-take (suc m) n (suc k) (x ∷ xs) e = drop-take m n k xs (omega arith)

  pub take-take : (m n : ℕ) (xs : List A) → m ≤ n → take m (take n xs) ≡ take m xs
  take-take zero n xs h = refl
  take-take (suc m) zero xs h = elim h [ ]
  take-take (suc m) (suc n) [] h = refl
  take-take (suc m) (suc n) (x ∷ xs) h = ap (◌∷◌ x) (take-take m n xs (omega arith))

  -- `std::copy` of `ys` to index `i` of an array that has room for them.
  abbrev pub write_at : List A → ℕ → List A → List A
  write_at xs zero ys = ys ++ drop (length ys) xs
  write_at [] (suc i) ys = []
  write_at (x ∷ xs) (suc i) ys = x ∷ write_at xs i ys

  pub length-write_at :
      (xs : List A) (i : ℕ) (ys : List A)
      → i + length ys ≤ length xs
      → length (write_at xs i ys) ≡ length xs
  length-write_at xs zero ys h =
      omega (arith, length-append ys (drop (length ys) xs), length-drop (length ys) xs)
  length-write_at [] (suc i) ys h = refl
  length-write_at (x ∷ xs) (suc i) ys h = ap suc (length-write_at xs i ys (omega arith))

  take-write_at :
      (n k : ℕ) (xs ys : List A)
      → k ≡ n + length ys
      → n ≤ length xs
      → take k (write_at xs n ys) ≡ take n xs ++ ys
  take-write_at zero k xs ys e h = take-length-append k ys (drop (length ys) xs) (omega arith)
  take-write_at (suc n) k [] ys e h = elim h [ ]
  take-write_at (suc n) zero (x ∷ xs) ys e h = absurd (omega arith)
  take-write_at (suc n) (suc k) (x ∷ xs) ys e h =
      ap (◌∷◌ x) (take-write_at n k xs ys (omega arith) (omega arith))

  -- Writing just past a stretch of an array extends the stretch.
  pub slice-write_at :
      (r n i k : ℕ) (xs ys : List A)
      → i ≡ r + n
      → k ≡ n + length ys
      → i ≤ length xs
      → take k (drop r (write_at xs i ys)) ≡ take n (drop r xs) ++ ys
  slice-write_at zero n i k xs ys e f h =
      let p : n ≡ i = omega arith in
      subst (λ j. take k (write_at xs i ys) ≡ take j xs ++ ys) (sym p)
        (take-write_at i k xs ys (omega arith) h)
  slice-write_at (suc r) n zero k xs ys e f h = absurd (omega arith)
  slice-write_at (suc r) n (suc i) k [] ys e f h = elim h [ ]
  slice-write_at (suc r) n (suc i) k (x ∷ xs) ys e f h =
      slice-write_at r n i k xs ys (omega arith) f (omega arith)

module _ {ℓ} {A : Type ℓ} where
  -- Where a write begins, the array now reads the written items and then what followed them.
  pub drop-write_at :
      (i j : ℕ) (xs ys : List A)
      → j ≡ i + length ys
      → i ≤ length xs
      → drop i (write_at xs i ys) ≡ ys ++ drop j xs
  drop-write_at zero j xs ys e h = ap (λ k. ys ++ drop k xs) (omega arith)
  drop-write_at (suc i) zero xs ys e h = absurd (omega arith)
  drop-write_at (suc i) (suc j) [] ys e h = elim h [ ]
  drop-write_at (suc i) (suc j) (x ∷ xs) ys e h =
      drop-write_at i j xs ys (omega arith) (omega arith)

  pub take_past :
      (k n : ℕ) (xs ys : List A) → k ≡ length xs + n → take k (xs ++ ys) ≡ xs ++ take n ys
  take_past k n [] ys e = ap (λ j. take j ys) (omega arith)
  take_past zero n (x ∷ xs) ys e = absurd (omega arith)
  take_past (suc k) n (x ∷ xs) ys e = ap (◌∷◌ x) (take_past k n xs ys (omega arith))

  pub drop_past : (k n : ℕ) (xs ys : List A) → k ≡ length xs + n → drop k (xs ++ ys) ≡ drop n ys
  drop_past k n [] ys e = ap (λ j. drop j ys) (omega arith)
  drop_past zero n (x ∷ xs) ys e = absurd (omega arith)
  drop_past (suc k) n (x ∷ xs) ys e = drop_past k n xs ys (omega arith)

  pub take-append-drop : (n : ℕ) (xs : List A) → take n xs ++ drop n xs ≡ xs
  take-append-drop zero xs = refl
  take-append-drop (suc n) [] = refl
  take-append-drop (suc n) (x ∷ xs) = ap (◌∷◌ x) (take-append-drop n xs)

  -- Two splits of one list, of which the first is the shorter: the second begins with it.
  pub append-split :
      (us bs xs ys : List A)
      → us ++ bs ≡ xs ++ ys
      → length us ≤ length xs
      → (xs ≡ us ++ drop (length us) xs) × (bs ≡ drop (length us) xs ++ ys)
  append-split us bs xs ys e h =
      let k : ℕ = length us in
      let front : take k xs ≡ us =
        sym (take-append k xs ys h) ∙ ap (take k) (sym e) ∙ take-length-append k us bs refl in
      (
        sym (take-append-drop k xs) ∙ ap (λ zs. zs ++ drop k xs) front,
        sym (drop-length-append k us bs refl) ∙ ap (drop k) e ∙ drop-append k xs ys h,
      )

  pub length_zero : (xs : List A) → length xs ≡ 0 → xs ≡ []
  length_zero [] e = refl
  length_zero (x ∷ xs) e = absurd (omega arith)
