-- ===== src/Net/ObjectPool/Cells.antt =====
-- The objects of blocks of memory that do not overlap do not overlap.
use asio_utils.Base.{
  ℕ, zero, suc, ◌+◌, ◌≤◌, ◌≡◌, ◌≢◌, refl, sym, ◌∙◌, ◌⊎◌, inl, inr, List, [], ◌∷◌, ◌++◌, ◌==◌,
  ==_iff, Bool-cases, false, leb, leb→le, count, count-append, arith,
}
use asio_utils.Net.ObjectPool.{block_objects}

module _ (size_of : ℕ) where
  -- Two stretches of memory with no byte in common.
  unfoldable pub Apart : ℕ → ℕ → ℕ → ℕ → Type 0
  Apart p m q n = (p + m ≤ q) ⊎ (q + n ≤ p)

  swapped : (p q : ℕ) → Apart p size_of q size_of → Apart q size_of p size_of
  unfolding Apart
  swapped p q (inl h) = inr h
  swapped p q (inr h) = inl h

  Apart-self : 1 ≤ size_of → (p : ℕ) → Apart p size_of p size_of → ⊥
  unfolding Apart
  Apart-self pos p (inl h) = omega (arith, pos, h)
  Apart-self pos p (inr h) = omega (arith, pos, h)

  -- The size of a block.
  unfoldable pub block_bytes : ℕ → ℕ
  block_bytes zero = 0
  block_bytes (suc n) = size_of + block_bytes n

  -- The objects of all the blocks.
  unfoldable pub cells : ℕ → List ℕ → List ℕ
  unfolding block_objects
  cells n [] = []
  cells n (b ∷ bs) = block_objects size_of n b ++ cells n bs

  -- An object of a block lies in it.
  block_objects-within :
      (n b p : ℕ)
      → 1 ≤ count p (block_objects size_of n b)
      → (b ≤ p) × (p + size_of ≤ b + block_bytes n)
  unfolding block_objects block_bytes count
  block_objects-within zero b p h = absurd (omega (arith, h))
  block_objects-within (suc n) b p h = elim (Bool-cases (p == b)) [
    | inl e ↦ ground (arith, e)
    | inr e ↦
        let (low, high) = block_objects-within n (b + size_of) p (ground (arith, e, h)) in
        (omega (arith, low), omega (arith, high))
  ]

  block_objects-once : 1 ≤ size_of → (n b p : ℕ) → count p (block_objects size_of n b) ≤ 1
  unfolding block_objects count
  block_objects-once pos zero b p = omega arith
  block_objects-once pos (suc n) b p = elim (Bool-cases (p == b)) [
    | inl e ↦ elim (Bool-cases (leb 1 (count p (block_objects size_of n (b + size_of))))) [
      | inl c ↦
          let (low, high) = block_objects-within n (b + size_of) p (leb→le _ _ c) in
          absurd (omega (arith, low, (==_iff p b).0 e))
      | inr c ↦ ground (arith, e, c)
    ]
    | inr e ↦ ground (arith, e, block_objects-once pos n (b + size_of) p)
  ]

  block_objects-Apart :
      (n b p q : ℕ)
      → p ≢ q
      → 1 ≤ count p (block_objects size_of n b)
      → 1 ≤ count q (block_objects size_of n b)
      → Apart p size_of q size_of
  unfolding block_objects count Apart
  block_objects-Apart zero b p q ne h k = absurd (omega (arith, h))
  block_objects-Apart (suc n) b p q ne h k =
      let within =
        λ (r : ℕ) (e : (r == b) ≡ false) (c : 1 ≤ count r (block_objects size_of (suc n) b)).
          block_objects-within n (b + size_of) r (ground (arith, e, c)) in
      elim (Bool-cases (p == b)) [
        | inl e ↦ elim (Bool-cases (q == b)) [
          | inl f ↦ absurd (ne ((==_iff p b).0 e ∙ sym ((==_iff q b).0 f)))
          | inr f ↦ inl (omega (arith, (==_iff p b).0 e, (within q f k).0))
        ]
        | inr e ↦ elim (Bool-cases (q == b)) [
          | inl f ↦ inr (omega (arith, (==_iff q b).0 f, (within p e h).0))
          | inr f ↦
              block_objects-Apart n (b + size_of) p q ne (ground (arith, e, h))
                (ground (arith, f, k))
        ]
      ]

  module _ (n : ℕ) where
    -- A block that overlaps none of the others.
    unfoldable pub IsNew : ℕ → List ℕ → Type 0
    IsNew b [] = Unit
    IsNew b (c ∷ bs) = Apart b (block_bytes n) c (block_bytes n) × IsNew b bs

    unfoldable pub Separate : List ℕ → Type 0
    Separate [] = Unit
    Separate (b ∷ bs) = (1 ≤ b) × IsNew b bs × Separate bs

    IsNew-append :
        (b c : ℕ) (bs : List ℕ)
        → IsNew b bs
        → Apart b (block_bytes n) c (block_bytes n)
        → IsNew b (bs ++ c ∷ [])
    unfolding IsNew
    IsNew-append b c [] h a = (a, tt)
    IsNew-append b c (d ∷ bs) (first, h) a = (first, IsNew-append b c bs h a)

    Apart-sym :
        (b c : ℕ)
        → Apart b (block_bytes n) c (block_bytes n)
        → Apart c (block_bytes n) b (block_bytes n)
    unfolding Apart
    Apart-sym b c (inl h) = inr h
    Apart-sym b c (inr h) = inl h

    pub Separate-append :
        (b : ℕ) (bs : List ℕ) → Separate bs → 1 ≤ b → IsNew b bs → Separate (bs ++ b ∷ [])
    unfolding Separate IsNew
    Separate-append b [] s pos h = (pos, tt, tt)
    Separate-append b (c ∷ bs) (first_pos, first, s) pos (a, h) =
        (first_pos, IsNew-append c b bs first (Apart-sym b c a), Separate-append b bs s pos h)

    pub count-cells :
        (p b : ℕ) (bs : List ℕ)
        → count p (cells n (bs ++ b ∷ []))
          ≡ count p (cells n bs) + count p (block_objects size_of n b)
    unfolding cells count
    count-cells p b [] = omega (arith, count-append p (block_objects size_of n b) [])
    count-cells p b (c ∷ bs) = omega (
      arith,
      count-append p (block_objects size_of n c) (cells n bs),
      count-append p (block_objects size_of n c) (cells n (bs ++ b ∷ [])),
      count-cells p b bs,
    )

    Apart-within :
        (b c p q : ℕ)
        → Apart b (block_bytes n) c (block_bytes n)
        → b ≤ p
        → p + size_of ≤ b + block_bytes n
        → c ≤ q
        → q + size_of ≤ c + block_bytes n
        → Apart p size_of q size_of
    unfolding Apart
    Apart-within b c p q (inl h) low high low' high' = inl (omega arith)
    Apart-within b c p q (inr h) low high low' high' = inr (omega arith)

    -- An object of a block and one of the other blocks.
    cells-Apart_block :
        (b p q : ℕ) (bs : List ℕ)
        → IsNew b bs
        → 1 ≤ count p (block_objects size_of n b)
        → 1 ≤ count q (cells n bs)
        → Apart p size_of q size_of
    unfolding IsNew cells Apart count
    cells-Apart_block b p q [] new h k = absurd (omega (arith, k))
    cells-Apart_block b p q (c ∷ bs) (a, new) h k =
        let both = count-append q (block_objects size_of n c) (cells n bs) in
        elim (Bool-cases (leb 1 (count q (block_objects size_of n c)))) [
          | inl e ↦
              let (low, high) = block_objects-within n b p h in
              let (low', high') = block_objects-within n c q (leb→le _ _ e) in
              Apart-within b c p q a low high low' high'
          | inr e ↦ cells-Apart_block b p q bs new h (ground (arith, e, both, k))
        ]

    pub cells-Apart :
        (p q : ℕ) (bs : List ℕ)
        → Separate bs
        → p ≢ q
        → 1 ≤ count p (cells n bs)
        → 1 ≤ count q (cells n bs)
        → Apart p size_of q size_of
    unfolding Separate cells count
    cells-Apart p q [] s ne h k = absurd (omega (arith, h))
    cells-Apart p q (b ∷ bs) (pos_b, new, s) ne h k =
        let in_p = count-append p (block_objects size_of n b) (cells n bs) in
        let in_q = count-append q (block_objects size_of n b) (cells n bs) in
        elim (Bool-cases (leb 1 (count p (block_objects size_of n b)))) [
          | inl e ↦ elim (Bool-cases (leb 1 (count q (block_objects size_of n b)))) [
            | inl f ↦ block_objects-Apart n b p q ne (leb→le _ _ e) (leb→le _ _ f)
            | inr f ↦ cells-Apart_block b p q bs new (leb→le _ _ e) (ground (arith, f, in_q, k))
          ]
          | inr e ↦ elim (Bool-cases (leb 1 (count q (block_objects size_of n b)))) [
            | inl f ↦
                swapped q p
                  (cells-Apart_block b q p bs new (leb→le _ _ f) (ground (arith, e, in_p, h)))
            | inr f ↦
                cells-Apart p q bs s ne (ground (arith, e, in_p, h)) (ground (arith, f, in_q, k))
          ]
        ]

    pub cells-once : 1 ≤ size_of → (p : ℕ) (bs : List ℕ) → Separate bs → count p (cells n bs) ≤ 1
    unfolding Separate cells count
    cells-once pos p [] s = omega arith
    cells-once pos p (b ∷ bs) (pos_b, new, s) =
        let both = count-append p (block_objects size_of n b) (cells n bs) in
        let rest = cells-once pos p bs s in
        let first = block_objects-once pos n b p in
        elim (Bool-cases (leb 1 (count p (block_objects size_of n b)))) [
          | inl e ↦ elim (Bool-cases (leb 1 (count p (cells n bs)))) [
            | inl f ↦
                absurd
                  (Apart-self pos p (cells-Apart_block b p p bs new (leb→le _ _ e) (leb→le _ _ f)))
            | inr f ↦ ground (arith, both, first, f)
          ]
          | inr e ↦ ground (arith, both, rest, e)
        ]

    -- `NULL` is no object.
    pub cells-null : (bs : List ℕ) → Separate bs → count 0 (cells n bs) ≡ 0
    unfolding Separate cells count
    cells-null [] s = refl
    cells-null (b ∷ bs) (pos, new, s) =
        let both = count-append 0 (block_objects size_of n b) (cells n bs) in
        elim (Bool-cases (leb 1 (count 0 (block_objects size_of n b)))) [
          | inl e ↦ absurd (omega (arith, (block_objects-within n b 0 (leb→le _ _ e)).0, pos))
          | inr e ↦ ground (arith, both, cells-null bs s, e)
        ]
