-- ===== src/Net/ObjectPool/Conserve.antt =====
-- Every object of a pool's blocks is free or in use, once.
use asio_utils.Base.{
  ℕ, zero, suc, ◌+◌, ◌-◌, ◌≤◌, ◌≡◌, ◌≢◌, refl, ap, inl, inr, true, false, List, [], ◌∷◌, ◌++◌,
  Option, some, ◌==◌, ==_iff, if◌then◌else◌, if-cases, Bool-cases, count, count-append, arith,
}
use asio_utils.Net.ObjectPool.{
  ObjectPool, exhausted, release_object, pop_front, block_objects, grow, enable_enough_objects,
  get_free_object_mem, create_locked,
}
use asio_utils.Net.ObjectPool.Cells.{
  Apart, cells, IsNew, Separate, Separate-append, count-cells, cells-Apart, cells-once, cells-null,
}

module _ (size_of : ℕ) where
  -- The objects in use are counted by `used`.
  pub record IsConserved (pool : ObjectPool) (used : ℕ → ℕ) : Type 0 where
    pub one_at_least : 1 ≤ pool.block_size
    pub blocks_apart : Separate size_of pool.block_size pool.blocks
    pub each :
        (p : ℕ)
        → count p pool.objects + used p ≡ count p (cells size_of pool.block_size pool.blocks)

  -- What `malloc` may return: memory that no block has.
  unfoldable pub IsFresh : ℕ → ObjectPool → Type 0
  IsFresh fresh pool = (1 ≤ fresh) × IsNew size_of pool.block_size fresh pool.blocks

  grow-IsConserved :
      (fresh : ℕ) (pool : ObjectPool) (used : ℕ → ℕ)
      → IsConserved pool used
      → IsFresh fresh pool
      → IsConserved (grow size_of fresh pool) used
  unfolding grow IsFresh
  grow-IsConserved fresh pool used i (pos, new) = record {
    one_at_least = i.one_at_least;
    blocks_apart = Separate-append size_of pool.block_size fresh pool.blocks i.blocks_apart pos new;
    each = λ p. omega (
      arith,
      i.each p,
      count-append p pool.objects (block_objects size_of pool.block_size fresh),
      count-cells size_of pool.block_size p fresh pool.blocks,
    );
  }

  -- What a creation takes: an object that nobody has.
  unfoldable pub Taken : (ℕ → ℕ) → ℕ → ObjectPool → Type 0
  Taken used p pool' =
      (1 ≤ p) × (used p ≡ 0) × IsConserved pool' (λ q. if q == p then suc (used q) else used q)

  pop_front_lem :
      (p : ℕ) (ps : List ℕ) (pool : ObjectPool) (used : ℕ → ℕ)
      → 1 ≤ size_of
      → IsConserved pool used
      → pool.objects ≡ p ∷ ps
      → Taken used p (record pool { objects = ps })
  unfolding Taken count
  pop_front_lem p ps pool used pos i e =
      let here = λ (q : ℕ). ap (count q) e in
      let once = cells-once size_of pool.block_size pos p pool.blocks i.blocks_apart in
      let first : 1 ≤ count p (p ∷ ps) = ground arith in
      (
        elim (Bool-cases (p == 0)) [
          | inl z ↦ absurd (
              omega (
                arith,
                first,
                i.each p,
                here p,
                cells-null size_of pool.block_size pool.blocks i.blocks_apart,
                ap (λ q. count q (cells size_of pool.block_size pool.blocks)) ((==_iff p 0).0 z),
              ))
          | inr z ↦ ground (arith, z)
        ],
        omega (arith, first, i.each p, here p, once),
        record {
          one_at_least = i.one_at_least;
          blocks_apart = i.blocks_apart;
          each = λ q. ground (arith, i.each q, here q);
        },
      )

  -- A creation succeeds.
  abbrev pub Creates : (ℕ → ℕ) → Option (ℕ × ObjectPool) → Type 0
  Creates used r = (p : ℕ) × (pool : ObjectPool) × (r ≡ some (p, pool)) × Taken used p pool

  pop_front-Creates :
      (ps : List ℕ) (pool : ObjectPool) (used : ℕ → ℕ)
      → 1 ≤ size_of
      → IsConserved pool used
      → pool.objects ≡ ps
      → exhausted ps ≡ false
      → Creates used (pop_front ps pool)
  unfolding pop_front exhausted
  pop_front-Creates [] pool used pos i e h = cc
  pop_front-Creates (p ∷ ps) pool used pos i e h =
      (p, record pool { objects = ps }, refl, pop_front_lem p ps pool used pos i e)

  grow-full :
      (fresh : ℕ) (pool : ObjectPool) (n : ℕ) (ps : List ℕ)
      → 1 ≤ n
      → exhausted (ps ++ block_objects size_of n fresh) ≡ false
  unfolding exhausted block_objects
  grow-full fresh pool zero [] h = absurd (omega (arith, h))
  grow-full fresh pool (suc n) [] h = refl
  grow-full fresh pool n (p ∷ ps) h = refl

  -- `malloc` is called only where no object is free.
  pub create_locked-Creates :
      (fresh : ℕ) (pool : ObjectPool) (used : ℕ → ℕ)
      → 1 ≤ size_of
      → IsConserved pool used
      → (exhausted pool.objects ≡ true → IsFresh fresh pool)
      → Creates used (create_locked size_of fresh pool)
  unfolding create_locked get_free_object_mem enable_enough_objects grow
  create_locked-Creates fresh pool used pos i h =
      if-cases (λ n. Creates used (pop_front n.objects n)) (exhausted pool.objects)
        (λ e.
          pop_front-Creates _ (grow size_of fresh pool) used pos
            (grow-IsConserved fresh pool used i (h e)) refl
            (grow-full fresh pool pool.block_size pool.objects i.one_at_least))
        (λ e. pop_front-Creates pool.objects pool used pos i refl e)

  pub release_object-IsConserved :
      (p : ℕ) (pool : ObjectPool) (used : ℕ → ℕ)
      → IsConserved pool used
      → 1 ≤ used p
      → IsConserved (release_object p pool) (λ q. if q == p then used q - 1 else used q)
  unfolding release_object count
  release_object-IsConserved p pool used i h =
      if-cases (λ n. IsConserved n (λ q. if q == p then used q - 1 else used q)) (p == 0)
        (λ e. absurd (
          omega (
            arith,
            h,
            i.each 0,
            ap used ((==_iff p 0).0 e),
            cells-null size_of pool.block_size pool.blocks i.blocks_apart,
          )))
        (λ e. record {
          one_at_least = i.one_at_least;
          blocks_apart = i.blocks_apart;
          each = λ q.
              let both = count-append q pool.objects (p ∷ []) in
              elim (Bool-cases (q == p)) [
                | inl f ↦ ground (arith, h, i.each q, both, f, ap used ((==_iff q p).0 f))
                | inr f ↦ ground (arith, i.each q, both, f)
              ];
        })

  pub IsConserved-ext :
      (pool : ObjectPool) (f g : ℕ → ℕ)
      → ((q : ℕ) → f q ≡ g q)
      → IsConserved pool f
      → IsConserved pool g
  IsConserved-ext pool f g e i = record {
    one_at_least = i.one_at_least;
    blocks_apart = i.blocks_apart;
    each = λ p. omega (arith, i.each p, e p);
  }

  -- Objects in use do not overlap.
  pub used-Apart :
      (pool : ObjectPool) (used : ℕ → ℕ) (p q : ℕ)
      → IsConserved pool used
      → p ≢ q
      → 1 ≤ used p
      → 1 ≤ used q
      → Apart size_of p size_of q size_of
  used-Apart pool used p q i ne h k =
      cells-Apart size_of pool.block_size p q pool.blocks i.blocks_apart ne
        (omega (arith, i.each p, h)) (omega (arith, i.each q, k))

  pub used-once :
      (pool : ObjectPool) (used : ℕ → ℕ) (p : ℕ)
      → 1 ≤ size_of
      → IsConserved pool used
      → count p pool.objects + used p ≤ 1
  used-once pool used p pos i =
      omega (arith, i.each p, cells-once size_of pool.block_size pos p pool.blocks i.blocks_apart)
