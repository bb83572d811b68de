-- ===== src/Net/ObjectPool/Runs.antt =====
-- A thread-safe pool of plain pointers, over any sequence of its calls.
use asio_utils.Base.{
  ℕ, ◌+◌, ◌-◌, ◌≤◌, ◌≡◌, ◌≢◌, refl, ap, true, List, [], ◌∷◌, Option, some, ◌==◌, if◌then◌else◌,
  ◌>>=◌, count, run_all, AllAllowed, run_all_lem, arith,
}
use asio_utils.Net.ObjectPool.{ObjectPool, init, exhausted, release_object, create_locked}
use asio_utils.Net.ObjectPool.Cells.{Apart, Separate, cells}
use asio_utils.Net.ObjectPool.Conserve.{
  IsConserved, IsFresh, Taken, create_locked-Creates, release_object-IsConserved, IsConserved-ext,
  used-Apart, used-once,
}

-- `create` with what `malloc` would return, and `release`.
pub data Operation : Type 0 where
  create release : ℕ → Operation

-- The pool, and the objects in use.
pub record System : Type 0 where
  pub pool : ObjectPool
  pub live : List ℕ

-- The first of them is gone.
unfoldable pub remove_first : ℕ → List ℕ → List ℕ
remove_first p [] = []
remove_first p (q ∷ qs) = let rest = remove_first p qs in if p == q then qs else q ∷ rest

count-remove_first :
    (q p : ℕ) (ps : List ℕ)
    → (if q == p then count q ps - 1 else count q ps) ≡ count q (remove_first p ps)
unfolding count remove_first
count-remove_first q p [] = ground arith
count-remove_first q p (x ∷ ps) = ground (arith, count-remove_first q p ps)

module _ (size_of : ℕ) where
  unfoldable pub step : Operation → System → Option System
  unfolding create_locked release_object remove_first
  step (create fresh) s =
      create_locked size_of fresh s.pool
      >>= (λ (p, pool). some (record { pool = pool; live = p ∷ s.live }))
  step (release p) s =
      some (record { pool = release_object p s.pool; live = remove_first p s.live })

  -- `malloc` returns memory that is not in use, and only an object in use is released.
  unfoldable pub Allowed : Operation → System → Type 0
  unfolding exhausted count
  Allowed (create fresh) s = exhausted s.pool.objects ≡ true → IsFresh size_of fresh s.pool
  Allowed (release p) s = 1 ≤ count p s.live

  -- Every object of the blocks is free or in use, once, and those in use do not overlap.
  pub record IsSafe (s : System) : Type 0 where
    pub conserved :
        (p : ℕ)
        → count p s.pool.objects + count p s.live
          ≡ count p (cells size_of s.pool.block_size s.pool.blocks)
    pub once : (p : ℕ) → count p s.pool.objects + count p s.live ≤ 1
    pub apart :
        (p q : ℕ)
        → p ≢ q
        → 1 ≤ count p s.live
        → 1 ≤ count q s.live
        → Apart size_of p size_of q size_of

  Kept : System → Type 0
  Kept s = IsConserved size_of s.pool (λ q. count q s.live)

  step-Kept :
      1 ≤ size_of
      → (op : Operation) (s : System) → Kept s
      → Allowed op s
      → (s' : System) × (step op s ≡ some s') × Kept s'
  unfolding step Allowed Kept count Taken
  step-Kept pos (create fresh) s i a =
      let (p, pool, e, taken) =
        create_locked-Creates size_of fresh s.pool (λ q. count q s.live) pos i a in
      (
        record { pool = pool; live = p ∷ s.live },
        ap (λ o. o >>= (λ (p, pool). some (record { pool = pool; live = p ∷ s.live }))) e,
        taken.2,
      )
  step-Kept pos (release p) s i a = (
    record { pool = release_object p s.pool; live = remove_first p s.live },
    refl,
    IsConserved-ext size_of (release_object p s.pool)
        (λ q. if q == p then count q s.live - 1 else count q s.live)
        (λ q. count q (remove_first p s.live)) (λ q. count-remove_first q p s.live)
        (release_object-IsConserved size_of p s.pool (λ q. count q s.live) i a),
  )

  -- As long as `malloc` returns memory that is not in use and only objects in use are released, every
  -- call on a new pool succeeds; then every object of the pool's blocks is free or in use, once, and no
  -- two objects in use overlap.
  pub run_all-IsSafe :
      (block_size : ℕ) (ops : List Operation)
      → 1 ≤ size_of
      → 1 ≤ block_size
      → AllAllowed step Allowed ops (record { pool = init block_size; live = [] })
      → (s : System) × (run_all step ops (record { pool = init block_size; live = [] }) ≡ some s)
        × IsSafe s
  unfolding Kept init cells count Separate
  run_all-IsSafe block_size ops pos one allowed =
      let start : System = record { pool = init block_size; live = [] } in
      let (s, e, i) =
        run_all_lem step Allowed Kept (step-Kept pos) ops start
          (record { one_at_least = one; blocks_apart = tt; each = λ p. refl }) allowed in
      (
        s,
        e,
        record {
          conserved = i.each;
          once = λ p. used-once size_of s.pool (λ q. count q s.live) p pos i;
          apart = λ p q ne h k. used-Apart size_of s.pool (λ r. count r s.live) p q i ne h k;
        },
      )
