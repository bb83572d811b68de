-- ===== src/Net/ObjectPool/Shared.antt =====
-- A thread-safe pool of shared pointers, over any sequence of creations, copies and destructions.
use asio_utils.Base.{
  ℕ, zero, suc, ◌+◌, ◌-◌, ◌≤◌, ◌≡◌, ◌≢◌, refl, ◌∙◌, ap, inl, inr, true, false, List, [], Option,
  none, some, ◌==◌, ==_iff, if◌then◌else◌, ◌>>=◌, Bool-cases, lookup, assign, discard,
  lookup-assign, lookup-discard, count, run_all, AllAllowed, run_all_lem, arith,
}
use asio_utils.Net.ObjectPool.{
  ObjectPool, init, exhausted, release_object, get_free_object_mem, create_locked, SharedPool,
  create_shared, copied, copy, dropped, drop_pointer,
}
use asio_utils.Net.ObjectPool.Cells.{Apart, Separate, cells}
use asio_utils.Net.ObjectPool.Conserve.{
  IsConserved, IsFresh, Taken, Creates, create_locked-Creates, release_object-IsConserved,
  IsConserved-ext, used-Apart, used-once,
}

-- `create` with what `malloc` would return, a copy of a pointer to an object, and the end of one.
pub data Operation : Type 0 where
  create copied_to destroyed : ℕ → Operation

-- Whether an object has pointers.
unfoldable pub in_use : Option ℕ → ℕ
in_use none = 0
in_use (some n) = 1

in_use-assign :
    (p v q : ℕ) (m : List (ℕ × ℕ))
    → in_use (lookup q (assign p v m)) ≡ (if q == p then 1 else in_use (lookup q m))
unfolding in_use
in_use-assign p v q m = ground (arith, lookup-assign p q v m)

in_use-discard :
    (p q : ℕ) (m : List (ℕ × ℕ))
    → in_use (lookup q (discard p m)) ≡ (if q == p then 0 else in_use (lookup q m))
unfolding in_use
in_use-discard p q m = ground (arith, lookup-discard p q m)

-- The value at one place.
at_place :
    (f : ℕ → ℕ) (p q n x y : ℕ)
    → f p ≡ n
    → ((q == p) ≡ true → f q ≡ n → x ≡ y)
    → ((q == p) ≡ false → x ≡ y)
    → x ≡ y
at_place f p q n x y e here there = elim (Bool-cases (q == p)) [
  | inl b ↦ here b (ap f ((==_iff q p).0 b) ∙ e)
  | inr b ↦ there b
]

module _ (size_of : ℕ) where
  unfoldable pub step : Operation → SharedPool → Option (SharedPool)
  unfolding create_shared copy drop_pointer
  step (create fresh) s = create_shared size_of fresh s >>= (λ (p, s'). some s')
  step (copied_to p) s = some (copy p s)
  step (destroyed p) s = some (drop_pointer p s)

  -- `malloc` returns memory that is not in use; the pointers need no condition.
  unfoldable pub Allowed : Operation → SharedPool → Type 0
  unfolding exhausted
  Allowed (create fresh) s = exhausted s.pool.objects ≡ true → IsFresh size_of fresh s.pool
  Allowed (copied_to p) s = Unit
  Allowed (destroyed p) s = Unit

  -- Every object of the blocks is free or has pointers, and those that have do not overlap.
  pub record IsShared (s : SharedPool) : Type 0 where
    pub conserved :
        (p : ℕ)
        → count p s.pool.objects + in_use (lookup p s.references)
          ≡ count p (cells size_of s.pool.block_size s.pool.blocks)
    pub once : (p : ℕ) → count p s.pool.objects + in_use (lookup p s.references) ≤ 1
    pub apart :
        (p q : ℕ)
        → p ≢ q
        → 1 ≤ in_use (lookup p s.references)
        → 1 ≤ in_use (lookup q s.references)
        → Apart size_of p size_of q size_of

  Kept : SharedPool → Type 0
  Kept s = IsConserved size_of s.pool (λ q. in_use (lookup q s.references))

  create-Kept :
      (fresh : ℕ) (s : SharedPool)
      → Creates size_of
          (λ q. in_use (lookup q s.references))
          (get_free_object_mem size_of fresh s.pool)
      → (s' : SharedPool) × (step (create fresh) s ≡ some s') × Kept s'
  unfolding step create_shared Kept Taken
  create-Kept fresh s (p, pool, e, (positive, unused, i)) =
      let used = λ (q : ℕ). in_use (lookup q s.references) in
      let made : SharedPool = record { pool = pool; references = assign p 1 s.references } in
      (
        made,
        ap
              (λ (o : Option (ℕ × ObjectPool)).
                (o >>= (λ (p, pool'). some (
                  p,
                  if p == 0
                      then record s { pool = pool' }
                      else record { pool = pool'; references = assign p 1 s.references },
                )))
                >>= (λ (p, s'). some s'))
              e
            ∙ ground (arith, positive),
        IsConserved-ext size_of pool (λ q. if q == p then suc (used q) else used q)
            (λ q. in_use (lookup q (assign p 1 s.references)))
            (λ q.
              at_place used p q 0 (if q == p then suc (used q) else used q)
                (in_use (lookup q (assign p 1 s.references))) unused
                (λ b u. ground (arith, b, u, in_use-assign p 1 q s.references))
                (λ b. ground (arith, b, in_use-assign p 1 q s.references)))
            i,
      )

  -- A pointer more to an object that has some.
  reassign-Kept :
      (p n v : ℕ) (s : SharedPool)
      → lookup p s.references ≡ some n
      → Kept s
      → Kept (record s { references = assign p v s.references })
  unfolding Kept in_use
  reassign-Kept p n v s e i =
      let used = λ (q : ℕ). in_use (lookup q s.references) in
      IsConserved-ext size_of s.pool used (λ q. in_use (lookup q (assign p v s.references)))
        (λ q.
          at_place used p q 1 (used q) (in_use (lookup q (assign p v s.references))) (ap in_use e)
            (λ b u. ground (arith, b, u, in_use-assign p v q s.references))
            (λ b. ground (arith, b, in_use-assign p v q s.references)))
        i

  copied-Kept :
      (p : ℕ) (s : SharedPool) (o : Option ℕ)
      → lookup p s.references ≡ o
      → Kept s
      → Kept (copied p s o)
  unfolding copied
  copied-Kept p s none e i = i
  copied-Kept p s (some n) e i = reassign-Kept p n (suc n) s e i

  dropped-Kept :
      (p : ℕ) (s : SharedPool) (o : Option ℕ)
      → lookup p s.references ≡ o
      → Kept s
      → Kept (dropped p s o)
  unfolding dropped Kept in_use
  dropped-Kept p s none e i = i
  dropped-Kept p s (some zero) e i = i
  dropped-Kept p s (some (suc zero)) e i =
      let used = λ (q : ℕ). in_use (lookup q s.references) in
      IsConserved-ext size_of (release_object p s.pool) (λ q. if q == p then used q - 1 else used q)
        (λ q. in_use (lookup q (discard p s.references)))
        (λ q.
          at_place used p q 1 (if q == p then used q - 1 else used q)
            (in_use (lookup q (discard p s.references))) (ap in_use e)
            (λ b u. ground (arith, b, u, in_use-discard p q s.references))
            (λ b. ground (arith, b, in_use-discard p q s.references)))
        (release_object-IsConserved size_of p s.pool used i (omega (arith, ap in_use e)))
  dropped-Kept p s (some (suc (suc n))) e i = reassign-Kept p (suc (suc n)) (suc n) s e i

  step-Kept :
      1 ≤ size_of
      → (op : Operation) (s : SharedPool) → Kept s
      → Allowed op s
      → (s' : SharedPool) × (step op s ≡ some s') × Kept s'
  unfolding step Allowed copy drop_pointer create_locked Kept
  step-Kept pos (create fresh) s i a =
      create-Kept fresh s
        (create_locked-Creates size_of fresh s.pool (λ q. in_use (lookup q s.references)) pos i a)
  step-Kept pos (copied_to p) s i a =
      (copy p s, refl, copied-Kept p s (lookup p s.references) refl i)
  step-Kept pos (destroyed p) s i a =
      (drop_pointer p s, refl, dropped-Kept p s (lookup p s.references) refl i)

  -- As long as `malloc` returns memory that is not in use, every call on a new pool succeeds, whatever
  -- is done with the pointers; then every object of the pool's blocks is free or has pointers to it,
  -- never both, and no two objects that have pointers overlap.
  pub run_all-IsShared :
      (block_size : ℕ) (ops : List Operation)
      → 1 ≤ size_of
      → 1 ≤ block_size
      → AllAllowed step Allowed ops (record { pool = init block_size; references = [] })
      → (s : SharedPool) × (run_all step ops (record { pool = init block_size; references = [] })
          ≡ some s)
        × IsShared s
  unfolding Kept init cells count Separate in_use lookup
  run_all-IsShared block_size ops pos one allowed =
      let start : SharedPool = record { pool = init block_size; references = [] } in
      let (s, e, i) =
        run_all_lem step Allowed Kept (step-Kept pos) ops start
          (record { one_at_least = one; blocks_apart = tt; each = λ p. refl }) allowed in
      let used = λ (q : ℕ). in_use (lookup q s.references) in
      (
        s,
        e,
        record {
          conserved = i.each;
          once = λ p. used-once size_of s.pool used p pos i;
          apart = λ p q ne h k. used-Apart size_of s.pool used p q i ne h k;
        },
      )
