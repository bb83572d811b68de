-- ===== src/Net/ObjectPool.antt =====
-- ASIO_ALONE_STUDY/Net/Util/ObjectPool.hpp: objects in blocks of memory that are given back to the pool
-- and not to the system. `size_of` is `sizeof(T)`, a pointer is its address, 0 is `NULL`; `fresh` is what
-- `malloc` returns if it is called. `none` is undefined behaviour: the first of an empty list, or an
-- object that is constructed at `NULL`. A thread-safe pool does all of it but the construction under its
-- lock, so its calls follow one another.
pub mod Cells
pub mod Conserve
pub mod Runs
pub mod Shared
mod Tests
use asio_utils.Base.{
  ℕ, zero, suc, ◌+◌, Bool, true, false, List, [], ◌∷◌, ◌++◌, Option, none, some, ◌==◌,
  if◌then◌else◌, ◌>>=◌, lookup, assign, discard,
}

pub record ObjectPool : Type 0 where
  pub blocks : List ℕ
  pub objects : List ℕ
  pub block_size : ℕ

unfoldable pub init : ℕ → ObjectPool
init block_size = record { blocks = []; objects = []; block_size = block_size }

unfoldable pub exhausted : List ℕ → Bool
exhausted [] = true
exhausted (p ∷ ps) = false

unfoldable pub release_object : ℕ → ObjectPool → ObjectPool
release_object p pool = if p == 0 then pool else record pool { objects = pool.objects ++ p ∷ [] }

unfoldable pub pop_front : List ℕ → ObjectPool → Option (ℕ × ObjectPool)
pop_front [] pool = none
pop_front (p ∷ ps) pool = some (p, record pool { objects = ps })

-- A pool of `std::shared_ptr`s, with the number of the pointers to each object.
pub record SharedPool : Type 0 where
  pub pool : ObjectPool
  pub references : List (ℕ × ℕ)

copied : ℕ → SharedPool → Option ℕ → SharedPool
unfolding assign
copied p s none = s
copied p s (some n) = record s { references = assign p (suc n) s.references }

-- A copy of a pointer to `p`.
unfoldable pub copy : ℕ → SharedPool → SharedPool
unfolding copied lookup
copy p s = copied p s (lookup p s.references)

-- The deleter, `releaseObj`, gets the object that the last pointer to it leaves.
dropped : ℕ → SharedPool → Option ℕ → SharedPool
unfolding assign discard release_object
dropped p s none = s
dropped p s (some zero) = s
dropped p s (some (suc zero)) = record {
  pool = release_object p s.pool;
  references = discard p s.references;
}
dropped p s (some (suc (suc n))) = record s { references = assign p (suc n) s.references }

-- A pointer to `p` is destroyed.
unfoldable pub drop_pointer : ℕ → SharedPool → SharedPool
unfolding dropped lookup
drop_pointer p s = dropped p s (lookup p s.references)

module _ (size_of : ℕ) where
  -- `newBlock + i` for the `n` objects of a block.
  unfoldable pub block_objects : ℕ → ℕ → List ℕ
  block_objects zero p = []
  block_objects (suc n) p = p ∷ block_objects n (p + size_of)

  unfoldable pub grow : ℕ → ObjectPool → ObjectPool
  unfolding block_objects
  grow fresh pool = record pool {
    blocks = pool.blocks ++ fresh ∷ [];
    objects = pool.objects ++ block_objects pool.block_size fresh;
  }

  -- `malloc` returns `NULL` where it fails and throws nothing, so the handlers are never entered.
  unfoldable pub enable_enough_objects : ℕ → ObjectPool → ObjectPool
  unfolding grow exhausted
  enable_enough_objects fresh pool = if exhausted pool.objects then grow fresh pool else pool

  unfoldable pub get_free_object : ℕ → ObjectPool → Option (ℕ × ObjectPool)
  unfolding enable_enough_objects pop_front
  get_free_object fresh pool =
      let pool' = enable_enough_objects fresh pool in pop_front pool'.objects pool'

  -- `ObjectPool::createObject`.
  unfoldable pub create_object : ℕ → ObjectPool → Option (ℕ × ObjectPool)
  unfolding get_free_object
  create_object fresh pool =
      get_free_object fresh pool >>= (λ (p, pool'). if p == 0 then none else some (p, pool'))

  -- `getFreeObjectMem`, in two steps where `getFreeObject` has one.
  unfoldable pub get_free_object_mem : ℕ → ObjectPool → Option (ℕ × ObjectPool)
  unfolding enable_enough_objects pop_front
  get_free_object_mem fresh pool =
      let pool' = enable_enough_objects fresh pool in pop_front pool'.objects pool'

  -- `ThreadSafeObjectPool::createObject`, which can return `NULL`.
  unfoldable pub create_locked : ℕ → ObjectPool → Option (ℕ × ObjectPool)
  unfolding get_free_object_mem
  create_locked fresh pool = get_free_object_mem fresh pool

  -- `ThreadSafeObjectPool<T, std::shared_ptr<T>>::createObject`, whose result is empty at `NULL`.
  unfoldable pub create_shared : ℕ → SharedPool → Option (ℕ × SharedPool)
  unfolding get_free_object_mem assign
  create_shared fresh s = get_free_object_mem fresh s.pool >>= (λ (p, pool'). some (
    p,
    if p == 0
        then record s { pool = pool' }
        else record { pool = pool'; references = assign p 1 s.references },
  ))
