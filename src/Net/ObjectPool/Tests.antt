-- ===== src/Net/ObjectPool/Tests.antt =====
-- Pools of objects of eight bytes, two to a block.
use asio_utils.Base.{
  ℕ, ◌≡◌, refl, List, [], ◌∷◌, Option, none, some, ◌>>=◌, lookup, assign, discard, run_all,
  AllAllowed, false, true, arith,
}
use asio_utils.Net.ObjectPool.{
  ObjectPool, init, exhausted, SharedPool, create_locked, create_shared, get_free_object_mem, copy,
  drop_pointer, release_object,
}
use asio_utils.Net.ObjectPool.Cells.{Apart, IsNew, block_bytes}
use asio_utils.Net.ObjectPool.Conserve.{IsFresh}
use asio_utils.Net.ObjectPool.Shared.{run_all-IsShared}
use asio_utils.Net.ObjectPool.Shared

false-ne-true : false ≡ true → ⊥
false-ne-true e = cc

-- The object 1000 has two pointers; it goes back to the pool with the second, and then it is used again.
abbrev some_pointers : List Shared.Operation
some_pointers =
    Shared.create 1000
    ∷ Shared.copied_to 1000
    ∷ Shared.create 0
    ∷ Shared.destroyed 1000
    ∷ Shared.destroyed 1000
    ∷ Shared.create 0
    ∷ []

run_all-IsShared_example :
    (s : SharedPool) × (run_all
        (Shared.step 8)
        some_pointers
        (record { pool = init 2; references = [] })
      ≡ some s)
    × Shared.IsShared 8 s
unfolding run_all AllAllowed Shared.step Shared.Allowed init exhausted create_shared
    get_free_object_mem copy drop_pointer release_object IsFresh IsNew Apart block_bytes lookup
    assign discard
run_all-IsShared_example = run_all-IsShared 8 2 some_pointers (omega arith) (omega arith) (
  λ e. (omega arith, tt),
  (tt, (λ e. absurd (false-ne-true e), (tt, (tt, (λ e. absurd (false-ne-true e), tt))))),
)

-- The objects of two creations.
two_created : ObjectPool → Option (ℕ × ℕ)
two_created pool =
    create_locked 8 0 pool
    >>= (λ (p, pool'). create_locked 8 0 pool' >>= (λ (q, pool2). some (p, q)))

-- An object that is released twice gets two owners.
two_owners : two_created (release_object 1000 (release_object 1000 (init 2))) ≡ some (1000, 1000)
unfolding two_created create_locked release_object init
two_owners = refl

-- When `malloc` has failed, the pool first returns `NULL`, and then the address 8.
after_failure : two_created (init 2) ≡ some (0, 8)
unfolding two_created create_locked init
after_failure = refl

-- With blocks of no objects nothing can be made.
no_objects : create_locked 8 1000 (init 0) ≡ none
unfolding create_locked init
no_objects = refl
