-- ===== src/Net/IndexPool/Tests.antt =====
-- The theorems on ObjectIndexPool.hpp at concrete pools.
use asio_utils.Base.{ℕ, ◌≡◌, ◌≢◌, ◌+◌, [], ◌∷◌, ◌++◌, some, arith}
use asio_utils.Net.IndexPool.{init, add_object, remove_object, get_object, get_size, each}
use asio_utils.Net.IndexPool.Slots.{IsValid, init-IsValid, add_object-IsValid}
use asio_utils.Net.IndexPool.Removal.{remove_object-IsValid}

add_object-IsValid_example :
    let (i, q) = add_object 2 (init 2) 77 in
    IsValid 2 q
    × (get_object 2 q i ≡ some 77)
    × ((j : ℕ) → j ≢ i → get_object 2 q j ≡ get_object 2 (init 2) j)
    × (each q ≡ each (init 2) ++ 77 ∷ [])
unfolding init
add_object-IsValid_example =
    add_object-IsValid 2 (init 2) 77 (init-IsValid 2) (omega arith) (omega arith) (omega arith)
      (λ h. h)

one-IsValid : IsValid 2 (add_object 2 (init 2) 77).1
unfolding init
one-IsValid =
    (add_object-IsValid 2 (init 2) 77 (init-IsValid 2) (omega arith) (omega arith) (omega arith)
      (λ h. h)).0

remove_object-IsValid_example :
    let p = (add_object 2 (init 2) 77).1 in
    let q = remove_object 2 p 0 in
    IsValid 2 q
    × (get_object 2 q 0 ≡ some 0)
    × ((j : ℕ) → j ≢ 0 → get_object 2 q j ≡ get_object 2 p j)
    × (get_size q + 1 ≡ get_size p)
    × (q.invalid_indexs ≡ p.invalid_indexs ++ 0 ∷ [])
unfolding add_object init
remove_object-IsValid_example =
    remove_object-IsValid 2 (add_object 2 (init 2) 77).1 0 one-IsValid (omega arith) (omega arith)
      (λ e. omega (arith, e))
