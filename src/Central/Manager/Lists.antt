-- ===== src/Central/Manager/Lists.antt =====
-- `std::list::merge`, `sort`, `unique` and `remove` on lists of match ids.
use asio_utils.Base.{ℕ, Bool, true, false, List, [], ◌∷◌, ltb, ◌==◌, if◌then◌else◌}

-- The next element `x` of the first list and what merging the rest of it gives, with the second list.
unfoldable pub weave : ℕ → (List ℕ → List ℕ) → List ℕ → List ℕ
weave x rest [] = x ∷ rest []
weave x rest (y ∷ ys) =
    let more = weave x rest ys in if ltb y x then y ∷ more else x ∷ rest (y ∷ ys)

unfoldable pub merge : List ℕ → List ℕ → List ℕ
unfolding weave
merge [] ys = ys
merge (x ∷ xs) ys = weave x (merge xs) ys

unfoldable pub place : ℕ → List ℕ → List ℕ
place x [] = x ∷ []
place x (y ∷ ys) = let rest = place x ys in if ltb y x then y ∷ rest else x ∷ y ∷ ys

unfoldable pub sort : List ℕ → List ℕ
unfolding place
sort [] = []
sort (x ∷ xs) = place x (sort xs)

-- The first of each run of equal elements; `unique_after x` where `x` stands before.
unfoldable pub unique_after : ℕ → List ℕ → List ℕ
unique_after x [] = []
unique_after x (y ∷ ys) =
    let same = unique_after x ys in
    let other = unique_after y ys in if x == y then same else y ∷ other

unfoldable pub unique : List ℕ → List ℕ
unfolding unique_after
unique [] = []
unique (x ∷ xs) = x ∷ unique_after x xs

unfoldable pub remove : ℕ → List ℕ → List ℕ
remove a [] = []
remove a (x ∷ xs) = let rest = remove a xs in if x == a then rest else x ∷ rest

unfoldable pub contains : ℕ → List ℕ → Bool
contains a [] = false
contains a (x ∷ xs) = let rest = contains a xs in if a == x then true else rest
