-- ===== src/Cpg/BetAlgorithm.antt =====
-- ASIO_ALONE_STUDY/CPG/BetAlgorithm.cc: the two searches for the place of a number in a sorted table,
-- and the variable-length header of a packet. The searches only compare: a number of the table is a
-- natural number, in the order of the source's.
pub mod Search
mod Tests
use asio_utils.Base.{
  ℕ, zero, suc, ◌+◌, ◌-◌, ◌*◌, ◌/◌, ◌%◌, Bool, true, false, ◌&&◌, List, [], ◌∷◌, Option, none, some,
  ltb, leb, ◌==◌, if◌then◌else◌, length, drop,
}

-- `arr[i]`, in range.
unfoldable pub at : List ℕ → ℕ → ℕ
at [] i = 0
at (x ∷ xs) zero = x
at (x ∷ xs) (suc i) = at xs i

unfoldable pub middle : ℕ → ℕ → ℕ
middle left above = (left + above - 1) / 2

-- The loop of `bsearch_similar_number`. `above` is `right + 1`, so that `right` can be -1.
unfoldable pub search : ℕ → List ℕ → ℕ → ℕ → ℕ → ℕ → ℕ
unfolding at middle
search zero arr val left above mid = mid
search (suc fuel) arr val left above mid =
    let m = middle left above in
    let upper = search fuel arr val (suc m) above m in
    let lower = search fuel arr val left m m in
    if ltb left above
    then (if m == length arr - 1
        then m
        else if leb (at arr m) val && ltb val (at arr (suc m))
        then m
        else if ltb (at arr m) val
        then upper
        else lower)
    else mid

unfoldable pub bsearch_similar_number : List ℕ → ℕ → ℕ
unfolding search
bsearch_similar_number arr val = search (suc (length arr)) arr val 0 (length arr) 0

-- The loop of `get_similar_number`, at an index, with the table from there on.
unfoldable pub scan : ℕ → List ℕ → ℕ → ℕ
scan index [] val = index
scan index (x ∷ []) val = index
scan index (x ∷ y ∷ arr) val =
    let later = scan (suc index) (y ∷ arr) val in if leb x val && ltb val y then index else later

-- Reading the first number of an empty table is `none`.
unfoldable pub get_similar_number : List ℕ → ℕ → Option ℕ
unfolding scan
get_similar_number [] val = none
get_similar_number (x ∷ arr) val = if leb val x then some 0 else some (scan 0 (x ∷ arr) val)
