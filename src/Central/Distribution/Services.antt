-- ===== src/Central/Distribution/Services.antt =====
-- The containers of CSMatchDistribution.cpp: the `std::map` from a `MatchDisService`, which is compared
-- by its `sid` alone, to the list of its matches, `std::set<int>`, and the stable `std::list::sort`.
use asio_utils.Base.{ℕ, Bool, List, [], ◌∷◌, ◌++◌, Option, none, some, ltb, ◌==◌, if◌then◌else◌}

pub record MatchDisService : Type 0 where
  pub sid : ℕ
  pub loaded : ℕ

-- An entry of the map.
pub record Service : Type 0 where
  pub key : MatchDisService
  pub mids : List ℕ

unfoldable pub keys : List Service → List MatchDisService
keys [] = []
keys (e ∷ m) = e.key ∷ keys m

unfoldable pub find : ℕ → List Service → Option (List ℕ)
find sid [] = none
find sid (e ∷ m) = let rest = find sid m in if sid == e.key.sid then some e.mids else rest

unfoldable pub erase : ℕ → List Service → List Service
erase sid [] = []
erase sid (e ∷ m) = let rest = erase sid m in if sid == e.key.sid then m else e ∷ rest

-- An entry whose key is there already stays.
unfoldable pub insert : MatchDisService → List ℕ → List Service → List Service
insert key mids [] = (record { key = key; mids = mids }) ∷ []
insert key mids (e ∷ m) =
    let rest = insert key mids m in
    if ltb key.sid e.key.sid
    then (record { key = key; mids = mids }) ∷ e ∷ m
    else if ltb e.key.sid key.sid
    then e ∷ rest
    else e ∷ m

-- The matches of an entry, written through its iterator.
unfoldable pub replace : ℕ → List ℕ → List Service → List Service
replace sid mids [] = []
replace sid mids (e ∷ m) =
    let rest = replace sid mids m in
    if sid == e.key.sid then (record { key = e.key; mids = mids }) ∷ m else e ∷ rest

-- The matches of an entry, extended through its iterator.
unfoldable pub push : ℕ → List ℕ → List Service → List Service
push sid mids [] = []
push sid mids (e ∷ m) =
    let rest = push sid mids m in
    if sid == e.key.sid then (record { key = e.key; mids = e.mids ++ mids }) ∷ m else e ∷ rest

unfoldable pub insert_by :
    (MatchDisService → MatchDisService → Bool)
    → MatchDisService
    → List MatchDisService
    → List MatchDisService
insert_by less x [] = x ∷ []
insert_by less x (y ∷ ys) =
    let rest = insert_by less x ys in if less y x then y ∷ rest else x ∷ y ∷ ys

unfoldable pub sort_by :
    (MatchDisService → MatchDisService → Bool) → List MatchDisService → List MatchDisService
unfolding insert_by
sort_by less [] = []
sort_by less (x ∷ xs) = insert_by less x (sort_by less xs)

unfoldable pub last : MatchDisService → List MatchDisService → MatchDisService
last x [] = x
last x (y ∷ ys) = last y ys

unfoldable pub set_insert : ℕ → List ℕ → List ℕ
set_insert a [] = a ∷ []
set_insert a (x ∷ xs) =
    let rest = set_insert a xs in
    if ltb a x then a ∷ x ∷ xs else if ltb x a then x ∷ rest else x ∷ xs

unfoldable pub set_union : List ℕ → List ℕ → List ℕ
unfolding set_insert
set_union xs [] = xs
set_union xs (y ∷ ys) = set_union (set_insert y xs) ys
