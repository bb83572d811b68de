-- ===== src/Central/Matches/Create.antt =====
-- `createMatch` and `createdMatches` of CSMatchManager.cpp.
use asio_utils.Base.{
  ℕ, ◌+◌, ◌≤◌, ◌<◌, ◌≡◌, refl, ap, ◌∙◌, ◌⊎◌, inl, inr, Bool, true, false, List, [], ◌∷◌, some, ◌==◌,
  ◌||◌, if◌then◌else◌, arith, ltb, Bool-cases,
}
use asio_utils.Central.Manager.{
  Match, Manager, log, create_to_db, contains, weave, merge, place, sort, unique_after, unique,
  add_undistributed, update_matches_or_service, start_timer,
}
use asio_utils.Central.Matches.{
  same_properties, exists_same, create_match_valid, create_match, k_none_error, k_create_time_out,
  k_create_has_exist, put_match, put_all, mids_of, created_matches, get_match,
}

-- A match that is stored, under its key.
pub data Stored : ℕ → Match → List (ℕ × Match) → Type 0 where
  here : {k : ℕ} {x : Match} {ms : List (ℕ × Match)} → Stored k x ((k, x) ∷ ms)
  there : {k j : ℕ} {x y : Match} {ms : List (ℕ × Match)} → Stored k x ms → Stored k x ((j, y) ∷ ms)

pub Same : Match → Match → Type 0
Same x y = (x.start_time ≡ y.start_time) × (x.match_type ≡ y.match_type) × (x.entryfee ≡ y.entryfee)

same→Same : (x y : Match) → same_properties x y ≡ true → Same x y
unfolding same_properties Same
same→Same x y e = ground arith

Same→same : (x y : Match) → Same x y → same_properties x y ≡ true
unfolding same_properties Same
Same→same x y (a, b, c) = ground (arith, a, b, c)

exists_Stored :
    (x : Match) (ms : List (ℕ × Match))
    → exists_same x ms ≡ true
    → (k : ℕ) × (y : Match) × Stored k y ms × Same y x
unfolding exists_same
exists_Stored x [] e = cc
exists_Stored x ((k, y) ∷ ms) e = elim (Bool-cases (same_properties y x)) [
  | inl t ↦ (k, y, here, same→Same y x t)
  | inr f ↦ let (j, z, s, g) = exists_Stored x ms (ground (arith, f)) in (j, z, there s, g)
]

none_Stored :
    (x : Match) (ms : List (ℕ × Match))
    → exists_same x ms ≡ false
    → (k : ℕ) (y : Match) → Stored k y ms
    → ¬ Same y x
unfolding exists_same
none_Stored x [] e k y h s = elim h [ ]
none_Stored x ((k, y) ∷ ms) e _ _ here s = ground (arith, e, Same→same y x s)
none_Stored x ((j, z) ∷ ms) e k y (there h) s = none_Stored x ms (ground (arith, e)) k y h s

contains-weave :
    (a x : ℕ) (b : Bool) (rest : List ℕ → List ℕ) (ys : List ℕ)
    → ((zs : List ℕ) → contains a (rest zs) ≡ (b || contains a zs))
    → contains a (weave x rest ys) ≡ ((if a == x then true else b) || contains a ys)
unfolding contains weave
contains-weave a x b rest [] h = ground (arith, h [])
contains-weave a x b rest (y ∷ ys) h = ground (arith, h (y ∷ ys), contains-weave a x b rest ys h)

contains-merge :
    (a : ℕ) (xs ys : List ℕ) → contains a (merge xs ys) ≡ (contains a xs || contains a ys)
unfolding contains merge
contains-merge a [] ys = ground arith
contains-merge a (x ∷ xs) ys =
    contains-weave a x (contains a xs) (merge xs) ys (contains-merge a xs)

contains-place : (a x : ℕ) (ys : List ℕ) → contains a (place x ys) ≡ contains a (x ∷ ys)
unfolding contains place
contains-place a x [] = refl
contains-place a x (y ∷ ys) = ground (arith, contains-place a x ys)

contains-sort : (a : ℕ) (xs : List ℕ) → contains a (sort xs) ≡ contains a xs
unfolding contains sort
contains-sort a [] = refl
contains-sort a (x ∷ xs) = ground (arith, contains-place a x (sort xs), contains-sort a xs)

contains-unique_after :
    (a x : ℕ) (ys : List ℕ) → contains a (x ∷ unique_after x ys) ≡ contains a (x ∷ ys)
unfolding contains unique_after
contains-unique_after a x [] = refl
contains-unique_after a x (y ∷ ys) =
    ground (arith, contains-unique_after a x ys, contains-unique_after a y ys)

contains-unique : (a : ℕ) (xs : List ℕ) → contains a (unique xs) ≡ contains a xs
unfolding unique
contains-unique a [] = refl
contains-unique a (x ∷ xs) = contains-unique_after a x xs

get_match-put_match :
    (x : Match) (ms : List (ℕ × Match)) (k : ℕ)
    → get_match (put_match x ms) k ≡ (if k == x.mid then some x else get_match ms k)
unfolding get_match put_match
get_match-put_match x [] k = ground arith
get_match-put_match x ((j, y) ∷ ms) k = ground (arith, get_match-put_match x ms k)

answer : ℕ → ℕ → Match → Manager → ℕ → ℕ × Manager
answer now promise x m code =
    (code, if code == k_none_error then log m (create_to_db x promise) else m)

code_early :
    (now : ℕ) (x : Match) (m : Manager)
    → ltb x.start_time (now + 60) ≡ true
    → create_match_valid now x m.matches ≡ k_create_time_out
unfolding create_match_valid
code_early now x m e = ground (arith, e)

code_old :
    (now : ℕ) (x : Match) (m : Manager)
    → ltb x.start_time (now + 60) ≡ false
    → exists_same x m.matches ≡ true
    → create_match_valid now x m.matches ≡ k_create_has_exist
unfolding create_match_valid
code_old now x m e f = ground (arith, e, f)

code_new :
    (now : ℕ) (x : Match) (m : Manager)
    → ltb x.start_time (now + 60) ≡ false
    → exists_same x m.matches ≡ false
    → create_match_valid now x m.matches ≡ k_none_error
unfolding create_match_valid
code_new now x m e f = ground (arith, e, f)

-- Creating a match at a time `now` ends in one of three ways. It starts in less than a minute, and is
-- refused; or a match with the same start, type and fee is stored, and it is refused; or it starts in
-- a minute or later, no stored match is the same, and it goes to the database. Nothing else changes.
pub create_match_lem :
    (now promise : ℕ) (x : Match) (m : Manager)
    → ((create_match now x promise m ≡ (k_create_time_out, m)) × (x.start_time < now + 60))
      ⊎ ((create_match now x promise m ≡ (k_create_has_exist, m))
          × ((k : ℕ) × (y : Match) × Stored k y m.matches × Same y x))
      ⊎ ((create_match now x promise m ≡ (k_none_error, log m (create_to_db x promise)))
          × (now + 60 ≤ x.start_time)
          × ((k : ℕ) (y : Match) → Stored k y m.matches → ¬ Same y x))
unfolding create_match answer
create_match_lem now promise x m = elim (Bool-cases (ltb x.start_time (now + 60))) [
  | inl early ↦ inl (ap (answer now promise x m) (code_early now x m early), ground (arith, early))
  | inr late ↦ elim (Bool-cases (exists_same x m.matches)) [
    | inl old ↦ inr (
        inl
          (ap (answer now promise x m) (code_old now x m late old), exists_Stored x m.matches old))
    | inr new ↦ inr (
        inr (
          ap (answer now promise x m) (code_new now x m late new),
          ground (arith, late),
          none_Stored x m.matches new,
        ))
  ]
]

get_match-put_all :
    (xs : List Match) (ms : List (ℕ × Match)) (k : ℕ)
    → (contains k (mids_of xs) ≡ false → get_match (put_all xs ms) k ≡ get_match ms k)
      × (contains k (mids_of xs) ≡ true
          → (y : Match) × (get_match (put_all xs ms) k ≡ some y) × (y.mid ≡ k))
unfolding put_all mids_of contains
get_match-put_all [] ms k = ((λ h. refl), λ h. cc)
get_match-put_all (x ∷ xs) ms k =
    let (a, b) = get_match-put_all xs (put_match x ms) k in
    let g = get_match-put_match x ms k in
    (
      (λ h. ground (arith, h, a, g)),
      λ h. elim (Bool-cases (contains k (mids_of xs))) [
        | inl t ↦ b t
        | inr f ↦
            let here : (k == x.mid) ≡ true = ground (arith, h, f) in
            (x, a f ∙ g ∙ ap (λ c. if c then some x else get_match ms k) here, ground (arith, here))
      ],
    )

waiting :
    (now : ℕ) (mids : List ℕ) (m : Manager)
    → (add_undistributed now mids m).undist ≡ unique (sort (merge m.undist mids))
unfolding add_undistributed update_matches_or_service start_timer log
waiting now mids m = ground arith

stored :
    (now : ℕ) (mids : List ℕ) (m : Manager) → (add_undistributed now mids m).matches ≡ m.matches
unfolding add_undistributed update_matches_or_service start_timer log
stored now mids m = ground arith

-- After matches are created, the undistributed matches are those there were and the new ones; a new id
-- finds a match with that id, and every other id what it found before.
pub created_matches_lem :
    (now : ℕ) (xs : List Match) (m : Manager) (k : ℕ)
    → (contains k (created_matches now xs m).undist
        ≡ (contains k m.undist || contains k (mids_of xs)))
      × (contains k (mids_of xs) ≡ false
          → get_match (created_matches now xs m).matches k ≡ get_match m.matches k)
      × (contains k (mids_of xs) ≡ true
          → (y : Match) × (get_match (created_matches now xs m).matches k ≡ some y) × (y.mid ≡ k))
unfolding created_matches
created_matches_lem now xs m k =
    let n : Manager = record m { matches = put_all xs m.matches } in
    let mids = mids_of xs in
    let u = ap (contains k) (waiting now mids n) in
    let s = ap (λ ms. get_match ms k) (stored now mids n) in
    let (a, b) = get_match-put_all xs m.matches k in
    (
      u
          ∙ contains-unique k (sort (merge m.undist mids))
          ∙ contains-sort k (merge m.undist mids)
          ∙ contains-merge k m.undist mids,
      (λ h. s ∙ a h),
      λ h. let (y, e, g) = b h in (y, s ∙ e, g),
    )
