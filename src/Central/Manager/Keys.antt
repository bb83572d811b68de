-- ===== src/Central/Manager/Keys.antt =====
-- Taking entries out of the map of the services, and putting them in.
use asio_utils.Base.{
  if◌then◌else◌, ◌==◌, if-both, ℕ, ◌+◌, ◌≤◌, ◌<◌, ◌≡◌, ◌∙◌, sym, ap, subst, refl, List, [], ◌∷◌,
  Option, none, some, ltb, arith, inl, inr, Option-cases, if-cases, count,
}
use asio_utils.Central.Distribution.{MatchDisService, Service, find, erase, insert, replace}
use asio_utils.Central.Distribution.Keeps.{Ordered, held}
use asio_utils.Central.Manager.{remove, place, sort, weave, merge, get_dist_match}

pub count-weave :
    (a x n : ℕ) (rest : List ℕ → List ℕ) (ys : List ℕ)
    → ((zs : List ℕ) → count a (rest zs) ≡ n + count a zs)
    → count a (weave x rest ys) ≡ count a (x ∷ []) + n + count a ys
unfolding count weave
count-weave a x n rest [] h = ground (arith, h [])
count-weave a x n rest (y ∷ ys) h = ground (arith, h (y ∷ ys), count-weave a x n rest ys h)

pub count-merge : (a : ℕ) (xs ys : List ℕ) → count a (merge xs ys) ≡ count a xs + count a ys
unfolding count merge
count-merge a [] ys = omega arith
count-merge a (x ∷ xs) ys =
    ground (arith, count-weave a x (count a xs) (merge xs) ys (count-merge a xs))

pub Ordered-below : {low low' : ℕ} (m : List Service) → low' ≤ low → Ordered low m → Ordered low' m
Ordered-below [] h o = Ordered.nil
Ordered-below (e ∷ m) h (Ordered.cons a o) = Ordered.cons (omega (arith, h, a)) o

pub erase-Ordered :
    {low : ℕ} (sid : ℕ) (m : List Service) → Ordered low m → Ordered low (erase sid m)
unfolding erase
erase-Ordered sid [] o = o
erase-Ordered {low} sid (e ∷ m) (Ordered.cons a o) =
    if-both (Ordered low) (sid == e.key.sid) (Ordered-below m (omega (arith, a)) o)
      (Ordered.cons a (erase-Ordered sid m o))

pub insert-Ordered :
    {low : ℕ} (key : MatchDisService) (mids : List ℕ) (m : List Service)
    → low ≤ key.sid
    → Ordered low m
    → Ordered low (insert key mids m)
unfolding insert
insert-Ordered key mids [] h o = Ordered.cons h Ordered.nil
insert-Ordered {low} key mids (e ∷ m) h (Ordered.cons a o) =
    if-cases (Ordered low) (ltb key.sid e.key.sid)
      (λ g. Ordered.cons h (Ordered.cons (ground (arith, g)) o))
      (λ g.
        if-cases (Ordered low) (ltb e.key.sid key.sid)
          (λ k. Ordered.cons a (insert-Ordered key mids m (ground (arith, k)) o))
          (λ k. Ordered.cons a o))

pub held-erase :
    (x sid : ℕ) (m : List Service)
    → held x (erase sid m) + count x (get_dist_match m sid) ≡ held x m
unfolding held erase get_dist_match find count
held-erase x sid [] = omega arith
held-erase x sid (e ∷ m) = ground (arith, held-erase x sid m)

pub find_below :
    {low : ℕ} (sid : ℕ) (m : List Service) → Ordered low m → sid < low → find sid m ≡ none
unfolding find
find_below sid [] o h = refl
find_below sid (e ∷ m) (Ordered.cons a o) h = ground (arith, find_below sid m o (omega arith))

pub find-erase :
    {low : ℕ} (sid : ℕ) (m : List Service) → Ordered low m → find sid (erase sid m) ≡ none
unfolding find erase
find-erase sid [] o = refl
find-erase sid (e ∷ m) (Ordered.cons a o) = ground (arith, find-erase sid m o, find_below sid m o)

pub held-insert :
    (x : ℕ) (key : MatchDisService) (mids : List ℕ) (m : List Service)
    → find key.sid m ≡ none
    → held x (insert key mids m) ≡ held x m + count x mids
unfolding held insert find
held-insert x key mids [] h = omega arith
held-insert x key mids (e ∷ m) h = ground (arith, held-insert x key mids m)

pub count-remove :
    (x a : ℕ) (xs : List ℕ) → count x (remove a xs) ≡ (if x == a then 0 else count x xs)
unfolding count remove
count-remove x a [] = ground arith
count-remove x a (y ∷ xs) = ground (arith, count-remove x a xs)

count-place : (a x : ℕ) (xs : List ℕ) → count a (place x xs) ≡ count a (x ∷ xs)
unfolding count place
count-place a x [] = refl
count-place a x (y ∷ xs) = ground (arith, count-place a x xs)

pub count-sort : (a : ℕ) (xs : List ℕ) → count a (sort xs) ≡ count a xs
unfolding count sort
count-sort a [] = refl
count-sort a (x ∷ xs) = ground (arith, count-place a x (sort xs), count-sort a xs)

find-replace :
    (sid s : ℕ) (old mids : List ℕ) (m : List Service)
    → find sid m ≡ some old
    → find s (replace sid mids m) ≡ (if s == sid then some mids else find s m)
unfolding find replace
find-replace sid s old mids [] h = cc
find-replace sid s old mids (e ∷ m) h = ground (arith, find-replace sid s old mids m)

find-insert :
    (key : MatchDisService) (s : ℕ) (mids : List ℕ) (m : List Service)
    → find key.sid m ≡ none
    → find s (insert key mids m) ≡ (if s == key.sid then some mids else find s m)
unfolding find insert
find-insert key s mids [] h = ground arith
find-insert key s mids (e ∷ m) h = ground (arith, find-insert key s mids m)

-- The matches of a service, by what `find` finds.
unfoldable pub matches_of : Option (List ℕ) → List ℕ
matches_of none = []
matches_of (some mids) = mids

pub get_dist_match-find : (m : List Service) (s : ℕ) → get_dist_match m s ≡ matches_of (find s m)
unfolding get_dist_match matches_of
get_dist_match-find m s = elim (Option-cases (find s m)) [
  | inl e ↦
      subst (λ o. elim o as (λ x. List ℕ) [ none ↦ [] | some mids ↦ mids ] ≡ matches_of o) (sym e)
        refl
  | inr (mids, e) ↦
      subst (λ o. elim o as (λ x. List ℕ) [ none ↦ [] | some mids ↦ mids ] ≡ matches_of o) (sym e)
        refl
]

pub get_dist_match-replace :
    (sid s : ℕ) (old mids : List ℕ) (m : List Service)
    → find sid m ≡ some old
    → get_dist_match (replace sid mids m) s ≡ (if s == sid then mids else get_dist_match m s)
unfolding matches_of
get_dist_match-replace sid s old mids m h =
    get_dist_match-find (replace sid mids m) s
    ∙ ap matches_of (find-replace sid s old mids m h)
    ∙ ground (arith, get_dist_match-find m s)

pub get_dist_match-insert :
    (key : MatchDisService) (s : ℕ) (mids : List ℕ) (m : List Service)
    → find key.sid m ≡ none
    → get_dist_match (insert key mids m) s ≡ (if s == key.sid then mids else get_dist_match m s)
unfolding matches_of
get_dist_match-insert key s mids m h =
    get_dist_match-find (insert key mids m) s
    ∙ ap matches_of (find-insert key s mids m h)
    ∙ ground (arith, get_dist_match-find m s)
