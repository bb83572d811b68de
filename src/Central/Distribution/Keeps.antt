-- ===== src/Central/Distribution/Keeps.antt =====
-- The map of CSMatchDistribution.cpp: its keys are in order, and an update keeps what it holds.
use asio_utils.Base.{
  if-both, ℕ, zero, suc, ◌+◌, ◌≤◌, ◌<◌, ◌≡◌, refl, ap, ◌∙◌, Bool, true, false, List, [], ◌∷◌, ◌++◌,
  none, some, ◌==◌, if◌then◌else◌, length, arith, Option-cases, inl, inr, take, drop, count,
  count-append,
}
use asio_utils.Central.Distribution.{
  MatchDisService, Service, find, erase, insert, replace, push, update_loaded, evaluate,
}

-- The ids of the entries increase, from `low` on.
pub data Ordered : ℕ → List Service → Type 0 where
  nil : {low : ℕ} → Ordered low []
  cons :
      {low : ℕ} {e : Service} {m : List Service}
      → low ≤ e.key.sid
      → Ordered (suc e.key.sid) m
      → Ordered low (e ∷ m)

unfoldable pub has : ℕ → List Service → Bool
has sid [] = false
has sid (e ∷ m) = let rest = has sid m in if sid == e.key.sid then true else rest

-- How often a match is in all the entries.
unfoldable pub held : ℕ → List Service → ℕ
unfolding count
held x [] = 0
held x (e ∷ m) = count x e.mids + held x m

-- The entry of one service with its load set to the number of its matches.
unfoldable pub relabel : ℕ → List Service → List Service
relabel sid [] = []
relabel sid (e ∷ m) =
    let rest = relabel sid m in
    if sid == e.key.sid
    then record { key = record { sid = e.key.sid; loaded = length e.mids }; mids = e.mids } ∷ m
    else e ∷ rest

find_absent : {low : ℕ} (sid : ℕ) (m : List Service) → Ordered low m → sid < low → find sid m ≡ none
unfolding find
find_absent sid [] o h = refl
find_absent sid (e ∷ m) (cons a o) h = ground (arith, find_absent sid m o (omega arith))

insert-front :
    {low : ℕ} (key : MatchDisService) (mids : List ℕ) (m : List Service)
    → Ordered low m
    → key.sid < low
    → insert key mids m ≡ record { key = key; mids = mids } ∷ m
unfolding insert
insert-front key mids [] o h = refl
insert-front key mids (e ∷ m) (cons a o) h = ground arith

find-none : (sid : ℕ) (m : List Service) → find sid m ≡ none → has sid m ≡ false
unfolding has find
find-none sid [] h = refl
find-none sid (e ∷ m) h = ground (arith, find-none sid m)

pub find-some :
    (sid : ℕ) (m : List Service) → has sid m ≡ true → (mids : List ℕ) × (find sid m ≡ some mids)
find-some sid m h = elim (Option-cases (find sid m)) [
  | inl e ↦ ground (arith, find-none sid m e)
  | inr f ↦ f
]

relabel_absent :
    {low : ℕ} (sid : ℕ) (m : List Service) → Ordered low m → sid < low → relabel sid m ≡ m
unfolding relabel
relabel_absent sid [] o h = refl
relabel_absent sid (e ∷ m) (cons a o) h = ground (arith, relabel_absent sid m o (omega arith))

-- Taking the entry out and inserting it with a new load writes the load in place.
insert-erase :
    {low : ℕ} (sid : ℕ) (m : List Service) (mids : List ℕ)
    → Ordered low m
    → find sid m ≡ some mids
    → insert (record { sid = sid; loaded = length mids }) mids (erase sid m) ≡ relabel sid m
unfolding insert erase relabel find
insert-erase sid [] mids o h = cc
insert-erase sid (e ∷ m) mids (cons a o) h =
    let new : MatchDisService = record { sid = sid; loaded = length mids } in
    ground (
      arith,
      find_absent sid m o,
      insert-front new mids m o,
      insert-erase sid m mids o,
      relabel_absent sid m o,
    )

pub update_relabel :
    (sid : ℕ) (m : List Service)
    → Ordered 0 m
    → has sid m ≡ true
    → update_loaded sid m ≡ some (relabel sid m)
unfolding update_loaded evaluate
update_relabel sid m o h =
    let (mids, e) = find-some sid m h in ground (arith, e, insert-erase sid m mids o e)

pub relabel-Ordered :
    {low : ℕ} (sid : ℕ) (m : List Service) → Ordered low m → Ordered low (relabel sid m)
unfolding relabel
relabel-Ordered sid [] o = o
relabel-Ordered {low} sid (e ∷ m) (cons a o) =
    if-both (Ordered low) (sid == e.key.sid) (cons a o) (cons a (relabel-Ordered sid m o))

push-Ordered :
    {low : ℕ} (sid : ℕ) (mids : List ℕ) (m : List Service)
    → Ordered low m
    → Ordered low (push sid mids m)
unfolding push
push-Ordered sid mids [] o = o
push-Ordered {low} sid mids (e ∷ m) (cons a o) =
    if-both (Ordered low) (sid == e.key.sid) (cons a o) (cons a (push-Ordered sid mids m o))

pub replace-Ordered :
    {low : ℕ} (sid : ℕ) (mids : List ℕ) (m : List Service)
    → Ordered low m
    → Ordered low (replace sid mids m)
unfolding replace
replace-Ordered sid mids [] o = o
replace-Ordered {low} sid mids (e ∷ m) (cons a o) =
    if-both (Ordered low) (sid == e.key.sid) (cons a o) (cons a (replace-Ordered sid mids m o))

has-relabel : (i sid : ℕ) (m : List Service) → has i (relabel sid m) ≡ has i m
unfolding has relabel
has-relabel i sid [] = refl
has-relabel i sid (e ∷ m) = ground (arith, has-relabel i sid m)

has-push : (i sid : ℕ) (mids : List ℕ) (m : List Service) → has i (push sid mids m) ≡ has i m
unfolding has push
has-push i sid mids [] = refl
has-push i sid mids (e ∷ m) = ground (arith, has-push i sid mids m)

has-replace : (i sid : ℕ) (mids : List ℕ) (m : List Service) → has i (replace sid mids m) ≡ has i m
unfolding has replace
has-replace i sid mids [] = refl
has-replace i sid mids (e ∷ m) = ground (arith, has-replace i sid mids m)

held-relabel : (x sid : ℕ) (m : List Service) → held x (relabel sid m) ≡ held x m
unfolding held relabel
held-relabel x sid [] = refl
held-relabel x sid (e ∷ m) = ground (arith, held-relabel x sid m)

held-push :
    (x sid : ℕ) (mids : List ℕ) (m : List Service)
    → has sid m ≡ true
    → held x (push sid mids m) ≡ held x m + count x mids
unfolding held push has
held-push x sid mids [] h = cc
held-push x sid mids (e ∷ m) h = ground (arith, held-push x sid mids m, count-append x e.mids mids)

pub held-replace :
    (x sid : ℕ) (old mids : List ℕ) (m : List Service)
    → find sid m ≡ some old
    → held x (replace sid mids m) + count x old ≡ held x m + count x mids
unfolding held replace find
held-replace x sid old mids [] h = cc
held-replace x sid old mids (e ∷ m) h = ground (arith, held-replace x sid old mids m)

-- From one map and list of undistributed matches to another: the map stays in order and has the same
-- services, and every match is as often somewhere as before.
pub record Keeps (m : List Service) (u : List ℕ) (m' : List Service) (u' : List ℕ) : Type 0 where
  pub in_order : Ordered 0 m → Ordered 0 m'
  pub same_has : (sid : ℕ) → has sid m' ≡ has sid m
  pub same_count : (x : ℕ) → held x m' + count x u' ≡ held x m + count x u

pub Keeps-refl : (m : List Service) (u : List ℕ) → Keeps m u m u
Keeps-refl m u = record { in_order = λ o. o; same_has = λ sid. refl; same_count = λ x. refl }

pub Keeps-trans :
    {m m' m'' : List Service} {u u' u'' : List ℕ}
    → Keeps m u m' u'
    → Keeps m' u' m'' u''
    → Keeps m u m'' u''
Keeps-trans a b = record {
  in_order = λ o. b.in_order (a.in_order o);
  same_has = λ sid. b.same_has sid ∙ a.same_has sid;
  same_count = λ x. b.same_count x ∙ a.same_count x;
}

pub relabel-Keeps : (sid : ℕ) (m : List Service) (u : List ℕ) → Keeps m u (relabel sid m) u
relabel-Keeps sid m u = record {
  in_order = relabel-Ordered sid m;
  same_has = λ i. has-relabel i sid m;
  same_count = λ x. ap (λ n. n + count x u) (held-relabel x sid m);
}

count-take-drop : (x n : ℕ) (u : List ℕ) → count x (take n u) + count x (drop n u) ≡ count x u
unfolding count
count-take-drop x zero u = omega arith
count-take-drop x (suc n) [] = omega arith
count-take-drop x (suc n) (y ∷ u) = ground (arith, count-take-drop x n u)

pub push-Keeps :
    (sid n : ℕ) (m : List Service) (u : List ℕ)
    → has sid m ≡ true
    → Keeps m u (push sid (take n u) m) (drop n u)
push-Keeps sid n m u h = record {
  in_order = push-Ordered sid (take n u) m;
  same_has = λ i. has-push i sid (take n u) m;
  same_count = λ x. omega (arith, held-push x sid (take n u) m h, count-take-drop x n u);
}

pub replace-Keeps :
    (sid : ℕ) (m : List Service) (u old moved kept : List ℕ)
    → find sid m ≡ some old
    → ((x : ℕ) → count x moved + count x kept ≡ count x old)
    → Keeps m u (replace sid kept m) (u ++ moved)
replace-Keeps sid m u old moved kept h c = record {
  in_order = replace-Ordered sid kept m;
  same_has = λ i. has-replace i sid kept m;
  same_count = λ x. omega (arith, held-replace x sid old kept m h, c x, count-append x u moved);
}
