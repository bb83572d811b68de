-- ===== src/Central/Distribution/Moves.antt =====
-- The passes of CSMatchDistribution.cpp round by round: each moves matches between the services and the
-- list of undistributed matches, and marks the services it changes.
use asio_utils.Base.{
  if-both, ℕ, zero, suc, ◌+◌, ◌-◌, ◌≡◌, refl, sym, ap, ◌∙◌, Bool, true, false, List, [], ◌∷◌, some,
  leb, ◌==◌, if◌then◌else◌, length, arith, ◌>>=◌, count,
}
use asio_utils.Central.Distribution.{
  MatchDisService, Service, Pass, keys, insert_by, sort_by, set_insert, update_all, fill_one,
  fill_each, finish, redistribute,
}
use asio_utils.Central.Distribution.Keeps.{
  Ordered, has, relabel, update_relabel, Keeps, Keeps-refl, Keeps-trans, relabel-Keeps, push-Keeps,
}

unfoldable pub member : ℕ → List ℕ → Bool
member i [] = false
member i (x ∷ xs) = let rest = member i xs in if i == x then true else rest

pub names : ℕ → List MatchDisService → Bool
names i [] = false
names i (x ∷ xs) = let rest = names i xs in if i == x.sid then true else rest

names-keys : (i : ℕ) (m : List Service) → names i (keys m) ≡ has i m
unfolding names keys has
names-keys i [] = refl
names-keys i (e ∷ m) = ground (arith, names-keys i m)

names-insert_by :
    (less : MatchDisService → MatchDisService → Bool) (i : ℕ) (x : MatchDisService)
    (ys : List MatchDisService)
    → names i (insert_by less x ys) ≡ names i (x ∷ ys)
unfolding names insert_by
names-insert_by less i x [] = refl
names-insert_by less i x (y ∷ ys) = ground (arith, names-insert_by less i x ys)

names-sort_by :
    (less : MatchDisService → MatchDisService → Bool) (i : ℕ) (xs : List MatchDisService)
    → names i (sort_by less xs) ≡ names i xs
unfolding names sort_by
names-sort_by less i [] = refl
names-sort_by less i (x ∷ xs) =
    ground (arith, names-insert_by less i x (sort_by less xs), names-sort_by less i xs)

pub member-set_insert : (i a : ℕ) (xs : List ℕ) → member i (set_insert a xs) ≡ member i (a ∷ xs)
unfolding member set_insert
member-set_insert i a [] = refl
member-set_insert i a (x ∷ xs) = ground (arith, member-set_insert i a xs)

pub count-redistribute :
    (x n : ℕ) (mids : List ℕ)
    → count x (redistribute n mids).0 + count x (redistribute n mids).1 ≡ count x mids
unfolding count redistribute
count-redistribute x zero mids = omega arith
count-redistribute x (suc n) [] = omega arith
count-redistribute x (suc n) (y ∷ mids) = ground (arith, count-redistribute x n mids)

abbrev pub Within : List MatchDisService → Pass → Type 0
Within ordered p = (i : ℕ) → names i ordered ≡ true → has i p.services ≡ true

abbrev pub Marked : Pass → Type 0
Marked p = (i : ℕ) → member i p.changed ≡ true → has i p.services ≡ true

abbrev pub Moves : Pass → Pass → Type 0
Moves p q = Keeps p.services p.undist q.services q.undist

-- One more step of a pass, at a service of the map.
pub mark :
    (sid : ℕ) (m m' : List Service) (changed : List ℕ)
    → has sid m ≡ true
    → ((i : ℕ) → has i m' ≡ has i m)
    → ((i : ℕ) → member i changed ≡ true → has i m ≡ true)
    → (i : ℕ) → member i (set_insert sid changed) ≡ true
    → has i m' ≡ true
unfolding member
mark sid m m' changed h s c i e = ground (arith, h, s i, c i, member-set_insert i sid changed, e)

pub names-head : (x : MatchDisService) (xs : List MatchDisService) → names x.sid (x ∷ xs) ≡ true
unfolding names
names-head x xs = ground arith

pub names-tail :
    (i : ℕ) (x : MatchDisService) (xs : List MatchDisService)
    → names i xs ≡ true
    → names i (x ∷ xs) ≡ true
unfolding names
names-tail i x xs e = ground arith

member-head : (i : ℕ) (xs : List ℕ) → member i (i ∷ xs) ≡ true
unfolding member
member-head i xs = ground arith

member-tail : (i a : ℕ) (xs : List ℕ) → member i xs ≡ true → member i (a ∷ xs) ≡ true
unfolding member
member-tail i a xs e = ground arith

pub fill_each-Moves :
    (average : ℕ) (ordered : List MatchDisService) (p : Pass)
    → Within ordered p
    → Marked p
    → Moves p (fill_each average ordered p) × Marked (fill_each average ordered p)
unfolding fill_each fill_one
fill_each-Moves average [] p w c = (Keeps-refl p.services p.undist, c)
fill_each-Moves average (srv ∷ ordered) p w c =
    let h : has srv.sid p.services ≡ true = w srv.sid (names-head srv ordered) in
    let k = push-Keeps srv.sid (average - srv.loaded) p.services p.undist h in
    let p' = fill_one average srv p in
    let (k', c') =
      fill_each-Moves average ordered p' (λ i e. k.same_has i ∙ w i (names-tail i srv ordered e))
        (mark srv.sid p.services p'.services p.changed h k.same_has c) in
    let P : Pass → Type 0 = λ q. Moves p q × Marked q in
    let stay : P p = (Keeps-refl p.services p.undist, c) in
    if-both P (length p.undist == 0) stay
      (if-both P (leb average srv.loaded) stay (Keeps-trans k k', c'))

unfoldable pub relabel_all : List ℕ → List Service → List Service
relabel_all [] m = m
relabel_all (i ∷ is) m = relabel_all is (relabel i m)

pub update_all-relabel :
    (is : List ℕ) (m : List Service) (u : List ℕ)
    → Ordered 0 m
    → ((i : ℕ) → member i is ≡ true → has i m ≡ true)
    → (update_all is m ≡ some (relabel_all is m)) × Keeps m u (relabel_all is m) u
unfolding update_all relabel_all member
update_all-relabel [] m u o h = (refl, Keeps-refl m u)
update_all-relabel (i ∷ is) m u o h =
    let k = relabel-Keeps i m u in
    let here : has i m ≡ true = h i (member-head i is) in
    let (e, k') =
      update_all-relabel is (relabel i m) u (k.in_order o)
        (λ j g. k.same_has j ∙ h j (member-tail j i is g)) in
    (ap (λ o. o >>= update_all is) (update_relabel i m o here) ∙ e, Keeps-trans k k')

unfoldable pub relabelled : Pass → Pass
relabelled p = record p { services = relabel_all p.changed p.services }

pub finish-Moves :
    (p : Pass)
    → Ordered 0 p.services
    → Marked p
    → (finish p ≡ some (relabelled p)) × Moves p (relabelled p)
unfolding finish relabelled
finish-Moves p o c =
    let (e, k) = update_all-relabel p.changed p.services p.undist o c in
    (ap (λ o. o >>= (λ s. some (record p { services = s }))) e, k)

unfoldable pub opening : List Service → List ℕ → Pass
opening services undist = record { services = services; undist = undist; changed = [] }

pub Marked-opening : (m : List Service) (u : List ℕ) → Marked (opening m u)
unfolding opening member
Marked-opening m u i e = cc

pub Within-sort_by :
    (less : MatchDisService → MatchDisService → Bool) (m : List Service) (u : List ℕ)
    → Within (sort_by less (keys m)) (opening m u)
unfolding opening
Within-sort_by less m u i e = sym (names-keys i m) ∙ sym (names-sort_by less i (keys m)) ∙ e
