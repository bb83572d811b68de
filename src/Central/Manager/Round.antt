-- ===== src/Central/Manager/Round.antt =====
-- A round of CSMatchManager.cpp, `updateDistMatchServices`: what becomes of the matches.
use asio_utils.Base.{
  if-both, ℕ, ◌+◌, ◌≡◌, refl, sym, ap, ◌∙◌, List, [], ◌∷◌, Option, some, length, arith,
  Option-cases, inl, inr, ◌>>=◌, subst, count,
}
use asio_utils.Central.Distribution.{Pass, MatchDisService, Service, find, erase}
use asio_utils.Central.Distribution.Keeps.{Ordered, held, replace-Ordered, held-replace}
use asio_utils.Central.Distribution.Conserve.{distribute_conserves}
use asio_utils.Central.Manager.Keys.{
  count-merge, erase-Ordered, insert-Ordered, held-erase, find-erase, held-insert,
}
use asio_utils.Central.Manager.{
  Manager, ChangedService, merge, get_dist_match, settle_removed, settled, settle_found, add_found,
  settle_one, settle_updates, add_one, settle_added, is_removed, is_update, is_added, round,
  update_dist, stop_timer, start_timer, log, check_due,
}

-- In order, and holding what another map holds.
abbrev Keep : List Service → List Service → Type 0
Keep m m' = Ordered 0 m' × ((x : ℕ) → held x m' ≡ held x m)

Keep-trans : (a b c : List Service) → Keep a b → Keep b c → Keep a c
Keep-trans a b c (_, k) (o, l) = (o, λ x. l x ∙ k x)

settle_one-Keep :
    (key : MatchDisService) (m : List Service) → Ordered 0 m → Keep m (settle_one key m)
unfolding settle_one get_dist_match
settle_one-Keep key m o = elim (Option-cases (find key.sid m)) [
  | inl e ↦ subst (Keep m) (sym (ap (settle_found key m) e)) (o, λ x. refl)
  | inr (mids, e) ↦
      let m' = erase key.sid m in
      let taken : get_dist_match m key.sid ≡ mids = rw (e, get_dist_match) refl in
      subst (Keep m) (sym (ap (settle_found key m) e)) (
        insert-Ordered key mids m' (omega arith) (erase-Ordered key.sid m o),
        λ x. omega (
          arith,
          held-insert x key mids m' (find-erase key.sid m o),
          held-erase x key.sid m,
          ap (count x) taken,
        ),
      )
]

add_one-Keep : (key : MatchDisService) (m : List Service) → Ordered 0 m → Keep m (add_one key m)
unfolding add_one count
add_one-Keep key m o = elim (Option-cases (find key.sid m)) [
  | inl e ↦
      subst (Keep m) (sym (ap (add_found key m) e))
        (insert-Ordered key [] m (omega arith) o, λ x. omega (arith, held-insert x key [] m e))
  | inr ([], e) ↦
      subst (Keep m) (sym (ap (add_found key m) e))
        (replace-Ordered key.sid [] m o, λ x. omega (arith, held-replace x key.sid [] [] m e))
  | inr (y ∷ mids, e) ↦ subst (Keep m) (sym (ap (add_found key m) e)) (o, λ x. refl)
]

settle_updates-Keep :
    (cs : List ChangedService) (m : List Service) → Ordered 0 m → Keep m (settle_updates cs m)
unfolding settle_updates
settle_updates-Keep [] m o = (o, λ x. refl)
settle_updates-Keep (c ∷ cs) m o =
    let k = settle_one-Keep c.service m o in
    if-both (Keep m) (is_update c.type)
      (Keep-trans m (settle_one c.service m) (settle_updates cs (settle_one c.service m)) k
        (settle_updates-Keep cs (settle_one c.service m) k.0))
      (settle_updates-Keep cs m o)

settle_added-Keep :
    (cs : List ChangedService) (m : List Service) → Ordered 0 m → Keep m (settle_added cs m)
unfolding settle_added
settle_added-Keep [] m o = (o, λ x. refl)
settle_added-Keep (c ∷ cs) m o =
    let k = add_one-Keep c.service m o in
    if-both (Keep m) (is_added c.type)
      (Keep-trans m (add_one c.service m) (settle_added cs (add_one c.service m)) k
        (settle_added-Keep cs (add_one c.service m) k.0))
      (settle_added-Keep cs m o)

-- The services that are left, and the matches gathered from the others.
abbrev Gathers : List Service → List ℕ → List Service × List ℕ → Type 0
Gathers m g r = Ordered 0 r.0 × ((x : ℕ) → held x r.0 + count x r.1 ≡ held x m + count x g)

settle_removed-Gathers :
    (cs : List ChangedService) (m : List Service) (g : List ℕ)
    → Ordered 0 m
    → Gathers m g (settle_removed cs m g)
unfolding settle_removed
settle_removed-Gathers [] m g o = (o, λ x. refl)
settle_removed-Gathers (c ∷ cs) m g o =
    let sid = c.service.sid in
    let g' = merge g (get_dist_match m sid) in
    let (o', k) = settle_removed-Gathers cs (erase sid m) g' (erase-Ordered sid m o) in
    if-both (Gathers m g) (is_removed c.type)
      (o', λ x. omega (arith, k x, count-merge x g (get_dist_match m sid), held-erase x sid m))
      (settle_removed-Gathers cs m g o)

-- The manager returned has the same matches, each as often with a service or undistributed.
abbrev Conserved : Manager → Manager → Type 0
Conserved m n =
    Ordered 0 n.services
    × ((x : ℕ) → held x n.services + count x n.undist ≡ held x m.services + count x m.undist)
    × (n.matches ≡ m.matches)

Conserves : Manager → Option Manager → Type 0
Conserves m o = (n : Manager) × (o ≡ some n) × Conserved m n

settled-Conserved :
    (m : Manager) (p : Pass)
    → Ordered 0 p.services
    → ((x : ℕ) → held x p.services + count x p.undist ≡ held x m.services + count x m.undist)
    → Conserved m (settled m p)
unfolding settled log
settled-Conserved m p o c = if-both (Conserved m) m.has_callback (o, c, refl) (o, c, refl)

round-Conserves : (m : Manager) → Ordered 0 m.services → Conserves m (round m)
unfolding round Conserves count
round-Conserves m o =
    let (services, gathered) = settle_removed m.changes m.services [] in
    let (a, b) = settle_removed-Gathers m.changes m.services [] o in
    let updated = settle_updates m.changes services in
    let (c, d) = settle_updates-Keep m.changes services a in
    let ready = settle_added m.changes updated in
    let (e, f) = settle_added-Keep m.changes updated c in
    let undist = merge m.undist gathered in
    let (p, g, h, _, k, _) = distribute_conserves (length m.matches) ready undist e in
    let same : (x : ℕ)
        → held x p.services + count x p.undist ≡ held x m.services + count x m.undist =
      λ x. omega (arith, k x, f x, d x, b x, count-merge x m.undist gathered) in
    (settled m p, ap (λ o. o >>= (λ p. some (settled m p))) g, settled-Conserved m p h same)

stop_timer-Conserved : (m : Manager) → Ordered 0 m.services → Conserved m (stop_timer m)
unfolding stop_timer log
stop_timer-Conserved m o =
    if-both (Conserved m) m.has_timer (o, (λ x. refl), refl) (o, (λ x. refl), refl)

start_timer-Conserved : (m n : Manager) → Conserved m n → Conserved m (start_timer n)
unfolding start_timer log
start_timer-Conserved m n c = if-both (Conserved m) n.has_timer c c

Conserved-trans :
    (a b : Manager) (o : Option Manager) → Conserved a b → Conserves b o → Conserves a o
unfolding Conserves
Conserved-trans a b o (_, k, l) (n, e, (p, q, r)) = (n, e, (p, (λ x. q x ∙ k x), r ∙ l))

-- Where the services are in order, a round returns, whether it is due or not, with whatever changes
-- are waiting: the services stay in order, every match is as often somewhere - with a service, or
-- undistributed - as before, and the matches themselves stay.
pub update_dist_conserves :
    (now : ℕ) (m : Manager)
    → Ordered 0 m.services
    → (n : Manager) × (update_dist now m ≡ some n)
      × Ordered 0 n.services
      × ((x : ℕ) → held x n.services + count x n.undist ≡ held x m.services + count x m.undist)
      × (n.matches ≡ m.matches)
unfolding update_dist Conserves
update_dist_conserves now m o =
    let s = stop_timer m in
    let k = stop_timer-Conserved m o in
    let (n, e, (p, q, r)) : Conserves m (update_dist now m) =
      if-both (Conserves m) (check_due now s)
        (Conserved-trans m s (round s) k (round-Conserves s k.0))
        (start_timer s, refl, start_timer-Conserved m s k) in
    (n, e, p, q, r)
