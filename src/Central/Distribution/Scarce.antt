-- ===== src/Central/Distribution/Scarce.antt =====
-- What `MatchDistribution` does when there are fewer matches than services.
use mathlib.Core.Option.{some-injective}
use asio_utils.Base.{
  ℕ, ◌-◌, ◌≤◌, ◌<◌, ◌≡◌, refl, sym, ap, ◌∙◌, List, [], ◌∷◌, ◌++◌, Option, none, some, ltb, leb,
  ◌==◌, length, arith, ◌>>=◌, ◌/◌, subst, bind-some, if-cases, count, count-append,
}
use asio_utils.Central.Distribution.{
  MatchDisService, Service, Pass, find, keys, sort_by, update_all, fill_each, finish,
  distribute_fill, redistribute, clip_one, clip_each, distribute_clipping, uneven, also, again,
  distribute,
}
use asio_utils.Central.Distribution.Keeps.{Ordered, held}
use asio_utils.Central.Distribution.Moves.{opening}
use asio_utils.Central.Distribution.Conserve.{distribute_conserves}

fill_each_none : (ordered : List MatchDisService) (p : Pass) → fill_each 0 ordered p ≡ p
unfolding fill_each
fill_each_none [] p = refl
fill_each_none (srv ∷ ordered) p = ground arith

distribute_fill_none : (m : List Service) (u : List ℕ) → distribute_fill m 0 u ≡ some (opening m u)
unfolding distribute_fill opening finish update_all
distribute_fill_none m u =
    ap finish (fill_each_none (sort_by (λ x y. ltb x.loaded y.loaded) (keys m)) (opening m u))

-- No undistributed match is taken.
Grows : List ℕ → Option Pass → Type 0
Grows u o = (q : Pass) → o ≡ some q → (x : ℕ) → count x u ≤ count x q.undist

Grows-some : (u : List ℕ) (p : Pass) → p.undist ≡ u → Grows u (some p)
unfolding Grows
Grows-some u p e q f x =
    let g : count x q.undist ≡ count x u =
      ap (λ (r : Pass). count x r.undist) (sym (some-injective _ _ f)) ∙ ap (count x) e in
    omega (arith, g)

Grows-bind :
    {A : Type 0} (u : List ℕ) (o : Option A) (f : A → Option Pass)
    → ((a : A) → Grows u (f a))
    → Grows u (o >>= f)
unfolding Grows
Grows-bind u o f h q e = let (a, _, g) = bind-some o f e in h a q g

Grows-more : (u v : List ℕ) (o : Option Pass) → Grows (u ++ v) o → Grows u o
unfolding Grows
Grows-more u v o h q e x = omega (arith, h q e x, count-append x u v)

finish-Grows : (p : Pass) → Grows p.undist (finish p)
unfolding finish
finish-Grows p =
    Grows-bind p.undist (update_all p.changed p.services) (λ s. some (record p { services = s }))
      (λ s. Grows-some p.undist (record p { services = s }) refl)

Grows-bind-bind :
    {A : Type 0} (u : List ℕ) (o : Option A) (f : A → Option Pass) (g : Pass → Option Pass)
    → ((a : A) → Grows u (f a >>= g))
    → Grows u (o >>= f >>= g)
unfolding Grows
Grows-bind-bind u none f g h q e = cc
Grows-bind-bind u (some a) f g h q e = h a q e

clip_each-Grows :
    (average : ℕ) (ordered : List MatchDisService) (p : Pass)
    → Grows p.undist (clip_each average ordered p >>= finish)
unfolding clip_each clip_one
clip_each-Grows average [] p = finish-Grows p
clip_each-Grows average (srv ∷ ordered) p =
    if-cases (λ o. Grows p.undist (o >>= finish)) (leb srv.loaded average) (λ _. finish-Grows p)
      (λ _.
        Grows-bind-bind p.undist (find srv.sid p.services)
          (λ mids. clip_each average ordered (clip_one average srv p mids)) finish
          (λ mids.
            Grows-more p.undist (redistribute (srv.loaded - average) mids).0
              (clip_each average ordered (clip_one average srv p mids) >>= finish)
              (clip_each-Grows average ordered (clip_one average srv p mids))))

distribute_clipping-Grows :
    (m : List Service) (average : ℕ) (u : List ℕ) → Grows u (distribute_clipping m average u)
unfolding distribute_clipping
distribute_clipping-Grows m average u =
    let ordered = sort_by (λ x y. ltb y.loaded x.loaded) (keys m) in
    let p : Pass = record { services = m; undist = u; changed = [] } in
    if-cases (Grows u) (uneven ordered) (λ _. clip_each-Grows average ordered p)
      (λ _. Grows-some u p refl)

again-Grows : (p : Pass) → Grows p.undist (again 0 p)
unfolding again also opening
again-Grows p =
    if-cases (Grows p.undist) (length p.undist == 0) (λ _. Grows-some p.undist p refl)
      (λ _.
        subst (λ o. Grows p.undist (o >>= (λ q. some (also p.changed q))))
          (sym (distribute_fill_none p.services p.undist))
          (Grows-some p.undist (also p.changed (opening p.services p.undist)) refl))

small_average : (all n : ℕ) → all < n → all / n ≡ 0
small_average all n h = grind arith

distribute-Grows :
    (all : ℕ) (m : List Service) (u : List ℕ) → all < length m → Grows u (distribute all m u)
unfolding distribute also opening Grows
distribute-Grows all [] u h q e x = omega arith
distribute-Grows all (s ∷ rest) u h q e x =
    let m = s ∷ rest in
    let after : ℕ → Pass → Option Pass = λ average p.
      distribute_clipping p.services average p.undist >>= (λ q. again average (also p.changed q)) in
    let e' : after 0 (opening m u) ≡ some q =
      sym (ap (λ o. o >>= after 0) (distribute_fill_none m u))
      ∙ sym (ap (λ n. distribute_fill m n u >>= after n) (small_average all (length m) h))
      ∙ e in
    let (r, f, g) = bind-some (distribute_clipping m 0 u) (λ q. again 0 (also [] q)) e' in
    let a = distribute_clipping-Grows m 0 u r f x in
    let b = again-Grows (also [] r) q g x in omega (arith, a, b)

-- Where there are fewer matches than services, the distribution returns without giving a match to any
-- service: an undistributed match stays undistributed, and a service can only lose matches.
pub scarce :
    (all : ℕ) (m : List Service) (u : List ℕ)
    → Ordered 0 m
    → all < length m
    → (q : Pass) × (distribute all m u ≡ some q)
      × ((x : ℕ) → (count x u ≤ count x q.undist) × (held x q.services ≤ held x m))
unfolding Grows
scarce all m u o h =
    let (q, e, _, _, c, _) = distribute_conserves all m u o in
    (q, e, λ x. let g = distribute-Grows all m u h q e x in (g, omega (arith, g, c x)))
