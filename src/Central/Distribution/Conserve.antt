-- ===== src/Central/Distribution/Conserve.antt =====
-- `MatchDistribution` moves matches and loses none.
use asio_utils.Base.{
  if-both, ℕ, ◌+◌, ◌-◌, ◌≡◌, refl, ap, ◌∙◌, Bool, true, List, [], ◌∷◌, Option, some, ltb, leb, ◌==◌,
  length, arith, inl, inr, ◌⊎◌, ◌>>=◌, ◌/◌, count,
}
use asio_utils.Central.Distribution.{
  MatchDisService, Service, Pass, find, keys, sort_by, set_insert, set_union, clip_one, fill_each,
  finish, distribute_fill, redistribute, clip_each, distribute_clipping, uneven, also, again,
  distribute,
}
use asio_utils.Central.Distribution.Keeps.{
  Ordered, has, held, find-some, Keeps-refl, Keeps-trans, replace-Keeps,
}
use asio_utils.Central.Distribution.Moves.{
  Marked, Marked-opening, Moves, Within, Within-sort_by, count-redistribute, fill_each-Moves,
  finish-Moves, mark, member, member-set_insert, names-head, names-tail, relabelled, opening,
}

clip_one-Moves :
    (average : ℕ) (srv : MatchDisService) (p : Pass) (mids : List ℕ)
    → find srv.sid p.services ≡ some mids
    → has srv.sid p.services ≡ true
    → Marked p
    → Moves p (clip_one average srv p mids) × Marked (clip_one average srv p mids)
unfolding clip_one
clip_one-Moves average srv p mids e h c =
    let n = srv.loaded - average in
    let (moved, kept) = redistribute n mids in
    let k =
      replace-Keeps srv.sid p.services p.undist mids moved kept e
        (λ x. count-redistribute x n mids) in
    let p' = clip_one average srv p mids in
    let C : List ℕ → Type 0 = λ l. (i : ℕ) → member i l ≡ true → has i p'.services ≡ true in
    (
      k,
      if-both C (length moved == 0) (λ i g. k.same_has i ∙ c i g)
          (mark srv.sid p.services p'.services p.changed h k.same_has c),
    )

-- The pass returns, and the matches are all still there.
unfoldable pub Done : Pass → Option Pass → Type 0
Done p o = (q : Pass) × (o ≡ some q) × Moves p q × Marked q

pub clip_each-Moves :
    (average : ℕ) (ordered : List MatchDisService) (p : Pass)
    → Within ordered p
    → Marked p
    → Done p (clip_each average ordered p)
unfolding clip_each Done
clip_each-Moves average [] p w c = (p, refl, Keeps-refl p.services p.undist, c)
clip_each-Moves average (srv ∷ ordered) p w c =
    let h : has srv.sid p.services ≡ true = w srv.sid (names-head srv ordered) in
    let (mids, e) = find-some srv.sid p.services h in
    let p' = clip_one average srv p mids in
    let (k, c') = clip_one-Moves average srv p mids e h c in
    let (q, e', k', c'') =
      clip_each-Moves average ordered p' (λ i g. k.same_has i ∙ w i (names-tail i srv ordered g))
        c' in
    if-both (Done p) (leb srv.loaded average) (p, refl, Keeps-refl p.services p.undist, c)
      (
        q,
        ap (λ o. o >>= (λ x. clip_each average ordered (clip_one average srv p x))) e ∙ e',
        Keeps-trans k k',
        c'',
      )

finish-Done : (p q : Pass) → Ordered 0 q.services → Moves p q → Marked q → Done p (finish q)
unfolding Done relabelled
finish-Done p q o k c =
    let (e, k') = finish-Moves q o c in
    (relabelled q, e, Keeps-trans k k', λ i g. k'.same_has i ∙ c i g)

pub distribute_fill-Done :
    (m : List Service) (average : ℕ) (u : List ℕ)
    → Ordered 0 m
    → Done (opening m u) (distribute_fill m average u)
unfolding distribute_fill opening
distribute_fill-Done m average u o =
    let less : MatchDisService → MatchDisService → Bool = λ x y. ltb x.loaded y.loaded in
    let ordered = sort_by less (keys m) in
    let (k, c) =
      fill_each-Moves average ordered (opening m u) (Within-sort_by less m u)
        (Marked-opening m u) in
    finish-Done (opening m u) (fill_each average ordered (opening m u)) (k.in_order o) k c

pub distribute_clipping-Done :
    (m : List Service) (average : ℕ) (u : List ℕ)
    → Ordered 0 m
    → Done (opening m u) (distribute_clipping m average u)
unfolding distribute_clipping opening Done
distribute_clipping-Done m average u o =
    let less : MatchDisService → MatchDisService → Bool = λ x y. ltb y.loaded x.loaded in
    let ordered = sort_by less (keys m) in
    let p = opening m u in
    let (q, e, k, c) =
      clip_each-Moves average ordered p (Within-sort_by less m u) (Marked-opening m u) in
    let (r, e', k', c') = finish-Done p q (k.in_order o) k c in
    if-both (Done p) (uneven ordered) (r, ap (λ x. x >>= finish) e ∙ e', k', c')
      (p, refl, Keeps-refl m u, Marked-opening m u)

member-set_union :
    (i : ℕ) (xs ys : List ℕ)
    → member i (set_union xs ys) ≡ true
    → (member i xs ≡ true) ⊎ (member i ys ≡ true)
unfolding set_union member
member-set_union i xs [] e = inl e
member-set_union i xs (y ∷ ys) e = elim (member-set_union i (set_insert y xs) ys e) [
  | inl g ↦ ground (arith, g, member-set_insert i y xs)
  | inr g ↦ ground (arith, g)
]

also-Marked : (p q : Pass) → Moves p q → Marked p → Marked q → Marked (also p.changed q)
unfolding also
also-Marked p q k c c' i g = elim (member-set_union i p.changed q.changed g) [
  | inl a ↦ k.same_has i ∙ c i a
  | inr b ↦ c' i b
]

-- A pass that starts where another ended.
also-Done :
    (m : List Service) (u : List ℕ) (p : Pass) (o : Option Pass) (f : Pass → Option Pass)
    → Moves (opening m u) p
    → Marked p
    → Done (opening p.services p.undist) o
    → ((q : Pass) → Moves (opening m u) q → Marked q → Done (opening m u) (f q))
    → Done (opening m u) (o >>= (λ q. f (also p.changed q)))
unfolding Done opening also
also-Done m u p o f k c (q, e, k', c') then_f =
    let (r, e', k'', c'') =
      then_f (also p.changed q) (Keeps-trans k k') (also-Marked p q k' c c') in
    (r, ap (λ x. x >>= (λ q. f (also p.changed q))) e ∙ e', k'', c'')

again-Done :
    (average : ℕ) (m : List Service) (u : List ℕ) (p : Pass)
    → Ordered 0 p.services
    → Moves (opening m u) p
    → Marked p
    → Done (opening m u) (again average p)
unfolding again Done
again-Done average m u p o k c =
    let more = distribute_fill-Done p.services average p.undist o in
    if-both (Done (opening m u)) (length p.undist == 0) (p, refl, k, c)
      (also-Done m u p (distribute_fill p.services average p.undist) some k c more
        (λ q k' c'. (q, refl, k', c')))

distribute-Done :
    (all : ℕ) (m : List Service) (u : List ℕ)
    → Ordered 0 m
    → Done (opening m u) (distribute all m u)
unfolding distribute opening Done
distribute-Done all [] u o =
    (record { services = []; undist = u; changed = [] }, refl, Keeps-refl [] u, Marked-opening [] u)
distribute-Done all (s ∷ rest) u o =
    let m = s ∷ rest in
    let average = all / length m in
    let (p, e, k, c) = distribute_fill-Done m average u o in
    let o' = k.in_order o in
    let (q, e', k', c') =
      also-Done m u p (distribute_clipping p.services average p.undist) (again average) k c
        (distribute_clipping-Done p.services average p.undist o')
        (λ q k' c'. again-Done average m u q (k'.in_order o) k' c') in
    (
      q,
      ap
            (λ x. x >>= (λ p.
              distribute_clipping p.services average p.undist
              >>= (λ q. again average (also p.changed q))))
            e
          ∙ e',
      k',
      c',
    )

-- Where the services are in order, the distribution returns, and dereferences no end of the map on its
-- way: the same services stand in order, every match is as often somewhere - with a service, or in
-- the list of undistributed matches - as it was, and the services said to be changed are among them.
pub distribute_conserves :
    (all : ℕ) (m : List Service) (u : List ℕ)
    → Ordered 0 m
    → (q : Pass) × (distribute all m u ≡ some q)
      × Ordered 0 q.services
      × ((i : ℕ) → has i q.services ≡ has i m)
      × ((x : ℕ) → held x q.services + count x q.undist ≡ held x m + count x u)
      × ((i : ℕ) → member i q.changed ≡ true → has i q.services ≡ true)
unfolding Done opening
distribute_conserves all m u o =
    let (q, e, k, c) = distribute-Done all m u o in
    (q, e, k.in_order o, k.same_has, k.same_count, c)
