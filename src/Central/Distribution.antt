-- ===== src/Central/Distribution.antt =====
-- CentralServer/CentralServer/Class/MatchManager: CSMatchDistDefine.h, CSMatchLoadedEvaluation.cpp and
-- CSMatchDistribution.cpp. Service ids, match ids and loads are natural numbers: the source's `int`s
-- are ids and counts, which are not negative. A `std::map` is the list of its entries in the order
-- of their keys, a `std::set` the list of its elements in order. The quotient that the source takes
-- in `float` is exact below 2 ^ 24 matches. The dereference of an iterator at its end is `none`.
mod Services
pub mod Keeps
pub mod Moves
pub mod Conserve
pub mod Exact
pub mod Scarce
mod Tests
unfoldable pub use Services.*
use asio_utils.Base.{
  ℕ, zero, suc, ◌+◌, ◌-◌, ◌/◌, Bool, true, false, ◌||◌, List, [], ◌∷◌, ◌++◌, Option, none, some,
  ltb, leb, ◌==◌, if◌then◌else◌, length, take, drop, ◌>>=◌,
}

-- CSMatchLoadedEvaluation
pub evaluate : ℕ → List ℕ → ℕ
evaluate sid mids = length mids

pub update_loaded : ℕ → List Service → Option (List Service)
unfolding find erase insert evaluate
update_loaded sid services = find sid services >>= (λ mids.
    some (insert (record { sid = sid; loaded = evaluate sid mids }) mids (erase sid services)))

pub update_all : List ℕ → List Service → Option (List Service)
unfolding update_loaded
update_all [] services = some services
update_all (sid ∷ sids) services = update_loaded sid services >>= update_all sids

-- What a pass has moved so far.
pub record Pass : Type 0 where
  pub services : List Service
  pub undist : List ℕ
  pub changed : List ℕ

-- One round of `distributeFill`: a service is filled up to the average.
pub fill_one : ℕ → MatchDisService → Pass → Pass
unfolding push set_insert
fill_one average srv p =
    let n = average - srv.loaded in
    record {
      services = push srv.sid (take n p.undist) p.services;
      undist = drop n p.undist;
      changed = set_insert srv.sid p.changed;
    }

-- The loop of `distributeFill`.
pub fill_each : ℕ → List MatchDisService → Pass → Pass
unfolding fill_one
fill_each average [] p = p
fill_each average (srv ∷ ordered) p =
    let rest = fill_each average ordered (fill_one average srv p) in
    if length p.undist == 0 then p else if leb average srv.loaded then p else rest

pub finish : Pass → Option Pass
unfolding update_all
finish p = update_all p.changed p.services >>= (λ s. some (record p { services = s }))

pub distribute_fill : List Service → ℕ → List ℕ → Option Pass
unfolding fill_each finish sort_by keys
distribute_fill services average undist = finish (
    fill_each average (sort_by (λ x y. ltb x.loaded y.loaded) (keys services))
      (record { services = services; undist = undist; changed = [] }))

pub too_free : MatchDisService → Bool
too_free srv = leb srv.loaded 0

pub too_busy : MatchDisService → Bool
too_busy srv = leb 10 srv.loaded

pub can_redistribute : ℕ → Bool
can_redistribute mid = true

-- The matches that a service gives up, at most so many, and those it keeps.
pub redistribute : ℕ → List ℕ → List ℕ × List ℕ
unfolding can_redistribute
redistribute zero mids = ([], mids)
redistribute (suc diff) [] = ([], [])
redistribute (suc diff) (mid ∷ mids) =
    let (moved, kept) = redistribute diff mids in
    let (moved', kept') = redistribute (suc diff) mids in
    if can_redistribute mid then (mid ∷ moved, kept) else (moved', mid ∷ kept')

-- One round of `distributeClipping`, at the matches of a service.
pub clip_one : ℕ → MatchDisService → Pass → List ℕ → Pass
unfolding replace set_insert redistribute
clip_one average srv p mids =
    let (moved, kept) = redistribute (srv.loaded - average) mids in
    record {
      services = replace srv.sid kept p.services;
      undist = p.undist ++ moved;
      changed = if length moved == 0 then p.changed else set_insert srv.sid p.changed;
    }

-- The loop of `distributeClipping`.
pub clip_each : ℕ → List MatchDisService → Pass → Option Pass
unfolding find clip_one
clip_each average [] p = some p
clip_each average (srv ∷ ordered) p =
    let rest : List ℕ → Option Pass =
      λ mids. clip_each average ordered (clip_one average srv p mids) in
    if leb srv.loaded average then some p else (find srv.sid p.services >>= rest)

-- The least loaded service is too free, or the most loaded one too busy. The list is not empty.
pub uneven : List MatchDisService → Bool
unfolding too_free too_busy last
uneven [] = false
uneven (x ∷ xs) = too_free (last x xs) || too_busy x

pub distribute_clipping : List Service → ℕ → List ℕ → Option Pass
unfolding clip_each finish sort_by keys uneven
distribute_clipping services average undist =
    let ordered = sort_by (λ x y. ltb y.loaded x.loaded) (keys services) in
    let p : Pass = record { services = services; undist = undist; changed = [] } in
    if uneven ordered then (clip_each average ordered p >>= finish) else some p

-- The services that either pass has changed.
pub also : List ℕ → Pass → Pass
unfolding set_union
also changed p = record p { changed = set_union changed p.changed }

pub again : ℕ → Pass → Option Pass
unfolding distribute_fill also
again average p =
    if length p.undist == 0
    then some p
    else (distribute_fill p.services average p.undist >>= (λ q. some (also p.changed q)))

-- `MatchDistribution::operator()`, where there are `all` matches.
unfoldable pub distribute : ℕ → List Service → List ℕ → Option Pass
unfolding distribute_fill distribute_clipping also again
distribute all [] undist = some record { services = []; undist = undist; changed = [] }
distribute all (s ∷ rest) undist =
    let services = s ∷ rest in
    let average = all / length services in
    distribute_fill services average undist >>= (λ p.
      distribute_clipping p.services average p.undist >>= (λ q. again average (also p.changed q)))
