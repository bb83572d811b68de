-- ===== src/Central/Manager.antt =====
-- CentralServer/CentralServer/Class/MatchManager/CSMatchManager.cpp: the matches, the servers that run
-- them, and the changes that wait for the next round. The clock is an argument `now`; what the
-- manager asks of its timer, of the database thread and of its callback is logged in `effects`,
-- oldest first. A message to the database is logged by its kind and by the match it is about.
mod Lists
pub mod Keys
pub mod Round
pub mod Pending
mod Tests
unfoldable pub use Lists.*
use asio_utils.Base.{
  ℕ, ◌+◌, Bool, true, false, ◌&&◌, List, [], ◌∷◌, ◌++◌, Option, none, some, ltb, leb, ◌==◌,
  if◌then◌else◌, length, map, ◌>>=◌,
}
use asio_utils.Central.Distribution.{
  MatchDisService, Service, Pass, find, erase, insert, replace, distribute,
}

-- What the manager reads of a `CPGMatchProfile`.
pub record Match : Type 0 where
  pub mid : ℕ
  pub match_state : ℕ
  pub match_type : ℕ
  pub start_time : ℕ
  pub entryfee : ℕ

pub data ChangeType : Type 0 where
  added update removed : ChangeType

pub record ChangedService : Type 0 where
  pub type : ChangeType
  pub service : MatchDisService
  pub stamp : ℕ

pub data Effect : Type 0 where
  timer_started timer_cancelled : Effect
  cancel_to_db : ℕ → ℕ → Effect
  create_to_db : Match → ℕ → Effect
  changed_match_map : List (ℕ × List ℕ) → Effect

pub record Manager : Type 0 where
  pub matches : List (ℕ × Match)
  pub services : List Service
  pub changes : List ChangedService
  pub undist : List ℕ
  pub has_timer : Bool
  pub has_callback : Bool
  pub latest_update : ℕ
  pub effects : List Effect

abbrev pub update_duration : ℕ
update_duration = 25

unfoldable pub log : Manager → Effect → Manager
log m e = record m { effects = m.effects ++ e ∷ [] }

pub get_dist_match : List Service → ℕ → List ℕ
unfolding find
get_dist_match services sid = elim (find sid services) [ none ↦ [] | some mids ↦ mids ]

unfoldable pub start_timer : Manager → Manager
unfolding log
start_timer m = if m.has_timer then m else record (log m timer_started) { has_timer = true }

pub stop_timer : Manager → Manager
unfolding log
stop_timer m = if m.has_timer then record (log m timer_cancelled) { has_timer = false } else m

unfoldable pub update_matches_or_service : ℕ → Manager → Manager
unfolding start_timer
update_matches_or_service now m = start_timer (record m { latest_update = now })

unfoldable pub add_undistributed : ℕ → List ℕ → Manager → Manager
unfolding update_matches_or_service merge sort unique
add_undistributed now mids m =
    update_matches_or_service now (record m { undist = unique (sort (merge m.undist mids)) })

-- The changes that are about other services.
unfoldable pub others : ℕ → List ChangedService → List ChangedService
others sid [] = []
others sid (c ∷ cs) = let rest = others sid cs in if c.service.sid == sid then rest else c ∷ rest

-- What waits for the next round when a service has connected, or reported its load.
unfoldable pub connected_change : ℕ → MatchDisService → Manager → ChangedService
unfolding find
connected_change now key m = record {
  type = elim (find key.sid m.services) [ none ↦ added | some mids ↦ update ];
  service = key;
  stamp = now;
}

unfoldable pub update_match_service : ℕ → MatchDisService → Manager → Manager
unfolding others update_matches_or_service connected_change
update_match_service now key m =
    update_matches_or_service now
      (record m { changes = others key.sid m.changes ++ connected_change now key m ∷ [] })

pub is_added : ChangeType → Bool
is_added added = true
is_added update = false
is_added removed = false

pub is_removed : ChangeType → Bool
is_removed added = false
is_removed update = false
is_removed removed = true

pub is_update : ChangeType → Bool
is_update added = false
is_update update = true
is_update removed = false

-- A change of the service that says it has just been added.
pub was_added : ℕ → List ChangedService → Bool
unfolding is_added
was_added sid [] = false
was_added sid (c ∷ cs) =
    let rest = was_added sid cs in if c.service.sid == sid && is_added c.type then true else rest

-- What waits when a service is lost: nothing, where its arrival was still waiting.
pub removed_changes : ℕ → MatchDisService → List ChangedService → List ChangedService
unfolding others was_added
removed_changes now key cs =
    let left = others key.sid cs in
    let change : ChangedService = record { type = removed; service = key; stamp = now } in
    if was_added key.sid cs then left else left ++ change ∷ []

pub remove_match_service : ℕ → MatchDisService → Manager → Manager
unfolding removed_changes update_matches_or_service
remove_match_service now key m =
    update_matches_or_service now (record m { changes = removed_changes now key m.changes })

pub check_due : ℕ → Manager → Bool
check_due now m = leb (m.latest_update + update_duration) now

-- The first pass of `updateDistMatchServices`: services, the matches gathered, the changes left.
pub settle_removed : List ChangedService → List Service → List ℕ → List Service × List ℕ
unfolding is_removed erase merge get_dist_match
settle_removed [] services gathered = (services, gathered)
settle_removed (c ∷ cs) services gathered =
    let gone =
      settle_removed cs (erase c.service.sid services)
        (merge gathered (get_dist_match services c.service.sid)) in
    let rest = settle_removed cs services gathered in if is_removed c.type then gone else rest

-- The second: the loads that updates bring.
settle_found : MatchDisService → List Service → Option (List ℕ) → List Service
unfolding erase insert
settle_found key services none = services
settle_found key services (some mids) = insert key mids (erase key.sid services)

pub settle_one : MatchDisService → List Service → List Service
unfolding find settle_found
settle_one key services = settle_found key services (find key.sid services)

pub settle_updates : List ChangedService → List Service → List Service
unfolding is_update settle_one
settle_updates [] services = services
settle_updates (c ∷ cs) services =
    let changed = settle_updates cs (settle_one c.service services) in
    let rest = settle_updates cs services in if is_update c.type then changed else rest

-- The third: the services that are added.
add_found : MatchDisService → List Service → Option (List ℕ) → List Service
unfolding insert replace
add_found key services none = insert key [] services
add_found key services (some []) = replace key.sid [] services
add_found key services (some (x ∷ mids)) = services

pub add_one : MatchDisService → List Service → List Service
unfolding find add_found
add_one key services = add_found key services (find key.sid services)

pub settle_added : List ChangedService → List Service → List Service
unfolding is_added add_one
settle_added [] services = services
settle_added (c ∷ cs) services =
    let changed = settle_added cs (add_one c.service services) in
    let rest = settle_added cs services in if is_added c.type then changed else rest

changed_map : List Service → List ℕ → List (ℕ × List ℕ)
unfolding get_dist_match
changed_map services [] = []
changed_map services (sid ∷ sids) = (sid, get_dist_match services sid) ∷ changed_map services sids

-- What follows the distribution. The list that is tested is the one that `merge` has emptied.
settled : Manager → Pass → Manager
unfolding changed_map log start_timer
settled m p =
    let n : Manager = record m { services = p.services; undist = p.undist; changes = [] } in
    let gathered : List ℕ = [] in
    let n' = if length gathered == 0 then n else start_timer n in
    if m.has_callback then log n' (changed_match_map (changed_map p.services p.changed)) else n'

-- What `updateDistMatchServices` does when it is due.
pub round : Manager → Option Manager
unfolding settle_removed settle_updates settle_added distribute merge settled
round m =
    let (services, gathered) = settle_removed m.changes m.services [] in
    let ready = settle_added m.changes (settle_updates m.changes services) in
    distribute (length m.matches) ready (merge m.undist gathered) >>= (λ p. some (settled m p))

pub update_dist : ℕ → Manager → Option Manager
unfolding stop_timer check_due round start_timer
update_dist now m =
    let s = stop_timer m in if check_due now s then round s else some (start_timer s)
