-- ===== src/Central/Matches.antt =====
-- CentralServer/CentralServer/Class/MatchManager/CSMatchManager.cpp: cancelling and creating matches.
-- The database gives a new match its id, and calls back with it; the request carries the match.
pub mod Cancel
pub mod Create
mod Tests
use asio_utils.Base.{
  ℕ, ◌+◌, Bool, true, false, ◌&&◌, List, [], ◌∷◌, ◌++◌, Option, none, some, ltb, leb, ◌==◌,
  if◌then◌else◌, ◌>>=◌,
}
use asio_utils.Central.Distribution.{Service, find, replace}
use asio_utils.Central.Manager.{
  Match, Manager, log, changed_match_map, cancel_to_db, create_to_db, contains, remove,
  add_undistributed,
}

unfoldable pub get_match : List (ℕ × Match) → ℕ → Option Match
get_match [] mid = none
get_match ((k, x) ∷ rest) mid = let later = get_match rest mid in if k == mid then some x else later

-- The first service that has the match; the source's -1 is `none`.
unfoldable pub owner : ℕ → List Service → Option ℕ
unfolding contains
owner mid [] = none
owner mid (e ∷ m) = let later = owner mid m in if contains mid e.mids then some e.key.sid else later

unfoldable pub get_service : ℕ → Manager → Option ℕ
unfolding owner contains
get_service mid m = if contains mid m.undist then none else owner mid m.services

-- The callback, which throws where none is set.
unfoldable pub notify : Manager → List (ℕ × List ℕ) → Option Manager
unfolding log
notify m changed = if m.has_callback then some (log m (changed_match_map changed)) else none

-- `cancelMatch` at the service found, and the matches that it has.
unfoldable pub withdraw : ℕ → Manager → ℕ → Option (List ℕ) → Option Manager
unfolding remove replace notify
withdraw mid m sid none = some m
withdraw mid m sid (some mids) =
    let kept = remove mid mids in
    notify (record m { services = replace sid kept m.services }) ((sid, kept) ∷ [])

unfoldable pub take_back : ℕ → Manager → Option ℕ → Option Manager
unfolding withdraw find
take_back mid m none = some m
take_back mid m (some sid) = if ltb 0 sid then withdraw mid m sid (find sid m.services) else some m

abbrev pub k_none_error : ℕ
k_none_error = 0

abbrev pub k_match_not_found : ℕ
k_match_not_found = 10001

abbrev pub k_match_started : ℕ
k_match_started = 10002

-- `ENUM_STATE_READY`.
abbrev pub state_ready : ℕ
state_ready = 1

-- What `cancelMatch` does in the end: out of the undistributed matches, and to the database.
unfoldable pub cancelled : ℕ → ℕ → Manager → Manager
unfolding remove log
cancelled mid reason m = log (record m { undist = remove mid m.undist }) (cancel_to_db mid reason)

unfoldable pub cancel_found : ℕ → ℕ → Manager → Option Match → Option (ℕ × Manager)
unfolding take_back get_service cancelled
cancel_found mid reason m none = some (k_match_not_found, m)
cancel_found mid reason m (some x) =
    let done = take_back mid m (get_service mid m) in
    if ltb state_ready x.match_state
    then some (k_match_started, m)
    else (done >>= (λ n. some (k_none_error, cancelled mid reason n)))

unfoldable pub cancel_match : ℕ → ℕ → Manager → Option (ℕ × Manager)
unfolding get_match cancel_found
cancel_match mid reason m = cancel_found mid reason m (get_match m.matches mid)

abbrev pub k_create_time_out : ℕ
k_create_time_out = 10101

abbrev pub k_create_has_exist : ℕ
k_create_has_exist = 10102

-- The properties that no two matches share.
unfoldable pub same_properties : Match → Match → Bool
same_properties x y =
    x.start_time == y.start_time && x.match_type == y.match_type && x.entryfee == y.entryfee

unfoldable pub exists_same : Match → List (ℕ × Match) → Bool
unfolding same_properties
exists_same x [] = false
exists_same x ((k, y) ∷ rest) =
    let later = exists_same x rest in if same_properties y x then true else later

unfoldable pub create_match_valid : ℕ → Match → List (ℕ × Match) → ℕ
unfolding exists_same
create_match_valid now x matches =
    if ltb x.start_time (now + 60)
    then k_create_time_out
    else if exists_same x matches
    then k_create_has_exist
    else k_none_error

unfoldable pub create_match : ℕ → Match → ℕ → Manager → ℕ × Manager
unfolding create_match_valid log
create_match now x promise m =
    let code = create_match_valid now x m.matches in
    (code, if code == k_none_error then log m (create_to_db x promise) else m)

-- `matches_[mid] = match`, in the order of the ids.
unfoldable pub put_match : Match → List (ℕ × Match) → List (ℕ × Match)
put_match x [] = (x.mid, x) ∷ []
put_match x ((k, y) ∷ rest) =
    let later = put_match x rest in
    if ltb x.mid k
    then (x.mid, x) ∷ (k, y) ∷ rest
    else if k == x.mid
    then (k, x) ∷ rest
    else (k, y) ∷ later

unfoldable pub put_all : List Match → List (ℕ × Match) → List (ℕ × Match)
unfolding put_match
put_all [] matches = matches
put_all (x ∷ xs) matches = put_all xs (put_match x matches)

unfoldable pub mids_of : List Match → List ℕ
mids_of [] = []
mids_of (x ∷ xs) = x.mid ∷ mids_of xs

unfoldable pub created_matches : ℕ → List Match → Manager → Manager
unfolding put_all mids_of add_undistributed
created_matches now xs m =
    add_undistributed now (mids_of xs) (record m { matches = put_all xs m.matches })

pub match_list : List (ℕ × Match) → List Match
match_list [] = []
match_list ((k, x) ∷ rest) = x ∷ match_list rest
