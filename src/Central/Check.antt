-- ===== src/Central/Check.antt =====
-- CentralServer/CentralServer/Class/MatchManager/CSMatchManager.cpp, `checkServiceDistMap`: a match server
-- tells the manager which matches it has. The list is passed by reference, and returned with the
-- answer. The load is evaluated from that list, by `checkMatchDistributeRQ`.
pub mod Answer
mod Tests
use asio_utils.Base.{ℕ, Bool, true, false, List, [], ◌∷◌, Option, none, some, ◌==◌, if◌then◌else◌}
use asio_utils.Central.Distribution.{MatchDisService, Service, find, insert, replace}
use asio_utils.Central.Manager.{Manager, others, remove, sort, update_matches_or_service}

pub data CheckError : Type 0 where
  error_no error_match_server_more error_match_server_less error_no_match error_reconnect :
      CheckError

-- `std::set_difference` of sorted ranges: each element of the second takes one from the first.
unfoldable pub remove_one : ℕ → List ℕ → List ℕ
remove_one a [] = []
remove_one a (x ∷ xs) = let rest = remove_one a xs in if a == x then xs else x ∷ rest

unfoldable pub set_difference : List ℕ → List ℕ → List ℕ
unfolding remove_one
set_difference xs [] = xs
set_difference xs (y ∷ ys) = set_difference (remove_one y xs) ys

unfoldable pub is_empty : List ℕ → Bool
is_empty [] = true
is_empty (x ∷ xs) = false

unfoldable pub remove_all : List ℕ → List ℕ → List ℕ
unfolding remove
remove_all [] undist = undist
remove_all (mid ∷ mids) undist = remove_all mids (remove mid undist)

-- What the manager, and the server, have of the matches, in order.
unfoldable pub compare_mids : List ℕ → List ℕ → CheckError
unfolding set_difference is_empty
compare_mids dist mids =
    if is_empty (set_difference mids dist)
    then (if is_empty (set_difference dist mids) then error_no else error_match_server_less)
    else error_match_server_more

unfoldable pub check_known :
    MatchDisService → List ℕ → List ℕ → Manager → CheckError × List ℕ × Manager
unfolding compare_mids replace sort
check_known service mids dist m = (
  compare_mids (sort dist) (sort mids),
  sort mids,
  record m { services = replace service.sid (sort dist) m.services },
)

unfoldable pub check_unknown :
    ℕ → MatchDisService → List ℕ → Manager → CheckError × List ℕ × Manager
unfolding insert remove_all others update_matches_or_service
check_unknown now service [] m = (error_no_match, [], update_matches_or_service now m)
check_unknown now service (mid ∷ mids) m = (
  error_reconnect,
  mid ∷ mids,
  record m {
    services = insert service (mid ∷ mids) m.services;
    undist = remove_all (mid ∷ mids) m.undist;
    changes = others service.sid m.changes;
  },
)

unfoldable pub check_found :
    ℕ → MatchDisService → List ℕ → Manager → Option (List ℕ) → CheckError × List ℕ × Manager
unfolding check_known check_unknown
check_found now service mids m none = check_unknown now service mids m
check_found now service mids m (some dist) = check_known service mids dist m

unfoldable pub check_service_dist_map :
    ℕ → MatchDisService → List ℕ → Manager → CheckError × List ℕ × Manager
unfolding check_found find
check_service_dist_map now service mids m =
    check_found now service mids m (find service.sid m.services)
