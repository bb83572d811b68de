-- ===== src/Central/Manager/Tests.antt =====
-- CSMatchManager.cpp at a concrete manager.
use asio_utils.Base.{ℕ, ◌≡◌, ◌+◌, [], ◌∷◌, some, arith, true, false, count}
use asio_utils.Central.Distribution.{MatchDisService, find}
use asio_utils.Central.Distribution.Keeps.{Ordered, held}
use asio_utils.Central.Manager.{
  Match, Manager, update_dist, update_match_service, remove_match_service, others, is_added,
  connected_change,
}
use asio_utils.Central.Manager.Round.{update_dist_conserves}
use asio_utils.Central.Manager.Pending.{Single, about, pending_lem}

abbrev game : ℕ → Match
game mid = record { mid = mid; match_state = 1; match_type = 0; start_time = 5000; entryfee = 10 }

abbrev server : MatchDisService
server = record { sid = 3; loaded = 0 }

-- Two matches, and a server that has just connected.
abbrev idle : Manager
idle = record {
  matches = (7, game 7) ∷ (8, game 8) ∷ [];
  services = [];
  changes = [];
  undist = 7 ∷ 8 ∷ [];
  has_timer = false;
  has_callback = true;
  latest_update = 0;
  effects = [];
}

abbrev waiting : Manager
waiting = update_match_service 100 server idle

update_dist_conserves_example :
    (n : Manager) × (update_dist 130 waiting ≡ some n)
    × Ordered 0 n.services
    × ((x : ℕ)
        → held x n.services + count x n.undist ≡ held x waiting.services + count x waiting.undist)
    × (n.matches ≡ waiting.matches)
unfolding update_match_service
update_dist_conserves_example = update_dist_conserves 130 waiting Ordered.nil

idle-Single : Single idle.changes
unfolding about
idle-Single sid = omega arith

pending_lem_example :
    Single (update_match_service 100 server idle).changes
    × Single (remove_match_service 100 server idle).changes
    × (about 3 (update_match_service 100 server idle).changes ≡ 1)
    × (others 3 (update_match_service 100 server idle).changes ≡ others 3 idle.changes)
    × (others 3 (remove_match_service 100 server idle).changes ≡ others 3 idle.changes)
    × ((remove_match_service 105 server (update_match_service 100 server idle)).changes
        ≡ others 3 idle.changes)
unfolding is_added connected_change find
pending_lem_example = pending_lem 100 105 server idle idle-Single
