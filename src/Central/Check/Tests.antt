-- ===== src/Central/Check/Tests.antt =====
-- A match server that comes back while another has its matches.
use asio_utils.Base.{◌≡◌, refl, [], ◌∷◌, true, false, count}
use asio_utils.Central.Distribution.{MatchDisService, find}
use asio_utils.Central.Distribution.Keeps.{held}
use asio_utils.Central.Manager.{Manager}
use asio_utils.Central.Check.{check_service_dist_map}

-- The server 3 has the match 7, and the match 8 waits.
abbrev given_away : Manager
given_away = record {
  matches = [];
  services = record { key = record { sid = 3; loaded = 1 }; mids = 7 ∷ [] } ∷ [];
  changes = [];
  undist = 8 ∷ [];
  has_timer = false;
  has_callback = true;
  latest_update = 0;
  effects = [];
}

abbrev back_again : MatchDisService
back_again = record { sid = 4; loaded = 2 }

-- The server 4 comes back with both matches: two servers have the match 7.
had_twice : held 7 (check_service_dist_map 100 back_again (7 ∷ 8 ∷ []) given_away).2.services ≡ 2
unfolding held count check_service_dist_map find
had_twice = refl
