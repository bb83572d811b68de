-- ===== src/Central/Matches/Tests.antt =====
-- Cancelling and creating matches at a concrete manager.
use asio_utils.Base.{ℕ, ◌≡◌, ◌≢◌, ◌≤◌, ◌+◌, refl, [], ◌∷◌, some, arith, true, false, ◌||◌, count}
use asio_utils.Central.Distribution.Keeps.{Ordered, held}
use asio_utils.Central.Manager.{
  Match, Manager, changed_match_map, cancel_to_db, create_to_db, contains, log, get_dist_match,
}
use asio_utils.Central.Matches.{
  k_none_error, state_ready, get_match, cancel_match, create_match, created_matches, mids_of,
  k_create_has_exist,
}
use asio_utils.Central.Matches.Create.{created_matches_lem}
use asio_utils.Central.Matches.Cancel.{cancel_match_lem}

abbrev game : ℕ → Match
game mid = record { mid = mid; match_state = 1; match_type = 0; start_time = 5000; entryfee = 10 }

-- A server that has match 7, while 8 is undistributed.
abbrev running : Manager
running = record {
  matches = (7, game 7) ∷ (8, game 8) ∷ [];
  changes = [];
  has_timer = false;
  has_callback = true;
  latest_update = 0;
  effects = [];
  services = record { key = record { sid = 3; loaded = 1 }; mids = 7 ∷ [] } ∷ [];
  undist = 8 ∷ [];
}

abbrev quiet : Manager
quiet = record running {
  services = record { key = record { sid = 3; loaded = 1 }; mids = [] } ∷ [];
  effects = changed_match_map ((3, []) ∷ []) ∷ cancel_to_db 7 2 ∷ [];
}

quiet_lem : cancel_match 7 2 running ≡ some (k_none_error, quiet)
unfolding cancel_match
quiet_lem = refl

running-once : held 7 running.services + count 7 running.undist ≤ 1
unfolding held count
running-once = omega arith

cancel_match_lem_example :
    (held 7 quiet.services + count 7 quiet.undist ≡ 0)
    × ((x : ℕ)
        → x ≢ 7
        → ((sid : ℕ)
            → count x (get_dist_match quiet.services sid)
              ≡ count x (get_dist_match running.services sid))
          × (held x quiet.services ≡ held x running.services)
          × (count x quiet.undist ≡ count x running.undist))
    × ((x : Match) × (get_match running.matches 7 ≡ some x) × (x.match_state ≤ state_ready))
cancel_match_lem_example =
    cancel_match_lem 7 2 running quiet (Ordered.cons (omega arith) Ordered.nil) running-once
      quiet_lem

-- The same start, type and fee as match 7, but for the start.
abbrev later_game : Match
later_game = record (game 0) { start_time = 6000 }

sent :
    create_match 5000 later_game 1 running ≡ (k_none_error, log running (create_to_db later_game 1))
unfolding create_match log
sent = refl

refused : create_match 4000 (game 0) 1 running ≡ (k_create_has_exist, running)
unfolding create_match log
refused = refl

created_matches_lem_example :
    (contains 9 (created_matches 4000 (game 9 ∷ []) running).undist
      ≡ (contains 9 running.undist || contains 9 (mids_of (game 9 ∷ []))))
    × (contains 9 (mids_of (game 9 ∷ [])) ≡ false
        → get_match (created_matches 4000 (game 9 ∷ []) running).matches 9
          ≡ get_match running.matches 9)
    × (contains 9 (mids_of (game 9 ∷ [])) ≡ true
        → (y : Match) × (get_match (created_matches 4000 (game 9 ∷ []) running).matches 9 ≡ some y)
          × (y.mid ≡ 9))
created_matches_lem_example = created_matches_lem 4000 (game 9 ∷ []) running 9
