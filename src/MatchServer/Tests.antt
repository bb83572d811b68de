-- ===== src/MatchServer/Tests.antt =====
-- A match server that plays two matches, and one that has lost a match.
use asio_utils.Base.{ℕ, ◌-◌, ◌^◌, ◌≡◌, refl, true, false, List, [], ◌∷◌, none, some, lookup}
use asio_utils.Net.Session.{fresh}
use asio_utils.Central.Distribution.{find}
use asio_utils.Central.Manager.{Manager}
use asio_utils.Central.Kernel.{Kernel}
use asio_utils.MatchServer.{
  MatchManager, MatchServer, JoinRequest, M2CSession, update_matches, join_match, unjoin_match,
  check_match_distribute_rq, server_register_rq, send_init_data, no_match,
}
use asio_utils.MatchServer.Counts.{
  Operation, update, join, unjoin, run, players, add, answer, players_lem,
}
use asio_utils.MatchServer.Central.{hear, exchange}

abbrev request : ℕ → JoinRequest
request mid = record { uid = 1; mid = mid; mtype = 0 }

abbrev two_matches : MatchManager
two_matches = record { matches = 7 ∷ 8 ∷ []; infos = (7, 5) ∷ (8, 0) ∷ [] }

abbrev some_operations : List Operation
some_operations =
    join (request 7)
    ∷ join (request 8)
    ∷ update (9 ∷ 7 ∷ [])
    ∷ join (request 9)
    ∷ unjoin (request 7)
    ∷ unjoin (request 7)
    ∷ []

-- The same user joins twice, and leaves a match that has no players: the answer is -1 in both senses.
played :
    (lookup 7 (run some_operations two_matches).infos ≡ some 4)
    × (lookup 8 (run some_operations two_matches).infos ≡ none)
    × ((unjoin_match 1 8 0 two_matches).0 ≡ no_match)
    × ((unjoin_match 1 9 0 two_matches).0 ≡ no_match)
unfolding run update_matches join_match unjoin_match lookup
played = (refl, refl, refl, refl)

players_lem_example :
    let o = players 7 some_operations (some 5) in
    (lookup 7 (run some_operations two_matches).infos ≡ o)
    × ((join_match 1 7 0 (run some_operations two_matches)).0 ≡ answer (add 1 o))
    × ((unjoin_match 1 7 0 (run some_operations two_matches)).0 ≡ answer (add (2 ^ 32 - 1) o))
unfolding lookup
players_lem_example = players_lem some_operations two_matches 7 1 0

abbrev one_server : Manager
one_server = record {
  matches = [];
  services = record { key = record { sid = 3; loaded = 2 }; mids = 7 ∷ 8 ∷ [] } ∷ [];
  changes = [];
  undist = [];
  has_timer = false;
  has_callback = true;
  latest_update = 0;
  effects = [];
}

abbrev central_kernel : Kernel
central_kernel = record {
  servers = [];
  at = λ p. record (fresh true 0) { logic_id = 3 };
  manager = one_server;
  sent = [];
}

-- It has the match 7 only.
abbrev one_match : MatchServer
one_match = record {
  manager = record { matches = 7 ∷ []; infos = (7, 5) ∷ [] };
  central_session = 1;
  sent = [];
}

abbrev central_link : M2CSession
central_link = record { address = 1; uuid = 0; logic_id = 3; first_connect = false }

-- The question that it asks when it has connected again.
asks :
    (send_init_data central_link one_match).1.sent
    ≡ record { session = 1; type = 5001; extra_id = 0; message = server_register_rq 3 3 }
      ∷ record {
        session = 1;
        type = 5003;
        extra_id = 0;
        message = check_match_distribute_rq 3 3 (7 ∷ []);
      }
      ∷ []
unfolding send_init_data
asks = refl

abbrev left_over : List ℕ
left_over = (exchange 100 9 central_kernel one_match).1.manager.matches

lost : left_over ≡ []
unfolding exchange fresh find hear
lost = refl
