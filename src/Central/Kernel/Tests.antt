-- ===== src/Central/Kernel/Tests.antt =====
-- CSKernel.cpp at concrete tables.
use asio_utils.Base.{
  ℕ, ◌-◌, ◌^◌, ◌≡◌, refl, [], ◌∷◌, Option, none, some, true, false, ◌>>=◌, lookup, arith,
}
use asio_utils.Net.Session.{fresh}
use asio_utils.Central.Kernel.{
  ServerInfo, new_server_info, Request, Kernel, invalid_lid, to_session, transmit, gate_answer,
  best_gate, server_regist_rq, request_best_gate_server,
}
use asio_utils.Central.Kernel.Stale.{stale_sid_lem}
use asio_utils.Central.Kernel.Gates.{NoNull, gates, IsLeastLoaded, request_best_gate_server_lem}

abbrev gate_of : ℕ → ℕ → ServerInfo
gate_of sid loaded = record new_server_info {
  type = 1;
  sid = sid;
  loaded = loaded;
  listeners = record { type = 0; port = 9000; ip = 7 } ∷ [];
}

-- Two gates, and a match server.
abbrev three_servers : Kernel
three_servers = record {
  servers =
      (5, some (gate_of 5 8))
      ∷ (6, some (gate_of 6 3))
      ∷ (7, some (record new_server_info { type = 3; sid = 7 }))
      ∷ [];
  at = λ p. record (fresh true 0) { type = 3; uuid = 9 };
  manager = record {
    matches = [];
    services = [];
    changes = [];
    undist = [];
    has_timer = false;
    has_callback = true;
    latest_update = 0;
    effects = [];
  };
  sent = [];
}

less_loaded : best_gate three_servers.servers (2 ^ 31 - 1) none ≡ some (some (gate_of 6 3))
unfolding best_gate
less_loaded = refl

request_best_gate_server_lem_example :
    (b : Option ServerInfo) × IsLeastLoaded (gates three_servers.servers) b
    × (request_best_gate_server 40 true 2 three_servers
        ≡ some (transmit (to_session 40) 17002 2 (gate_answer b) three_servers))
unfolding NoNull
request_best_gate_server_lem_example = request_best_gate_server_lem 40 2 three_servers tt

-- A match server that had the id 2 before the central server was started again.
abbrev came_back : Request
came_back = record { sid = 2; listeners = []; connect_types = [] }

stale_sid_lem_example :
    (server_regist_rq 100 50 (some came_back) three_servers >>= request_best_gate_server 40 true 2)
    ≡ none
unfolding lookup
stale_sid_lem_example =
    stale_sid_lem 100 50 40 2 came_back three_servers (omega arith) (omega arith) refl (omega arith)

-- A new match server that connects to gates, with a listener for gates.
abbrev new_match_server : Request
new_match_server = record {
  sid = invalid_lid;
  listeners = record { type = 1; port = 9001; ip = 7 } ∷ [];
  connect_types = 1 ∷ [];
}
