-- ===== src/Gate/Tests.antt =====
-- The gate at concrete inputs: one client, and a match server.
use asio_utils.Base.{
  ℕ, ◌≡◌, ◌⊎◌, refl, true, false, [], ◌∷◌, ◌++◌, some, ◌==◌, if◌then◌else◌, lookup, discard, Once,
  arith,
}
use asio_utils.Net.Packet.{PacketHeader}
use asio_utils.Net.Session.{fresh}
use asio_utils.Net.Session.Outgoing.{fresh-Outgoing}
use asio_utils.Net.Connector
use asio_utils.Net.IndexPool.{each}
use asio_utils.Net.Sessions.{get_session}
use asio_utils.Net.Sessions.Given.{Given, frame, dealt, listings}
use asio_utils.Gate.{
  Gate, trans_to_client, distribute_matches_notify, remove_service, match_service_session,
  server_type_client,
}
use asio_utils.Gate.Matches.{IsServedBy, IsUnserved, distribute_matches_notify_lem}
use asio_utils.Gate.Table.{given_to}
use asio_utils.Gate.Routing.{remove_service_lem}
use asio_utils.Gate.Delivery.{HasSent, with_frame, is_in_range, trans_to_client_lem}

-- The client 77 has the id 0; 88 is the session of the match server 6, which has the match 9.
abbrev open_gate : Gate
open_gate = record {
  kernel = record {
    connect_services = (1, record { type = 3; port = 7000; sid = 6; ip = 9; session = 88 }) ∷ [];
    changes = [];
  };
  sessions = record {
    session_map = record {
      max_index = 2;
      size = 2;
      object_array = 77 ∷ 88 ∷ 0 ∷ [];
      objects = 77 ∷ 88 ∷ [];
      invalid_indexs = 2 ∷ [];
    };
    at = λ p. record (fresh true 0) {
      type = if p == 88 then 3 else 0;
      uuid = if p == 88 then 1 else 0;
    };
    client_at = λ p. record { connector = Connector.init false; retry = true };
    managed = [];
  };
  matches_services = (9, 88) ∷ [];
  matches_distri_maps = [];
  login_session = 0;
  central_session = 0;
}

-- Joining the match 9.
abbrev joining : PacketHeader
joining = record { type = 15001; size = 2; extra_id = 9 }

nothing_sent : Given open_gate.sessions.at (λ q. [])
nothing_sent q =
    let o = fresh-Outgoing true 0 in
    record {
      output_valid = o.output_valid;
      send_valid = o.send_valid;
      idle = o.idle;
      output_idle = o.output_idle;
      stream = o.stream;
    }

-- An answer to a client that has gone, with the id 2.
abbrev late : PacketHeader
late = record { type = 15002; size = 2; extra_id = 2 }

trans_to_client_lem_example :
    (p : ℕ) × (get_session 2 2 open_gate.sessions ≡ some p)
    × ((n : Gate) × (trans_to_client 2 (1 ∷ 2 ∷ []) late open_gate ≡ some n)
        × HasSent open_gate n (
            if p == 0
            then (λ q.
                []
                ++ dealt server_type_client q
                    (each open_gate.sessions.session_map)
                    (frame late (1 ∷ 2 ∷ []))
                    (open_gate.sessions.at q))
            else with_frame p (frame late (1 ∷ 2 ∷ [])) (λ q. [])))
unfolding each listings is_in_range
trans_to_client_lem_example =
    trans_to_client_lem 2 (1 ∷ 2 ∷ []) late open_gate (λ q. []) (omega arith) nothing_sent refl refl

-- A notification that gives the match 4 to the server 6, and says nothing of the match 9.
distribute_matches_notify_lem_example :
    let n = distribute_matches_notify ((6, 4 ∷ []) ∷ []) open_gate in
    ((sid : ℕ) → lookup sid n.matches_distri_maps ≡ given_to sid ((6, 4 ∷ []) ∷ []))
    × (((s : ℕ) × IsServedBy open_gate.kernel n.matches_distri_maps 9 s
          × (match_service_session 9 n ≡ s))
        ⊎ (IsUnserved open_gate.kernel n.matches_distri_maps 9
            × (match_service_session 9 n ≡ match_service_session 9 open_gate)))
distribute_matches_notify_lem_example = distribute_matches_notify_lem ((6, 4 ∷ []) ∷ []) open_gate 9

remove_service_lem_example :
    let n = remove_service 1 open_gate in
    Once n.matches_services
    × ((mid : ℕ)
        → match_service_session mid n
          ≡ (let s = match_service_session mid open_gate in if s == 88 then 0 else s))
    × (n.kernel.connect_services ≡ discard 1 open_gate.kernel.connect_services)
    × (n.login_session ≡ 0)
    × (n.sessions ≡ open_gate.sessions)
unfolding lookup Once
remove_service_lem_example =
    remove_service_lem 1 (record { type = 3; port = 7000; sid = 6; ip = 9; session = 88 }) open_gate
      (refl, tt) refl refl refl
