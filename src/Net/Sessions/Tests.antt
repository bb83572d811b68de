-- ===== src/Net/Sessions/Tests.antt =====
-- TCPSessionManager.cpp with two sessions.
use asio_utils.Base.{
  ℕ, ◌≡◌, refl, true, false, List, [], ◌∷◌, none, some, arith, ◌==◌, if◌then◌else◌,
}
use asio_utils.Net.Packet.{PacketHeader}
use asio_utils.Net.Session.{State, Handlers, fresh}
use asio_utils.Net.Session.Outgoing.{fresh-Outgoing}
use asio_utils.Net.Connector
use asio_utils.Net.IndexPool.{init, each}
use asio_utils.Net.IndexPool.Slots.{init-IsValid}
use asio_utils.Net.Sessions.{
  Sessions, Client, add_session, get_session, remove_session, send_msg, send_msg_to,
}
use asio_utils.Net.Sessions.Deliver.{given_by, send_msg_lem}
use asio_utils.Net.Sessions.Given.{Given, frame, listings}
use asio_utils.Net.Sessions.Ids.{ids_lem}

abbrev client_of : ℕ → Client
client_of p = record { connector = Connector.init false; retry = true }

abbrev none_yet : Sessions
none_yet = record {
  session_map = init 2;
  at = λ p. fresh true 0;
  client_at = client_of;
  managed = [];
}

abbrev hello : PacketHeader
hello = record { type = 5; size = 2; extra_id = 0 }

nothing_yet : Given none_yet.at (λ q. [])
nothing_yet q = fresh-Outgoing true 0

-- Two sessions that the manager has, of type 0.
abbrev listed : Sessions
listed = record none_yet {
  session_map = record {
    max_index = 2;
    size = 2;
    object_array = 77 ∷ 88 ∷ 0 ∷ [];
    objects = 77 ∷ 88 ∷ [];
    invalid_indexs = 2 ∷ [];
  };
}

-- To every session of the type.
send_msg_lem_example :
    (n : Sessions) × (send_msg 0 (1 ∷ 2 ∷ []) hello 0 listed ≡ some n)
    × Given n.at (given_by 0 (frame hello (1 ∷ 2 ∷ [])) 0 listed (λ q. []))
unfolding each listings
send_msg_lem_example =
    send_msg_lem 0 (1 ∷ 2 ∷ []) hello 0 listed (λ q. []) refl (omega arith) nothing_yet

ids_lem_example :
    let n = add_session 2 77 none_yet in
    let uuid = (n.at 77).uuid in
    ((id : ℕ) → get_session 2 id n ≡ (if id == uuid then some 77 else get_session 2 id none_yet))
    × (get_session 2 uuid (remove_session 2 uuid n) ≡ some 0)
    × ((body : List ℕ) (header : PacketHeader) (stype : ℕ)
        → send_msg_to 2 uuid body header stype (remove_session 2 uuid n)
          ≡ send_msg 0 body header stype (remove_session 2 uuid n))
unfolding init
ids_lem_example =
    ids_lem 2 77 none_yet (init-IsValid 2) (omega arith) (omega arith) (omega arith) (λ h. h)

-- Callbacks that do nothing.
abbrev quiet : Handlers
quiet = record {
  message = some;
  write_complete = none;
  connection = none;
  close = none;
  on_close = some;
  send_init_data = some;
}

-- A client session that has closed.
abbrev closed : Sessions
closed = record none_yet {
  at = λ p. record (fresh false 0) { state = State.disconnected; client = true };
}
