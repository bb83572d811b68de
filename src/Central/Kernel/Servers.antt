-- ===== src/Central/Kernel/Servers.antt =====
-- CSKernel.cpp: the table of the servers, and what is sent.
use asio_utils.Base.{
  ℕ, List, [], ◌∷◌, ◌++◌, Option, none, some, ◌==◌, if◌then◌else◌, lookup, assign, discard,
}
use asio_utils.Net.Session.{Session}
use asio_utils.Central.Distribution.{MatchDisService}
use asio_utils.Central.Manager.{Manager, remove_match_service}

pub record Listener : Type 0 where
  pub type : ℕ
  pub port : ℕ
  pub ip : ℕ

pub record ServerInfo : Type 0 where
  pub type : ℕ
  pub sid : ℕ
  pub connect_times : ℕ
  pub last_heart_times : ℕ
  pub loaded : ℕ
  pub listeners : List Listener
  pub connect_types : List ℕ

abbrev pub new_server_info : ServerInfo
new_server_info = record {
  type = 0;
  sid = 0;
  connect_times = 0;
  last_heart_times = 0;
  loaded = 0;
  listeners = [];
  connect_types = [];
}

-- `CPGServer::ServerRegisterRQ`, and the endpoint of a server in the answers.
pub record Request : Type 0 where
  pub sid : ℕ
  pub listeners : List Listener
  pub connect_types : List ℕ

pub record Endpoint : Type 0 where
  pub type : ℕ
  pub port : ℕ
  pub sid : ℕ
  pub ip : ℕ

pub data Message : Type 0 where
  server_register_rs : ℕ → ℕ → List Endpoint → Message
  new_conn_service : Endpoint → Message
  connect_rs : ℕ → Option (ℕ × ℕ) → Message
  match_distribute : ℕ → List ℕ → Message
  all_match_distribute : List (ℕ × List ℕ) → Message
  check_match_distribute_rs : ℕ → ℕ → ℕ → List ℕ → Message

pub data Target : Type 0 where
  to_session to_id to_type : ℕ → Target

pub record Sent : Type 0 where
  pub target : Target
  pub type : ℕ
  pub extra_id : ℕ
  pub message : Message

pub record Kernel : Type 0 where
  pub servers : List (ℕ × Option ServerInfo)
  pub at : ℕ → Session
  pub manager : Manager
  pub sent : List Sent

-- -1, as an `int32`.
abbrev pub invalid_lid : ℕ
invalid_lid = 0xffff_ffff

unfoldable pub transmit : Target → ℕ → ℕ → Message → Kernel → Kernel
transmit target type extra message k = record k {
  sent =
      k.sent ++ record { target = target; type = type; extra_id = extra; message = message } ∷ [];
}

unfoldable pub get_found : ℕ → Kernel → Option (Option ServerInfo) → Option ServerInfo × Kernel
unfolding assign
get_found sid k (some info) = (info, k)
get_found sid k none =
    (some new_server_info, record k { servers = assign sid (some new_server_info) k.servers })

-- A server that is not there is made.
unfoldable pub get_service : ℕ → Kernel → Option ServerInfo × Kernel
unfolding get_found lookup
get_service sid k = get_found sid k (lookup sid k.servers)

unfoldable pub remove_found : ℕ → ℕ → Kernel → Option (Option ServerInfo) → Option Kernel
unfolding discard
remove_found now sid k none = some k
remove_found now sid k (some none) = none
remove_found now sid k (some (some info)) =
    let key : MatchDisService = record { sid = info.sid; loaded = info.loaded } in
    let lost = remove_match_service now key k.manager in
    some (record k {
      servers = discard sid k.servers;
      manager = if info.type == 3 then lost else k.manager;
    })

unfoldable pub remove_service : ℕ → ℕ → Kernel → Option Kernel
unfolding remove_found lookup
remove_service now sid k = remove_found now sid k (lookup sid k.servers)
