-- ===== src/Central/Kernel/Register.antt =====
-- CSKernel.cpp: a server that registers, and what it and the others are told.
use asio_utils.Base.{
  ℕ, ◌+◌, ◌%◌, ◌^◌, ◌||◌, List, [], ◌∷◌, ◌++◌, Option, none, some, leb, ◌==◌, if◌then◌else◌, ◌>>=◌,
  length, map, lookup, assign,
}
use asio_utils.Net.Sessions.{put}
use asio_utils.Central.Distribution.{MatchDisService, Service}
use asio_utils.Central.Manager.{update_match_service}
use asio_utils.Central.Kernel.Servers.{
  Listener, ServerInfo, new_server_info, Request, Endpoint, server_register_rs, new_conn_service,
  all_match_distribute, to_session, to_type, Kernel, invalid_lid, transmit,
}

-- The listeners of a server that a kind of session connects to.
unfoldable pub endpoints_of : ℕ → ℕ → ServerInfo → List Listener → List Endpoint
endpoints_of type kind info [] = []
endpoints_of type kind info (l ∷ ls) =
    let rest = endpoints_of type kind info ls in
    if kind == l.type
    then record { type = type; port = l.port; sid = info.sid; ip = l.ip } ∷ rest
    else rest

unfoldable pub servers_of : ℕ → ℕ → List (ℕ × Option ServerInfo) → Option (List Endpoint)
unfolding endpoints_of
servers_of type kind [] = some []
servers_of type kind ((sid, none) ∷ servers) = none
servers_of type kind ((sid, some info) ∷ servers) =
    let here = if info.type == type then endpoints_of type kind info info.listeners else [] in
    (servers_of type kind servers >>= (λ rest. some (here ++ rest)))

unfoldable pub conn_servers : ℕ → List (ℕ × Option ServerInfo) → List ℕ → Option (List Endpoint)
unfolding servers_of
conn_servers kind servers [] = some []
conn_servers kind servers (type ∷ types) =
    servers_of type kind servers
    >>= (λ here. conn_servers kind servers types >>= (λ rest. some (here ++ rest)))

unfoldable pub announce : ServerInfo → List Listener → Kernel → Kernel
unfolding transmit
announce info [] k = k
announce info (l ∷ ls) k =
    let conn : Endpoint = record { type = info.type; port = l.port; sid = info.sid; ip = l.ip } in
    announce info ls (transmit (to_type l.type) 5005 0 (new_conn_service conn) k)

unfoldable pub server_regist_rs : ℕ → ServerInfo → Kernel → Option Kernel
unfolding conn_servers announce transmit
server_regist_rs p info k = conn_servers (k.at p).type k.servers info.connect_types >>= (λ conns.
    some (
      announce info info.listeners
        (transmit (to_session p) 5002 0 (server_register_rs 0 info.sid conns) k)))

unfoldable pub entries : List Service → List (ℕ × List ℕ)
entries services = map (λ s. (s.key.sid, s.mids)) services

-- `session` is 0 for `nullptr`, which sends to all of the type.
unfoldable pub send_all_distribute_match_infos : ℕ → ℕ → Kernel → Kernel
unfolding transmit entries
send_all_distribute_match_infos session stype k =
    transmit (if session == 0 then to_type stype else to_session session) 5006 0
      (all_match_distribute (entries k.manager.services)) k

-- The source's casts of a listener's numbers.
unfoldable pub narrow : Listener → Listener
narrow l = record { type = l.type % 2 ^ 8; port = l.port % 2 ^ 16; ip = l.ip }

-- The table, the memory and the server that a registration finds or makes.
unfoldable pub fresh_server : ℕ → Request → Kernel → ℕ × ServerInfo × Kernel
unfolding assign narrow
fresh_server p rq k =
    let uuid = (k.at p).uuid in
    let info = record new_server_info {
      sid = uuid;
      listeners = map narrow rq.listeners;
      connect_types = rq.connect_types;
    } in
    (
      uuid,
      info,
      record k {
        servers = assign uuid (some info) k.servers;
        at = put k.at p (record (k.at p) { logic_id = uuid });
      },
    )

-- `servers_[rq.sid()] == nullptr` puts a null pointer where there is nothing.
unfoldable pub known_server :
    ℕ → Request → Kernel → Option (Option ServerInfo) → ℕ × ServerInfo × Kernel
unfolding fresh_server assign
known_server p rq k (some (some info)) = (rq.sid, info, k)
known_server p rq k (some none) = fresh_server p rq k
known_server p rq k none = fresh_server p rq (record k { servers = assign rq.sid none k.servers })

-- A size is below 2 ^ 31, so that a negative id, as a bit pattern, is above it too.
unfoldable pub registered : ℕ → Request → Kernel → ℕ × ServerInfo × Kernel
unfolding fresh_server known_server lookup
registered p rq k =
    if rq.sid == invalid_lid || leb (length k.servers) rq.sid
    then fresh_server p rq k
    else known_server p rq k (lookup rq.sid k.servers)

-- `serverRegistRQ` after its answer: the manager or the gate learns of it.
unfoldable pub inform : ℕ → ℕ → ServerInfo → Kernel → Kernel
unfolding send_all_distribute_match_infos update_match_service
inform now p info k =
    let type = (k.at p).type in
    let key : MatchDisService = record { sid = info.sid; loaded = info.loaded } in
    let told = record k { manager = update_match_service now key k.manager } in
    if type == 3 then told else if type == 1 then send_all_distribute_match_infos p 1 k else k

unfoldable pub met : ℕ → ℕ → ServerInfo → ServerInfo
met now type old = record old {
  type = type;
  connect_times = (old.connect_times + 1) % 2 ^ 32;
  last_heart_times = now;
}

-- `info` is shared with the table: what is written to it is seen there.
unfoldable pub welcome : ℕ → ℕ → ℕ × ServerInfo × Kernel → Option Kernel
unfolding assign server_regist_rs inform met
welcome now p (sid, old, k) =
    let info = met now (k.at p).type old in
    server_regist_rs p info (record k { servers = assign sid (some info) k.servers })
    >>= (λ n. some (inform now p info n))

unfoldable pub server_regist_rq : ℕ → ℕ → Option Request → Kernel → Option Kernel
unfolding transmit registered welcome
server_regist_rq now p none k =
    some (transmit (to_session p) 5002 0 (server_register_rs invalid_lid 0 []) k)
server_regist_rq now p (some rq) k = welcome now p (registered p rq k)
