-- ===== src/Gate.antt =====
-- GateWay/GateWay/GSKernel.cpp, and the message handlers of ClientSession.cpp, G2CSession.cpp,
-- G2LSession.cpp and G2MSession.cpp there: where the gate passes a message on, and how it learns which
-- match server has a match. A session is its address, 0 is `nullptr`; a message is its header and body.
-- A type of message is an `int`: a negative one, as a bit pattern, is above every range too. What
-- `parseProtoMsg` makes of a notification is an argument; a notification that cannot be parsed has
-- no effect. `max_num` is that of the session manager's pool.
pub mod Routing
pub mod Table
pub mod Matches
pub mod Delivery
mod Tests
use asio_utils.Base.{
  ℕ, ◌+◌, ◌%◌, ◌^◌, Bool, true, false, ◌&&◌, List, [], ◌∷◌, Option, none, some, ltb, leb, ◌==◌,
  if◌then◌else◌, ◌>>=◌, lookup, assign,
}
use asio_utils.Net.Packet.{PacketHeader}
use asio_utils.Net.Session.{Session}
use asio_utils.Net.Services.{
  ServiceKernel, Change, k_connect, k_update, k_close, set_logic_id, connect_service_session,
  remove_service_session, ServiceConfig, add_new_connect,
}
use asio_utils.Net.Sessions.{Sessions, send_msg, send_msg_to}

pub record Gate : Type 0 where
  pub kernel : ServiceKernel
  pub sessions : Sessions
  -- The session of the match server of a match, by the match's id.
  pub matches_services : List (ℕ × ℕ)
  -- The last notification, by the service's id.
  pub matches_distri_maps : List (ℕ × List ℕ)
  pub login_session : ℕ
  pub central_session : ℕ

abbrev pub server_type_client : ℕ
server_type_client = 0

abbrev pub server_type_login_server : ℕ
server_type_login_server = 2

abbrev pub server_type_match_server : ℕ
server_type_match_server = 3

abbrev pub server_type_central_server : ℕ
server_type_central_server = 5

abbrev k_server_all_match_distribute_notify : ℕ
k_server_all_match_distribute_notify = 5006

within : ℕ → ℕ → ℕ → Bool
within low high t = leb low t && leb t high

pub from_client : ℕ → Bool
unfolding within
from_client t = within 10000 16000 t

pub to_login : ℕ → Bool
unfolding within
to_login t = within 10000 10500 t

pub to_central : ℕ → Bool
unfolding within
to_central t = within 11000 12000 t

pub to_match : ℕ → Bool
unfolding within
to_match t = within 15000 16000 t

-- The order of the keys of a `std::map` from `int`, on their bit patterns.
abbrev key_of : ℕ → ℕ
key_of sid = (sid + 2 ^ 31) % 2 ^ 32

-- `matchDistr[sid] = mids` for the services of a notification, the keys in order.
pub set_mids : ℕ → List ℕ → List (ℕ × List ℕ) → List (ℕ × List ℕ)
set_mids sid mids [] = (sid, mids) ∷ []
set_mids sid mids ((k, old) ∷ m) =
    let rest = set_mids sid mids m in
    if sid == k
    then (k, mids) ∷ m
    else if ltb (key_of sid) (key_of k)
    then (sid, mids) ∷ (k, old) ∷ m
    else (k, old) ∷ rest

pub match_distr : List (ℕ × List ℕ) → List (ℕ × List ℕ) → List (ℕ × List ℕ)
unfolding set_mids
match_distr [] m = m
match_distr ((sid, mids) ∷ notify) m = match_distr notify (set_mids sid mids m)

pub assign_all : ℕ → List ℕ → List (ℕ × ℕ) → List (ℕ × ℕ)
unfolding assign
assign_all session [] routes = routes
assign_all session (mid ∷ mids) routes = assign_all session mids (assign mid session routes)

-- `session` is that of a service, where it has one.
pub route_service : ℕ → List ℕ → List (ℕ × ℕ) → List (ℕ × ℕ)
unfolding assign_all
route_service session mids routes =
    let routes' = assign_all session mids routes in if session == 0 then routes else routes'

route_all : ServiceKernel → List (ℕ × List ℕ) → List (ℕ × ℕ) → List (ℕ × ℕ)
unfolding route_service
route_all kernel [] routes = routes
route_all kernel ((sid, mids) ∷ m) routes =
    route_all kernel m
      (route_service (connect_service_session sid kernel.connect_services) mids routes)

-- The source spells it `distibuteMatchesNotify`.
pub distribute_matches_notify : List (ℕ × List ℕ) → Gate → Gate
unfolding match_distr route_all
distribute_matches_notify notify g =
    let distr = match_distr notify [] in
    record g {
      matches_services = route_all g.kernel distr g.matches_services;
      matches_distri_maps = distr;
    }

-- What is left of the table when the entries of a session are erased.
without : ℕ → List (ℕ × ℕ) → List (ℕ × ℕ)
without session [] = []
without session ((mid, s) ∷ routes) =
    let rest = without session routes in if s == session then rest else (mid, s) ∷ rest

pub remove_connect_match_service : ℕ → Gate → Gate
unfolding without
remove_connect_match_service session g =
    let g' = record g {
      matches_services =
          if (g.sessions.at session).type == server_type_match_server
          then without session g.matches_services
          else g.matches_services;
    } in
    if g.login_session == session
    then record g' { login_session = 0 }
    else if g.central_session == session
    then record g' { central_session = 0 }
    else g'

-- `updateServiceConnect` with `kConnect` or `kUpdate`.
connected : ℕ → Gate → Gate
connected session g =
    let type = (g.sessions.at session).type in
    if type == server_type_login_server
    then record g { login_session = session }
    else if type == server_type_central_server
    then record g { central_session = session }
    else g

pub update_service_connect : Change → Gate → Gate
unfolding remove_connect_match_service connected
update_service_connect (k_connect session) g = connected session g
update_service_connect (k_update session) g = connected session g
update_service_connect (k_close session) g = remove_connect_match_service session g
update_service_connect (set_logic_id session sid) g = g

-- The kernel calls the virtual `updateServiceConnect` at once: its log is empty between two calls.
handle_all : List Change → Gate → Gate
unfolding update_service_connect
handle_all [] g = g
handle_all (c ∷ cs) g = handle_all cs (update_service_connect c g)

settle : ServiceKernel → Gate → Gate
unfolding handle_all
settle k g = handle_all k.changes (record g { kernel = record k { changes = [] } })

pub remove_service : ℕ → Gate → Gate
unfolding settle
remove_service uuid g = settle (remove_service_session uuid g.kernel) g

pub add_service : ServiceConfig → ℕ → ℕ → Gate → Option Gate
unfolding settle
add_service config session fresh g =
    add_new_connect config session fresh g.kernel >>= (λ k. some (settle k g))

session_or_null : Option ℕ → ℕ
session_or_null none = 0
session_or_null (some s) = s

pub match_service_session : ℕ → Gate → ℕ
unfolding session_or_null lookup
match_service_session mid g = session_or_null (lookup mid g.matches_services)

-- `SessionManager.sendMsg` to a session, if there is one; else the error is only logged.
trans_to : ℕ → List ℕ → PacketHeader → Gate → Option Gate
trans_to session body header g =
    if session == 0
    then some g
    else (send_msg session body header 0 g.sessions >>= (λ m. some (record g { sessions = m })))

pub trans_to_ls : List ℕ → PacketHeader → Gate → Option Gate
unfolding trans_to
trans_to_ls body header g = trans_to g.login_session body header g

pub trans_to_cs : List ℕ → PacketHeader → Gate → Option Gate
unfolding trans_to
trans_to_cs body header g = trans_to g.central_session body header g

pub trans_to_ms : List ℕ → PacketHeader → ℕ → Gate → Option Gate
unfolding trans_to match_service_session
trans_to_ms body header mid g = trans_to (match_service_session mid g) body header g

-- `CGSession::handlerMsg`: a message that the client `p` has sent.
pub handler_msg : ℕ → List ℕ → PacketHeader → Gate → Option Gate
unfolding trans_to_cs trans_to_ls trans_to_ms from_client to_central to_match to_login
handler_msg p body header g =
    let net_header = record header { extra_id = (g.sessions.at p).uuid } in
    let type = header.type in
    if from_client type
    then (if to_central type
        then trans_to_cs body net_header g
        else if to_match type
        then trans_to_ms body net_header header.extra_id g
        else if to_login type
        then trans_to_ls body net_header g
        else some g)
    else some g

module _ (max_num : ℕ) where
  pub trans_to_client : List ℕ → PacketHeader → Gate → Option Gate
  trans_to_client body header g =
      send_msg_to max_num header.extra_id body header 0 g.sessions
      >>= (λ m. some (record g { sessions = m }))

  -- `G2LSession::handlerMsg`.
  pub login_msg : List ℕ → PacketHeader → Gate → Option Gate
  unfolding trans_to_client to_login
  login_msg body header g = if to_login header.type then trans_to_client body header g else some g

  -- `G2MSession::handlerMsg`.
  pub match_msg : List ℕ → PacketHeader → Gate → Option Gate
  unfolding trans_to_client to_match
  match_msg body header g = if to_match header.type then trans_to_client body header g else some g

  -- `G2CSession::handlerMsg`; `notify` is what the body is parsed to.
  pub central_msg : List ℕ → PacketHeader → Option (List (ℕ × List ℕ)) → Gate → Option Gate
  unfolding trans_to_client to_central distribute_matches_notify
  central_msg body header notify g =
      let notified = elim notify as (λ o. Option Gate) [
        | none ↦ some g
        | some n ↦ some (distribute_matches_notify n g)
      ] in
      if to_central header.type
      then trans_to_client body header g
      else if header.type == k_server_all_match_distribute_notify
      then notified
      else some g
