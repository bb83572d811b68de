-- ===== src/MatchServer.antt =====
-- MatchServer/MatchServer: MSMatchManager.cpp, the handlers of MSKernel.cpp, and the handlers of
-- M2CSession.cpp and GateSession.cpp, which call them. A count is an `int`, as its bit pattern. A
-- session is its address, 0 is `nullptr`; what is sent is logged, oldest first. What `parseProtoMsg`
-- makes of a message is an argument: for a join, whether it could be parsed, and what the request holds
-- then; else `none` where it cannot.
pub mod Counts
pub mod Central
mod Tests
use asio_utils.Base.{
  ℕ, ◌+◌, ◌-◌, ◌%◌, ◌^◌, Bool, true, false, ◌||◌, List, [], ◌∷◌, ◌++◌, Option, none, some, ◌==◌,
  if◌then◌else◌, lookup, assign,
}
use asio_utils.Net.Services.{Change, k_connect, k_update, k_close, set_logic_id}

-- `testMatchinfos_` is the association list.
pub record MatchManager : Type 0 where
  pub matches : List ℕ
  pub infos : List (ℕ × ℕ)

count_found : Option ℕ → ℕ
count_found none = 0
count_found (some n) = n

-- `testMatchinfos_[mid]`: the value, and the map, where it now is.
subscript_found : ℕ → List (ℕ × ℕ) → Option ℕ → ℕ × List (ℕ × ℕ)
unfolding assign
subscript_found mid infos none = (0, assign mid 0 infos)
subscript_found mid infos (some n) = (n, infos)

subscript : ℕ → List (ℕ × ℕ) → ℕ × List (ℕ × ℕ)
unfolding subscript_found lookup
subscript mid infos = subscript_found mid infos (lookup mid infos)

-- The loop over the matches, from the old map to `tmp`.
carry : List ℕ → List (ℕ × ℕ) → List (ℕ × ℕ) → List (ℕ × ℕ)
unfolding subscript assign
carry [] infos tmp = tmp
carry (mid ∷ mids) infos tmp =
    let (n, infos') = subscript mid infos in carry mids infos' (assign mid n tmp)

pub update_matches : List ℕ → MatchManager → MatchManager
unfolding carry
update_matches mids m = record { matches = mids; infos = carry mids m.infos [] }

-- -1.
abbrev pub no_match : ℕ
no_match = 2 ^ 32 - 1

-- The count after a player has come, or gone, by `change`, and -1 where the match is not there.
change_found : ℕ → ℕ → MatchManager → Option ℕ → ℕ × MatchManager
unfolding assign
change_found change mid m none = (no_match, m)
change_found change mid m (some n) =
    let n' = (n + change) % 2 ^ 32 in (n', record m { infos = assign mid n' m.infos })

-- The user and the type of the match are not looked at.
pub join_match : ℕ → ℕ → ℕ → MatchManager → ℕ × MatchManager
unfolding change_found lookup
join_match uid mid mtype m = change_found 1 mid m (lookup mid m.infos)

pub unjoin_match : ℕ → ℕ → ℕ → MatchManager → ℕ × MatchManager
unfolding change_found lookup
unjoin_match uid mid mtype m = change_found (2 ^ 32 - 1) mid m (lookup mid m.infos)

-- `CPGClientServer::JoinMatchRQ` and `UnjoinMatchRQ`.
pub record JoinRequest : Type 0 where
  pub uid : ℕ
  pub mid : ℕ
  pub mtype : ℕ

-- `JoinMatchRS` and `UnjoinMatchRS`: the result, the players, and what was asked; the question to the
-- central server: its match server, its type, and its matches; the registration: the id and the type.
pub data Message : Type 0 where
  join_match_rs : ℕ → ℕ → JoinRequest → Message
  unjoin_match_rs : ℕ → ℕ → JoinRequest → Message
  check_match_distribute_rq : ℕ → ℕ → List ℕ → Message
  server_register_rq : ℕ → ℕ → Message

pub record Sent : Type 0 where
  pub session : ℕ
  pub type : ℕ
  pub extra_id : ℕ
  pub message : Message

pub record MatchServer : Type 0 where
  pub manager : MatchManager
  pub central_session : ℕ
  pub sent : List Sent

-- `SessionManager.sendMsg`.
post : ℕ → ℕ → ℕ → Message → MatchServer → MatchServer
post session type extra_id message s = record s {
  sent =
      s.sent
      ++ record { session = session; type = type; extra_id = extra_id; message = message } ∷ [];
}

-- `updateServiceConnect`; `type` is that of a session.
pub update_service_connect : (ℕ → ℕ) → Change → MatchServer → MatchServer
update_service_connect type (k_close session) s =
    if s.central_session == session then record s { central_session = 0 } else s
update_service_connect type (k_connect session) s =
    if type session == 5 then record s { central_session = session } else s
update_service_connect type (k_update session) s =
    if type session == 5 then record s { central_session = session } else s
update_service_connect type (set_logic_id session sid) s = s

-- `MSKernel::sendMsg` does not use the type that it is given.
pub send_msg : ℕ → Message → ℕ → ℕ → MatchServer → MatchServer
unfolding post
send_msg session message type extra_id s = post session 5003 extra_id message s

pub join_match_rq : ℕ → Bool → JoinRequest → ℕ → MatchServer → MatchServer
unfolding join_match post
join_match_rq session false rq extra_id s =
    post session 15002 extra_id (join_match_rs no_match 0 rq) s
join_match_rq session true rq extra_id s =
    let (remain, m) = join_match rq.uid rq.mid rq.mtype s.manager in
    post session 15002 extra_id (join_match_rs 0 remain rq) (record s { manager = m })

pub unjoin_match_rq : ℕ → Bool → JoinRequest → ℕ → MatchServer → MatchServer
unfolding unjoin_match post
unjoin_match_rq session false rq extra_id s =
    post session 15004 extra_id (unjoin_match_rs no_match 0 rq) s
unjoin_match_rq session true rq extra_id s =
    let (remain, m) = unjoin_match rq.uid rq.mid rq.mtype s.manager in
    post session 15004 extra_id (unjoin_match_rs 0 remain rq) (record s { manager = m })

-- `GateSession::handlerMsg`.
pub gate_msg : ℕ → ℕ → Bool → JoinRequest → ℕ → MatchServer → MatchServer
unfolding join_match_rq unjoin_match_rq
gate_msg session type parsed rq extra_id s =
    if type == 15001
    then join_match_rq session parsed rq extra_id s
    else if type == 15003
    then unjoin_match_rq session parsed rq extra_id s
    else s

-- The answer's result and matches.
pub check_match_distribute_rs : Option (ℕ × List ℕ) → MatchServer → MatchServer
unfolding update_matches
check_match_distribute_rs none s = s
check_match_distribute_rs (some (result, mids)) s =
    if result == 1 || result == 2 then record s { manager = update_matches mids s.manager } else s

-- The source spells it `distibuteMatchesNotify`.
pub distribute_matches_notify : Option (List ℕ) → MatchServer → MatchServer
unfolding update_matches
distribute_matches_notify none s = s
distribute_matches_notify (some mids) s = record s { manager = update_matches mids s.manager }

-- The session to the central server. `sendRegisterData` is the message that it sends, without the
-- listeners and types of the configuration; the heart beat that it starts is left out.
pub record M2CSession : Type 0 where
  pub address : ℕ
  pub uuid : ℕ
  pub logic_id : ℕ
  pub first_connect : Bool

pub check_match_distribute : M2CSession → MatchServer → MatchServer
unfolding send_msg
check_match_distribute c s =
    send_msg c.address (check_match_distribute_rq c.logic_id 3 s.manager.matches) 5003 c.uuid s

pub send_init_data : M2CSession → MatchServer → M2CSession × MatchServer
unfolding check_match_distribute post
send_init_data c s =
    let s' = post c.address 5001 0 (server_register_rq c.logic_id 3) s in
    if c.first_connect
    then (record c { first_connect = false }, s')
    else (c, check_match_distribute c s')

-- `M2CSession::handlerMsg`: the two messages that it takes, as they are parsed.
pub central_msg : ℕ → Option (ℕ × List ℕ) → Option (List ℕ) → MatchServer → MatchServer
unfolding check_match_distribute_rs distribute_matches_notify
central_msg type answer notify s =
    if type == 5004
    then check_match_distribute_rs answer s
    else if type == 5007
    then distribute_matches_notify notify s
    else s
