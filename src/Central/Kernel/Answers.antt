-- ===== src/Central/Kernel/Answers.antt =====
-- CSKernel.cpp: the choice of a gate, and the matches that the servers are told of.
use asio_utils.Base.{
  ℕ, ◌-◌, ◌^◌, Bool, true, false, ◌&&◌, List, [], ◌∷◌, Option, none, some, ltb, ◌==◌, if◌then◌else◌,
  ◌>>=◌,
}
use asio_utils.Central.Distribution.{MatchDisService, evaluate}
use asio_utils.Central.Check.{
  CheckError, error_no, error_match_server_more, error_match_server_less, error_no_match,
  error_reconnect, check_service_dist_map,
}
use asio_utils.Central.Kernel.Servers.{
  Listener, ServerInfo, Message, connect_rs, match_distribute, check_match_distribute_rs,
  to_session, to_id, Kernel, invalid_lid, transmit, get_service,
}
use asio_utils.Central.Kernel.Register.{send_all_distribute_match_infos}

-- The gate with the smallest load below `INT_MAX`, the first of them.
unfoldable pub best_gate :
    List (ℕ × Option ServerInfo) → ℕ → Option ServerInfo → Option (Option ServerInfo)
best_gate [] loaded best = some best
best_gate ((sid, none) ∷ servers) loaded best = none
best_gate ((sid, some info) ∷ servers) loaded best =
    let better = best_gate servers info.loaded (some info) in
    let same = best_gate servers loaded best in
    if info.type == 1 && ltb info.loaded loaded then better else same

unfoldable pub client_listener : List Listener → Option (ℕ × ℕ)
client_listener [] = none
client_listener (l ∷ ls) =
    let rest = client_listener ls in if l.type == 0 then some (l.port, l.ip) else rest

unfoldable pub gate_answer : Option ServerInfo → Message
unfolding client_listener
gate_answer none = connect_rs invalid_lid none
gate_answer (some info) = connect_rs 0 (client_listener info.listeners)

-- `parsed` says whether the request could be parsed.
unfoldable pub request_best_gate_server : ℕ → Bool → ℕ → Kernel → Option Kernel
unfolding best_gate gate_answer transmit
request_best_gate_server p false extra k =
    some (transmit (to_session p) 17002 extra (connect_rs invalid_lid none) k)
request_best_gate_server p true extra k =
    best_gate k.servers (2 ^ 31 - 1) none
    >>= (λ best. some (transmit (to_session p) 17002 extra (gate_answer best) k))

unfoldable pub distribute_each : List (ℕ × List ℕ) → Kernel → Option Kernel
unfolding get_service transmit
distribute_each [] k = some k
distribute_each ((sid, mids) ∷ updates) k =
    let (info, k') = get_service sid k in
    info >>= (λ i.
      distribute_each updates (transmit (to_id i.sid) 5007 0 (match_distribute sid mids) k'))

-- The manager's callback.
unfoldable pub distribute_match : List (ℕ × List ℕ) → Kernel → Option Kernel
unfolding distribute_each send_all_distribute_match_infos
distribute_match updates k =
    distribute_each updates k >>= (λ n. some (send_all_distribute_match_infos 0 1 n))

unfoldable pub code_of : CheckError → ℕ
code_of error_no = 0
code_of error_match_server_more = 1
code_of error_match_server_less = 2
code_of error_no_match = 3
code_of error_reconnect = 4

-- The source tests for `ErrorMatchServerMore` twice.
unfoldable pub extra_mids : CheckError → List ℕ → List ℕ
extra_mids error_no mids = []
extra_mids error_match_server_more mids = mids
extra_mids error_match_server_less mids = []
extra_mids error_no_match mids = []
extra_mids error_reconnect mids = []

unfoldable pub check_match_distribute_rq : ℕ → ℕ → Option (List ℕ) → Kernel → Kernel
unfolding check_service_dist_map code_of extra_mids transmit
check_match_distribute_rq now p none k = k
check_match_distribute_rq now p (some mids) k =
    let lid = (k.at p).logic_id in
    let key : MatchDisService = record { sid = lid; loaded = evaluate lid mids } in
    let (res, back, m) = check_service_dist_map now key mids k.manager in
    transmit (to_session p) 5004 lid
      (check_match_distribute_rs lid (k.at p).type (code_of res) (extra_mids res back))
      (record k { manager = m })
