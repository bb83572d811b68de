-- ===== src/Net/Connector.antt =====
-- ASIO_ALONE_STUDY/Net/TCPConnector.cpp: connecting out, with retries. The resolver's results and the
-- completion of an attempt are events; what is asked of the system is logged, oldest first.
pub mod Backoff
mod Tests
use asio_utils.Base.{
  ℕ, ◌*◌, min, Bool, true, false, List, [], ◌∷◌, ◌++◌, Option, none, some, if◌then◌else◌, ◌>>=◌,
}

pub data State : Type 0 where
  disconnected connecting connected stopped : State

-- The error codes that `handleConnect` tells apart: those that it retries, and the others.
pub data ErrorCode : Type 0 where
  success : ErrorCode
  try_again address_in_use no_protocol_option connection_refused host_unreachable : ErrorCode
  no_permission access_denied address_family_not_supported already_started : ErrorCode
  bad_descriptor fault not_socket : ErrorCode
  other : ℕ → ErrorCode

abbrev pub k_max_retry_delay_ms : ℕ
k_max_retry_delay_ms = 30000

abbrev pub k_init_retry_delay_ms : ℕ
k_init_retry_delay_ms = 500

-- An endpoint is a number. `wait` starts the retry timer, `notify` is the new-connection callback.
pub data Effect : Type 0 where
  resolve : Effect
  async_connect : ℕ → Effect
  close_socket : Effect
  wait : ℕ → Effect
  notify : Effect

-- `endpoints` is what `endpoint_iterator_` has yet to pass, the current one first.
pub record Connector : Type 0 where
  pub connect_flag : Bool
  pub state : State
  pub retry_delay_ms : ℕ
  pub endpoints : List ℕ
  pub has_callback : Bool
  pub effects : List Effect

pub init : Bool → Connector
init has_callback = record {
  connect_flag = false;
  state = State.disconnected;
  retry_delay_ms = k_init_retry_delay_ms;
  endpoints = [];
  has_callback = has_callback;
  effects = [];
}

abbrev pub log : Connector → Effect → Connector
log c e = record c { effects = c.effects ++ e ∷ [] }

abbrev pub is_connecting : State → Bool
is_connecting State.connecting = true
is_connecting _ = false

abbrev pub is_stopped : State → Bool
is_stopped State.stopped = true
is_stopped _ = false

pub start : Connector → Connector
start c =
    if is_connecting c.state
    then c
    else log (record c { connect_flag = true; state = State.connecting }) resolve

pub restart : Connector → Connector
unfolding start
restart c = start (record c {
  state = State.disconnected;
  retry_delay_ms = k_init_retry_delay_ms;
  connect_flag = true;
})

pub stop : Connector → Connector
stop c = if is_connecting c.state then record c { state = State.stopped } else c

-- Reading the endpoint behind the last one is undefined: `none`.
connect_to : Connector → List ℕ → Option Connector
connect_to c [] = none
connect_to c (e ∷ es) = some (log c (async_connect e))

pub connect : Connector → Option Connector
unfolding connect_to
connect c = connect_to c c.endpoints

-- The handler of `resolveAddress`, which does not look at the error code.
pub resolved : Connector → List ℕ → Option Connector
unfolding connect
resolved c results = connect (record c { endpoints = results })

-- The timer's handler calls `start`.
pub retry : Connector → Connector
retry c =
    let closed = log c close_socket in
    if is_stopped c.state
    then closed
    else if c.connect_flag
    then record (log (record closed { state = State.disconnected }) (wait c.retry_delay_ms)) {
      retry_delay_ms = min (c.retry_delay_ms * 2) k_max_retry_delay_ms;
    }
    else record closed { state = State.disconnected }

abbrev pub retried : ErrorCode → Bool
retried try_again = true
retried address_in_use = true
retried no_protocol_option = true
retried connection_refused = true
retried host_unreachable = true
retried _ = false

-- `++endpoint_iterator_`.
abbrev pub others : List ℕ → List ℕ
others [] = []
others (e ∷ es) = es

failed : Connector → ErrorCode → List ℕ → Option Connector
unfolding retry connect
failed c ec (e ∷ es) = connect (record c { endpoints = e ∷ es })
failed c ec [] =
    let d = record c { endpoints = [] } in
    if retried ec then some (retry d) else some (log d close_socket)

pub handle_connect : Connector → ErrorCode → Option Connector
unfolding failed
handle_connect c success =
    let d = record c { state = State.connected } in
    some (if d.has_callback then log d notify else d)
handle_connect c ec = failed c ec (others c.endpoints)
