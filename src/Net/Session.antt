-- ===== src/Net/Session.antt =====
-- ASIO_ALONE_STUDY/Net/TCPSession.hpp and TCPSession.cpp: one connection. What the methods ask of the
-- socket and tell the owner is logged in `effects`, oldest first; a failed assertion of a buffer is
-- `none`. The callbacks are arguments: functions on the session, since they may call it again.
pub mod Outgoing
pub mod Closing
mod Once
pub mod Kind
mod Tests
use asio_utils.Base.{
  ℕ, ◌+◌, Bool, true, false, not, ◌||◌, List, [], ◌∷◌, ◌++◌, Option, none, some, ◌==◌,
  if◌then◌else◌, ◌>>=◌, length,
}
use asio_utils.Net.Buffer.{
  DataBuffer, k_initial_size, init, readable_bytes, writable_bytes, peek, retrieve_all, append,
  ensure_writable_bytes, has_written, fill, operate, unoperate,
}

-- `StateE`.
pub data State : Type 0 where
  disconnected connecting connected disconnecting : State

-- What reaches the socket (the bytes given to `async_send`, the room given to `async_read_some`).
pub data Effect : Type 0 where
  async_send : List ℕ → Effect
  async_read : ℕ → Effect
  socket_shutdown : Effect
  socket_close : Effect

-- The error codes that the completion handlers tell apart.
pub data ErrorCode : Type 0 where
  success operation_aborted interrupted try_again : ErrorCode
  failure : ℕ → ErrorCode

pub record Session : Type 0 where
  pub state : State
  pub has_socket : Bool
  pub input_buffer : DataBuffer
  pub output_buffer : DataBuffer
  pub send_buffer : DataBuffer
  pub type : ℕ
  pub uuid : ℕ
  pub logic_id : ℕ
  pub client : Bool
  pub heart_beat : ℕ
  pub effects : List Effect

-- The callbacks of a session, and the two virtual methods. One that is not set is `none`.
pub record Handlers : Type 0 where
  pub message : Session → Option Session
  pub write_complete : Option (Session → Option Session)
  pub connection : Option (Session → Option Session)
  pub close : Option (Session → Option Session)
  pub on_close : Session → Option Session
  pub send_init_data : Session → Option Session

abbrev pub invalid_id : ℕ
invalid_id = 0xffff_ffff

-- The constructor, at the time `now`.
unfoldable pub fresh : Bool → ℕ → Session
fresh has_socket now = record {
  state = State.connecting;
  has_socket = has_socket;
  input_buffer = init k_initial_size;
  output_buffer = init k_initial_size;
  send_buffer = init k_initial_size;
  type = 0;
  uuid = invalid_id;
  logic_id = invalid_id;
  client = false;
  heart_beat = now;
  effects = [];
}

abbrev pub log : Session → Effect → Session
log s e = record s { effects = s.effects ++ e ∷ [] }

abbrev call : Option (Session → Option Session) → Session → Option Session
call none s = some s
call (some f) s = f s

abbrev pub is_connected : State → Bool
is_connected State.connected = true
is_connected State.connecting = true
is_connected _ = false

-- `state_ == kConnected`.
abbrev pub established : State → Bool
established State.connected = true
established _ = false

pub update_heart_beat : Session → ℕ → Session
update_heart_beat s cur = record s { heart_beat = cur }

-- Hand the whole output buffer to the socket, unless a send is under way.
pub internal_send : Session → Session
internal_send s =
    if not (established s.state)
      || s.send_buffer.is_operating
      || readable_bytes s.output_buffer == 0
    then s
    else (let sending = s.output_buffer in
        record (log s (async_send (peek sending))) {
          send_buffer = operate sending;
          output_buffer = s.send_buffer;
        })

pub add_more : Session → List ℕ → Option Session
add_more s bytes = do b ← append s.output_buffer bytes; some (record s { output_buffer = b })

pub send : Session → List ℕ → Option Session
unfolding add_more
send s bytes = do t ← add_more s bytes; some (internal_send t)

pub start_async_read : Session → Option Session
start_async_read s =
    if established s.state
    then ensure_writable_bytes s.input_buffer 1024
      >>= (λ b. some (log (record s { input_buffer = b }) (async_read (writable_bytes b))))
    else some s

module _ (h : Handlers) where
  pub hand_close : Session → Option Session
  hand_close s =
      if is_connected s.state
      then h.on_close
          (record (log s socket_close) { state = State.disconnected; has_socket = false })
        >>= call h.close
      else some s

  -- The bytes that the socket put at `beginWrite()` are an argument.
  pub hand_read : Session → ErrorCode → List ℕ → Option Session
  unfolding start_async_read hand_close
  hand_read s operation_aborted bytes = some s
  hand_read s success bytes = do
    b ← has_written (fill s.input_buffer bytes) (length bytes)
    t ← h.message (record s { input_buffer = b })
    start_async_read t
  hand_read s interrupted bytes = start_async_read s
  hand_read s try_again bytes = start_async_read s
  hand_read s (failure code) bytes = hand_close s

  -- The number of bytes that were sent is not looked at.
  pub hand_write : Session → ErrorCode → ℕ → Option Session
  unfolding internal_send
  hand_write s success bytes_sent = do
    t ← call h.write_complete (record s { send_buffer = retrieve_all (unoperate s.send_buffer) })
    some (internal_send t)
  hand_write s _ bytes_sent = some s

  pub connect_established : Session → Option Session
  unfolding start_async_read
  connect_established s = do
    t ← start_async_read (record s { state = State.connected })
    u ← call h.connection t
    h.send_init_data u

  pub force_close : Session → Option Session
  unfolding hand_close
  force_close s = elim s.state [
    | State.connected ↦ hand_close s
    | State.disconnecting ↦ hand_close s
    | _ ↦ some s
  ]

  pub connect_destroyed : Session → Option Session
  unfolding force_close
  connect_destroyed s = if established s.state then force_close s else some s

pub shutdown : Session → Session
shutdown s =
    if established s.state
    then record (log s socket_shutdown) { state = State.disconnecting }
    else s
