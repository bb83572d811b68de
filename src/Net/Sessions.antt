-- ===== src/Net/Sessions.antt =====
-- ASIO_ALONE_STUDY/Net/TCPSessionManager.cpp, and ClientSession of Net/TCPSession.cpp: the sessions of
-- a server, their ids, and what is sent to them. A session is its address, 0 is `nullptr`, and
-- `at` is the memory. `max_num` is the `MAX_NUM` of the pool of ids. The listeners are asio's.
pub mod Given
pub mod Deliver
pub mod Ids
mod Tests
use asio_utils.Base.{
  ℕ, ◌+◌, ◌^◌, Bool, true, false, not, List, [], ◌∷◌, ◌++◌, Option, none, some, ltb, leb, ◌==◌,
  if◌then◌else◌, ◌>>=◌, length, take,
}
use asio_utils.Net.Packet.{PacketHeader, NetPacket, header_bytes, to_size}
use asio_utils.Net.Session.{
  Session, Handlers, add_more, send, connect_destroyed, connect_established,
}
use asio_utils.Net.Connector
use asio_utils.Net.Connector.{Connector}
use asio_utils.Net.IndexPool.{IndexPool, add_object, remove_object, get_object, each}

-- What a `ClientSession` has beside the session.
pub record Client : Type 0 where
  pub connector : Connector
  pub retry : Bool

-- `managed` are the sessions whose close callback is `removeSessionPtr`.
pub record Sessions : Type 0 where
  pub session_map : IndexPool
  pub at : ℕ → Session
  pub client_at : ℕ → Client
  pub managed : List ℕ

abbrev pub put {ℓ} : {A : Type ℓ} → (ℕ → A) → ℕ → A → ℕ → A
put f p v q = if p == q then v else f q

-- What is sent to a session, to begin with: the header, and as many bytes as it says. Reading
-- behind the body is `none`.
pub send_frame : PacketHeader → List ℕ → Session → Option Session
send_frame header body s =
    if leb (to_size header.size) (length body)
    then (add_more s (header_bytes header) >>= (λ t. send t (take header.size body)))
    else none

-- `foreach`, with a callback that sends to the sessions of one type.
pub send_each : (Session → Option Session) → ℕ → List ℕ → (ℕ → Session) → Option (ℕ → Session)
send_each f stype [] at = some at
send_each f stype (p ∷ ps) at =
    let rest = send_each f stype ps at in
    if p == 0
    then none
    else if (at p).type == stype
    then (f (at p) >>= (λ s. send_each f stype ps (put at p s)))
    else rest

-- One session, or where there is none, every session of the type.
pub deliver : (Session → Option Session) → ℕ → ℕ → Sessions → Option Sessions
unfolding send_each
deliver f p stype m =
    if p == 0
    then (send_each f stype (each m.session_map) m.at >>= (λ at. some (record m { at = at })))
    else (f (m.at p) >>= (λ s. some (record m { at = put m.at p s })))

pub send_msg : ℕ → List ℕ → PacketHeader → ℕ → Sessions → Option Sessions
unfolding deliver send_frame
send_msg p body header stype m = deliver (send_frame header body) p stype m

-- `sendMsgToSession` of data, by way of `sendMsg`.
pub send_data : ℕ → List ℕ → ℕ → ℕ → ℕ → Sessions → Option Sessions
unfolding send_msg
send_data p body len msg stype m =
    send_msg p body (record { type = msg; size = len; extra_id = 0 }) stype m

pub trans_data : ℕ → List ℕ → ℕ → ℕ → ℕ → ℕ → Sessions → Option Sessions
unfolding send_msg
trans_data p body len msg extra stype m =
    send_msg p body (record { type = msg; size = len; extra_id = extra }) stype m

-- `sendMsgToSession` of a packet: its bytes as they are.
pub send_packet : ℕ → NetPacket → ℕ → Sessions → Option Sessions
unfolding deliver
send_packet p packet stype m = deliver (λ s. send s packet.buffer) p stype m

pub reconnect : Handlers → ℕ → Sessions → Option Sessions
reconnect h p m =
    let c = m.client_at p in
    let again : Client =
      if c.retry then record c { connector = Connector.restart c.connector } else c in
    connect_destroyed h (m.at p)
    >>= (λ s. some (record m { at = put m.at p s; client_at = put m.client_at p again }))

-- `connectCallback`, when the connector has a socket.
pub connect_callback : Handlers → ℕ → Sessions → Option Sessions
connect_callback h p m =
    connect_established h (record (m.at p) { has_socket = true })
    >>= (λ s. some (record m { at = put m.at p s }))

module _ (max_num : ℕ) where
  pub add_session : ℕ → Sessions → Sessions
  add_session p m =
      let (index, pool) = add_object max_num m.session_map p in
      record m {
        session_map = pool;
        at = put m.at p (record (m.at p) { uuid = index });
        managed = p ∷ m.managed;
      }

  -- An id is an `int32`; below 0 there is no session.
  unfoldable pub get_session : ℕ → Sessions → Option ℕ
  get_session uuid m = if ltb uuid (2 ^ 31) then get_object max_num m.session_map uuid else some 0

  pub remove_session : ℕ → Sessions → Sessions
  remove_session uuid m = record m { session_map = remove_object max_num m.session_map uuid }

  -- The close callback: a client that may retry connects again, and keeps its id.
  pub remove_session_ptr : Handlers → ℕ → Sessions → Option Sessions
  unfolding remove_session reconnect
  remove_session_ptr h p m =
      if not (m.at p).client
      then some (remove_session (m.at p).uuid m)
      else if (m.client_at p).retry
      then reconnect h p m
      else some (remove_session (m.at p).uuid m)

  pub send_msg_to : ℕ → List ℕ → PacketHeader → ℕ → Sessions → Option Sessions
  unfolding get_session send_msg
  send_msg_to uuid body header stype m =
      get_session uuid m >>= (λ p. send_msg p body header stype m)

  -- `createConnector`, with the session that it makes.
  pub create_connector : ℕ → ℕ → Session → Connector → Sessions → Sessions
  unfolding add_session
  create_connector p type session connector m =
      let m' =
        add_session p
          (record m { at = put m.at p (record session { type = type; client = true }) }) in
      record m' {
        client_at =
            put m'.client_at p (record { connector = Connector.start connector; retry = true });
      }
