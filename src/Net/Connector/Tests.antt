-- ===== src/Net/Connector/Tests.antt =====
-- The theorems on TCPConnector.cpp at concrete connectors.
use asio_utils.Base.{[], ◌∷◌, true}
use asio_utils.Net.Connector.{Connector, State, close_socket, wait}

-- An attempt at the only endpoint is under way.
abbrev trying : Connector
trying = record {
  connect_flag = true;
  state = State.connecting;
  retry_delay_ms = 16000;
  endpoints = 7 ∷ [];
  has_callback = true;
  effects = [];
}

abbrev gave_up : Connector
gave_up = record trying {
  state = State.disconnected;
  endpoints = [];
  retry_delay_ms = 30000;
  effects = close_socket ∷ wait 16000 ∷ [];
}
