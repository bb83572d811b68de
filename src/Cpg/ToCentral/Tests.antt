-- ===== src/Cpg/ToCentral/Tests.antt =====
-- What a server registers. A server that registers, and is told of two services, one of which it is connected to.
use asio_utils.Base.{ℕ, ◌≡◌, refl, List, [], ◌∷◌, some, lookup, assign, Once, arith}
use asio_utils.Net.Services.{ServiceConfig, ServiceKernel, add_new_connect}
use asio_utils.Net.Services.Endpoints.{IsValid, connections_to}
use asio_utils.Cpg.ToCentral.{ToCentral, RegisterRs, server_regist_rs}
use asio_utils.Central.Kernel.{Listener}
use asio_utils.Cpg.ToCentral.Register.{Configured, listen_infos, connect_types, register_data}
use asio_utils.Cpg.ToCentral.Connected.{AreFresh, Then, IsExtended, server_regist_rs_lem}

abbrev match_server : ℕ → ServiceConfig
match_server port = record { type = 3; port = port; sid = 8; ip = 9; session = 0 }

abbrev answer : RegisterRs
answer = record { result = 0; sid = 6; conn_servers = match_server 70 ∷ match_server 71 ∷ [] }

abbrev unconnected : ToCentral
unconnected = record {
  logic_id = 0;
  heart_beat_time = 0;
  kernel = record { connect_services = []; changes = [] };
  passed = [];
}

-- A new session has the port for its id.
abbrev by_port : ServiceKernel → ServiceConfig → ℕ × ℕ
by_port k c = (c.port, c.port)

unconnected-IsValid : IsValid unconnected.kernel.connect_services
unfolding connections_to Once lookup
unconnected-IsValid = record { once = tt; no_invalid = refl; one_each = λ c. ground arith }

server_regist_rs_lem_example :
    (t : ToCentral) × (server_regist_rs by_port (some answer) unconnected ≡ some t)
    × (t.logic_id ≡ 6)
    × (t.passed ≡ [])
    × IsExtended answer.conn_servers unconnected.kernel t.kernel
unfolding AreFresh Then lookup assign add_new_connect
server_regist_rs_lem_example =
    server_regist_rs_lem by_port answer unconnected refl unconnected-IsValid (
      λ e. omega (arith, e),
      λ e. omega (arith, e),
      refl,
      (λ e. omega (arith, e), λ e. omega (arith, e), refl, tt),
    )

abbrev listens_on : ℕ → Listener
listens_on port = record { type = 1; port = port; ip = 9 }

abbrev two_infos : List Configured
two_infos =
    record { connect_types = 4 ∷ 2 ∷ []; listen_infos = listens_on 70 ∷ listens_on 70 ∷ [] }
    ∷ record { connect_types = 2 ∷ []; listen_infos = listens_on 71 ∷ listens_on 70 ∷ [] }
    ∷ []

-- The first repetition is next to its listener and goes, the second is not and stays.
registers_twice : register_data 6 two_infos ≡ (
  3,
  record {
    sid = 6;
    listeners = listens_on 70 ∷ listens_on 71 ∷ listens_on 70 ∷ [];
    connect_types = 2 ∷ 4 ∷ [];
  },
)
unfolding register_data listen_infos connect_types
registers_twice = refl
