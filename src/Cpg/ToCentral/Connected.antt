-- ===== src/Cpg/ToCentral/Connected.antt =====
-- After a registration, or a notice of new services, the server is connected to all of them.
use asio_utils.Base.{
  ℕ, ◌≤◌, ◌≡◌, ◌≢◌, refl, ◌∙◌, ap, subst, List, [], ◌∷◌, Option, none, some, ◌==◌, if◌then◌else◌,
  ◌>>=◌, lookup, arith,
}
use asio_utils.Net.Services.{ServiceConfig, ServiceKernel, invalid_uuid, add_new_connect}
use asio_utils.Net.Services.Endpoints.{IsValid, connections_to}
use asio_utils.Net.Services.Connections.{add_new_connect_lem}
use asio_utils.Net.Services.Grows.{add_new_connect-grows}
use asio_utils.Cpg.ToCentral.{ToCentral, RegisterRs, connect_all, server_regist_rs}

-- Each of the endpoints has one connection.
unfoldable pub AllConnected : List ServiceConfig → ServiceKernel → Type 0
AllConnected [] k = Unit
AllConnected (c ∷ cs) k = (connections_to c k.connect_services ≡ 1) × AllConnected cs k

-- All are connected in `n`, as well as what was in `k`.
pub record IsExtended (cs : List ServiceConfig) (k n : ServiceKernel) : Type 0 where
  pub valid : IsValid n.connect_services
  pub connected : AllConnected cs n
  pub stays :
      (c : ServiceConfig)
      → connections_to c k.connect_services ≤ connections_to c n.connect_services

unfoldable pub Then : (ServiceKernel → Type 0) → Option ServiceKernel → Type 0
Then P none = Unit
Then P (some k) = P k

module _ (connect_service : ServiceKernel → ServiceConfig → ℕ × ℕ) where
  -- The services have ids, and the id of each new session is not in use.
  unfoldable pub AreFresh : List ServiceConfig → ServiceKernel → Type 0
  unfolding Then
  AreFresh [] k = Unit
  AreFresh (c ∷ cs) k =
      let (session, uuid) = connect_service k c in
      (c.sid ≢ invalid_uuid)
      × (uuid ≢ invalid_uuid)
      × (lookup uuid k.connect_services ≡ none)
      × Then (AreFresh cs) (add_new_connect c session uuid k)

  connect_all-IsExtended :
      (cs : List ServiceConfig) (k : ServiceKernel)
      → IsValid k.connect_services
      → AreFresh cs k
      → (n : ServiceKernel) × (connect_all connect_service cs k ≡ some n) × IsExtended cs k n
  unfolding connect_all AreFresh AllConnected Then
  connect_all-IsExtended [] k v h =
      (k, refl, record { valid = v; connected = tt; stays = λ c. omega arith })
  connect_all-IsExtended (c ∷ cs) k v (id, real, unused, h) =
      let (session, uuid) = connect_service k c in
      let (n1, e1, i1) = add_new_connect_lem c session uuid k v id real unused in
      let (n2, e2, i2) = connect_all-IsExtended cs n1 i1.valid (subst (Then (AreFresh cs)) e1 h) in
      (
        n2,
        ap (λ o. o >>= connect_all connect_service cs) e1 ∙ e2,
        record {
          valid = i2.valid;
          connected = (omega (arith, i1.once, i2.stays c, i2.valid.one_each c), i2.connected);
          stays =
              λ d. omega (arith, add_new_connect-grows d c session uuid k n1 unused e1, i2.stays d);
        },
      )

  -- A registration that succeeds, of a server that has its connections in order, returns: the session
  -- has the id that it was given, every service that the answer names has one connection, no endpoint
  -- has two, and none loses its connection. The services have ids, and those of new sessions are not
  -- in use.
  pub server_regist_rs_lem :
      (rs : RegisterRs) (s : ToCentral)
      → rs.result ≡ 0
      → IsValid s.kernel.connect_services
      → AreFresh rs.conn_servers s.kernel
      → (t : ToCentral) × (server_regist_rs connect_service (some rs) s ≡ some t)
        × (t.logic_id ≡ rs.sid)
        × (t.passed ≡ s.passed)
        × IsExtended rs.conn_servers s.kernel t.kernel
  unfolding server_regist_rs
  server_regist_rs_lem rs s z v h =
      let (n, e, i) = connect_all-IsExtended rs.conn_servers s.kernel v h in
      let registered =
        connect_all connect_service rs.conn_servers s.kernel
        >>= (λ k. some (record s { logic_id = rs.sid; kernel = k })) in
      (
        record s { logic_id = rs.sid; kernel = n },
        ap (λ r. if r == 0 then registered else some s) z
            ∙ ap (λ o. o >>= (λ k. some (record s { logic_id = rs.sid; kernel = k }))) e,
        refl,
        refl,
        i,
      )
