-- ===== src/Net/Services/Grows.antt =====
-- ServiceKernel.cpp: a new connection takes none away.
use mathlib.Core.Option.{some-injective, none-ne-some}
use asio_utils.Base.{
  ℕ, ◌≡◌, refl, subst, ◌≤◌, ◌||◌, Option, none, some, ◌==◌, lookup, if-cases, arith,
}
use asio_utils.Net.Services.{
  ServiceConfig, ServiceKernel, invalid_uuid, check_connect_service, add_new_connect, renew, note,
  connect_new,
}
use asio_utils.Net.Services.Endpoints.{
  connections_to, connections-assign_new, connections-assign_old,
}
use asio_utils.Net.Services.Connections.{sid_apart}

renew-grows :
    (c config : ServiceConfig) (uuid : ℕ) (k n : ServiceKernel) (o : Option ServiceConfig)
    → lookup uuid k.connect_services ≡ o
    → renew k uuid config o ≡ some n
    → connections_to c k.connect_services ≤ connections_to c n.connect_services
unfolding renew note
renew-grows c config uuid k n none l e = absurd (none-ne-some n e)
renew-grows c config uuid k n (some old) l e =
    subst (λ n. connections_to c k.connect_services ≤ connections_to c n.connect_services)
      (some-injective _ _ e)
      (omega (
        arith,
        connections-assign_old c (record old { sid = config.sid }) old uuid k.connect_services l
            (sid_apart old config.sid c),
      ))

-- No endpoint loses a connection.
pub add_new_connect-grows :
    (c config : ServiceConfig) (session fresh : ℕ) (k n : ServiceKernel)
    → lookup fresh k.connect_services ≡ none
    → add_new_connect config session fresh k ≡ some n
    → connections_to c k.connect_services ≤ connections_to c n.connect_services
unfolding add_new_connect connect_new note
add_new_connect-grows c config session fresh k n f =
    let m = k.connect_services in
    let uuid = check_connect_service config m in
    let made = connect_new config session fresh k in
    if-cases (λ r. r ≡ some n → connections_to c m ≤ connections_to c n.connect_services)
      (uuid == invalid_uuid || config.sid == invalid_uuid)
      (λ b e.
        subst (λ n. connections_to c m ≤ connections_to c n.connect_services) (some-injective _ _ e)
          (ground
            (arith, connections-assign_new c (record config { session = session }) fresh m f)))
      (λ b e. renew-grows c config uuid k n (lookup uuid m) refl e)
