-- ===== src/Net/Services.antt =====
-- ASIO_ALONE_STUDY/Net/ServiceKernel.cpp: the connections of a server to the services that it uses, by
-- the id of their session. What the virtual `connectService` returns, the session and its id, is an
-- argument; the calls of the virtual `updateServiceConnect` are logged, oldest first, with the new
-- logic ids of the sessions. An address is a number.
pub mod Endpoints
pub mod Connections
pub mod Grows
mod Tests
use asio_utils.Base.{
  ℕ, Bool, true, false, ◌&&◌, ◌||◌, List, [], ◌∷◌, ◌++◌, Option, none, some, ◌==◌, if◌then◌else◌,
  lookup, assign, discard,
}

pub record ServiceConfig : Type 0 where
  pub type : ℕ
  pub port : ℕ
  pub sid : ℕ
  pub ip : ℕ
  pub session : ℕ

pub data Change : Type 0 where
  k_connect k_update k_close : ℕ → Change
  set_logic_id : ℕ → ℕ → Change

pub record ServiceKernel : Type 0 where
  pub connect_services : List (ℕ × ServiceConfig)
  pub changes : List Change

-- -1, as an `int32`.
abbrev pub invalid_uuid : ℕ
invalid_uuid = 0xffff_ffff

pub same_endpoint : ServiceConfig → ServiceConfig → Bool
same_endpoint x y = x.type == y.type && x.port == y.port && x.ip == y.ip

-- The id of the first connection to the same endpoint.
pub check_connect_service : ServiceConfig → List (ℕ × ServiceConfig) → ℕ
unfolding same_endpoint
check_connect_service config [] = invalid_uuid
check_connect_service config ((uuid, c) ∷ rest) =
    let later = check_connect_service config rest in if same_endpoint c config then uuid else later

-- 0 is `nullptr`.
unfoldable pub connect_service_session : ℕ → List (ℕ × ServiceConfig) → ℕ
connect_service_session sid [] = 0
connect_service_session sid ((uuid, c) ∷ rest) =
    let later = connect_service_session sid rest in if c.sid == sid then c.session else later

session_of : Option ServiceConfig → ℕ
session_of none = 0
session_of (some c) = c.session

pub connect_session : ℕ → List (ℕ × ServiceConfig) → ℕ
unfolding session_of
connect_session uuid services = session_of (lookup uuid services)

note : ServiceKernel → Change → ServiceKernel
note k c = record k { changes = k.changes ++ c ∷ [] }

-- A connection that is there: it gets its new service id. The map is not empty at its id.
renew : ServiceKernel → ℕ → ServiceConfig → Option ServiceConfig → Option ServiceKernel
unfolding note assign
renew k uuid config none = none
renew k uuid config (some old) =
    let k' = record k {
      connect_services = assign uuid (record old { sid = config.sid }) k.connect_services;
    } in
    some (note (note k' (set_logic_id old.session config.sid)) (k_update old.session))

connect_new : ServiceConfig → ℕ → ℕ → ServiceKernel → ServiceKernel
unfolding note assign
connect_new config session fresh k =
    note
      (record k {
        connect_services = assign fresh (record config { session = session }) k.connect_services;
      })
      (k_connect session)

-- `session` and `fresh` are the session that `connectService` would return, and its id.
unfoldable pub add_new_connect : ServiceConfig → ℕ → ℕ → ServiceKernel → Option ServiceKernel
unfolding check_connect_service connect_new renew lookup
add_new_connect config session fresh k =
    let uuid = check_connect_service config k.connect_services in
    if uuid == invalid_uuid || config.sid == invalid_uuid
    then some (connect_new config session fresh k)
    else renew k uuid config (lookup uuid k.connect_services)

-- `removeServiceSession`, with what `find` has found.
close_found : ℕ → ServiceKernel → Option ServiceConfig → ServiceKernel
unfolding note discard
close_found uuid k none = k
close_found uuid k (some c) = record (note k (k_close c.session)) {
  connect_services = discard uuid k.connect_services;
}

pub remove_service_session : ℕ → ServiceKernel → ServiceKernel
unfolding close_found lookup
remove_service_session uuid k = close_found uuid k (lookup uuid k.connect_services)
