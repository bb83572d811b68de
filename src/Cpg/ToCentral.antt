-- ===== src/Cpg/ToCentral.antt =====
-- ASIO_ALONE_STUDY/CPG/Net/CPGToCentralSession.cpp: the session of a server to the central server. Its
-- loop is that of Cpg/Framing, since the handlers do not touch the input buffer. What `parseProtoMsg`
-- makes of a body, and what the virtual `connectService` returns, the session and its id, are
-- arguments; the calls of the virtual `handlerMsg` are listed, oldest first. A failed assertion is
-- `none`.
pub mod Connected
pub mod Register
mod Told
mod Tests
use asio_utils.Base.{
  ℕ, suc, ◌+◌, Bool, true, false, List, [], ◌∷◌, ◌++◌, Option, none, some, ◌==◌, if◌then◌else◌,
  ◌>>=◌,
}
use asio_utils.Net.Buffer.{DataBuffer}
use asio_utils.Net.Services.{ServiceConfig, ServiceKernel, add_new_connect}
use asio_utils.Cpg.Framing.{
  Message, Event, heart_beat, handled, k_heart_beat_rs, Outcome, ended, asserted, starved, consume,
}

pub record ToCentral : Type 0 where
  pub logic_id : ℕ
  pub heart_beat_time : ℕ
  pub kernel : ServiceKernel
  pub passed : List Message

-- `ServerRegisterRS`: the result, the id, and the services to connect to.
pub record RegisterRs : Type 0 where
  pub result : ℕ
  pub sid : ℕ
  pub conn_servers : List ServiceConfig

module _ (connect_service : ServiceKernel → ServiceConfig → ℕ × ℕ) where
  -- The loops over `connservers`.
  unfoldable pub connect_all : List ServiceConfig → ServiceKernel → Option ServiceKernel
  connect_all [] k = some k
  connect_all (c ∷ cs) k =
      let (session, uuid) = connect_service k c in
      add_new_connect c session uuid k >>= connect_all cs

  unfoldable pub new_services_notify : Option (List ServiceConfig) → ToCentral → Option ToCentral
  unfolding connect_all
  new_services_notify none s = some s
  new_services_notify (some cs) s =
      connect_all cs s.kernel >>= (λ k. some (record s { kernel = k }))

  unfoldable pub server_regist_rs : Option RegisterRs → ToCentral → Option ToCentral
  unfolding connect_all
  server_regist_rs none s = some s
  server_regist_rs (some rs) s =
      let registered =
        connect_all rs.conn_servers s.kernel
        >>= (λ k. some (record s { logic_id = rs.sid; kernel = k })) in
      if rs.result == 0 then registered else some s

  module _ (parse_rs : List ℕ → Option RegisterRs)
      (parse_notify : List ℕ → Option (List ServiceConfig)) where
    -- The handler of a message that is no heart beat.
    unfoldable pub handle : Message → ToCentral → Option ToCentral
    unfolding server_regist_rs new_services_notify
    handle m s =
        if m.header.type == 5002
        then server_regist_rs (parse_rs m.body) s
        else if m.header.type == 5005
        then new_services_notify (parse_notify m.body) s
        else some (record s { passed = s.passed ++ m ∷ [] })

    -- One round of the loop, at the time `now`.
    unfoldable pub handle_event : ℕ → Event → ToCentral → Option ToCentral
    unfolding handle
    handle_event now heart_beat s = some (record s { heart_beat_time = now })
    handle_event now (handled m) s = handle m s

    unfoldable pub handle_events : ℕ → List Event → ToCentral → Option ToCentral
    unfolding handle_event
    handle_events now [] s = some s
    handle_events now (e ∷ es) s = handle_event now e s >>= handle_events now es

    after_loop : ℕ → Outcome → ToCentral → Option (ToCentral × DataBuffer)
    unfolding handle_events
    after_loop now (ended es b) s = handle_events now es s >>= (λ s'. some (s', b))
    after_loop now asserted s = none
    after_loop now starved s = none

    unfoldable pub default_message_callback :
        ℕ → ℕ → DataBuffer → ToCentral → Option (ToCentral × DataBuffer)
    unfolding after_loop
    default_message_callback now fuel b s = after_loop now (consume k_heart_beat_rs fuel b) s
