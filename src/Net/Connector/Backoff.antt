-- ===== src/Net/Connector/Backoff.antt =====
-- The retries of TCPConnector.cpp: how long they wait, and what stops them.
use native.Mathlib.Nat.{pow-suc}
use asio_utils.Base.{
  ℕ, zero, suc, ◌*◌, ◌^◌, ◌≤◌, min, ◌≡◌, refl, ap, ◌∙◌, List, [], ◌∷◌, ◌++◌, Bool, true, Option,
  some, arith, ◌>>=◌, append-nil,
}
use asio_utils.Net.Connector.{
  Connector, State, ErrorCode, success, Effect, resolve, async_connect, close_socket, wait, notify,
  k_init_retry_delay_ms, k_max_retry_delay_ms, init, start, restart, stop, resolved, handle_connect,
  retried, others,
}

-- What can happen to a connector.
pub data Event : Type 0 where
  starts restarts stops : Event
  resolves : List ℕ → Event
  completes : ErrorCode → Event

unfoldable pub step : Connector → Event → Option Connector
step c starts = some (start c)
step c restarts = some (restart c)
step c stops = some (stop c)
step c (resolves results) = resolved c results
step c (completes ec) = handle_connect c ec

pub record InRange (c : Connector) : Type 0 where
  pub at_least : k_init_retry_delay_ms ≤ c.retry_delay_ms
  pub at_most : c.retry_delay_ms ≤ k_max_retry_delay_ms

-- One attempt that is refused at its only endpoint: start, resolution, completion.
pub refused : Connector → ℕ → Option Connector
refused c endpoint =
    resolved (start c) (endpoint ∷ []) >>= λ d. handle_connect d ErrorCode.connection_refused

pub refusals : ℕ → ℕ → Connector → Option Connector
refusals zero endpoint c = some c
refusals (suc n) endpoint c = refusals n endpoint c >>= λ d. refused d endpoint

-- The delays that the retry timer is given.
abbrev pub waits : List Effect → List ℕ
waits [] = []
waits (wait ms ∷ es) = ms ∷ waits es
waits (_ ∷ es) = waits es

abbrev pub schedule : ℕ → List ℕ
schedule zero = []
schedule (suc n) = schedule n ++ min (500 * 2 ^ n) 30000 ∷ []

waits-append : (es fs : List Effect) → waits (es ++ fs) ≡ waits es ++ waits fs
waits-append [] fs = refl
waits-append (wait ms ∷ es) fs = ap (◌∷◌ ms) (waits-append es fs)
waits-append (resolve ∷ es) fs = waits-append es fs
waits-append (async_connect x ∷ es) fs = waits-append es fs
waits-append (close_socket ∷ es) fs = waits-append es fs
waits-append (notify ∷ es) fs = waits-append es fs

-- One refused attempt of a connector that is not connecting already.
refused_lem :
    (c : Connector) (endpoint : ℕ)
    → c.state ≡ State.disconnected
    → (d : Connector) × (refused c endpoint ≡ some d)
      × (d.state ≡ State.disconnected)
      × (d.retry_delay_ms ≡ min (c.retry_delay_ms * 2) k_max_retry_delay_ms)
      × (waits d.effects ≡ waits c.effects ++ c.retry_delay_ms ∷ [])
unfolding refused start resolved handle_connect
refused_lem c endpoint e =
    let es : List Effect =
      (((c.effects ++ resolve ∷ []) ++ async_connect endpoint ∷ []) ++ close_socket ∷ [])
      ++ wait c.retry_delay_ms ∷ [] in
    let d : Connector = record c {
      connect_flag = true;
      state = State.disconnected;
      retry_delay_ms = min (c.retry_delay_ms * 2) k_max_retry_delay_ms;
      endpoints = [];
      effects = es;
    } in
    (d, ground arith, refl, refl, simp (waits-append, append-nil))

-- The retries back off: refused again and again, a connector waits 500 ms, then twice as long each
-- time, and 30 s at most.
pub refusals_lem :
    (n endpoint : ℕ) (has_callback : Bool)
    → (d : Connector) × (refusals n endpoint (init has_callback) ≡ some d)
      × (d.state ≡ State.disconnected)
      × (d.retry_delay_ms ≡ min (500 * 2 ^ n) 30000)
      × (waits d.effects ≡ schedule n)
unfolding refusals init
refusals_lem zero endpoint b = (init b, refl, refl, refl, refl)
refusals_lem (suc n) endpoint b =
    let (c, e, s, delay, w) = refusals_lem n endpoint b in
    let (d, f, t, delay', w') = refused_lem c endpoint s in
    (d, rw e f, t, delay' ∙ rw (delay, pow-suc) (omega arith), w' ∙ rw (w, delay) refl)

-- `stop` during an attempt ends the retries: if the last endpoint then fails, the socket is closed and
-- no timer is started. But an attempt that succeeds after `stop` is still reported to the owner.
pub stop_lem :
    (c : Connector) (ec : ErrorCode)
    → c.state ≡ State.connecting
    → c.has_callback ≡ true
    → retried ec ≡ true
    → others c.endpoints ≡ []
    → (d f : Connector) × (handle_connect (stop c) ec ≡ some d)
      × (d.state ≡ State.stopped)
      × (d.effects ≡ c.effects ++ close_socket ∷ [])
      × (handle_connect (stop c) success ≡ some f)
      × (f.state ≡ State.connected)
      × (f.effects ≡ c.effects ++ notify ∷ [])
unfolding handle_connect stop
stop_lem c ec e b r none_left = (
  record c { state = State.stopped; endpoints = []; effects = c.effects ++ close_socket ∷ [] },
  record c { state = State.connected; effects = c.effects ++ notify ∷ [] },
  ground arith,
  refl,
  refl,
  ground arith,
  refl,
  refl,
)
