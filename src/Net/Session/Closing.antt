-- ===== src/Net/Session/Closing.antt =====
-- How a connection of TCPSession.cpp ends.
use mathlib.Core.Option.{some-injective}
use asio_utils.Base.{
  ℕ, ◌≡◌, ◌≢◌, refl, if◌then◌else◌, sym, ap, ◌∙◌, ◌⊎◌, inl, inr, List, [], ◌∷◌, ◌++◌, Option, some,
  arith, ◌>>=◌, length, bind-some,
}
use asio_utils.Net.Buffer.{append, has_written, fill, retrieve_all, unoperate}
use asio_utils.Net.Session.{
  Session, State, socket_shutdown, established, ErrorCode, success, operation_aborted, interrupted,
  try_again, failure, Handlers, internal_send, add_more, send, start_async_read, hand_close,
  hand_read, hand_write, force_close, connect_destroyed, shutdown, call,
}

-- What happens to a session after it is set up: completions, and calls of its owner.
pub data Call : Type 0 where
  reads : ErrorCode → List ℕ → Call
  writes : ErrorCode → ℕ → Call
  sends : List ℕ → Call
  shuts forces destroys : Call

module _ (h : Handlers) where
  unfoldable pub step : Session → Call → Option Session
  step s (reads ec bytes) = hand_read h s ec bytes
  step s (writes ec n) = hand_write h s ec n
  step s (sends bytes) = send s bytes
  step s shuts = some (shutdown s)
  step s forces = force_close h s
  step s destroys = connect_destroyed h s

  unfoldable pub run : Session → List Call → Option Session
  unfolding step
  run s [] = some s
  run s (c ∷ cs) = step s c >>= (λ t. run t cs)

-- Callbacks with others for the end of a session.
abbrev pub closing :
    Handlers → Option (Session → Option Session) → (Session → Option Session) → Handlers
closing h close on_close = record h { close = close; on_close = on_close }

-- The session's state and its socket are as they were.
pub record Same (s t : Session) : Type 0 where
  pub same_state : t.state ≡ s.state
  pub same_effects : t.effects ≡ s.effects

-- The callbacks that run while a session lives do not call it back.
pub record IsQuiet (h : Handlers) : Type 0 where
  pub message_quiet : (s t : Session) → h.message s ≡ some t → Same s t
  pub write_quiet : (s t : Session) → call h.write_complete s ≡ some t → Same s t
  pub on_close_quiet : (s t : Session) → h.on_close s ≡ some t → Same s t
  pub close_quiet : (s t : Session) → call h.close s ≡ some t → Same s t

State-cases :
    (x : State)
    → (x ≡ State.disconnected)
      ⊎ (x ≡ State.connecting)
      ⊎ (x ≡ State.connected)
      ⊎ (x ≡ State.disconnecting)
State-cases State.disconnected = inl refl
State-cases State.connecting = inr (inl refl)
State-cases State.connected = inr (inr (inl refl))
State-cases State.disconnecting = inr (inr (inr refl))

abbrev pub IsClosed : Session → Type 0
IsClosed s = (s.state ≡ State.disconnected) ⊎ (s.state ≡ State.disconnecting)

closed-internal_send : (s : Session) → IsClosed s → internal_send s ≡ s
unfolding internal_send
closed-internal_send s c = ground arith

closed-start_async_read : (s : Session) → IsClosed s → start_async_read s ≡ some s
unfolding start_async_read
closed-start_async_read s c = ground arith

pub closed-hand_close : (h : Handlers) (s : Session) → IsClosed s → hand_close h s ≡ some s
unfolding hand_close
closed-hand_close h s c = ground arith

Same-trans : {s t u : Session} → Same s t → Same t u → Same s u
Same-trans a b = record {
  same_state = b.same_state ∙ a.same_state;
  same_effects = b.same_effects ∙ a.same_effects;
}

Same-IsClosed : {s t : Session} → Same s t → IsClosed s → IsClosed t
Same-IsClosed a (inl e) = inl (a.same_state ∙ e)
Same-IsClosed a (inr e) = inr (a.same_state ∙ e)

Same-of_eq : {s t : Session} → some s ≡ some t → Same s t
Same-of_eq e =
    let p = some-injective _ _ (sym e) in
    record {
      same_state = ap (λ (u : Session). u.state) p;
      same_effects = ap (λ (u : Session). u.effects) p;
    }

closed-shutdown : (s : Session) → IsClosed s → shutdown s ≡ s
unfolding shutdown
closed-shutdown s c = ground arith

pub closed-force_close : (h : Handlers) (s : Session) → IsClosed s → force_close h s ≡ some s
unfolding force_close
closed-force_close h s c = ground arith

pub closed-connect_destroyed :
    (h : Handlers) (s : Session) → IsClosed s → connect_destroyed h s ≡ some s
unfolding connect_destroyed
closed-connect_destroyed h s c = ground arith

-- A closed session calls neither `onClose` nor the close callback.
step-closing :
    (h : Handlers) (close : Option (Session → Option Session)) (on_close : Session → Option Session)
    (s : Session) (c : Call)
    → IsClosed s
    → step (closing h close on_close) s c ≡ step h s c
unfolding step hand_read hand_write
step-closing h close on_close s (reads success bytes) c = refl
step-closing h close on_close s (reads operation_aborted bytes) c = refl
step-closing h close on_close s (reads interrupted bytes) c = refl
step-closing h close on_close s (reads try_again bytes) c = refl
step-closing h close on_close s (reads (failure n) bytes) c =
    closed-hand_close (closing h close on_close) s c ∙ sym (closed-hand_close h s c)
step-closing h close on_close s (writes success n) c = refl
step-closing h close on_close s (writes operation_aborted n) c = refl
step-closing h close on_close s (writes interrupted n) c = refl
step-closing h close on_close s (writes try_again n) c = refl
step-closing h close on_close s (writes (failure k) n) c = refl
step-closing h close on_close s (sends bytes) c = refl
step-closing h close on_close s shuts c = refl
step-closing h close on_close s forces c =
    closed-force_close (closing h close on_close) s c ∙ sym (closed-force_close h s c)
step-closing h close on_close s destroys c =
    closed-connect_destroyed (closing h close on_close) s c ∙ sym (closed-connect_destroyed h s c)

shutdown-IsClosed :
    (s : Session)
    → s.state ≢ State.connecting
    → ((shutdown s).state ≡ (if established s.state then State.disconnecting else s.state))
      × ((shutdown s).effects
          ≡ (if established s.state then s.effects ++ socket_shutdown ∷ [] else s.effects))
      × IsClosed (shutdown s)
unfolding shutdown
shutdown-IsClosed s ne = elim (State-cases s.state) [
  | inl e ↦ (ground (arith, e), ground (arith, e), inl (ground (arith, e)))
  | inr (inl e) ↦ absurd (ne e)
  | inr (inr (inl e)) ↦ (ground (arith, e), ground (arith, e), inr (ground (arith, e)))
  | inr (inr (inr e)) ↦ (ground (arith, e), ground (arith, e), inr (ground (arith, e)))
]

add_more-Same : (s t : Session) (bytes : List ℕ) → add_more s bytes ≡ some t → Same s t
unfolding add_more
add_more-Same s t bytes e =
    let (b, _, f) =
      bind-some (append s.output_buffer bytes) (λ x. some (record s { output_buffer = x })) e in
    record {
      same_state = ap (λ (u : Session). u.state) (some-injective _ _ (sym f));
      same_effects = ap (λ (u : Session). u.effects) (some-injective _ _ (sym f));
    }

module _ (h : Handlers) (q : IsQuiet h) where
  closed-hand_read :
      (s t : Session) (ec : ErrorCode) (bytes : List ℕ)
      → IsClosed s
      → hand_read h s ec bytes ≡ some t
      → Same s t
  unfolding hand_read
  closed-hand_read s t success bytes c e =
      let (b, _, f) =
        bind-some (has_written (fill s.input_buffer bytes) (length bytes))
          (λ x. h.message (record s { input_buffer = x }) >>= start_async_read) e in
      let (u, m, g) = bind-some (h.message (record s { input_buffer = b })) start_async_read f in
      let a = q.message_quiet (record s { input_buffer = b }) u m in
      let a' : Same s u = record { same_state = a.same_state; same_effects = a.same_effects } in
      Same-trans a' (Same-of_eq (sym (closed-start_async_read u (Same-IsClosed a' c)) ∙ g))
  closed-hand_read s t operation_aborted bytes c e = Same-of_eq e
  closed-hand_read s t interrupted bytes c e = Same-of_eq (sym (closed-start_async_read s c) ∙ e)
  closed-hand_read s t try_again bytes c e = Same-of_eq (sym (closed-start_async_read s c) ∙ e)
  closed-hand_read s t (failure n) bytes c e = Same-of_eq (sym (closed-hand_close h s c) ∙ e)

  closed-hand_write :
      (s t : Session) (ec : ErrorCode) (n : ℕ)
      → IsClosed s
      → hand_write h s ec n ≡ some t
      → Same s t
  unfolding hand_write
  closed-hand_write s t success n c e =
      let r : Session = record s { send_buffer = retrieve_all (unoperate s.send_buffer) } in
      let (u, m, g) = bind-some (call h.write_complete r) (λ x. some (internal_send x)) e in
      let a = q.write_quiet r u m in
      let a' : Same s u = record { same_state = a.same_state; same_effects = a.same_effects } in
      Same-trans a' (Same-of_eq (ap some (sym (closed-internal_send u (Same-IsClosed a' c))) ∙ g))
  closed-hand_write s t operation_aborted n c e = Same-of_eq e
  closed-hand_write s t interrupted n c e = Same-of_eq e
  closed-hand_write s t try_again n c e = Same-of_eq e
  closed-hand_write s t (failure k) n c e = Same-of_eq e

  closed-send : (s t : Session) (bytes : List ℕ) → IsClosed s → send s bytes ≡ some t → Same s t
  unfolding send
  closed-send s t bytes c e =
      let (u, m, g) = bind-some (add_more s bytes) (λ x. some (internal_send x)) e in
      let a = add_more-Same s u bytes m in
      Same-trans a (Same-of_eq (ap some (sym (closed-internal_send u (Same-IsClosed a c))) ∙ g))

  closed_step : (s t : Session) (c : Call) → IsClosed s → step h s c ≡ some t → Same s t
  unfolding step
  closed_step s t (reads ec bytes) c e = closed-hand_read s t ec bytes c e
  closed_step s t (writes ec n) c e = closed-hand_write s t ec n c e
  closed_step s t (sends bytes) c e = closed-send s t bytes c e
  closed_step s t shuts c e = Same-of_eq (ap some (sym (closed-shutdown s c)) ∙ e)
  closed_step s t forces c e = Same-of_eq (sym (closed-force_close h s c) ∙ e)
  closed_step s t destroys c e = Same-of_eq (sym (closed-connect_destroyed h s c) ∙ e)

  closed_run :
      (s t : Session) (cs : List Call) (close : Option (Session → Option Session))
      (on_close : Session → Option Session)
      → IsClosed s
      → run h s cs ≡ some t
      → Same s t × (run (closing h close on_close) s cs ≡ some t)
  unfolding run
  closed_run s t [] close on_close c e = (Same-of_eq e, e)
  closed_run s t (x ∷ xs) close on_close c e =
      let (u, m, f) = bind-some (step h s x) (λ r. run h r xs) e in
      let a = closed_step s u x c m in
      let (b, g) = closed_run u t xs close on_close (Same-IsClosed a c) f in
      (
        Same-trans a b,
        ap (λ o. o >>= (λ r. run (closing h close on_close) r xs))
              (step-closing h close on_close s x c ∙ m)
            ∙ g,
      )

  -- A session that was connected is shut down, by `shutdown`: its socket is shut down and its state is
  -- `kDisconnecting`. A session that was disconnected or shut down before stays as it is. Whatever
  -- completions and calls of the owner but `connectEstablished` follow, the state stays, and nothing
  -- more is done to the socket: `forceClose` does not close it, nor does a failed read. Neither
  -- `onClose` nor the close callback is called: with any others in their place all goes the same way.
  -- The callbacks do not call the session back, and no assertion fails.
  pub closed_silent :
      (s t : Session) (cs : List Call) (close : Option (Session → Option Session))
      (on_close : Session → Option Session)
      → s.state ≢ State.connecting
      → run h (shutdown s) cs ≡ some t
      → (t.state ≡ (if established s.state then State.disconnecting else s.state))
        × (t.effects
            ≡ (if established s.state then s.effects ++ socket_shutdown ∷ [] else s.effects))
        × (run (closing h close on_close) (shutdown s) cs ≡ some t)
  closed_silent s t cs close on_close ne e =
      let (state, effects, closed) = shutdown-IsClosed s ne in
      let (a, f) = closed_run (shutdown s) t cs close on_close closed e in
      (a.same_state ∙ state, a.same_effects ∙ effects, f)
