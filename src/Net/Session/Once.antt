-- ===== src/Net/Session/Once.antt =====
-- TCPSession.cpp: a connected session is closed once.
use asio_utils.Base.{◌≡◌, sym, ◌∙◌, inl, [], ◌∷◌, ◌++◌, true, false, some, ◌>>=◌, bind-some}
use asio_utils.Net.Session.{
  Session, State, socket_close, Handlers, is_connected, hand_close, force_close, connect_destroyed,
  call, log,
}
use asio_utils.Net.Session.Closing.{
  IsQuiet, closed-hand_close, closed-force_close, closed-connect_destroyed,
}

module _ (h : Handlers) (q : IsQuiet h) where
  live_close :
      (s : Session)
      → is_connected s.state ≡ true
      → hand_close h s ≡ (
          h.on_close
            (record (log s socket_close) { state = State.disconnected; has_socket = false })
          >>= call h.close)
  unfolding hand_close
  live_close s live = rw live

  -- Closing a live session closes the socket, once, and leaves the session disconnected: a second
  -- close by any path leaves it as it is.
  pub hand_close_once :
      (s t : Session)
      → is_connected s.state ≡ true
      → hand_close h s ≡ some t
      → (t.state ≡ State.disconnected)
        × (t.effects ≡ s.effects ++ socket_close ∷ [])
        × (hand_close h t ≡ some t)
        × (force_close h t ≡ some t)
        × (connect_destroyed h t ≡ some t)
  unfolding hand_close
  hand_close_once s t live e =
      let r : Session = record (log s socket_close) {
        state = State.disconnected;
        has_socket = false;
      } in
      let (u, m, g) = bind-some (h.on_close r) (call h.close) (sym (live_close s live) ∙ e) in
      let a = q.on_close_quiet r u m in
      let b = q.close_quiet u t g in
      let gone : t.state ≡ State.disconnected = b.same_state ∙ a.same_state in
      (
        gone,
        b.same_effects ∙ a.same_effects,
        closed-hand_close h t (inl gone),
        closed-force_close h t (inl gone),
        closed-connect_destroyed h t (inl gone),
      )
