-- ===== src/Net/Session/Tests.antt =====
-- The theorems on TCPSession.cpp at concrete sessions.
use asio_utils.Base.{◌≡◌, refl, ap, List, [], ◌∷◌, ◌++◌, none, some, false, true}
use asio_utils.Net.Buffer.{peek}
use asio_utils.Net.Session.{
  Session, State, socket_close, socket_shutdown, success, failure, Handlers, fresh, hand_read,
  hand_write, hand_close, force_close, shutdown,
}
use asio_utils.Net.Session.Outgoing.{
  Outgoing, Call, adds, sends, written, run, run-Outgoing, hand_write_flushes, wire, fresh-Outgoing,
}
use asio_utils.Net.Session.Closing
use asio_utils.Net.Session.Closing.{Same, IsQuiet, closing, closed_silent, reads, forces, step}

-- No callback is set, and the owner does nothing with a message.
abbrev plain : Handlers
plain = record {
  message = λ s. some s;
  write_complete = none;
  connection = none;
  close = none;
  on_close = λ s. some s;
  send_init_data = λ s. some s;
}

plain-IsQuiet : IsQuiet plain
plain-IsQuiet = record {
  message_quiet = λ s t e. quiet s t e;
  write_quiet = λ s t e. quiet s t e;
  on_close_quiet = λ s t e. quiet s t e;
  close_quiet = λ s t e. quiet s t e;
}
  where
    quiet : (s t : Session) → some s ≡ some t → Same s t
    quiet s t e =
        let p : t ≡ s = cc in
        record {
          same_state = ap (λ (u : Session). u.state) p;
          same_effects = ap (λ (u : Session). u.effects) p;
        }

-- An established session with nothing sent yet.
abbrev live : Session
live = record (fresh true 0) { state = State.connected }

live-Outgoing : Outgoing live []
unfolding fresh
live-Outgoing =
    let o = fresh-Outgoing true 0 in
    record {
      output_valid = o.output_valid;
      send_valid = o.send_valid;
      idle = o.idle;
      output_idle = o.output_idle;
      stream = o.stream;
    }

abbrev script : List Call
script = adds (1 ∷ []) ∷ sends (2 ∷ 3 ∷ []) ∷ sends (4 ∷ []) ∷ written success 3 ∷ []

run-Outgoing_example :
    (t : Session) × (run plain live script ≡ some t) × Outgoing t (1 ∷ 2 ∷ 3 ∷ 4 ∷ [])
run-Outgoing_example = run-Outgoing plain refl live [] script live-Outgoing

hand_write_flushes_example :
    (t : Session) × (hand_write plain live success 0 ≡ some t)
    × (wire t.effects ≡ [])
    × (peek t.output_buffer ≡ [])
hand_write_flushes_example = hand_write_flushes plain refl live [] 0 live-Outgoing refl

-- The owner shuts the session down, and then its peer hangs up and the owner closes it.
abbrev hung_up : List Closing.Call
hung_up = reads (failure 1) [] ∷ forces ∷ []

closed_silent_example :
    ((shutdown live).state ≡ State.disconnecting)
    × ((shutdown live).effects ≡ live.effects ++ socket_shutdown ∷ [])
    × (Closing.run (closing plain none (λ s. none)) (shutdown live) hung_up ≡ some (shutdown live))
unfolding Closing.run step shutdown hand_read force_close hand_close
closed_silent_example =
    closed_silent plain plain-IsQuiet live (shutdown live) hung_up none (λ s. none) (λ e. cc e) refl

abbrev dead : Session
dead = record live { state = State.disconnected; has_socket = false; effects = socket_close ∷ [] }
