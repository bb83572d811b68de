-- ===== src/Net/Session/Outgoing.antt =====
-- The bytes that a session is given to send: TCPSession.cpp's output and send buffers as one stream.
use asio_utils.Base.{
  ℕ, ◌≡◌, refl, sym, ap, ◌∙◌, inl, inr, List, [], ◌∷◌, ◌++◌, Bool, true, false, not, ◌&&◌, ◌==◌,
  ==_iff, Option, none, some, arith, Bool-cases, if◌then◌else◌, ◌>>=◌, append_assoc, append-nil,
  length_zero,
}
use asio_utils.Net.Buffer.{
  DataBuffer, readable_bytes, peek, retrieve_all, operate, unoperate, k_initial_size,
}
use asio_utils.Net.Buffer.Inv.{IsValid, length-peek}
use asio_utils.Net.Buffer.Refine.{init-Holds, append_lem, peek-retrieve_all}
use asio_utils.Net.Session.{
  Session, State, Effect, async_send, async_read, socket_shutdown, socket_close, ErrorCode, success,
  Handlers, established, internal_send, add_more, send, hand_write, fresh, log,
}

-- The bytes that the socket has been given, in order.
abbrev pub wire : List Effect → List ℕ
wire [] = []
wire (async_send bytes ∷ es) = bytes ++ wire es
wire (async_read n ∷ es) = wire es
wire (socket_shutdown ∷ es) = wire es
wire (socket_close ∷ es) = wire es

wire-append : (es fs : List Effect) → wire (es ++ fs) ≡ wire es ++ wire fs
wire-append [] fs = refl
wire-append (async_send bytes ∷ es) fs =
    ap (◌++◌ bytes) (wire-append es fs) ∙ sym (append_assoc bytes (wire es) (wire fs))
wire-append (async_read n ∷ es) fs = wire-append es fs
wire-append (socket_shutdown ∷ es) fs = wire-append es fs
wire-append (socket_close ∷ es) fs = wire-append es fs

-- `accepted` is all that the session was given to send: it has gone to the socket, or waits behind it.
pub record Outgoing (s : Session) (accepted : List ℕ) : Type 0 where
  pub output_valid : IsValid s.output_buffer
  pub send_valid : IsValid s.send_buffer
  pub idle : s.send_buffer.is_operating ≡ false → peek s.send_buffer ≡ []
  pub output_idle : s.output_buffer.is_operating ≡ false
  pub stream : wire s.effects ++ peek s.output_buffer ≡ accepted

-- `internalSend` hands the buffer over, under these conditions.
abbrev pub may_send : Session → Bool
may_send s =
    established s.state
    && not s.send_buffer.is_operating
    && not (readable_bytes s.output_buffer == 0)

abbrev sent : Session → Session
sent s = record (log s (async_send (peek s.output_buffer))) {
  send_buffer = operate s.output_buffer;
  output_buffer = s.send_buffer;
}

internal_send-cases : (s : Session) → internal_send s ≡ (if may_send s then sent s else s)
unfolding internal_send
internal_send-cases s = ground arith

sent-Outgoing :
    {s : Session} {acc : List ℕ}
    → Outgoing s acc
    → s.send_buffer.is_operating ≡ false
    → Outgoing (sent s) acc
unfolding operate
sent-Outgoing {s} {acc} o free = record {
  output_valid = o.send_valid;
  send_valid = record { ordered = o.output_valid.ordered; inside = o.output_valid.inside };
  idle = λ e. cc e;
  output_idle = free;
  stream =
      rw (wire-append s.effects (async_send (peek s.output_buffer) ∷ []), o.idle free, append-nil)
        (rw append-nil o.stream);
}

pub internal_send-Outgoing :
    {s : Session} {acc : List ℕ} → Outgoing s acc → Outgoing (internal_send s) acc
internal_send-Outgoing {s} o = elim (Bool-cases (may_send s)) [
  | inl go ↦ rw (internal_send-cases s, go) (sent-Outgoing o (ground arith))
  | inr stay ↦ rw (internal_send-cases s, stay) o
]

empty_peek : {b : DataBuffer} → IsValid b → (readable_bytes b == 0) ≡ true → peek b ≡ []
empty_peek {b} v e = length_zero (peek b) (length-peek v ∙ (==_iff (readable_bytes b) 0).0 e)

-- A session that is free to send keeps nothing back.
internal_send_drains :
    {s : Session} {acc : List ℕ}
    → Outgoing s acc
    → s.state ≡ State.connected
    → s.send_buffer.is_operating ≡ false
    → peek (internal_send s).output_buffer ≡ []
internal_send_drains {s} o c free = elim (Bool-cases (may_send s)) [
  | inl go ↦ rw (internal_send-cases s, go) (o.idle free)
  | inr stay ↦ rw (internal_send-cases s, stay) (empty_peek o.output_valid (ground arith))
]

pub add_more-Outgoing :
    {s : Session} {acc : List ℕ} (bytes : List ℕ)
    → Outgoing s acc
    → (t : Session) × (add_more s bytes ≡ some t) × Outgoing t (acc ++ bytes)
unfolding add_more
add_more-Outgoing {s} {acc} bytes o =
    let (b, e, h) = append_lem bytes o.output_valid in
    (
      record s { output_buffer = b },
      rw e,
      record {
        output_valid = h.valid;
        send_valid = o.send_valid;
        idle = o.idle;
        output_idle = h.flag_kept ∙ o.output_idle;
        stream =
            ap (◌++◌ (wire s.effects)) h.readable
            ∙ sym (append_assoc (wire s.effects) (peek s.output_buffer) bytes)
            ∙ ap (λ ys. ys ++ bytes) o.stream;
      },
    )

-- The calls that move outgoing bytes: two by the owner, and the completion of a send.
pub data Call : Type 0 where
  adds sends : List ℕ → Call
  written : ErrorCode → ℕ → Call

abbrev pub given : List Call → List ℕ
given [] = []
given (adds bytes ∷ cs) = bytes ++ given cs
given (sends bytes ∷ cs) = bytes ++ given cs
given (written ec n ∷ cs) = given cs

module _ (h : Handlers) where
  pub step : Session → Call → Option Session
  step s (adds bytes) = add_more s bytes
  step s (sends bytes) = send s bytes
  step s (written ec n) = hand_write h s ec n

  pub run : Session → List Call → Option Session
  run s [] = some s
  run s (c ∷ cs) = step s c >>= λ t. run t cs

abbrev gave : Call → List ℕ
gave (adds bytes) = bytes
gave (sends bytes) = bytes
gave (written ec n) = []

given-cons : (c : Call) (cs : List Call) → gave c ++ given cs ≡ given (c ∷ cs)
given-cons (adds bytes) cs = refl
given-cons (sends bytes) cs = refl
given-cons (written ec n) cs = refl

released : Session → Session
released s = record s { send_buffer = retrieve_all (unoperate s.send_buffer) }

released-Outgoing : {s : Session} {acc : List ℕ} → Outgoing s acc → Outgoing (released s) acc
unfolding released retrieve_all unoperate
released-Outgoing {s} o = record {
  output_valid = o.output_valid;
  send_valid = record { ordered = omega arith; inside = omega arith };
  idle = λ e. peek-retrieve_all (unoperate s.send_buffer);
  output_idle = o.output_idle;
  stream = o.stream;
}

module _ (h : Handlers) (no_callback : h.write_complete ≡ none) where
  hand_write_lem :
      (s : Session) (n : ℕ) → hand_write h s success n ≡ some (internal_send (released s))
  unfolding hand_write released
  hand_write_lem s n = rw no_callback

  pub step-Outgoing :
      {s : Session} {acc : List ℕ} (c : Call)
      → Outgoing s acc
      → (t : Session) × (step h s c ≡ some t) × Outgoing t (acc ++ gave c)
  unfolding step send hand_write
  step-Outgoing (adds bytes) o = add_more-Outgoing bytes o
  step-Outgoing (sends bytes) o =
      let (t, e, p) = add_more-Outgoing bytes o in (internal_send t, rw e, internal_send-Outgoing p)
  step-Outgoing {s} (written success n) o = (
    internal_send (released s),
    hand_write_lem s n,
    rw append-nil (internal_send-Outgoing (released-Outgoing o)),
  )
  step-Outgoing {s} {acc} (written _ n) o = (s, refl, rw append-nil o)

  -- Whatever is added, sent and completed, in whatever order, no assertion fails, and the bytes given
  -- to the socket followed by those in the output buffer are the bytes given to the session: none is
  -- lost, repeated or out of order. No write-complete callback is set.
  pub run-Outgoing :
      (s : Session) (acc : List ℕ) (cs : List Call)
      → Outgoing s acc
      → (t : Session) × (run h s cs ≡ some t) × Outgoing t (acc ++ given cs)
  unfolding run
  run-Outgoing s acc [] o = (s, refl, rw append-nil o)
  run-Outgoing s acc (c ∷ cs) o =
      let (t, e, p) = step-Outgoing c o in
      let (u, f, q) = run-Outgoing t (acc ++ gave c) cs p in
      (u, rw e f, rw (append_assoc, given-cons c cs) at q)

  -- When a send is complete on an established session, nothing is left waiting: all that was given
  -- to the session has been given to the socket. No write-complete callback is set.
  pub hand_write_flushes :
      (s : Session) (acc : List ℕ) (n : ℕ)
      → Outgoing s acc
      → s.state ≡ State.connected
      → (t : Session) × (hand_write h s success n ≡ some t)
        × (wire t.effects ≡ acc)
        × (peek t.output_buffer ≡ [])
  unfolding released unoperate retrieve_all
  hand_write_flushes s acc n o c =
      let p = released-Outgoing o in
      let t = internal_send (released s) in
      let drained : peek t.output_buffer ≡ [] = internal_send_drains p c refl in
      let stream : wire t.effects ++ peek t.output_buffer ≡ acc =
        (internal_send-Outgoing p).stream in
      (
        t,
        hand_write_lem s n,
        sym (append-nil (wire t.effects)) ∙ ap (◌++◌ (wire t.effects)) (sym drained) ∙ stream,
        drained,
      )

pub fresh-Outgoing : (b : Bool) (now : ℕ) → Outgoing (fresh b now) []
unfolding fresh
fresh-Outgoing b now =
    let e = init-Holds k_initial_size in
    record {
      output_valid = e.valid;
      send_valid = e.valid;
      idle = λ _. e.readable;
      output_idle = e.flag_kept;
      stream = e.readable;
    }
