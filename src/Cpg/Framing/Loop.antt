-- ===== src/Cpg/Framing/Loop.antt =====
-- The loop of CPGNetSession.cpp on a stream of packets, and on the same stream piece by piece as
-- TCPSession.cpp reads it (`startAsyncRead`, then `handRead`).
use mathlib.Core.List.{map-append}
use asio_utils.Base.{
  ℕ, zero, suc, ◌+◌, ◌%◌, ◌^◌, ◌≤◌, ◌<◌, ◌≡◌, refl, sym, ap, ◌∙◌, subst, List, [], ◌∷◌, ◌++◌,
  Option, none, some, true, false, arith, length, take, drop, length-append, map, ◌>>=◌,
  append_assoc, append-nil, drop-length-append, take-length-append, ap₂,
}
use asio_utils.Net.Buffer.{
  DataBuffer, readable_bytes, peek, retrieve, ensure_writable_bytes, has_written, fill,
}
use asio_utils.Net.Buffer.Inv.{IsValid, length-peek, ensure_writable_bytes_total}
use asio_utils.Net.Buffer.Refine.{Holds, retrieve_lem, written_lem}
use asio_utils.Net.Packet.{PacketHeader, header_of, has_packet, packet_size}
use asio_utils.Cpg.Framing.{
  Message, Event, Outcome, ended, asserted, starved, after, front, event_of, consume,
}
use asio_utils.Cpg.Framing.Stream.{
  IsMessage, Frames, stop, next, Frames-Cut, Frames-left, Frames-none, Frames-shorter, encode,
  has_packet-encode, header_of-encode, packet_size-encode, length-encode,
}

front-encode : (m : Message) (ys : List ℕ) → IsMessage m → front (encode m ++ ys) ≡ m
unfolding front
front-encode m ys v =
    let h = header_of-encode m ys v in
    let body : take (header_of (encode m ++ ys)).size (m.body ++ ys) ≡ m.body =
      take-length-append (header_of (encode m ++ ys)).size m.body ys
        (sym v.sized ∙ sym (ap (λ (k : PacketHeader). k.size) h)) in
    λ i. record { header = h i; body = body i }

consume_stop :
    (beat fuel : ℕ) (b : DataBuffer)
    → has_packet (peek b) (readable_bytes b % 2 ^ 32) ≡ false
    → consume beat (suc fuel) b ≡ ended [] b
unfolding consume
consume_stop beat fuel b e = rw (e, consume)

consume_step :
    (beat fuel : ℕ) (b c : DataBuffer)
    → has_packet (peek b) (readable_bytes b % 2 ^ 32) ≡ true
    → retrieve b (packet_size (header_of (peek b))) ≡ some c
    → consume beat (suc fuel) b ≡ after (event_of beat (front (peek b))) (consume beat fuel c)
unfolding consume
consume_step beat fuel b c e f = rw (e, consume) (rw (f, consume))

-- On a buffer whose bytes begin with whole packets, the loop handles exactly those, in order, and
-- leaves the rest. It has fuel for one round more than there are packets.
pub consume_lem :
    (beat fuel : ℕ) (b : DataBuffer) {xs t : List ℕ} {ms : List Message}
    → Frames xs ms t
    → IsValid b
    → peek b ≡ xs
    → length xs < 2 ^ 31
    → length ms < fuel
    → (c : DataBuffer) × (consume beat fuel b ≡ ended (map (event_of beat) ms) c)
      × Holds t b.is_operating c
consume_lem beat zero b f v e small enough = elim enough [ ]
consume_lem beat (suc fuel) b (stop q no_packet) v e small enough =
    let n : readable_bytes b % 2 ^ 32 ≡ length (peek b) =
      omega (arith, length-peek v, ap length e) in
    (
      b,
      consume_stop beat fuel b (rw (n, e) no_packet),
      record { valid = v; readable = e ∙ q; flag_kept = refl },
    )
consume_lem beat (suc fuel) b (next m {ys = ys} w q g) v e small enough =
    let whole : peek b ≡ encode m ++ ys = e ∙ q in
    let size : length (peek b) ≡ length (encode m) + length ys =
      ap length whole ∙ length-append (encode m) ys in
    let fits : length (encode m ++ ys) < 2 ^ 31 = omega (arith, ap length e, ap length whole) in
    let n : readable_bytes b % 2 ^ 32 ≡ length (peek b) =
      omega (arith, length-peek v, ap length e) in
    let k : packet_size (header_of (peek b)) ≡ length (encode m) =
      rw whole (packet_size-encode m ys w fits) in
    let (c, r, h) = retrieve_lem (length (encode m)) v (omega (arith, length-peek v, size)) in
    let rest : peek c ≡ ys =
      h.readable
      ∙ ap (drop (length (encode m))) whole
      ∙ drop-length-append (length (encode m)) (encode m) ys refl in
    let (d, s, i) =
      consume_lem beat fuel c g h.valid rest (omega (arith, ap length e, size)) (omega arith) in
    (
      d,
      consume_step beat fuel b c (rw (n, whole) (has_packet-encode m ys w fits))
            (ap (retrieve b) k ∙ r)
          ∙ ap₂ (λ x o. after (event_of beat x) o) (ap front whole ∙ front-encode m ys w) s,
      record { valid = i.valid; readable = i.readable; flag_kept = i.flag_kept ∙ h.flag_kept },
    )

-- Room is made, and the socket fills in a piece of the stream.
pub arrive : DataBuffer → List ℕ → Option DataBuffer
arrive b piece = ensure_writable_bytes b 1024 >>= λ c. has_written (fill c piece) (length piece)

abbrev pub continue : List Event → Outcome → Outcome
continue es (ended fs b) = ended (es ++ fs) b
continue es asserted = asserted
continue es starved = starved

abbrev pub and_then : Outcome → (DataBuffer → Outcome) → Outcome
and_then (ended es c) f = continue es (f c)
and_then asserted f = asserted
and_then starved f = starved

-- Each piece is handled before the next is read. There is fuel for a round for each byte.
pub feed : ℕ → DataBuffer → List (List ℕ) → Outcome
feed beat b [] = ended [] b
feed beat b (piece ∷ pieces) = elim (arrive b piece) [
  | none ↦ asserted
  | some c ↦ and_then (consume beat (suc (readable_bytes c)) c) (λ d. feed beat d pieces)
]

abbrev pub flatten : List (List ℕ) → List ℕ
flatten [] = []
flatten (xs ∷ xss) = xs ++ flatten xss

-- No piece is longer than the room that is made for it.
abbrev pub AreShort : List (List ℕ) → Type 0
AreShort [] = Unit {0}
AreShort (xs ∷ xss) = (length xs ≤ 1024) × AreShort xss

arrive_lem :
    {b : DataBuffer} (piece : List ℕ)
    → IsValid b
    → length piece ≤ 1024
    → (c : DataBuffer) × (arrive b piece ≡ some c) × Holds (peek b ++ piece) b.is_operating c
unfolding arrive
arrive_lem {b} piece v short =
    let (c, e, r) = ensure_writable_bytes_total v 1024 in
    let (d, f, w) = written_lem piece r.valid (omega (arith, r.room)) in
    (
      d,
      rw e f,
      record {
        valid = w.valid;
        readable = w.readable ∙ ap (λ xs. xs ++ piece) r.same_bytes;
        flag_kept = w.flag_kept ∙ r.same_flag;
      },
    )

Frames-length : {xs t : List ℕ} {ms : List Message} → Frames xs ms t → length ms ≤ length xs
Frames-length (stop q h) = omega arith
Frames-length (next m {ys = ys} w q g) =
    omega (arith, ap length q, length-append (encode m) ys, length-encode m, Frames-length g)

feed_step :
    (beat : ℕ) (b c d : DataBuffer) (piece : List ℕ) (pieces : List (List ℕ)) (es : List Event)
    → arrive b piece ≡ some c
    → consume beat (suc (readable_bytes c)) c ≡ ended es d
    → feed beat b (piece ∷ pieces) ≡ continue es (feed beat d pieces)
unfolding feed
feed_step beat b c d piece pieces es e f = rw (e, feed) (rw f)

-- However the stream is cut into pieces of at most 1024 bytes, the handlers are called for exactly
-- its messages, in their order and with their bodies, no assertion fails, and the bytes behind the
-- last whole packet are left in the buffer. The buffer is valid and holds no whole packet at first,
-- and the stream is shorter than 2 ^ 31 bytes.
pub feed_lem :
    (beat : ℕ) (b : DataBuffer) (pieces : List (List ℕ)) (ms : List Message) (t : List ℕ)
    → IsValid b
    → AreShort pieces
    → length (peek b ++ flatten pieces) < 2 ^ 31
    → has_packet (peek b) (length (peek b)) ≡ false
    → Frames (peek b ++ flatten pieces) ms t
    → (c : DataBuffer) × (feed beat b pieces ≡ ended (map (event_of beat) ms) c)
      × Holds t b.is_operating c
unfolding feed
feed_lem beat b [] ms t v short small none_yet f =
    let (no_messages, rest) =
      Frames-none f (append-nil (peek b)) (omega (arith, ap length (append-nil (peek b))))
        none_yet in
    (b, rw no_messages refl, record { valid = v; readable = rest; flag_kept = refl })
feed_lem beat b (piece ∷ pieces) ms t v short small none_yet f =
    let (c, e, h) = arrive_lem piece v short.0 in
    let assoc = append_assoc (peek b) piece (flatten pieces) in
    let long : length (peek b ++ piece) + length (flatten pieces) < 2 ^ 31 =
      omega (arith, ap length assoc, length-append (peek b ++ piece) (flatten pieces)) in
    let cut =
      Frames-Cut (peek b ++ piece) (flatten pieces) f (sym assoc)
        (omega (arith, ap length assoc)) in
    let count : length cut.before ≤ length (peek b ++ piece) = Frames-length cut.first in
    let (d, g, k) =
      consume_lem beat (suc (readable_bytes c)) c cut.first h.valid h.readable (omega (arith, long))
        (omega (arith, count, ap length h.readable, length-peek h.valid)) in
    let same : peek d ++ flatten pieces ≡ cut.left ++ flatten pieces =
      ap (λ xs. xs ++ flatten pieces) k.readable in
    let (x, r, i) =
      feed_lem beat d pieces cut.after t k.valid short.1
        (omega (
          arith,
          long,
          ap length same,
          length-append cut.left (flatten pieces),
          Frames-shorter cut.first,
        ))
        (rw k.readable (Frames-left cut.first))
        (subst (λ xs. Frames xs cut.after t) (sym same) cut.second) in
    (
      x,
      feed_step beat b c d piece pieces (map (event_of beat) cut.before) e g
          ∙ ap (continue (map (event_of beat) cut.before)) r
          ∙ ap (λ es. ended es x)
              (sym (map-append (event_of beat) cut.before cut.after)
                ∙ ap (map (event_of beat)) (sym cut.whole)),
      record {
        valid = i.valid;
        readable = i.readable;
        flag_kept = i.flag_kept ∙ (k.flag_kept ∙ h.flag_kept);
      },
    )
