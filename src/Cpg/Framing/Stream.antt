-- ===== src/Cpg/Framing/Stream.antt =====
-- How a stream of bytes is made of packets, whatever the pieces in which it comes.
use asio_utils.Base.{
  ℕ, ◌+◌, ◌^◌, ◌≤◌, ◌<◌, ◌≡◌, refl, sym, ap, ◌∙◌, subst, inl, inr, List, [], ◌∷◌, ◌++◌, true, false,
  ◌&&◌, leb, arith, length, drop, length-append, length-drop, append_assoc, append-split,
  Bool-cases,
}
use asio_utils.Net.Packet.{header_bytes, header_of, has_packet, packet_size}
use asio_utils.Net.Packet.Header.{
  IsHeader, header_of-header_bytes, header_of-append, packet_size_lem, has_packet_iff,
}
use asio_utils.Cpg.Framing.{Message}

-- The bytes that a message is sent as, and a message that the header describes.
abbrev pub encode : Message → List ℕ
encode m = header_bytes m.header ++ m.body

pub record IsMessage (m : Message) : Type 0 where
  pub header_valid : IsHeader m.header
  pub sized : m.header.size ≡ length m.body

-- The bytes are whole messages, and then a rest that holds no whole packet.
pub data Frames : List ℕ → List Message → List ℕ → Type 0 where
  stop : {xs t : List ℕ} → xs ≡ t → has_packet xs (length xs) ≡ false → Frames xs [] t
  next :
      (m : Message) {xs ys t : List ℕ} {ms : List Message}
      → IsMessage m
      → xs ≡ encode m ++ ys
      → Frames ys ms t
      → Frames xs (m ∷ ms) t

pub length-encode : (m : Message) → length (encode m) ≡ 12 + length m.body
length-encode m = omega arith

pub header_of-encode :
    (m : Message) (ys : List ℕ) → IsMessage m → header_of (encode m ++ ys) ≡ m.header
header_of-encode m ys v = header_of-header_bytes m.header (m.body ++ ys) v.header_valid

pub packet_size-encode :
    (m : Message) (ys : List ℕ)
    → IsMessage m
    → length (encode m ++ ys) < 2 ^ 31
    → packet_size (header_of (encode m ++ ys)) ≡ length (encode m)
packet_size-encode m ys v small =
    ap packet_size (header_of-encode m ys v)
    ∙ packet_size_lem m.header (omega (arith, v.sized, length-append m.body ys))
    ∙ omega (arith, v.sized)

-- `hasPacket` finds the packet at the front.
pub has_packet-encode :
    (m : Message) (ys : List ℕ)
    → IsMessage m
    → length (encode m ++ ys) < 2 ^ 31
    → has_packet (encode m ++ ys) (length (encode m ++ ys)) ≡ true
has_packet-encode m ys v small =
    has_packet_iff (encode m ++ ys) (length (encode m ++ ys)) small
    ∙ ground (arith, packet_size-encode m ys v small, length-append m.body ys)

-- What `hasPacket` accepts, it accepts with more bytes behind it, and by the same size.
has_packet-append :
    (xs ys : List ℕ)
    → length (xs ++ ys) < 2 ^ 31
    → has_packet xs (length xs) ≡ true
    → (has_packet (xs ++ ys) (length (xs ++ ys)) ≡ true)
      × (packet_size (header_of (xs ++ ys)) ≤ length xs)
has_packet-append xs ys small e =
    let n : ℕ = length xs in
    let here : (leb 12 n && leb (packet_size (header_of xs)) n) ≡ true =
      sym (has_packet_iff xs n (omega (arith, length-append xs ys))) ∙ e in
    let same : header_of (xs ++ ys) ≡ header_of xs = header_of-append xs ys (ground arith) in
    (
      has_packet_iff (xs ++ ys) (length (xs ++ ys)) small
          ∙ rw same (ground (arith, length-append xs ys)),
      rw same (ground arith),
    )

-- The rest is no longer than the stream, and holds no whole packet.
pub Frames-shorter : {xs t : List ℕ} {ms : List Message} → Frames xs ms t → length t ≤ length xs
Frames-shorter (stop e h) = omega (arith, ap length e)
Frames-shorter (next m {ys = zs} v e f) =
    omega (arith, ap length e, length-append (encode m) zs, Frames-shorter f)

pub Frames-left :
    {xs t : List ℕ} {ms : List Message} → Frames xs ms t → has_packet t (length t) ≡ false
Frames-left (stop e h) = sym (ap (λ ws. has_packet ws (length ws)) e) ∙ h
Frames-left (next m v e f) = Frames-left f

-- A stream that holds no whole packet has no messages.
pub Frames-none :
    {xs t ys : List ℕ} {ms : List Message}
    → Frames xs ms t
    → xs ≡ ys
    → length xs < 2 ^ 31
    → has_packet ys (length ys) ≡ false
    → (ms ≡ []) × (ys ≡ t)
Frames-none (stop e h) q small none_yet = (refl, sym q ∙ e)
Frames-none (next m {ys = zs} v e f) q small none_yet = absurd (
    cc (
      none_yet,
      ap (λ ws. has_packet ws (length ws)) (sym q ∙ e),
      has_packet-encode m zs v (omega (arith, ap length e)),
    ))

-- Two stretches of a stream, of which the second begins with what the first left over.
pub Frames-append :
    {xs t : List ℕ} {ms : List Message} (ys : List ℕ) {u : List ℕ} {ns : List Message}
    → Frames xs ms t
    → Frames (t ++ ys) ns u
    → Frames (xs ++ ys) (ms ++ ns) u
Frames-append ys {u} {ns} (stop e h) r = subst (λ zs. Frames (zs ++ ys) ns u) (sym e) r
Frames-append ys (next m {ys = zs} v e f) r =
    next m v (ap (λ ws. ws ++ ys) e ∙ append_assoc (encode m) zs ys) (Frames-append ys f r)

-- Where the stream is cut, the first piece has its own messages and rest, and with that rest the
-- second piece has the messages that are left.
pub record Cut (xs ys : List ℕ) (ms : List Message) (t : List ℕ) : Type 0 where
  pub before : List Message
  pub after : List Message
  pub left : List ℕ
  pub whole : ms ≡ before ++ after
  pub first : Frames xs before left
  pub second : Frames (left ++ ys) after t

-- A packet at the front of the first piece is the first of the stream.
front-split :
    (m : Message) (ws xs ys : List ℕ)
    → IsMessage m
    → encode m ++ ws ≡ xs ++ ys
    → length (xs ++ ys) < 2 ^ 31
    → has_packet xs (length xs) ≡ true
    → (xs ≡ encode m ++ drop (length (encode m)) xs) × (ws ≡ drop (length (encode m)) xs ++ ys)
front-split m ws xs ys v e small h =
    let (_, fits) = has_packet-append xs ys small h in
    let size : packet_size (header_of (xs ++ ys)) ≡ length (encode m) =
      ap (λ zs. packet_size (header_of zs)) (sym e)
      ∙ packet_size-encode m ws v (omega (arith, ap length e)) in
    append-split (encode m) ws xs ys e (omega (arith, fits, size))

-- A stream that holds a packet does not stop.
stop_absurd :
    (xs ys : List ℕ) {zs : List ℕ}
    → zs ≡ xs ++ ys
    → length (xs ++ ys) < 2 ^ 31
    → has_packet xs (length xs) ≡ true
    → has_packet zs (length zs) ≡ false
    → ⊥
stop_absurd xs ys {zs} e small h no_packet =
    let (found, _) = has_packet-append xs ys small h in
    cc (found, ap (λ ws. has_packet ws (length ws)) e, no_packet)

abbrev uncut :
    (xs ys : List ℕ) {zs : List ℕ} {ms : List Message} {t : List ℕ}
    → Frames zs ms t
    → zs ≡ xs ++ ys
    → has_packet xs (length xs) ≡ false
    → Cut xs ys ms t
uncut xs ys {zs} {ms} {t} f e no_packet = record {
  before = [];
  after = ms;
  left = xs;
  whole = refl;
  first = stop refl no_packet;
  second = subst (λ ws. Frames ws ms t) e f;
}

pub Frames-Cut :
    (xs ys : List ℕ) {zs : List ℕ} {ms : List Message} {t : List ℕ}
    → Frames zs ms t
    → zs ≡ xs ++ ys
    → length (xs ++ ys) < 2 ^ 31
    → Cut xs ys ms t
Frames-Cut xs ys (stop q no_packet) e small = elim (Bool-cases (has_packet xs (length xs))) [
  | inl found ↦ absurd (stop_absurd xs ys e small found no_packet)
  | inr none_yet ↦ uncut xs ys (stop q no_packet) e none_yet
]
Frames-Cut xs ys (next m {ys = ws} v q g) e small = elim (Bool-cases (has_packet xs (length xs))) [
  | inl found ↦
      let (p, r) = front-split m ws xs ys v (sym q ∙ e) small found in
      let c = Frames-Cut (drop (length (encode m)) xs) ys g r (
        omega (
          arith,
          ap length p,
          length-append xs ys,
          length-append (drop (length (encode m)) xs) ys,
          length-drop (length (encode m)) xs,
        )) in
      record {
        before = m ∷ c.before;
        after = c.after;
        left = c.left;
        whole = ap (◌∷◌ m) c.whole;
        first = next m v p c.first;
        second = c.second;
      }
  | inr none_yet ↦ uncut xs ys (next m v q g) e none_yet
]
