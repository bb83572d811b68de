-- ===== src/Net/Packet/Header.antt =====
-- Headers and packets: what is written is what is read, and when a packet is complete.
use asio_utils.Base.{
  ℕ, ◌+◌, ◌-◌, ◌%◌, ◌^◌, ◌≤◌, ◌<◌, ◌≡◌, refl, ap, ◌∙◌, ◌↔◌, ◌⊎◌, false, ◌&&◌, List, [], ◌∷◌, ◌++◌,
  some, arith, leb, length, take, drop, drop-append, take-length-append, take_all, length-drop,
}
use asio_utils.Base.Bytes.{of_le32, of_le32-le32}
use asio_utils.Net.Packet.{
  PacketHeader, NetPacket, Got, header_bytes, header_of, packet_size, has_packet, create_packet,
  get_packet,
}

-- The fields are 32-bit patterns.
pub record IsHeader (h : PacketHeader) : Type 0 where
  pub type_range : h.type < 2 ^ 32
  pub size_range : h.size < 2 ^ 32
  pub extra_range : h.extra_id < 2 ^ 32

pub header_of-header_bytes :
    (h : PacketHeader) (rest : List ℕ) → IsHeader h → header_of (header_bytes h ++ rest) ≡ h
unfolding header_of
header_of-header_bytes h rest v =
    ground (arith, of_le32-le32 h.type, of_le32-le32 h.size, of_le32-le32 h.extra_id)

of_le32-append : (xs ys : List ℕ) → 4 ≤ length xs → of_le32 (xs ++ ys) ≡ of_le32 xs
of_le32-append [] ys h = absurd (omega arith)
of_le32-append (a ∷ []) ys h = absurd (omega arith)
of_le32-append (a ∷ b ∷ []) ys h = absurd (omega arith)
of_le32-append (a ∷ b ∷ c ∷ []) ys h = absurd (omega arith)
of_le32-append (a ∷ b ∷ c ∷ d ∷ xs) ys h = refl

-- A header is read from the first twelve bytes alone.
pub header_of-append : (xs ys : List ℕ) → 12 ≤ length xs → header_of (xs ++ ys) ≡ header_of xs
unfolding header_of
header_of-append xs ys h = rw (
  drop-append 4 xs ys (omega arith),
  drop-append 8 xs ys (omega arith),
  of_le32-append xs ys (omega arith),
  of_le32-append (drop 4 xs) ys (omega (arith, length-drop 4 xs)),
  of_le32-append (drop 8 xs) ys (omega (arith, length-drop 8 xs)),
)

-- The sum that `hasPacket` compares, where the size is not negative.
pub packet_size_lem : (h : PacketHeader) → h.size < 2 ^ 31 → packet_size h ≡ 12 + h.size
unfolding packet_size
packet_size_lem h v = ground arith

-- What `hasPacket` says of `n` bytes, fewer than 2 ^ 31.
pub has_packet_iff :
    (xs : List ℕ) (n : ℕ)
    → n < 2 ^ 31
    → has_packet xs n ≡ (leb 12 n && leb (packet_size (header_of xs)) n)
unfolding has_packet
has_packet_iff xs n h = ground arith

-- `getPacket` returns nothing exactly where there is no whole packet, or just a header: unlike
-- `hasPacket`, it wants more bytes than a header's. Fewer than 2 ^ 31 bytes, and no negative size.
pub get_packet_null :
    (xs : List ℕ) (n : ℕ)
    → n < 2 ^ 31
    → (header_of xs).size < 2 ^ 31
    → (get_packet xs n ≡ Got.null) ↔ ((has_packet xs n ≡ false) ⊎ (n ≡ 12))
unfolding get_packet has_packet
get_packet_null xs n h k = ground (arith)

-- `getPacket` on bytes that begin with a whole packet, whose body is not empty.
get_packet_whole :
    (xs : List ℕ) (n s : ℕ)
    → n < 2 ^ 31
    → (header_of xs).size ≡ s
    → 0 < s
    → 12 + s ≤ n
    → get_packet xs n ≡ Got.packet (record { buffer = take (12 + s) xs; size = 12 + s })
unfolding get_packet
get_packet_whole xs n s small e pos whole =
    let total : packet_size (header_of xs) ≡ 12 + s =
      packet_size_lem (header_of xs) (omega arith) ∙ ap (◌+◌ 12) e in
    let cut : (12 + s) % 2 ^ 32 ≡ 12 + s = omega arith in rw (total, cut) (ground arith)

-- A packet that `createPacket` makes of a body that is not empty is found by `getPacket` at the front
-- of any bytes, fewer than 2 ^ 31 in all, as it was.
pub get_packet-create_packet :
    (body rest : List ℕ) (msgid extraid n : ℕ)
    → msgid < 2 ^ 32
    → extraid < 2 ^ 32
    → 0 < length body
    → n ≡ 12 + length body + length rest
    → n < 2 ^ 31
    → (p : NetPacket) × (create_packet body (length body) msgid extraid ≡ some p)
      × (get_packet (p.buffer ++ rest) n ≡ Got.packet p)
unfolding create_packet
get_packet-create_packet body rest msgid extraid n hm he pos e small =
    let h : PacketHeader = record { type = msgid; size = length body; extra_id = extraid } in
    let fields : header_of (header_bytes h ++ (body ++ rest)) ≡ h =
      header_of-header_bytes h (body ++ rest)
        (record { type_range = hm; size_range = omega arith; extra_range = he }) in
    let p : NetPacket = record { buffer = header_bytes h ++ body; size = 12 + length body } in
    (
      p,
      ground (arith, take_all (length body) body),
      get_packet_whole (p.buffer ++ rest) n (length body) small
            (ap (λ (k : PacketHeader). k.size) fields) pos (omega arith)
          ∙ ap (λ bytes. Got.packet (record { buffer = bytes; size = 12 + length body }))
              (take-length-append (12 + length body) p.buffer rest (omega arith)),
    )

-- A size of -12 makes the sum wrap to nothing.
pub packet_size_wraps : (h : PacketHeader) → h.size ≡ 2 ^ 32 - 12 → packet_size h ≡ 0
unfolding packet_size
packet_size_wraps h e = ground arith
