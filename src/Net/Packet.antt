-- ===== src/Net/Packet.antt =====
-- ASIO_ALONE_STUDY/Net/base/FASIOType.h (PacketHeader) and Net/Util/NetPacket.cpp. An `int32` is its
-- bit pattern, below 2 ^ 32. The header is three of them, without padding, lowest byte first.
pub mod Header
mod Tests
use asio_utils.Base.{
  ℕ, ◌+◌, ◌-◌, ◌%◌, ◌^◌, Bool, true, false, ◌&&◌, List, ◌++◌, Option, none, some, ltb, leb,
  if◌then◌else◌, length, take, drop,
}
use asio_utils.Base.Bytes.{le32, of_le32}

pub record PacketHeader : Type 0 where
  pub type : ℕ
  pub size : ℕ
  pub extra_id : ℕ

-- `kPacketHeaderSize`, the size of the struct.
abbrev pub k_packet_header_size : ℕ
k_packet_header_size = 12

-- The struct as the bytes that `memcpy` moves, and the struct that a pointer to bytes is read as.
abbrev pub header_bytes : PacketHeader → List ℕ
header_bytes h = le32 h.type ++ (le32 h.size ++ le32 h.extra_id)

unfoldable pub header_of : List ℕ → PacketHeader
header_of bytes = record {
  type = of_le32 bytes;
  size = of_le32 (drop 4 bytes);
  extra_id = of_le32 (drop 8 bytes);
}

-- An `int` converted to `size_t`: the sign is extended.
abbrev pub to_size : ℕ → ℕ
to_size x = if ltb x (2 ^ 31) then x else x + 2 ^ 64 - 2 ^ 32

-- `header->size + kPacketHeaderSize`, a sum of `size_t`.
pub packet_size : PacketHeader → ℕ
packet_size h = (to_size h.size + k_packet_header_size) % 2 ^ 64

-- Both comparisons of an `int` with a `size_t` convert the `int`.
unfoldable pub has_packet : List ℕ → ℕ → Bool
unfolding packet_size header_of
has_packet bytes len =
    leb k_packet_header_size (to_size len) && leb (packet_size (header_of bytes)) (to_size len)

-- The packet's own copy of the bytes, and its size.
pub record NetPacket : Type 0 where
  pub buffer : List ℕ
  pub size : ℕ

-- `NetPacket(data, size)`. An array of a negative size is an exception, `none`.
pub copy_packet : List ℕ → ℕ → Option NetPacket
copy_packet bytes size =
    if ltb size (2 ^ 31) then some (record { buffer = take size bytes; size = size }) else none

-- `NetPacket(data, header)`. With a negative size the copy of the body is an exception or writes
-- outside the array, `none`.
pub wrap_packet : List ℕ → PacketHeader → Option NetPacket
wrap_packet bytes h =
    if ltb h.size (2 ^ 31)
    then some (record {
      buffer = header_bytes h ++ take h.size bytes;
      size = h.size + k_packet_header_size;
    })
    else none

-- `createPacket`, by `NetPacket(data, size, msgid, extraid)`.
pub create_packet : List ℕ → ℕ → ℕ → ℕ → Option NetPacket
unfolding wrap_packet
create_packet bytes len msgid extraid =
    wrap_packet bytes (record { type = msgid; size = len; extra_id = extraid })

-- What `getPacket` returns: nothing, a packet, or the exception of the constructor.
pub data Got : Type 0 where
  null : Got
  packet : NetPacket → Got
  thrown : Got

abbrev got : Option NetPacket → Got
got none = thrown
got (some p) = packet p

-- The size handed to the constructor is cut to an `int`.
pub get_packet : List ℕ → ℕ → Got
unfolding copy_packet packet_size header_of
get_packet bytes len =
    if ltb k_packet_header_size (to_size len)
    then if leb (packet_size (header_of bytes)) (to_size len)
      then got (copy_packet bytes (packet_size (header_of bytes) % 2 ^ 32))
      else null
    else null

-- `getProtoMsg`, over the generated parser.
pub get_proto_msg {ℓ} : {A : Type ℓ} → (List ℕ → ℕ → Option A) → List ℕ → ℕ → Option A
unfolding packet_size header_of
get_proto_msg parse bytes len =
    if ltb k_packet_header_size (to_size len)
    then if leb (packet_size (header_of bytes)) (to_size len) then parse bytes len else none
    else none
