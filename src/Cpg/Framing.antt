-- ===== src/Cpg/Framing.antt =====
-- ASIO_ALONE_STUDY/CPG/Net/CPGNetSession.cpp: `defaultMessageCallback` of the two session classes,
-- which cuts the bytes that have come in into packets. The handlers that it calls do not touch the
-- input buffer; a call is an event, with the bytes that the handler may read.
pub mod Stream
pub mod Loop
mod Tests
use asio_utils.Base.{
  ℕ, zero, suc, ◌%◌, ◌^◌, List, [], ◌∷◌, ◌==◌, Option, none, some, Bool, true, false, if◌then◌else◌,
  take, drop,
}
use asio_utils.Net.Buffer.{DataBuffer, readable_bytes, peek, retrieve}
use asio_utils.Net.Packet.{PacketHeader, header_of, has_packet, packet_size, k_packet_header_size}

pub record Message : Type 0 where
  pub header : PacketHeader
  pub body : List ℕ

-- What the loop does with a packet: the heart beat is answered by the session itself.
pub data Event : Type 0 where
  heart_beat : Event
  handled : Message → Event

-- The message types `kHeartBeatRQ` and `kHeartBeatRS`.
abbrev pub k_heart_beat_rq : ℕ
k_heart_beat_rq = 20101

abbrev pub k_heart_beat_rs : ℕ
k_heart_beat_rs = 20102

-- How the loop ends: by its test, by a failed assertion of `retrieve`, or short of fuel.
pub data Outcome : Type 0 where
  ended : List Event → DataBuffer → Outcome
  asserted : Outcome
  starved : Outcome

abbrev pub after : Event → Outcome → Outcome
after e (ended es b) = ended (e ∷ es) b
after e asserted = asserted
after e starved = starved

-- The packet at the front of the bytes.
pub front : List ℕ → Message
front bytes = record {
  header = header_of bytes;
  body = take (header_of bytes).size (drop k_packet_header_size bytes);
}

pub event_of : ℕ → Message → Event
event_of beat m = if m.header.type == beat then heart_beat else handled m

-- The loop; `beat` is the message type that the session answers itself.
pub consume : ℕ → ℕ → DataBuffer → Outcome
consume beat zero b = starved
consume beat (suc fuel) b = elim (has_packet (peek b) (readable_bytes b % 2 ^ 32)) [
  | true ↦ elim (retrieve b (packet_size (header_of (peek b)))) [
    | none ↦ asserted
    | some c ↦ after (event_of beat (front (peek b))) (consume beat fuel c)
  ]
  | false ↦ ended [] b
]
