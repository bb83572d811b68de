-- ===== src/Net/Packet/Tests.antt =====
-- The theorems on NetPacket.cpp at concrete bytes.
use asio_utils.Base.{ℕ, ◌^◌, ◌<◌, ◌≡◌, refl, List, [], ◌∷◌, ◌++◌, some, arith, true}
use asio_utils.Net.Packet.{NetPacket, Got, header_of, has_packet, create_packet, get_packet}
use asio_utils.Net.Packet.Header.{get_packet-create_packet}

-- A header of the type 7 with no body.
abbrev bare : List ℕ
bare = 7 ∷ 0 ∷ 0 ∷ 0 ∷ 0 ∷ 0 ∷ 0 ∷ 0 ∷ 0 ∷ 0 ∷ 0 ∷ 0 ∷ []

bare_size : (header_of bare).size < 2 ^ 31
unfolding header_of
bare_size = omega arith

bare_found : (has_packet bare 12 ≡ true) × (get_packet bare 12 ≡ Got.null)
unfolding has_packet get_packet
bare_found = (refl, refl)

get_packet-create_packet_example :
    (p : NetPacket) × (create_packet (1 ∷ 2 ∷ []) 2 7 9 ≡ some p)
    × (get_packet (p.buffer ++ 5 ∷ []) 15 ≡ Got.packet p)
get_packet-create_packet_example =
    get_packet-create_packet (1 ∷ 2 ∷ []) (5 ∷ []) 7 9 15 (omega arith) (omega arith) (omega arith)
      (omega arith) (omega arith)
