-- ===== src/Cpg/Framing/Tests.antt =====
-- The theorems on the packet loop at a concrete stream.
use asio_utils.Base.{ℕ, ◌≡◌, refl, List, [], ◌∷◌, ◌++◌, arith, false, map}
use asio_utils.Net.Buffer.{DataBuffer, init, peek}
use asio_utils.Net.Buffer.Inv.{init-IsValid}
use asio_utils.Net.Buffer.Refine.{Holds}
use asio_utils.Net.Packet.{has_packet}
use asio_utils.Cpg.Framing.{Message, ended, event_of, k_heart_beat_rq}
use asio_utils.Cpg.Framing.Stream.{IsMessage, Frames, stop, next, encode}
use asio_utils.Cpg.Framing.Loop.{feed, feed_lem}

-- A heart beat, a message of three bytes, and the beginning of a third header.
abbrev beat : Message
beat = record { header = record { type = k_heart_beat_rq; size = 0; extra_id = 0 }; body = [] }

abbrev hello : Message
hello = record { header = record { type = 300; size = 3; extra_id = 4 }; body = 1 ∷ 2 ∷ 3 ∷ [] }

abbrev stream : List ℕ
stream = encode beat ++ (encode hello ++ 9 ∷ 9 ∷ [])

beat-IsMessage : IsMessage beat
beat-IsMessage = omega arith

hello-IsMessage : IsMessage hello
hello-IsMessage = omega arith

tail_incomplete : has_packet (9 ∷ 9 ∷ []) 2 ≡ false
unfolding has_packet
tail_incomplete = refl

stream-Frames : Frames stream (beat ∷ hello ∷ []) (9 ∷ 9 ∷ [])
stream-Frames =
    next beat beat-IsMessage refl (next hello hello-IsMessage refl (stop refl tail_incomplete))

-- The pieces cut both messages.
abbrev pieces : List (List ℕ)
pieces =
    (133 ∷ 78 ∷ 0 ∷ 0 ∷ 0 ∷ [])
    ∷ (0 ∷ 0 ∷ 0 ∷ 0 ∷ 0 ∷ 0 ∷ 0 ∷ 44 ∷ [])
    ∷ (1 ∷ 0 ∷ 0 ∷ 3 ∷ 0 ∷ 0 ∷ 0 ∷ 4 ∷ 0 ∷ 0 ∷ 0 ∷ 1 ∷ 2 ∷ 3 ∷ 9 ∷ 9 ∷ [])
    ∷ []

feed_lem_example :
    (c : DataBuffer) × (feed k_heart_beat_rq (init 8) pieces
      ≡ ended (map (event_of k_heart_beat_rq) (beat ∷ hello ∷ [])) c)
    × Holds (9 ∷ 9 ∷ []) (init 8).is_operating c
unfolding init peek has_packet
feed_lem_example =
    feed_lem k_heart_beat_rq (init 8) pieces (beat ∷ hello ∷ []) (9 ∷ 9 ∷ []) (init-IsValid 8)
      (omega arith) (omega arith) refl stream-Frames

-- Nothing but a header with the size -12.
abbrev poisoned : DataBuffer
poisoned = record {
  buffer = 1 ∷ 0 ∷ 0 ∷ 0 ∷ 244 ∷ 255 ∷ 255 ∷ 255 ∷ 0 ∷ 0 ∷ 0 ∷ 0 ∷ [];
  reader_index = 0;
  writer_index = 12;
  is_operating = false;
}
