-- ===== src/Net/Buffer/Tests.antt =====
-- The theorems on DataBuffer.hpp at concrete buffers.
use asio_utils.Base.{◌≡◌, refl, List, [], ◌∷◌, none, some, arith, false}
use asio_utils.Net.Buffer.{DataBuffer, append, ensure_writable_bytes, peek, retrieve}
use asio_utils.Net.Buffer.Inv.{IsValid, HasRoom, ensure_writable_bytes_total}
use asio_utils.Net.Buffer.Refine.{Op, put, skip, run, queue_run, run_refines}

-- Four bytes, of which the second and the third can be read.
abbrev used : DataBuffer
used = record {
  buffer = 1 ∷ 2 ∷ 3 ∷ 4 ∷ [];
  reader_index = 1;
  writer_index = 3;
  is_operating = false;
}

used-IsValid : IsValid used
used-IsValid = omega arith

-- One byte is free behind the readable ones: the first call moves them, the second grows the vector.
script : List Op
script = put (7 ∷ 8 ∷ []) ∷ put (9 ∷ []) ∷ skip 3 ∷ []

run_refines_example : run used script ≡ queue_run (peek used) script
run_refines_example = run_refines used script used-IsValid

run-used : run used script ≡ some (8 ∷ 9 ∷ [])
unfolding run script append retrieve peek
run-used = refl

-- Skipping more than there is fails the assertion.
run_short : run used (skip 3 ∷ []) ≡ none
unfolding run retrieve peek
run_short = refl

ensure_writable_bytes_total_example :
    (c : DataBuffer) × (ensure_writable_bytes used 2 ≡ some c) × HasRoom used 2 c
ensure_writable_bytes_total_example = ensure_writable_bytes_total used-IsValid 2
