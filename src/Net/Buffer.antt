-- ===== src/Net/Buffer.antt =====
-- ASIO_ALONE_STUDY/Net/DataBuffer.hpp: the byte buffer between a socket and the message handlers.
-- A method that asserts returns `none` where the assertion fails. The vector is a list of bytes; a
-- `size_t` difference is `sub_size`, which wraps as the machine's does.
pub mod Inv
pub mod Refine
pub mod Ints
mod Tests
use asio_utils.Base.{
  ℕ, ◌+◌, ◌-◌, Bool, true, false, List, ◌++◌, Option, none, some, ltb, leb, if◌then◌else◌, ◌>>=◌,
  sub_size, length, take, drop, replicate, write_at,
}

abbrev pub k_cheap_prepend : ℕ
k_cheap_prepend = 0

abbrev pub k_initial_size : ℕ
k_initial_size = 1024

pub record DataBuffer : Type 0 where
  pub buffer : List ℕ
  pub reader_index : ℕ
  pub writer_index : ℕ
  pub is_operating : Bool

-- The constructor; the vector's bytes are zero.
unfoldable pub init : ℕ → DataBuffer
init initial_size = record {
  buffer = replicate (k_cheap_prepend + initial_size) 0;
  reader_index = k_cheap_prepend;
  writer_index = k_cheap_prepend;
  is_operating = false;
}

pub readable_bytes : DataBuffer → ℕ
readable_bytes b = sub_size b.writer_index b.reader_index

pub writable_bytes : DataBuffer → ℕ
writable_bytes b = sub_size (length b.buffer) b.writer_index

pub prependable_bytes : DataBuffer → ℕ
prependable_bytes b = b.reader_index

-- The bytes from `peek()`, `readableBytes()` of them.
unfoldable pub peek : DataBuffer → List ℕ
unfolding readable_bytes
peek b = take (readable_bytes b) (drop b.reader_index b.buffer)

unfoldable pub retrieve_all : DataBuffer → DataBuffer
retrieve_all b = record b { reader_index = k_cheap_prepend; writer_index = k_cheap_prepend }

pub retrieve : DataBuffer → ℕ → Option DataBuffer
unfolding readable_bytes retrieve_all
retrieve b len =
    if leb len (readable_bytes b)
    then if ltb len (readable_bytes b)
      then some (record b { reader_index = b.reader_index + len })
      else some (retrieve_all b)
    else none

-- `std::vector::resize`: the first bytes stay, and new ones are zero.
resize : List ℕ → ℕ → List ℕ
resize xs n = take n xs ++ replicate (n - length xs) 0

-- The two ways of `makeSpace`: a longer vector, or the readable bytes at its front.
grown : DataBuffer → ℕ → DataBuffer
unfolding resize
grown b len = record b { buffer = resize b.buffer (b.writer_index + len) }

compacted : DataBuffer → DataBuffer
unfolding readable_bytes peek
compacted b = record b {
  buffer = write_at b.buffer k_cheap_prepend (peek b);
  reader_index = k_cheap_prepend;
  writer_index = k_cheap_prepend + readable_bytes b;
}

make_space : DataBuffer → ℕ → Option DataBuffer
unfolding grown compacted readable_bytes writable_bytes prependable_bytes
make_space b len =
    if ltb (sub_size (writable_bytes b + prependable_bytes b) k_cheap_prepend) len
    then some (grown b len)
    else if ltb k_cheap_prepend b.reader_index
    then some (compacted b)
    else none

pub ensure_writable_bytes : DataBuffer → ℕ → Option DataBuffer
unfolding make_space
ensure_writable_bytes b len = do
  c ← if ltb (writable_bytes b) len then make_space b len else some b
  if leb len (writable_bytes c) then some c else none

pub has_written : DataBuffer → ℕ → Option DataBuffer
unfolding writable_bytes
has_written b len =
    if leb len (writable_bytes b)
    then some (record b { writer_index = b.writer_index + len })
    else none

pub unwrite : DataBuffer → ℕ → Option DataBuffer
unfolding readable_bytes
unwrite b len =
    if leb len (readable_bytes b)
    then some (record b { writer_index = sub_size b.writer_index len })
    else none

-- `std::copy` of the bytes to `beginWrite()`.
abbrev pub fill : DataBuffer → List ℕ → DataBuffer
fill b bytes = record b { buffer = write_at b.buffer b.writer_index bytes }

pub append : DataBuffer → List ℕ → Option DataBuffer
unfolding ensure_writable_bytes has_written
append b bytes = do
  c ← ensure_writable_bytes b (length bytes)
  has_written (fill c bytes) (length bytes)

pub prepend : DataBuffer → List ℕ → Option DataBuffer
unfolding prependable_bytes
prepend b bytes =
    if leb (length bytes) (prependable_bytes b)
    then (let start = sub_size b.reader_index (length bytes) in
        some (record b { buffer = write_at b.buffer start bytes; reader_index = start }))
    else none

unfoldable pub operate : DataBuffer → DataBuffer
operate b = record b { is_operating = true }

unfoldable pub unoperate : DataBuffer → DataBuffer
unoperate b = record b { is_operating = false }
