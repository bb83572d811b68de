-- ===== src/Net/Buffer/Inv.antt =====
-- The representation invariant of DataBuffer.hpp, and that its assertions never fail in use.
use asio_utils.Base.{
  ℕ, ◌+◌, ◌-◌, ◌≤◌, ◌<◌, ◌≡◌, refl, inl, inr, List, some, arith, ltb, length, take, drop,
  length-append, length-take, length-drop, length-replicate, length-write_at, replicate, take_all,
  take-length-append, drop-append, take-append, Bool-cases, sub_size, write_at, ltb→lt,
}
use asio_utils.Net.Buffer.{
  DataBuffer, k_cheap_prepend, init, readable_bytes, writable_bytes, peek, retrieve, resize, grown,
  compacted, make_space, ensure_writable_bytes, has_written, unwrite,
}

-- The reader is behind the writer, which is inside the vector.
pub record IsValid (b : DataBuffer) : Type 0 where
  pub ordered : b.reader_index ≤ b.writer_index
  pub inside : b.writer_index ≤ length b.buffer

-- The two differences that the class takes do not wrap.
pub sizes_lem :
    {b : DataBuffer}
    → IsValid b
    → (readable_bytes b + b.reader_index ≡ b.writer_index)
      × (writable_bytes b + b.writer_index ≡ length b.buffer)
unfolding readable_bytes writable_bytes
sizes_lem v = ground arith

pub length-peek : {b : DataBuffer} → IsValid b → length (peek b) ≡ readable_bytes b
unfolding peek
length-peek {b} v = ground (
  arith,
  length-take (readable_bytes b) (drop b.reader_index b.buffer),
  length-drop b.reader_index b.buffer,
)

pub init-IsValid : (n : ℕ) → IsValid (init n)
unfolding init
init-IsValid n = record { ordered = omega arith; inside = omega (arith) }

pub retrieve-IsValid : {b c : DataBuffer} (n : ℕ) → IsValid b → retrieve b n ≡ some c → IsValid c
unfolding retrieve
retrieve-IsValid n v e = ground arith

pub has_written-IsValid :
    {b c : DataBuffer} (n : ℕ) → IsValid b → has_written b n ≡ some c → IsValid c
unfolding has_written
has_written-IsValid n v e = ground arith

pub unwrite-IsValid : {b c : DataBuffer} (n : ℕ) → IsValid b → unwrite b n ≡ some c → IsValid c
unfolding unwrite
unwrite-IsValid n v e = ground arith

length-resize : (xs : List ℕ) (n : ℕ) → length xs ≤ n → length (resize xs n) ≡ n
unfolding resize
length-resize xs n h = omega (
  arith,
  length-append (take n xs) (replicate (n - length xs) 0),
  length-take n xs,
  length-replicate {A = ℕ} (n - length xs) 0,
)

-- What a call that makes room for `n` bytes leaves: the readable bytes and the flag as they were.
pub record HasRoom (b : DataBuffer) (n : ℕ) (c : DataBuffer) : Type 0 where
  pub valid : IsValid c
  pub room : n ≤ writable_bytes c
  pub same_bytes : peek c ≡ peek b
  pub same_flag : c.is_operating ≡ b.is_operating

take-resize :
    (xs : List ℕ) (i r n : ℕ)
    → r + i ≤ length xs
    → length xs ≤ n
    → take i (drop r (resize xs n)) ≡ take i (drop r xs)
unfolding resize
take-resize xs i r n h k =
    let whole : take n xs ≡ xs = take_all n xs k in
    rw (whole, drop-append r xs (replicate (n - length xs) 0) (omega arith))
      (take-append i (drop r xs) (replicate (n - length xs) 0) (omega (arith, length-drop r xs)))

module _ {b : DataBuffer} (v : IsValid b) where
  grown-HasRoom : (n : ℕ) → writable_bytes b < n → HasRoom b n (grown b n)
  unfolding grown writable_bytes peek
  grown-HasRoom n h =
      let len : length (resize b.buffer (b.writer_index + n)) ≡ b.writer_index + n =
        length-resize b.buffer (b.writer_index + n) (ground arith) in
      record {
        valid = record { ordered = v.ordered; inside = omega (arith, len) };
        room = ground (arith, len);
        same_bytes =
            take-resize b.buffer (readable_bytes b) b.reader_index (b.writer_index + n)
              (omega (arith, sizes_lem v)) (ground arith);
        same_flag = refl;
      }

  compacted-HasRoom : (n : ℕ) → n ≤ writable_bytes b + b.reader_index → HasRoom b n (compacted b)
  unfolding compacted peek
  compacted-HasRoom n h =
      let len : length (write_at b.buffer 0 (peek b)) ≡ length b.buffer =
        length-write_at b.buffer 0 (peek b) (omega (arith, sizes_lem v, length-peek v)) in
      let w : 0 + readable_bytes b ≤ length (write_at b.buffer 0 (peek b)) =
        omega (arith, len, sizes_lem v) in
      let u : IsValid (compacted b) = record { ordered = omega arith; inside = w } in
      record {
        valid = u;
        room = omega (arith, len, sizes_lem v, sizes_lem u);
        same_bytes =
            take-length-append (readable_bytes (compacted b)) (peek b)
              (drop (length (peek b)) b.buffer)
              (omega (arith, length-peek v, sizes_lem u, sizes_lem v));
        same_flag = refl;
      }

  -- Making room never fails where there was none: the vector grows, or the readable bytes move.
  make_space_total :
      (n : ℕ) → writable_bytes b < n → (c : DataBuffer) × (make_space b n ≡ some c) × HasRoom b n c
  unfolding make_space
  make_space_total n h =
      elim (Bool-cases (ltb (sub_size (writable_bytes b + b.reader_index) k_cheap_prepend) n)) [
        | inl grow ↦ (grown b n, ground arith, grown-HasRoom n h)
        | inr move ↦ (compacted b, ground arith, compacted-HasRoom n (ground arith))
      ]

  pub ensure_writable_bytes_total :
      (n : ℕ) → (c : DataBuffer) × (ensure_writable_bytes b n ≡ some c) × HasRoom b n c
  unfolding ensure_writable_bytes
  ensure_writable_bytes_total n = elim (Bool-cases (ltb (writable_bytes b) n)) [
    | inl short ↦
        let (c, e, r) = make_space_total n (ltb→lt _ _ short) in (c, ground (arith, r.room), r)
    | inr fits ↦ (
      b,
      ground arith,
      record { valid = v; room = ground arith; same_bytes = refl; same_flag = refl },
    )
  ]
