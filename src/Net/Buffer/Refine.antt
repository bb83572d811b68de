-- ===== src/Net/Buffer/Refine.antt =====
-- A valid DataBuffer behaves as the queue of its readable bytes.
use asio_utils.Base.{
  ℕ, ◌+◌, ◌-◌, ◌≤◌, ◌<◌, ◌≡◌, refl, sym, ap, ◌∙◌, inl, inr, List, [], ◌∷◌, ◌++◌, Option, none, some,
  arith, Bool, false, Bool-cases, ltb, leb, if◌then◌else◌, leb→le, ltb→le, drop-write_at, take_past,
  length, take, drop, length-write_at, slice-write_at, write_at, drop-drop, drop-take, drop_all,
  take-take, ◌>>=◌,
}
use asio_utils.Net.Buffer.{
  DataBuffer, init, readable_bytes, writable_bytes, peek, retrieve, retrieve_all, has_written,
  unwrite, append, prepend, fill,
}
use asio_utils.Net.Buffer.Inv.{
  IsValid, init-IsValid, sizes_lem, length-peek, ensure_writable_bytes_total,
}

-- What an operation leaves, where the buffer may be asked for the bytes `bytes` afterwards.
pub record Holds (bytes : List ℕ) (flag : Bool) (c : DataBuffer) : Type 0 where
  pub valid : IsValid c
  pub readable : peek c ≡ bytes
  pub flag_kept : c.is_operating ≡ flag

-- A new buffer has nothing to read.
pub init-Holds : (n : ℕ) → Holds [] false (init n)
unfolding init peek readable_bytes
init-Holds n = record { valid = init-IsValid n; readable = refl; flag_kept = refl }

-- Bytes copied to `beginWrite()` and then counted by `hasWritten` follow the readable ones.
pub written_lem :
    {b : DataBuffer} (bytes : List ℕ)
    → IsValid b
    → length bytes ≤ writable_bytes b
    → (c : DataBuffer) × (has_written (fill b bytes) (length bytes) ≡ some c)
      × Holds (peek b ++ bytes) b.is_operating c
unfolding has_written peek writable_bytes readable_bytes
written_lem {b} bytes v h =
    let i : ℕ = b.writer_index in
    let len : length (write_at b.buffer i bytes) ≡ length b.buffer =
      length-write_at b.buffer b.writer_index bytes (ground arith) in
    (
      record b { buffer = write_at b.buffer i bytes; writer_index = i + length bytes },
      ground (arith, len),
      record {
        valid = record { ordered = omega (arith, v.ordered); inside = ground (arith, len) };
        readable =
            slice-write_at b.reader_index (readable_bytes b) i _ b.buffer bytes
              (omega (arith, sizes_lem v)) (ground arith) v.inside;
        flag_kept = refl;
      },
    )

-- `append` always succeeds: the bytes are added at the end, whatever room had to be made.
pub append_lem :
    {b : DataBuffer} (bytes : List ℕ)
    → IsValid b
    → (c : DataBuffer) × (append b bytes ≡ some c) × Holds (peek b ++ bytes) b.is_operating c
unfolding append
append_lem {b} bytes v =
    let (c, e, r) = ensure_writable_bytes_total v (length bytes) in
    let (d, f, w) = written_lem bytes r.valid r.room in
    (
      d,
      rw e f,
      record {
        valid = w.valid;
        readable = w.readable ∙ ap (λ xs. xs ++ bytes) r.same_bytes;
        flag_kept = w.flag_kept ∙ r.same_flag;
      },
    )

pub peek-retrieve_all : (b : DataBuffer) → peek (retrieve_all b) ≡ []
unfolding peek retrieve_all readable_bytes
peek-retrieve_all b = refl

-- `retrieve` drops bytes from the front, and asserts that they are there.
pub retrieve_lem :
    {b : DataBuffer} (n : ℕ)
    → IsValid b
    → n ≤ readable_bytes b
    → (c : DataBuffer) × (retrieve b n ≡ some c) × Holds (drop n (peek b)) b.is_operating c
unfolding retrieve readable_bytes peek
retrieve_lem {b} n v h = elim (Bool-cases (ltb n (readable_bytes b))) [
  | inl part ↦
      let c : DataBuffer = record b { reader_index = b.reader_index + n } in
      let u : IsValid c = record { ordered = ground arith; inside = v.inside } in
      (
        c,
        ground arith,
        record {
          valid = u;
          readable =
              ap (take (readable_bytes c))
                (sym (drop-drop b.reader_index n (b.reader_index + n) b.buffer refl))
              ∙ sym (
                  drop-take n (readable_bytes c) (readable_bytes b) (drop b.reader_index b.buffer)
                    (omega (arith, sizes_lem v, sizes_lem u)));
          flag_kept = refl;
        },
      )
  | inr whole ↦ (
    retrieve_all b,
    ground arith,
    record {
      valid = record { ordered = omega arith; inside = omega arith };
      readable =
          peek-retrieve_all b
          ∙ sym (
              drop_all n (peek b) (omega (arith, length-peek v, sizes_lem v, h, ltb→le _ _ whole)));
      flag_kept = refl;
    },
  )
]

pub retrieve_short : (b : DataBuffer) (n : ℕ) → readable_bytes b < n → retrieve b n ≡ none
unfolding retrieve
retrieve_short b n h = ground arith

-- `unwrite` takes bytes back from the end.
pub unwrite_lem :
    {b : DataBuffer} (n k : ℕ)
    → IsValid b
    → k + n ≡ readable_bytes b
    → (c : DataBuffer) × (unwrite b n ≡ some c) × Holds (take k (peek b)) b.is_operating c
unfolding unwrite readable_bytes peek
unwrite_lem {b} n k v e =
    let c : DataBuffer = record b { writer_index = b.writer_index - n } in
    let u : IsValid c = record { ordered = ground arith; inside = ground arith } in
    (
      c,
      ground (arith, sizes_lem v),
      record {
        valid = u;
        readable =
            ap (λ j. take j (drop b.reader_index b.buffer))
              (omega (arith, sizes_lem u, sizes_lem v))
            ∙ sym (take-take k (readable_bytes b) (drop b.reader_index b.buffer) (omega arith));
        flag_kept = refl;
      },
    )

-- `prepend` puts bytes before the readable ones, into space that was read before.
pub prepend_lem :
    {b : DataBuffer} (bytes : List ℕ)
    → IsValid b
    → length bytes ≤ b.reader_index
    → (c : DataBuffer) × (prepend b bytes ≡ some c) × Holds (bytes ++ peek b) b.is_operating c
unfolding prepend readable_bytes peek
prepend_lem {b} bytes v h =
    let i : ℕ = b.reader_index - length bytes in
    let c : DataBuffer = record b { buffer = write_at b.buffer i bytes; reader_index = i } in
    let len : length (write_at b.buffer i bytes) ≡ length b.buffer =
      length-write_at b.buffer i bytes (omega (arith, v.ordered, v.inside)) in
    let u : IsValid c = record {
      ordered = omega (arith, v.ordered);
      inside = omega (arith, len, v.inside);
    } in
    (
      c,
      ground arith,
      record {
        valid = u;
        readable =
            ap (take (readable_bytes c)) (
              drop-write_at i b.reader_index b.buffer bytes (omega arith)
                (omega (arith, v.ordered, v.inside)))
            ∙ take_past (readable_bytes c) (readable_bytes b) bytes (drop b.reader_index b.buffer)
                (omega (arith, sizes_lem u, sizes_lem v));
        flag_kept = refl;
      },
    )

-- What a client asks of the buffer between a producer and a consumer.
pub data Op : Type 0 where
  put : List ℕ → Op
  skip : ℕ → Op

-- The operations on the buffer; `none` where an assertion fails.
unfoldable pub run : DataBuffer → List Op → Option (List ℕ)
run b [] = some (peek b)
run b (put bytes ∷ ops) = append b bytes >>= λ c. run c ops
run b (skip n ∷ ops) = retrieve b n >>= λ c. run c ops

-- The same operations on the queue of bytes.
pub queue_run : List ℕ → List Op → Option (List ℕ)
queue_run q [] = some q
queue_run q (put bytes ∷ ops) = queue_run (q ++ bytes) ops
queue_run q (skip n ∷ ops) =
    let rest = queue_run (drop n q) ops in if leb n (length q) then rest else none

-- No sequence of appends and retrievals tells a valid buffer from the queue of its readable bytes:
-- it asserts exactly where the queue is too short, and otherwise leaves the same bytes.
pub run_refines : (b : DataBuffer) (ops : List Op) → IsValid b → run b ops ≡ queue_run (peek b) ops
unfolding run queue_run
run_refines b [] v = refl
run_refines b (put bytes ∷ ops) v =
    let (c, e, h) = append_lem bytes v in
    rw e (run_refines c ops h.valid ∙ ap (λ q. queue_run q ops) h.readable)
run_refines b (skip n ∷ ops) v = elim (Bool-cases (leb n (length (peek b)))) [
  | inl there ↦
      let (c, e, h) = retrieve_lem n v (omega (arith, leb→le _ _ there, length-peek v)) in
      rw (e, there) (run_refines c ops h.valid ∙ ap (λ q. queue_run q ops) h.readable)
  | inr short ↦ rw (retrieve_short b n (ground (arith, length-peek v)), short)
]
