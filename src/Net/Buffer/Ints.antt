-- ===== src/Net/Buffer/Ints.antt =====
-- The integer methods of DataBuffer.hpp. `htonl` and `ntohl` are the system's; an integer is its bit
-- pattern, and the host keeps it in memory lowest byte first.
use asio_utils.Base.{
  ℕ, ◌+◌, ◌-◌, ◌*◌, ◌/◌, ◌%◌, ◌^◌, ◌≤◌, ◌<◌, ◌≡◌, refl, sym, ap, ◌∙◌, List, [], ◌∷◌, ◌++◌, Option,
  none, some, arith, ltb, leb, if◌then◌else◌, ◌>>=◌, length, drop, append_assoc, append-nil, le→leb,
}
use asio_utils.Base.Bytes.{le32, of_le32, of_le32-le32}
use asio_utils.Net.Buffer.{DataBuffer, readable_bytes, peek, retrieve, append, prepend}
use asio_utils.Net.Buffer.Inv.{IsValid, length-peek}
use asio_utils.Net.Buffer.Refine.{Holds, append_lem, retrieve_lem}

-- `int16_t` and `int8_t` patterns as they are converted to `uint32_t`.
abbrev pub widen16 : ℕ → ℕ
widen16 x = if ltb x (2 ^ 15) then x else x + 2 ^ 32 - 2 ^ 16

abbrev pub widen8 : ℕ → ℕ
widen8 x = if ltb x (2 ^ 7) then x else x + 2 ^ 32 - 2 ^ 8

abbrev pub le16 : ℕ → List ℕ
le16 x = x % 256 ∷ x / 256 % 256 ∷ []

abbrev pub of_le16 : List ℕ → ℕ
of_le16 (a ∷ b ∷ rest) = a + 256 * b
of_le16 bytes = 0

abbrev pub of_le8 : List ℕ → ℕ
of_le8 (a ∷ rest) = a
of_le8 [] = 0

module _ (htonl ntohl : ℕ → ℕ) where
  pub append_int32 : DataBuffer → ℕ → Option DataBuffer
  append_int32 b x = append b (le32 (htonl x))

  -- The converted word is cut to the low sixteen bits.
  pub append_int16 : DataBuffer → ℕ → Option DataBuffer
  append_int16 b x = append b (le16 (htonl (widen16 x) % 2 ^ 16))

  pub append_int8 : DataBuffer → ℕ → Option DataBuffer
  append_int8 b x = append b (htonl (widen8 x) % 2 ^ 8 ∷ [])

  pub peek_int32 : DataBuffer → Option ℕ
  peek_int32 b = if leb 4 (readable_bytes b) then some (ntohl (of_le32 (peek b))) else none

  pub peek_int16 : DataBuffer → Option ℕ
  peek_int16 b =
      if leb 2 (readable_bytes b) then some (ntohl (widen16 (of_le16 (peek b))) % 2 ^ 16) else none

  pub peek_int8 : DataBuffer → Option ℕ
  peek_int8 b =
      if leb 1 (readable_bytes b) then some (ntohl (widen8 (of_le8 (peek b))) % 2 ^ 8) else none

  pub read_int32 : DataBuffer → Option (ℕ × DataBuffer)
  unfolding peek_int32
  read_int32 b = do val ← peek_int32 b; c ← retrieve b 4; some (val, c)

  pub read_int16 : DataBuffer → Option (ℕ × DataBuffer)
  unfolding peek_int16
  read_int16 b = do val ← peek_int16 b; c ← retrieve b 2; some (val, c)

  pub read_int8 : DataBuffer → Option (ℕ × DataBuffer)
  unfolding peek_int8
  read_int8 b = do val ← peek_int8 b; c ← retrieve b 1; some (val, c)

  pub prepend_int32 : DataBuffer → ℕ → Option DataBuffer
  prepend_int32 b x = prepend b (le32 (htonl x))

  pub prepend_int16 : DataBuffer → ℕ → Option DataBuffer
  prepend_int16 b x = prepend b (le16 (htonl (widen16 x) % 2 ^ 16))

  pub prepend_int8 : DataBuffer → ℕ → Option DataBuffer
  prepend_int8 b x = prepend b (htonl (widen8 x) % 2 ^ 8 ∷ [])

  -- A client that writes several words, and one that reads `n` of them.
  pub append_words : DataBuffer → List ℕ → Option DataBuffer
  append_words b [] = some b
  append_words b (x ∷ xs) = append_int32 b x >>= λ c. append_words c xs

  pub read_words : DataBuffer → ℕ → Option (List ℕ × DataBuffer)
  read_words b ℕ.zero = some ([], b)
  read_words b (ℕ.suc n) = do (x, c) ← read_int32 b; (xs, d) ← read_words c n; some (x ∷ xs, d)

-- Every item is a 32-bit pattern.
abbrev pub AreWords : List ℕ → Type 0
AreWords [] = Unit {0}
AreWords (x ∷ xs) = (x < 2 ^ 32) × AreWords xs

-- The bytes that a list of words is sent as.
abbrev pub wire : (ℕ → ℕ) → List ℕ → List ℕ
wire htonl [] = []
wire htonl (x ∷ xs) = le32 (htonl x) ++ wire htonl xs

module _ (htonl ntohl : ℕ → ℕ) (htonl_range : (x : ℕ) → htonl x < 2 ^ 32)
    (ntohl-htonl : (x : ℕ) → x < 2 ^ 32 → ntohl (htonl x) ≡ x) where
  read_int32_lem :
      {b : DataBuffer} (x : ℕ) (rest : List ℕ)
      → IsValid b
      → x < 2 ^ 32
      → peek b ≡ le32 (htonl x) ++ rest
      → (c : DataBuffer) × (read_int32 htonl ntohl b ≡ some (x, c)) × Holds rest b.is_operating c
  unfolding read_int32
  read_int32_lem {b} x rest v h e =
      let long : 4 ≤ readable_bytes b = omega (arith, ap length e, length-peek v) in
      let val : ntohl (of_le32 (peek b)) ≡ x =
        rw e (ap ntohl (of_le32-le32 (htonl x) (htonl_range x)) ∙ ntohl-htonl x h) in
      let (c, f, r) = retrieve_lem 4 v long in
      (
        c,
        rw (le→leb _ _ long, val, f),
        record { valid = r.valid; readable = r.readable ∙ ap (drop 4) e; flag_kept = r.flag_kept },
      )

  pub append_words_lem :
      (b : DataBuffer) (xs : List ℕ)
      → IsValid b
      → (c : DataBuffer) × (append_words htonl ntohl b xs ≡ some c)
        × Holds (peek b ++ wire htonl xs) b.is_operating c
  unfolding append_words append_int32
  append_words_lem b [] v =
      (b, refl, record { valid = v; readable = sym (append-nil (peek b)); flag_kept = refl })
  append_words_lem b (x ∷ xs) v =
      let (c, e, h) = append_lem (le32 (htonl x)) v in
      let (d, f, k) = append_words_lem c xs h.valid in
      (
        d,
        rw e f,
        record {
          valid = k.valid;
          readable =
              k.readable
              ∙ (ap (λ ys. ys ++ wire htonl xs) h.readable
                  ∙ append_assoc (peek b) (le32 (htonl x)) (wire htonl xs));
          flag_kept = k.flag_kept ∙ h.flag_kept;
        },
      )

  pub read_words_lem :
      (b : DataBuffer) (xs rest : List ℕ)
      → IsValid b
      → AreWords xs
      → peek b ≡ wire htonl xs ++ rest
      → (c : DataBuffer) × (read_words htonl ntohl b (length xs) ≡ some (xs, c))
        × Holds rest b.is_operating c
  unfolding read_words
  read_words_lem b [] rest v h e = (b, refl, record { valid = v; readable = e; flag_kept = refl })
  read_words_lem b (x ∷ xs) rest v h e =
      let (c, f, r) =
        read_int32_lem x (wire htonl xs ++ rest) v h.0
          (e ∙ append_assoc (le32 (htonl x)) (wire htonl xs) rest) in
      let (d, g, k) = read_words_lem c xs rest r.valid h.1 r.readable in
      (
        d,
        rw (f, g),
        record { valid = k.valid; readable = k.readable; flag_kept = k.flag_kept ∙ r.flag_kept },
      )

  -- Any 32-bit words appended to a valid buffer with nothing to read are read back as they were, in
  -- their order, and nothing is left to read; neither side asserts.
  pub read_words-append_words :
      (b : DataBuffer) (xs : List ℕ)
      → IsValid b
      → AreWords xs
      → peek b ≡ []
      → (d : DataBuffer) × ((append_words htonl ntohl b xs >>= λ c.
            read_words htonl ntohl c (length xs))
          ≡ some (xs, d))
        × (peek d ≡ [])
  read_words-append_words b xs v h e =
      let (c, f, r) = append_words_lem b xs v in
      let (d, g, k) =
        read_words_lem c xs [] r.valid h
          (r.readable ∙ (ap (λ ys. ys ++ wire htonl xs) e ∙ sym (append-nil (wire htonl xs)))) in
      (d, rw (f, ◌>>=◌) g, k.readable)

-- On a host that keeps the lowest byte first, `htonl` reverses the four bytes of a word.
abbrev pub swap32 : ℕ → ℕ
swap32 x =
    16777216 * (x % 256) + 65536 * (x / 256 % 256) + 256 * (x / 65536 % 256) + x / 16777216 % 256

module _ (htonl ntohl : ℕ → ℕ) (htonl_swaps : (x : ℕ) → x < 2 ^ 32 → htonl x ≡ swap32 x) where
  -- Where `htonl` reverses the bytes, `appendInt16` writes two zero bytes for every `int16_t` that
  -- is not negative, and `appendInt8` writes one for every `int8_t` that is not: the value is lost.
  pub append_int16_loses :
      (b : DataBuffer) (x y : ℕ)
      → x < 2 ^ 15
      → y < 2 ^ 7
      → (append_int16 htonl ntohl b x ≡ append b (0 ∷ 0 ∷ []))
        × (append_int8 htonl ntohl b y ≡ append b (0 ∷ []))
  unfolding append_int16 append_int8
  append_int16_loses b x y h k =
      let wx : htonl (widen16 x) % 2 ^ 16 ≡ 0 = ground (arith, htonl_swaps x) in
      let wy : htonl (widen8 y) % 2 ^ 8 ≡ 0 = ground (arith, htonl_swaps y) in (rw wx, rw wy)
