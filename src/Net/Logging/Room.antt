-- ===== src/Net/Logging/Room.antt =====
-- The buffer of a stream never fills up.
use asio_utils.Base.{
  ℕ, ◌^◌, ◌<◌, ◌≡◌, refl, ◌∙◌, ap, true, false, List, [], ◌∷◌, ◌++◌, Option, some, ltb, leb, leb→le,
  ltb→lt, if-cases, ◌>>=◌, length, length-append, arith,
}
use asio_utils.Net.Logging.Stream.{
  convert, convert_hex, writable, append, k_small_buffer, k_max_numeric_size, write_numeric,
  format_integer, format_pointer, format_double, Item, bool, integer, pointer, double, char, text,
  null, put, put_all,
}
use asio_utils.Net.Logging.Digits.{magnitude, convert_lem}
use asio_utils.Net.Logging.Hex.{Short, convert_hex-Short}

-- What the operators are given: 64 bits, and what "%.12g" prints in less than 32 bytes.
unfoldable pub IsItem : Item → Type 0
unfolding magnitude
IsItem (integer v) = magnitude v < 2 ^ 64
IsItem (pointer p) = p < 2 ^ 64
IsItem (double t) = length t < k_max_numeric_size
IsItem x = Unit

unfoldable pub AllItems : List Item → Type 0
unfolding IsItem
AllItems [] = Unit
AllItems (x ∷ xs) = IsItem x × AllItems xs

-- There is room for a byte, and so there was no write past the end.
unfoldable pub HasRoom : Option (List ℕ) → Type 0
HasRoom o = (b : List ℕ) × (o ≡ some b) × (length b < k_small_buffer)

write_numeric-HasRoom :
    (o : Option (List ℕ)) (most : ℕ) (b : List ℕ)
    → most < k_max_numeric_size
    → Short most o
    → length b < k_small_buffer
    → HasRoom (write_numeric o b)
unfolding write_numeric HasRoom Short writable
write_numeric-HasRoom o most b small (t, e, short) h =
    if-cases HasRoom (leb k_max_numeric_size (writable k_small_buffer b))
      (λ fits. (
        b ++ t,
        ap (λ o. o >>= (λ t. some (b ++ t))) e,
        omega (arith, small, length-append b t, short, leb→le _ _ fits),
      ))
      (λ full. (b, refl, h))

append-HasRoom :
    (t b : List ℕ) → length b < k_small_buffer → HasRoom (some (append k_small_buffer t b))
unfolding append HasRoom writable
append-HasRoom t b h = (
  append k_small_buffer t b,
  refl,
  if-cases (λ r. length r < k_small_buffer) (ltb (length t) (writable k_small_buffer b))
      {x = b ++ t} (λ e. omega (arith, length-append b t, ltb→lt _ _ e)) (λ e. h),
)

put-HasRoom : (x : Item) (b : List ℕ) → IsItem x → length b < k_small_buffer → HasRoom (put x b)
unfolding put IsItem format_integer format_pointer format_double Short
put-HasRoom (bool true) b i h = append-HasRoom (49 ∷ []) b h
put-HasRoom (bool false) b i h = append-HasRoom (48 ∷ []) b h
put-HasRoom (integer v) b i h =
    let (t, e, reads, short) = convert_lem v i in
    write_numeric-HasRoom (convert v) 21 b (omega arith) (t, e, short) h
put-HasRoom (pointer p) b i h =
    write_numeric-HasRoom (convert_hex p >>= (λ t. some (48 ∷ 120 ∷ t))) 18 b (omega arith)
      (convert_hex-Short p i) h
put-HasRoom (double t) b i h =
    write_numeric-HasRoom (some t) 31 b (omega arith) (t, refl, omega (arith, i)) h
put-HasRoom (char c) b i h = append-HasRoom (c ∷ []) b h
put-HasRoom (text t) b i h = append-HasRoom t b h
put-HasRoom null b i h = append-HasRoom (40 ∷ 110 ∷ 117 ∷ 108 ∷ 108 ∷ 41 ∷ []) b h

pub put_all-HasRoom :
    (xs : List Item) (b : List ℕ) → AllItems xs → length b < k_small_buffer → HasRoom (put_all xs b)
unfolding put_all AllItems HasRoom
put_all-HasRoom [] b a h = (b, refl, h)
put_all-HasRoom (x ∷ xs) b (i, a) h =
    let (b1, e1, h1) = put-HasRoom x b i h in
    let (b2, e2, h2) = put_all-HasRoom xs b1 a h1 in (b2, ap (λ o. o >>= put_all xs) e1 ∙ e2, h2)
