-- ===== src/Net/Logging/Stream.antt =====
-- `SwapBuffer` is what has been written to it. `LogStream` and `Logger` write to one of 4000 bytes; what
-- `snprintf`, `strlen` and the clock give is an argument.
use asio_utils.Base.{
  ℕ, zero, suc, ◌+◌, ◌-◌, ◌/◌, ◌%◌, Bool, true, false, List, [], ◌∷◌, ◌++◌, Option, none, some, ltb,
  leb, ◌==◌, if◌then◌else◌, ◌>>=◌, length, get_elem?,
}

pub data ℤ : Type 0 where
  pos negsuc : ℕ → ℤ

unfoldable pub neg : ℕ → ℤ
neg zero = pos 0
neg (suc n) = negsuc n

-- The operators of C, which round towards zero.
unfoldable pub quot : ℤ → ℕ → ℤ
unfolding neg
quot (pos n) k = pos (n / k)
quot (negsuc n) k = neg (suc n / k)

unfoldable pub rem : ℤ → ℕ → ℤ
unfolding neg
rem (pos n) k = pos (n % k)
rem (negsuc n) k = neg (suc n % k)

unfoldable pub is_zero : ℤ → Bool
is_zero (pos n) = n == 0
is_zero (negsuc n) = false

unfoldable pub is_negative : ℤ → Bool
is_negative (pos n) = false
is_negative (negsuc n) = true

-- "9876543210123456789".
abbrev pub digits : List ℕ
digits =
    57 ∷ 56 ∷ 55 ∷ 54 ∷ 53 ∷ 52 ∷ 51 ∷ 50 ∷ 49 ∷ 48 ∷ 49 ∷ 50 ∷ 51 ∷ 52 ∷ 53 ∷ 54 ∷ 55 ∷ 56 ∷ 57
    ∷ []

-- `zero[lsd]`, where `zero` points to the middle of the digits.
unfoldable pub zero_at : ℤ → Option ℕ
zero_at (pos n) = get_elem? digits (9 + n)
zero_at (negsuc n) = if leb 9 n then none else get_elem? digits (8 - n)

-- The digits, the last one first: the loop on fuel.
unfoldable pub convert_digits : ℕ → ℤ → Option (List ℕ)
unfolding quot rem is_zero zero_at
convert_digits zero i = none
convert_digits (suc fuel) i =
    let rest = convert_digits fuel (quot i 10) in
    zero_at (rem i 10)
    >>= (λ c. if is_zero (quot i 10) then some (c ∷ []) else rest >>= (λ cs. some (c ∷ cs)))

unfoldable pub reverse : List ℕ → List ℕ
reverse [] = []
reverse (c ∷ cs) = reverse cs ++ c ∷ []

-- The most digits of a number of 64 bits.
abbrev pub max_digits : ℕ
max_digits = 20

-- What is written to the buffer before the final `'\0'`.
unfoldable pub convert : ℤ → Option (List ℕ)
unfolding convert_digits is_negative reverse
convert value =
    convert_digits max_digits value
    >>= (λ cs. some (reverse (if is_negative value then cs ++ 45 ∷ [] else cs)))

-- "0123456789ABCDEF".
abbrev pub digits_hex : List ℕ
digits_hex = 48 ∷ 49 ∷ 50 ∷ 51 ∷ 52 ∷ 53 ∷ 54 ∷ 55 ∷ 56 ∷ 57 ∷ 65 ∷ 66 ∷ 67 ∷ 68 ∷ 69 ∷ 70 ∷ []

unfoldable pub hex_digits : ℕ → ℕ → Option (List ℕ)
hex_digits zero i = none
hex_digits (suc fuel) i =
    let rest = hex_digits fuel (i / 16) in
    get_elem? digits_hex (i % 16)
    >>= (λ c. if i / 16 == 0 then some (c ∷ []) else rest >>= (λ cs. some (c ∷ cs)))

-- The most hexadecimal digits of a pointer.
abbrev pub max_hex : ℕ
max_hex = 16

unfoldable pub convert_hex : ℕ → Option (List ℕ)
unfolding hex_digits reverse
convert_hex value = hex_digits max_hex value >>= (λ cs. some (reverse cs))

module _ (size : ℕ) where
  unfoldable pub writable : List ℕ → ℕ
  writable buffer = size - length buffer

  -- What does not fit is dropped.
  unfoldable pub append : List ℕ → List ℕ → List ℕ
  unfolding writable
  append text buffer = if ltb (length text) (writable buffer) then buffer ++ text else buffer

abbrev pub k_small_buffer : ℕ
k_small_buffer = 4000

abbrev pub k_max_numeric_size : ℕ
k_max_numeric_size = 32

-- Text that is written in place, after the test for `kMaxNumericSize` bytes.
unfoldable pub write_numeric : Option (List ℕ) → List ℕ → Option (List ℕ)
unfolding writable
write_numeric text buffer =
    if leb k_max_numeric_size (writable k_small_buffer buffer)
    then text >>= (λ t. some (buffer ++ t))
    else some buffer

unfoldable pub format_integer : ℤ → List ℕ → Option (List ℕ)
unfolding write_numeric convert
format_integer v buffer = write_numeric (convert v) buffer

unfoldable pub format_pointer : ℕ → List ℕ → Option (List ℕ)
unfolding write_numeric convert_hex
format_pointer p buffer = write_numeric (convert_hex p >>= (λ t. some (48 ∷ 120 ∷ t))) buffer

-- The text of "%.12g".
unfoldable pub format_double : List ℕ → List ℕ → Option (List ℕ)
unfolding write_numeric
format_double text buffer = write_numeric (some text) buffer

-- What the operators `<<` of a stream are given.
pub data Item : Type 0 where
  bool : Bool → Item
  integer : ℤ → Item
  pointer : ℕ → Item
  double : List ℕ → Item
  char : ℕ → Item
  text : List ℕ → Item
  null : Item

unfoldable pub put : Item → List ℕ → Option (List ℕ)
unfolding append format_integer format_pointer format_double
put (bool true) buffer = some (append k_small_buffer (49 ∷ []) buffer)
put (bool false) buffer = some (append k_small_buffer (48 ∷ []) buffer)
put (integer v) buffer = format_integer v buffer
put (pointer p) buffer = format_pointer p buffer
put (double t) buffer = format_double t buffer
put (char c) buffer = some (append k_small_buffer (c ∷ []) buffer)
put (text t) buffer = some (append k_small_buffer t buffer)
put null buffer = some (append k_small_buffer (40 ∷ 110 ∷ 117 ∷ 108 ∷ 108 ∷ 41 ∷ []) buffer)

unfoldable pub put_all : List Item → List ℕ → Option (List ℕ)
unfolding put
put_all [] buffer = some buffer
put_all (x ∷ xs) buffer = put x buffer >>= put_all xs

-- `LogLevelName`.
unfoldable pub log_level_name : ℕ → List ℕ
log_level_name level =
    if level == 0
    then 84 ∷ 82 ∷ 65 ∷ 67 ∷ 69 ∷ 32 ∷ []
    else if level == 1
    then 68 ∷ 69 ∷ 66 ∷ 85 ∷ 71 ∷ 32 ∷ []
    else if level == 2
    then 73 ∷ 78 ∷ 70 ∷ 79 ∷ 32 ∷ 32 ∷ []
    else if level == 3
    then 87 ∷ 65 ∷ 82 ∷ 78 ∷ 32 ∷ 32 ∷ []
    else if level == 4
    then 69 ∷ 82 ∷ 82 ∷ 79 ∷ 82 ∷ 32 ∷ []
    else 70 ∷ 65 ∷ 84 ∷ 65 ∷ 76 ∷ 32 ∷ []

-- `Impl::Impl`: the time and its microseconds, the level, and `errno` with the number that
-- `strerror_r` returns for it. The assertions that the texts of the time have 17 and 9 bytes are left
-- out.
unfoldable pub impl_items : List ℕ → List ℕ → ℕ → ℤ → ℤ → List Item
unfolding log_level_name is_zero
impl_items time us level saved_errno status =
    text time
    ∷ text us
    ∷ text (log_level_name level)
    ∷ (if is_zero saved_errno
        then []
        else integer status
          ∷ text (32 ∷ 40 ∷ 101 ∷ 114 ∷ 114 ∷ 110 ∷ 111 ∷ 61 ∷ 32 ∷ [])
          ∷ integer saved_errno
          ∷ text (41 ∷ 32 ∷ [])
          ∷ [])

-- `Impl::finish`: the file and the line.
unfoldable pub finish_items : List ℕ → ℤ → List Item
finish_items basename line =
    text (32 ∷ 45 ∷ 32 ∷ []) ∷ text basename ∷ char 58 ∷ integer line ∷ char 10 ∷ []

pub record Logger : Type 0 where
  pub time : List ℕ
  pub us : List ℕ
  pub level : ℕ
  pub saved_errno : ℤ
  pub status : ℤ
  pub basename : List ℕ
  pub line : ℤ

-- What a logger gives to its output, with the items of a message.
unfoldable pub log_line : Logger → List Item → Option (List ℕ)
unfolding impl_items finish_items put_all
log_line l items =
    put_all
      (impl_items l.time l.us l.level l.saved_errno l.status
        ++ items
        ++ finish_items l.basename l.line)
      []
