-- ===== src/Net/Logging/Digits.antt =====
-- `convert` prints the number that it is given, in at most 21 characters.
use asio_utils.Base.{
  ℕ, zero, suc, ◌+◌, ◌-◌, ◌*◌, ◌/◌, ◌%◌, ◌^◌, ◌≤◌, ◌<◌, ◌≡◌, refl, ◌∙◌, ap, subst, true, ◌&&◌, List,
  [], ◌∷◌, ◌++◌, Option, none, some, leb, ◌==◌, if◌then◌else◌, if-cases, ◌>>=◌, length,
  length-append, get_elem?, arith,
}
use mathlib.Core.Option.{some-injective}
use native.Mathlib.Nat.{pow-suc}
use asio_utils.Net.Logging.Stream.{
  ℤ, pos, negsuc, neg, quot, rem, is_zero, is_negative, digits, zero_at, convert_digits, reverse,
  max_digits, convert,
}

digit_pos : (r : ℕ) → r < 10 → get_elem? digits (9 + r) ≡ some (48 + r)
digit_pos zero h = refl
digit_pos (suc zero) h = refl
digit_pos (suc (suc zero)) h = refl
digit_pos (suc (suc (suc zero))) h = refl
digit_pos (suc (suc (suc (suc zero)))) h = refl
digit_pos (suc (suc (suc (suc (suc zero))))) h = refl
digit_pos (suc (suc (suc (suc (suc (suc zero)))))) h = refl
digit_pos (suc (suc (suc (suc (suc (suc (suc zero))))))) h = refl
digit_pos (suc (suc (suc (suc (suc (suc (suc (suc zero)))))))) h = refl
digit_pos (suc (suc (suc (suc (suc (suc (suc (suc (suc zero))))))))) h = refl
digit_pos (suc (suc (suc (suc (suc (suc (suc (suc (suc (suc r)))))))))) h =
    absurd (omega (arith, h))

digit_neg : (r : ℕ) → r < 10 → zero_at (neg r) ≡ some (48 + r)
unfolding zero_at neg
digit_neg zero h = refl
digit_neg (suc zero) h = refl
digit_neg (suc (suc zero)) h = refl
digit_neg (suc (suc (suc zero))) h = refl
digit_neg (suc (suc (suc (suc zero)))) h = refl
digit_neg (suc (suc (suc (suc (suc zero))))) h = refl
digit_neg (suc (suc (suc (suc (suc (suc zero)))))) h = refl
digit_neg (suc (suc (suc (suc (suc (suc (suc zero))))))) h = refl
digit_neg (suc (suc (suc (suc (suc (suc (suc (suc zero)))))))) h = refl
digit_neg (suc (suc (suc (suc (suc (suc (suc (suc (suc zero))))))))) h = refl
digit_neg (suc (suc (suc (suc (suc (suc (suc (suc (suc (suc r)))))))))) h =
    absurd (omega (arith, h))

-- The digits of a number, the last one first.
decimal : ℕ → ℕ → Option (List ℕ)
decimal zero n = none
decimal (suc fuel) n =
    let rest = decimal fuel (n / 10) in
    if n / 10 == 0 then some ((48 + n % 10) ∷ []) else (rest >>= (λ cs. some ((48 + n % 10) ∷ cs)))

unfoldable pub magnitude : ℤ → ℕ
magnitude (pos n) = n
magnitude (negsuc n) = suc n

neg-magnitude : (n : ℕ) → magnitude (neg n) ≡ n
unfolding magnitude neg
neg-magnitude zero = refl
neg-magnitude (suc n) = refl

zero_at-rem : (i : ℤ) → zero_at (rem i 10) ≡ some (48 + magnitude i % 10)
unfolding zero_at rem magnitude
zero_at-rem (pos n) = digit_pos (n % 10) (omega arith)
zero_at-rem (negsuc n) = digit_neg (suc n % 10) (omega arith)

is_zero-neg : (n : ℕ) → is_zero (neg n) ≡ (n == 0)
unfolding is_zero neg
is_zero-neg zero = refl
is_zero-neg (suc n) = ground arith

magnitude-quot : (i : ℤ) → magnitude (quot i 10) ≡ magnitude i / 10
unfolding quot magnitude
magnitude-quot (pos n) = refl
magnitude-quot (negsuc n) = neg-magnitude (suc n / 10)

is_zero-quot : (i : ℤ) → is_zero (quot i 10) ≡ (magnitude i / 10 == 0)
unfolding is_zero quot magnitude neg
is_zero-quot (pos n) = refl
is_zero-quot (negsuc n) = is_zero-neg (suc n / 10)

convert_digits-decimal : (fuel : ℕ) (i : ℤ) → convert_digits fuel i ≡ decimal fuel (magnitude i)
unfolding convert_digits decimal
convert_digits-decimal zero i = refl
convert_digits-decimal (suc fuel) i =
    let rest = convert_digits fuel (quot i 10) in
    let c = 48 + magnitude i % 10 in
    ap
      (λ d.
        d >>= (λ c. if is_zero (quot i 10) then some (c ∷ []) else rest >>= (λ cs. some (c ∷ cs))))
      (zero_at-rem i)
    ∙ ap (λ b. if b then some (c ∷ []) else rest >>= (λ cs. some (c ∷ cs))) (is_zero-quot i)
    ∙ ap (λ r. if magnitude i / 10 == 0 then some (c ∷ []) else r >>= (λ cs. some (c ∷ cs)))
        (convert_digits-decimal fuel (quot i 10) ∙ ap (decimal fuel) (magnitude-quot i))

below_tenth : (n k : ℕ) → n < k * 10 → n / 10 < k
below_tenth n k h = omega (arith, h)

-- A reader of decimal numbers.
unfoldable pub read : ℕ → List ℕ → Option ℕ
read n [] = some n
read n (c ∷ cs) =
    let rest = read (10 * n + (c - 48)) cs in if leb 48 c && leb c 57 then rest else none

unfoldable pub parse : List ℕ → Option ℤ
unfolding read neg
parse [] = none
parse (c ∷ cs) =
    let minus = read 0 cs >>= (λ n. some (neg n)) in
    let plus = read 0 (c ∷ cs) >>= (λ n. some (pos n)) in if c == 45 then minus else plus

read-append :
    (acc n c : ℕ) (cs : List ℕ)
    → read acc cs ≡ some n
    → read acc (cs ++ c ∷ []) ≡ (if leb 48 c && leb c 57 then some (10 * n + (c - 48)) else none)
unfolding read
read-append acc n c [] e = ground (arith, some-injective _ _ e)
read-append acc n c (d ∷ cs) e = ground (arith, read-append (10 * acc + (d - 48)) n c cs)

pub length-reverse : (cs : List ℕ) → length (reverse cs) ≡ length cs
unfolding reverse
length-reverse [] = refl
length-reverse (c ∷ cs) = omega (arith, length-append (reverse cs) (c ∷ []), length-reverse cs)

reverse-last : (cs : List ℕ) (c : ℕ) → reverse (cs ++ c ∷ []) ≡ c ∷ reverse cs
unfolding reverse
reverse-last [] c = refl
reverse-last (d ∷ cs) c = ap (λ t. t ++ d ∷ []) (reverse-last cs c)

-- Digits that read as `n`, at most `fuel` of them.
Prints : ℕ → ℕ → Option (List ℕ) → Type 0
Prints fuel n o =
    (cs : List ℕ) × (o ≡ some cs)
    × (read 0 (reverse cs) ≡ some n)
    × (length cs ≤ fuel)
    × (1 ≤ length cs)

last_digit :
    (n : ℕ)
    → (if leb 48 (48 + n % 10) && leb (48 + n % 10) 57
        then some (10 * (n / 10) + ((48 + n % 10) - 48))
        else none)
      ≡ some n
last_digit n = ground arith

decimal_more :
    (fuel n : ℕ)
    → Prints fuel (n / 10) (decimal fuel (n / 10))
    → Prints (suc fuel) n (decimal fuel (n / 10) >>= (λ cs. some ((48 + n % 10) ∷ cs)))
unfolding Prints reverse
decimal_more fuel n (cs, found, reads, short, some_digit) = (
  (48 + n % 10) ∷ cs,
  ap (λ o. o >>= (λ cs. some ((48 + n % 10) ∷ cs))) found,
  read-append 0 (n / 10) (48 + n % 10) (reverse cs) reads ∙ last_digit n,
  omega (arith, short),
  omega arith,
)

digit_reads : (n : ℕ) → (n / 10 == 0) ≡ true → read 0 ((48 + n % 10) ∷ []) ≡ some n
unfolding read
digit_reads n e = ground (arith, e)

decimal_one : (fuel n : ℕ) → (n / 10 == 0) ≡ true → Prints (suc fuel) n (some ((48 + n % 10) ∷ []))
unfolding Prints reverse read
decimal_one fuel n e = ((48 + n % 10) ∷ [], refl, digit_reads n e, omega arith, omega arith)

decimal-Prints : (fuel n : ℕ) → n < 10 ^ suc fuel → Prints (suc fuel) n (decimal (suc fuel) n)
unfolding decimal
decimal-Prints zero n h =
    if-cases (Prints 1 n) (n / 10 == 0) (decimal_one 0 n) (λ e. absurd (ground (arith, e, h)))
decimal-Prints (suc fuel) n h =
    if-cases (Prints (suc (suc fuel)) n) (n / 10 == 0) (decimal_one (suc fuel) n) (λ e.
      decimal_more (suc fuel) n (
        decimal-Prints fuel (n / 10)
          (below_tenth n (10 ^ suc fuel) (subst (λ k. n < k) (pow-suc 10 (suc fuel)) h))))

parse-read : (t : List ℕ) (n : ℕ) → read 0 t ≡ some n → 1 ≤ length t → parse t ≡ some (pos n)
unfolding parse read
parse-read [] n e h = absurd (omega (arith, h))
parse-read (c ∷ cs) n e h = ground (arith, e)

-- The sign, before the digits.
signed :
    (v : ℤ) (cs : List ℕ)
    → read 0 (reverse cs) ≡ some (magnitude v)
    → length cs ≤ 20
    → 1 ≤ length cs
    → let t = reverse (if is_negative v then cs ++ 45 ∷ [] else cs) in
      (parse t ≡ some v) × (length t ≤ 21)
unfolding is_negative magnitude parse neg
signed (pos n) cs reads short some_digit = (
  parse-read (reverse cs) n reads (omega (arith, length-reverse cs, some_digit)),
  omega (arith, length-reverse cs, short),
)
signed (negsuc n) cs reads short some_digit = (
  ap parse (reverse-last cs 45) ∙ ap (λ o. o >>= (λ n. some (neg n))) reads,
  omega (arith, ap length (reverse-last cs 45), length-reverse cs, short),
)

-- Every number of 64 bits, signed or not, is printed; its print reads as the number, and has 21
-- characters at most.
pub convert_lem :
    (v : ℤ)
    → magnitude v < 2 ^ 64
    → (t : List ℕ) × (convert v ≡ some t) × (parse t ≡ some v) × (length t ≤ 21)
unfolding convert Prints
convert_lem v h =
    let (cs, found, reads, short, some_digit) =
      decimal-Prints 19 (magnitude v) (omega (arith, h)) in
    let e : convert_digits max_digits v ≡ some cs = convert_digits-decimal max_digits v ∙ found in
    let minus = is_negative v in
    let (reads_back, at_most) = signed v cs reads short some_digit in
    (
      reverse (if minus then cs ++ 45 ∷ [] else cs),
      ap (λ o. o >>= (λ cs. some (reverse (if minus then cs ++ 45 ∷ [] else cs)))) e,
      reads_back,
      at_most,
    )
