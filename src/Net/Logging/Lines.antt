-- ===== src/Net/Logging/Lines.antt =====
-- A line of the log, whatever it is given, and one that is short enough.
use asio_utils.Base.{
  ℕ, ◌+◌, ◌≤◌, ◌<◌, ◌≡◌, refl, sym, ◌∙◌, ap, true, false, List, [], ◌∷◌, ◌++◌, Option, none, some,
  ltb, leb, ltb→lt, ltb→le, if◌then◌else◌, if-cases, ◌>>=◌, length, length-append, append-nil,
  append_assoc, arith,
}
use mathlib.Core.Option.{some-injective}
use asio_utils.Net.Logging.Stream.{
  convert, convert_hex, writable, append, k_small_buffer, k_max_numeric_size, write_numeric,
  format_integer, format_pointer, format_double, Item, bool, integer, pointer, double, char, text,
  null, put, put_all, impl_items, finish_items, Logger, log_line,
}
use asio_utils.Net.Logging.Digits.{convert_lem}
use asio_utils.Net.Logging.Hex.{Short, convert_hex-Short}
use asio_utils.Net.Logging.Room.{IsItem, AllItems, HasRoom, put_all-HasRoom}

or_nothing : Option (List ℕ) → List ℕ
or_nothing none = []
or_nothing (some t) = t

-- The text of an item.
text_of : Item → List ℕ
unfolding or_nothing
text_of (bool true) = 49 ∷ []
text_of (bool false) = 48 ∷ []
text_of (integer v) = or_nothing (convert v)
text_of (pointer p) = 48 ∷ 120 ∷ or_nothing (convert_hex p)
text_of (double t) = t
text_of (char c) = c ∷ []
text_of (text t) = t
text_of null = 40 ∷ 110 ∷ 117 ∷ 108 ∷ 108 ∷ 41 ∷ []

unfoldable pub texts : List Item → List ℕ
unfolding text_of
texts [] = []
texts (x ∷ xs) = text_of x ++ texts xs

-- The room that an item is sure to find enough.
need : Item → ℕ
need (integer v) = k_max_numeric_size
need (pointer p) = k_max_numeric_size
need (double t) = k_max_numeric_size
need (text t) = length t
need null = 6
need x = 1

unfoldable pub needs : List Item → ℕ
unfolding need
needs [] = 0
needs (x ∷ xs) = need x + needs xs

-- It is written whole.
Whole : Item → List ℕ → Type 0
Whole x b = (put x b ≡ some (b ++ text_of x)) × (length (text_of x) ≤ need x)

append-Whole :
    (t b : List ℕ) → length b + length t < k_small_buffer → append k_small_buffer t b ≡ b ++ t
unfolding append writable
append-Whole t b h =
    if-cases (λ r. r ≡ b ++ t) (ltb (length t) (writable k_small_buffer b)) (λ e. refl)
      (λ e. absurd (omega (arith, ltb→le _ _ e, h)))

write_numeric-Whole :
    (o : Option (List ℕ)) (t b : List ℕ)
    → o ≡ some t
    → length b + k_max_numeric_size < k_small_buffer
    → write_numeric o b ≡ some (b ++ t)
unfolding write_numeric writable
write_numeric-Whole o t b e h =
    if-cases (λ r. r ≡ some (b ++ t)) (leb k_max_numeric_size (writable k_small_buffer b))
      (λ f. ap (λ o. o >>= (λ t. some (b ++ t))) e) (λ f. absurd (ground (arith, f, h)))

pointer-Whole :
    (p : ℕ) (b : List ℕ)
    → length b + k_max_numeric_size < k_small_buffer
    → (o : Option (List ℕ)) → convert_hex p ≡ o
    → Short 18 (o >>= (λ t. some (48 ∷ 120 ∷ t)))
    → Whole (pointer p) b
unfolding Whole put format_pointer text_of need or_nothing Short
pointer-Whole p b h none e (t, e', short) = cc
pointer-Whole p b h (some t) e (t', e', short) = (
  write_numeric-Whole (convert_hex p >>= (λ t. some (48 ∷ 120 ∷ t))) (48 ∷ 120 ∷ t) b
        (ap (λ o. o >>= (λ t. some (48 ∷ 120 ∷ t))) e) h
      ∙ ap (λ o. some (b ++ 48 ∷ 120 ∷ or_nothing o)) (sym e),
  omega (arith, ap (λ o. length (or_nothing o)) e, ap length (some-injective _ _ e'), short),
)

put-Whole : (x : Item) (b : List ℕ) → IsItem x → length b + need x < k_small_buffer → Whole x b
unfolding put IsItem format_integer format_pointer format_double Whole need text_of or_nothing Short
put-Whole (bool true) b i h = (ap some (append-Whole (49 ∷ []) b h), omega arith)
put-Whole (bool false) b i h = (ap some (append-Whole (48 ∷ []) b h), omega arith)
put-Whole (integer v) b i h =
    let (t, e, reads, short) = convert_lem v i in
    (
      write_numeric-Whole (convert v) t b e h ∙ ap (λ o. some (b ++ or_nothing o)) (sym e),
      omega (arith, ap (λ o. length (or_nothing o)) e, short),
    )
put-Whole (pointer p) b i h = pointer-Whole p b h (convert_hex p) refl (convert_hex-Short p i)
put-Whole (double t) b i h = (write_numeric-Whole (some t) t b refl h, omega (arith, i))
put-Whole (char c) b i h = (ap some (append-Whole (c ∷ []) b h), omega arith)
put-Whole (text t) b i h = (ap some (append-Whole t b h), omega arith)
put-Whole null b i h =
    (ap some (append-Whole (40 ∷ 110 ∷ 117 ∷ 108 ∷ 108 ∷ 41 ∷ []) b h), omega arith)

put_all-Whole :
    (xs : List Item) (b : List ℕ)
    → AllItems xs
    → length b + needs xs < k_small_buffer
    → put_all xs b ≡ some (b ++ texts xs)
unfolding put_all AllItems texts needs Whole
put_all-Whole [] b a h = ap some (sym (append-nil b))
put_all-Whole (x ∷ xs) b (i, a) h =
    let (e, short) = put-Whole x b i (omega (arith, h)) in
    ap (λ o. o >>= put_all xs) e
    ∙ put_all-Whole xs (b ++ text_of x) a (omega (arith, h, short, length-append b (text_of x)))
    ∙ ap some (append_assoc b (text_of x) (texts xs))

-- All that goes into a line.
unfoldable pub items_of : Logger → List Item → List Item
items_of l items =
    impl_items l.time l.us l.level l.saved_errno l.status ++ items ++ finish_items l.basename l.line

-- Whatever is logged, nothing is written past the end of a stream's buffer, and a line has less than
-- 4000 bytes; a line whose items need less, 32 bytes for each number, is the texts of all the items.
pub log_line_lem :
    (l : Logger) (items : List Item)
    → AllItems (items_of l items)
    → (t : List ℕ) × (log_line l items ≡ some t)
      × (length t < k_small_buffer)
      × (t
          ≡ (if ltb (needs (items_of l items)) k_small_buffer then texts (items_of l items) else t))
unfolding log_line items_of HasRoom
log_line_lem l items a =
    let (t, e, short) = put_all-HasRoom (items_of l items) [] a (omega arith) in
    (
      t,
      e,
      short,
      if-cases (λ r. t ≡ r) (ltb (needs (items_of l items)) k_small_buffer)
          (λ h.
            some-injective _ _
              (sym e ∙ put_all-Whole (items_of l items) [] a (omega (arith, ltb→lt _ _ h))))
          (λ h. refl),
    )
