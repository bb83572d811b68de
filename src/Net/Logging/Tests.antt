-- ===== src/Net/Logging/Tests.antt =====
-- Numbers, a line, the thread with small buffers, and files of a few bytes.
use asio_utils.Base.{
  ℕ, ◌-◌, ◌^◌, ◌≤◌, ◌<◌, ◌≡◌, ◌≢◌, refl, List, [], ◌∷◌, some, ltb, if◌then◌else◌, min, length,
  run_all, AllAllowed, arith,
}
use asio_utils.Net.Logging.Stream.{
  pos, negsuc, convert, convert_hex, integer, text, impl_items, finish_items, k_small_buffer,
  Logger, log_line,
}
use asio_utils.Net.Logging.Digits.{magnitude, parse, convert_lem}
use asio_utils.Net.Logging.Room.{AllItems}
use asio_utils.Net.Logging.Lines.{items_of, needs, texts, log_line_lem}
use asio_utils.Net.Logging.Async.{start, finished}
use asio_utils.Net.Logging.Sound.{System, pending}
use asio_utils.Net.Logging.Order.{
  Operation, line, go_on, stopped, lines, step, Allowed, run_all-ordered,
}
use asio_utils.Net.Logging.File.Rolls

smallest :
    convert (negsuc (2 ^ 63 - 1))
    ≡ some (
        45 ∷ 57 ∷ 50 ∷ 50 ∷ 51 ∷ 51 ∷ 55 ∷ 50 ∷ 48 ∷ 51 ∷ 54 ∷ 56 ∷ 53 ∷ 52 ∷ 55 ∷ 55 ∷ 53 ∷ 56 ∷ 48
        ∷ 56 ∷ [])
unfolding convert
smallest = refl

a_pointer : convert_hex 255 ≡ some (70 ∷ 70 ∷ [])
unfolding convert_hex
a_pointer = refl

convert_lem_example :
    (t : List ℕ) × (convert (negsuc 122) ≡ some t) × (parse t ≡ some (negsuc 122)) × (length t ≤ 21)
unfolding magnitude
convert_lem_example = convert_lem (negsuc 122) (omega arith)

abbrev a_logger : Logger
a_logger = record {
  time = [];
  us = [];
  level = 4;
  saved_errno = pos 2;
  status = pos 0;
  basename = 97 ∷ [];
  line = pos 12;
}

-- "ERROR 0 (errno= 2) x - a:12": the number that `strerror_r` returns, and not its text.
a_line :
    log_line a_logger (text (120 ∷ []) ∷ [])
    ≡ some (
        69 ∷ 82 ∷ 82 ∷ 79 ∷ 82 ∷ 32 ∷ 48 ∷ 32 ∷ 40 ∷ 101 ∷ 114 ∷ 114 ∷ 110 ∷ 111 ∷ 61 ∷ 32 ∷ 50 ∷ 41
        ∷ 32 ∷ 120 ∷ 32 ∷ 45 ∷ 32 ∷ 97 ∷ 58 ∷ 49 ∷ 50 ∷ 10 ∷ [])
unfolding log_line
a_line = refl

log_line_lem_example :
    (t : List ℕ) × (log_line a_logger (integer (pos 7) ∷ []) ≡ some t)
    × (length t < k_small_buffer)
    × (t ≡ (
        if ltb (needs (items_of a_logger (integer (pos 7) ∷ []))) k_small_buffer
        then texts (items_of a_logger (integer (pos 7) ∷ []))
        else t))
unfolding items_of AllItems impl_items finish_items
log_line_lem_example = log_line_lem a_logger (integer (pos 7) ∷ []) (
  tt,
  (
    tt,
    (
      tt,
      (
        omega arith,
        (tt, (omega arith, (tt, (omega arith, (tt, (tt, (tt, (omega arith, (tt, tt))))))))),
      ),
    ),
  ),
)

abbrev few_steps : List Operation
few_steps =
    line (1 ∷ 2 ∷ [])
    ∷ line (3 ∷ 4 ∷ [])
    ∷ go_on
    ∷ line (5 ∷ [])
    ∷ stopped
    ∷ go_on
    ∷ line (6 ∷ [])
    ∷ go_on
    ∷ []

no_text : ℕ → List ℕ
no_text n = []

run_all-ordered_example :
    (s : System) × (run_all (step 4 no_text) few_steps (record { log = start; said = [] }) ≡ some s)
    × (pending s.log ≡ lines few_steps)
    × (s.log.phase ≢ finished)
unfolding AllAllowed run_all step Allowed start
run_all-ordered_example = run_all-ordered 4 no_text few_steps (
  omega arith,
  (
    omega arith,
    (omega arith, (omega arith, (tt, (omega arith, (omega arith, (omega arith, tt)))))),
  ),
)

-- One byte at a time.
bytewise : ℕ → ℕ → ℕ
bytewise k n = min 1 n

abbrev three_lines : List (List ℕ × ℕ × ℕ)
three_lines = (1 ∷ 2 ∷ 3 ∷ [], 100, 100) ∷ (4 ∷ 5 ∷ [], 101, 102) ∷ (6 ∷ [], 103, 103) ∷ []
