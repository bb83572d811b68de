-- ===== src/Net/Logging/File.antt =====
-- `AppendFile` and `LogFile`: what is appended to the files of a log, and when a new one is opened. What
-- `fwrite` takes is an argument, by the number of the call and the length that it is given; so are the
-- times that `time` returns. Times and sizes are numbers.
mod Writes
pub mod Rolls
use asio_utils.Base.{
  ℕ, zero, suc, ◌+◌, ◌-◌, ◌*◌, ◌/◌, Bool, true, false, List, [], ◌∷◌, ◌++◌, Option, none, some, ltb,
  leb, ◌==◌, if◌then◌else◌, ◌>>=◌, length, take, drop, sub_size,
}

-- The file, with the time in its name.
pub record AppendFile : Type 0 where
  pub opened : ℕ
  pub contents : List ℕ
  pub written_bytes : ℕ
  pub flushed : ℕ

unfoldable pub open_file : ℕ → AppendFile
open_file now = record { opened = now; contents = []; written_bytes = 0; flushed = 0 }

unfoldable pub flush : AppendFile → AppendFile
flush f = record f { flushed = length f.contents }

abbrev pub k_roll_per_seconds : ℕ
k_roll_per_seconds = 86400

pub record LogFile : Type 0 where
  pub count : ℕ
  pub start_of_period : ℕ
  pub last_roll : ℕ
  pub last_flush : ℕ
  -- The files before this one, which are closed, oldest first.
  pub closed : List AppendFile
  pub file : AppendFile
  -- The calls of `fwrite`.
  pub calls : ℕ

-- The start of the day.
unfoldable pub period : ℕ → ℕ
period now = now / k_roll_per_seconds * k_roll_per_seconds

unfoldable pub roll_file : ℕ → LogFile → LogFile
unfolding open_file period
roll_file now l =
    if ltb l.last_roll now
    then record l {
      last_roll = now;
      last_flush = now;
      start_of_period = period now;
      closed = l.closed ++ l.file ∷ [];
      file = open_file now;
    }
    else l

-- The constructor rolls at a time after 0. At 0 the log is left without a file, and whatever is called
-- dereferences a null pointer: `none`.
unfoldable pub init : ℕ → Option LogFile
unfolding open_file period
init now =
    if ltb 0 now
    then some (record {
      count = 0;
      start_of_period = period now;
      last_roll = now;
      last_flush = now;
      closed = [];
      file = open_file now;
      calls = 0;
    })
    else none

-- A check, at every `check_every`-th line.
unfoldable pub check_period : ℕ → ℕ → ℕ → LogFile → LogFile
unfolding roll_file period flush
check_period flush_interval now later l =
    let l' = record l { count = 0 } in
    let flushed = record l' { last_flush = now; file = flush l.file } in
    if period now == l.start_of_period
    then (if ltb flush_interval (now - l.last_flush) then flushed else l')
    else roll_file later l'

module _ (fwrite : ℕ → ℕ → ℕ) where
  -- `AppendFile::write` of a stretch of the line.
  unfoldable pub write : List ℕ → LogFile → ℕ × LogFile
  write text l =
      let x = fwrite l.calls (length text) in
      (
        x,
        record l {
          file = record l.file { contents = l.file.contents ++ take x text };
          calls = suc l.calls;
        },
      )

  -- The loop, after `n` bytes of the line.
  unfoldable pub append_rest : ℕ → List ℕ → ℕ → LogFile → Option LogFile
  unfolding write
  append_rest zero line n l = none
  append_rest (suc fuel) line n l =
      let remain = sub_size (length line) n in
      let (x, l') = write (take remain (drop n line)) l in
      let rest = append_rest fuel line (n + x) l' in
      if remain == 0 then some l else if x == 0 then some l' else rest

  -- `AppendFile::append`; every round writes a byte, so that one for each is enough.
  unfoldable pub append_file : List ℕ → LogFile → Option LogFile
  unfolding write append_rest
  append_file line l =
      let (n, l1) = write line l in
      append_rest (suc (length line)) line n l1 >>= (λ l2. some (record l2 {
        file = record l2.file { written_bytes = l2.file.written_bytes + length line };
      }))

  module _ (roll_size flush_interval check_every : ℕ) where
    -- `appendUnlocked`, where `time` returns `now`, and `later` to `rollFile`.
    unfoldable pub append_unlocked : List ℕ → ℕ → ℕ → LogFile → Option LogFile
    unfolding append_file roll_file check_period
    append_unlocked line now later l = append_file line l >>= (λ l1. some (
        if ltb roll_size l1.file.written_bytes
        then roll_file later l1
        else if leb check_every (suc l1.count)
        then check_period flush_interval now later l1
        else record l1 { count = suc l1.count }))
