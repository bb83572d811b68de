-- ===== src/Net/Logging/Async.antt =====
-- `AsyncLogging`: any thread appends lines, and a thread of its own writes them out. A buffer is what has
-- been written to it; `none` is an empty pointer, and as a result a failed assertion or an empty pointer
-- that is followed. Each critical section is one step; the wait for the condition may end at any time,
-- so `take` may come at any time. `output` is what the files have been given.
use asio_utils.Base.{
  ℕ, ◌-◌, Bool, true, false, ◌&&◌, List, [], ◌∷◌, ◌++◌, Option, none, some, ltb, ◌==◌,
  if◌then◌else◌, ◌>>=◌, length, take,
}
use asio_utils.Net.Logging.Stream.{writable, append}

-- Where the thread is: before the loop's test, before its critical section, after it, and at the end.
pub data Phase : Type 0 where
  at_top waiting writing finished : Phase

pub record AsyncLogging : Type 0 where
  pub running : Bool
  pub current_buffer : Option (List ℕ)
  pub next_buffer : Option (List ℕ)
  pub buffers : List (List ℕ)
  pub phase : Phase
  pub new_buffer1 : Option (List ℕ)
  pub new_buffer2 : Option (List ℕ)
  pub buffers_to_write : List (List ℕ)
  pub output : List ℕ

-- After `start`.
unfoldable pub start : AsyncLogging
start = record {
  running = true;
  current_buffer = some [];
  next_buffer = some [];
  buffers = [];
  phase = at_top;
  new_buffer1 = some [];
  new_buffer2 = some [];
  buffers_to_write = [];
  output = [];
}

-- It sets `running_` to `true`.
unfoldable pub stop : AsyncLogging → AsyncLogging
stop s = record s { running = true }

unfoldable pub concat : List (List ℕ) → List ℕ
concat [] = []
concat (b ∷ bs) = b ++ concat bs

-- A buffer with nothing to read.
unfoldable pub is_clear : Option (List ℕ) → Bool
is_clear none = false
is_clear (some []) = true
is_clear (some (c ∷ cs)) = false

-- A full buffer is put away, and the next one, or a new one, takes its place.
unfoldable pub rotate : List ℕ → AsyncLogging → Option (List ℕ) → AsyncLogging
rotate b s none = record s { buffers = s.buffers ++ b ∷ []; current_buffer = some [] }
rotate b s (some n) = record s {
  buffers = s.buffers ++ b ∷ [];
  current_buffer = some n;
  next_buffer = none;
}

unfoldable pub pop_back : List (List ℕ) → Option (List (List ℕ))
pop_back [] = none
pop_back (b ∷ []) = some []
pop_back (b ∷ c ∷ bs) = pop_back (c ∷ bs) >>= (λ rest. some (b ∷ rest))

-- `newBuffer1`, if it is empty, is the last of the buffers, cleared.
unfoldable pub refill1 : Option (List ℕ) → List (List ℕ) → Option (Option (List ℕ) × List (List ℕ))
unfolding pop_back
refill1 (some b) bs = some (some b, bs)
refill1 none bs = pop_back bs >>= (λ rest. some (some [], rest))

unfoldable pub refill2 : Option (List ℕ) → List (List ℕ) → Option (Option (List ℕ))
refill2 (some b) bs = some (some b)
refill2 none [] = none
refill2 none (b ∷ bs) = some (some [])

-- `nextBuffer_`, if it is empty, is the second of the thread's buffers.
unfoldable pub give_next : AsyncLogging → Option (List ℕ) → AsyncLogging
give_next s none = record s { next_buffer = s.new_buffer2; new_buffer2 = none }
give_next s (some n) = s

-- The thread's critical section, with the current buffer, which is not empty.
unfoldable pub take_with : AsyncLogging → Option (List ℕ) → Option AsyncLogging
unfolding give_next
take_with s none = none
take_with s (some b) = some (
    give_next
      (record s {
        buffers = s.buffers_to_write;
        buffers_to_write = s.buffers ++ b ∷ [];
        current_buffer = s.new_buffer1;
        new_buffer1 = none;
        phase = writing;
      })
      s.next_buffer)

unfoldable pub check_top : AsyncLogging → Option AsyncLogging
unfolding is_clear
check_top s =
    if s.running
    then (if is_clear s.new_buffer1 && is_clear s.new_buffer2
        then some (record s { phase = waiting })
        else none)
    else some (record s { phase = finished })

module _ (size : ℕ) where
  unfoldable pub add_line : List ℕ → AsyncLogging → Option (List ℕ) → Option AsyncLogging
  unfolding append
  add_line line s none = none
  add_line line s (some b) = some (record s { current_buffer = some (append size line b) })

  unfoldable pub append_to : List ℕ → AsyncLogging → Option (List ℕ) → Option AsyncLogging
  unfolding writable add_line rotate
  append_to line s none = none
  append_to line s (some b) =
      let s' = rotate b s s.next_buffer in
      if ltb (length line) (writable size b)
      then add_line line s (some b)
      else add_line line s' s'.current_buffer

  unfoldable pub append_line : List ℕ → AsyncLogging → Option AsyncLogging
  unfolding append_to
  append_line line s = append_to line s s.current_buffer

-- `dropped` is the text that says how many buffers are dropped.
module _ (dropped : ℕ → List ℕ) where
  unfoldable pub keep_two : AsyncLogging → AsyncLogging
  keep_two s =
      let n = length s.buffers_to_write in
      if ltb 25 n
      then record s {
        output = s.output ++ dropped (n - 2);
        buffers_to_write = take 2 s.buffers_to_write;
      }
      else s

  -- All that is left is written.
  unfoldable pub write_all : AsyncLogging → Option AsyncLogging
  unfolding concat refill1 refill2
  write_all s =
      let bs = s.buffers_to_write in
      refill1 s.new_buffer1 (if ltb 2 (length bs) then take 2 bs else bs) >>= (λ (new1, rest).
        refill2 s.new_buffer2 rest >>= (λ new2. some (record s {
          output = s.output ++ concat bs;
          new_buffer1 = new1;
          new_buffer2 = new2;
          buffers_to_write = [];
          phase = at_top;
        })))

  unfoldable pub write_out : AsyncLogging → Option AsyncLogging
  unfolding keep_two write_all
  write_out s = if length s.buffers_to_write == 0 then none else write_all (keep_two s)

  -- The next stretch of the thread.
  unfoldable pub work_from : Phase → AsyncLogging → Option AsyncLogging
  unfolding check_top take_with write_out
  work_from at_top s = check_top s
  work_from waiting s = take_with s s.current_buffer
  work_from writing s = write_out s
  work_from finished s = some s

  unfoldable pub work : AsyncLogging → Option AsyncLogging
  unfolding work_from
  work s = work_from s.phase s
