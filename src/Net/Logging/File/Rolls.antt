-- ===== src/Net/Logging/File/Rolls.antt =====
-- The files of a log, one after the other, hold the lines.
use asio_utils.Base.{ℕ, ◌<◌, ◌≡◌, List, [], ◌∷◌, ◌++◌, Option, some, ◌>>=◌}
use asio_utils.Net.Logging.File.{AppendFile, LogFile, append_unlocked}

-- All that the files hold.
unfoldable pub all_of : List AppendFile → List ℕ
all_of [] = []
all_of (f ∷ fs) = f.contents ++ all_of fs

unfoldable pub text : LogFile → List ℕ
unfolding all_of
text l = all_of l.closed ++ l.file.contents

-- The files are opened before a time, or after it.
unfoldable pub Before : List AppendFile → ℕ → Type 0
Before [] now = Unit
Before (f ∷ fs) now = (f.opened < now) × Before fs now

unfoldable pub After : ℕ → List AppendFile → Type 0
After now [] = Unit
After now (f ∷ fs) = (now < f.opened) × After now fs

-- Each file is opened after those before it.
unfoldable pub InOrder : List AppendFile → Type 0
unfolding After
InOrder [] = Unit
InOrder (f ∷ fs) = After f.opened fs × InOrder fs

-- The lines of the calls.
unfoldable pub lines_of : List (List ℕ × ℕ × ℕ) → List ℕ
lines_of [] = []
lines_of ((line, now, later) ∷ rest) = line ++ lines_of rest

record IsKept (l : LogFile) (said : List ℕ) : Type 0 where
  all : text l ≡ said
  in_order : InOrder l.closed
  before : Before l.closed l.file.opened
  last : l.file.opened ≡ l.last_roll

module _ (fwrite : ℕ → ℕ → ℕ) (roll_size flush_interval check_every : ℕ) where
  -- The lines, each with the two times of its call.
  unfoldable pub log_all : List (List ℕ × ℕ × ℕ) → LogFile → Option LogFile
  log_all [] l = some l
  log_all ((line, now, later) ∷ rest) l =
      append_unlocked fwrite roll_size flush_interval check_every line now later l >>= log_all rest
