-- ===== src/Net/TimerManager.antt =====
-- ASIO_ALONE_STUDY/Net/TimerManager.hpp and TimerManager.cpp: a timer that calls its handler again and
-- again. The wait of the timer ends, without an error or with one (as when it is cancelled), only where
-- one is pending; `waits` are the times, in milliseconds, that the timer has been set to. Those that the
-- caller gives in seconds are taken as the milliseconds that they are converted to.
pub mod Counts
mod Tests
use asio_utils.Base.{ℕ, suc, ◌-◌, Bool, true, false, List, [], ◌∷◌, ◌++◌, ltb, if◌then◌else◌}

-- `RepeatHandler`, with whether it waits, and how often the handler has been called. An `int` count
-- below 1 is one that is not positive, 0.
pub record RepeatHandler : Type 0 where
  pub interval : ℕ
  pub count : ℕ
  pub pending : Bool
  pub called : ℕ
  pub waits : List ℕ

unfoldable pub create_timer : ℕ → ℕ → ℕ → RepeatHandler
create_timer delay interval count = record {
  interval = interval;
  count = count;
  pending = true;
  called = 0;
  waits = delay ∷ [];
}

-- The end of a wait, with whether it ended with an error.
unfoldable pub invoke : Bool → RepeatHandler → RepeatHandler
invoke true t = record t { pending = false }
invoke false t =
    let t' = record t { count = t.count - 1; called = suc t.called } in
    if ltb 0 t'.count
    then record t' { waits = t.waits ++ t.interval ∷ [] }
    else record t' { pending = false }

unfoldable pub complete : Bool → RepeatHandler → RepeatHandler
unfolding invoke
complete ec t = if t.pending then invoke ec t else t

unfoldable pub complete_all : List Bool → RepeatHandler → RepeatHandler
unfolding complete
complete_all [] t = t
complete_all (ec ∷ ecs) t = complete_all ecs (complete ec t)
