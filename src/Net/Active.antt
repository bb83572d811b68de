-- ===== src/Net/Active.antt =====
-- ASIO_ALONE_STUDY/Net/Util/Active.hpp: an object with a thread of its own, which handles the events
-- that other threads send it. A run is a list of the atomic steps of all the threads in the order in
-- which they happen: what is done under the mutex is one step. `pendingWorkNum_` is `counted` less
-- `taken`. An event is a number; the callback is what `handled` logs.
pub mod Sound
pub mod Order
pub mod Drain
pub mod Hang
mod Tests
use asio_utils.Base.{ℕ, zero, suc, Bool, true, false, List, [], ◌∷◌, ◌++◌, if◌then◌else◌, replicate}

-- Where `run` is: at `while (!stop_)`, at `while (events_.empty())` with the mutex, in `wait`, at
-- `while (!swapEvents_.empty())`, or returned.
pub data Phase : Type 0 where
  outer inner asleep draining finished : Phase

pub record Active : Type 0 where
  pub events : List ℕ
  pub swap_events : List ℕ
  pub stop : Bool
  pub phase : Phase
  -- The calls of `send` that have left the mutex: those that will notify, and the others.
  pub signals : ℕ
  pub silent : ℕ
  pub counted : ℕ
  pub taken : ℕ
  pub handled : List ℕ

unfoldable pub started : Active
started = record {
  events = [];
  swap_events = [];
  stop = false;
  phase = outer;
  signals = 0;
  silent = 0;
  counted = 0;
  taken = 0;
  handled = [];
}

-- `send`, up to the end of the mutex.
pub push_on : ℕ → Active → List ℕ → Active
push_on x a [] = record a { events = x ∷ []; signals = suc a.signals }
push_on x a (y ∷ ys) = record a { events = (y ∷ ys) ++ x ∷ []; silent = suc a.silent }

pub push : ℕ → Active → Active
unfolding push_on
push x a = push_on x a a.events

pub awake : Phase → Phase
awake asleep = inner
awake p = p

-- `send` after the mutex.
pub silent_from : ℕ → Active → Active
silent_from zero a = a
silent_from (suc n) a = record a { silent = n; counted = suc a.counted }

pub complete_silent : Active → Active
unfolding silent_from
complete_silent a = silent_from a.silent a

pub signal_from : ℕ → Active → Active
unfolding awake
signal_from zero a = a
signal_from (suc n) a = record a { signals = n; counted = suc a.counted; phase = awake a.phase }

pub complete_signal : Active → Active
unfolding signal_from
complete_signal a = signal_from a.signals a

-- `wait` may also return without a notification.
pub wake : Active → Active
unfolding awake
wake a = record a { phase = awake a.phase }

pub stop_active : Active → Active
unfolding awake
stop_active a = record a { stop = true; phase = awake a.phase }

drain : Active → List ℕ → Active
drain a [] = record a { phase = outer }
drain a (x ∷ xs) = record a { swap_events = xs; taken = suc a.taken; handled = a.handled ++ x ∷ [] }

take_all : Active → List ℕ → Active
take_all a [] = record a { phase = asleep }
take_all a (x ∷ xs) = record a { swap_events = x ∷ xs; events = a.swap_events; phase = draining }

-- One step of `run`.
pub work_in : Phase → Active → Active
unfolding drain take_all
work_in outer a = record a { phase = if a.stop then finished else inner }
work_in inner a = take_all a a.events
work_in asleep a = a
work_in draining a = drain a a.swap_events
work_in finished a = a

pub data Step : Type 0 where
  pushes : ℕ → Step
  completes_silent completes_signal works wakes stops : Step

pub step : Step → Active → Active
unfolding push complete_silent complete_signal wake stop_active work_in
step (pushes x) a = push x a
step completes_silent a = complete_silent a
step completes_signal a = complete_signal a
step works a = work_in a.phase a
step wakes a = wake a
step stops a = stop_active a

unfoldable pub run : List Step → Active → Active
unfolding step
run [] a = a
run (s ∷ ss) a = run ss (step s a)
