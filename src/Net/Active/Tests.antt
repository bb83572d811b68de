-- ===== src/Net/Active/Tests.antt =====
-- Runs of an active object.
use asio_utils.Base.{ℕ, ◌≡◌, ◌≢◌, refl, inr, true, false, List, [], ◌∷◌, ◌++◌, replicate}
use asio_utils.Net.Active.{
  Active, asleep, finished, Step, pushes, completes_signal, works, wakes, stops, run, started,
}
use asio_utils.Net.Active.Order.{run-Sound}
use asio_utils.Net.Active.Sound.{sent}
use asio_utils.Net.Active.Drain.{run-drains}
use asio_utils.Net.Active.Hang.{never_finishes}

-- Two events, the second while the first is being taken.
abbrev busy : List Step
busy = works ∷ pushes 7 ∷ works ∷ pushes 8 ∷ completes_signal ∷ works ∷ []

run-Sound_example :
    let a = run busy started in
    (a.handled ++ (a.swap_events ++ a.events) ≡ sent busy)
    × (a.phase ≡ asleep → a.signals ≡ 0 → a.events ≡ [])
    × (a.phase ≡ finished → a.stop ≡ true)
run-Sound_example = run-Sound busy

busy-live : (run busy started).stop ≡ false
unfolding run started
busy-live = refl

run-drains_example :
    (b : Active) × ((n : ℕ) × (run
          (replicate n works)
          (run (replicate (run busy started).signals completes_signal) (run busy started))
        ≡ b))
    × (b.handled ≡ sent busy)
run-drains_example = run-drains busy busy-live

-- The thread has gone to sleep.
abbrev idle : Active
idle = record started { phase = asleep }

never_finishes_example : (run (stops ∷ works ∷ wakes ∷ works ∷ []) idle).phase ≢ finished
unfolding sent started
never_finishes_example =
    never_finishes (stops ∷ works ∷ wakes ∷ works ∷ []) idle (inr refl) refl refl
