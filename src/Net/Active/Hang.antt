-- ===== src/Net/Active/Hang.antt =====
-- `stop` of Active.hpp while the thread waits: the inner loop does not test `stop_`.
use asio_utils.Base.{ℕ, zero, suc, ◌≡◌, ◌≢◌, refl, sym, ◌⊎◌, inl, inr, List, [], ◌∷◌, arith, subst}
use asio_utils.Net.Active.{
  Active, Phase, outer, inner, asleep, draining, finished, silent_from, signal_from, awake,
  complete_silent, complete_signal, wake, stop_active, take_all, work_in, Step, pushes,
  completes_silent, completes_signal, works, wakes, stops, step, run,
}
use asio_utils.Net.Active.Sound.{sent}

-- The thread waits for events, and there are none.
pub record Waits (a : Active) : Type 0 where
  pub waiting : (a.phase ≡ inner) ⊎ (a.phase ≡ asleep)
  pub nothing : a.events ≡ []

awake-waits : (p : Phase) → (p ≡ inner) ⊎ (p ≡ asleep) → (awake p ≡ inner) ⊎ (awake p ≡ asleep)
unfolding awake
awake-waits outer h = ground (arith, h)
awake-waits inner h = inl refl
awake-waits asleep h = inl refl
awake-waits draining h = ground (arith, h)
awake-waits finished h = ground (arith, h)

silent_from-Waits : (n : ℕ) (a : Active) → Waits a → Waits (silent_from n a)
unfolding silent_from
silent_from-Waits zero a w = w
silent_from-Waits (suc n) a w = record { waiting = w.waiting; nothing = w.nothing }

signal_from-Waits : (n : ℕ) (a : Active) → Waits a → Waits (signal_from n a)
unfolding signal_from
signal_from-Waits zero a w = w
signal_from-Waits (suc n) a w = record {
  waiting = awake-waits a.phase w.waiting;
  nothing = w.nothing;
}

take_all-Waits : (a : Active) → Waits a → Waits (take_all a a.events)
unfolding take_all
take_all-Waits a w =
    subst (λ ys. Waits (take_all a ys)) (sym w.nothing)
      (record { waiting = inr refl; nothing = w.nothing })

work_in-Waits : (p : Phase) (a : Active) → a.phase ≡ p → Waits a → Waits (work_in p a)
unfolding work_in
work_in-Waits outer a e w = absurd (ground (arith, e, w.waiting))
work_in-Waits inner a e w = take_all-Waits a w
work_in-Waits asleep a e w = w
work_in-Waits draining a e w = absurd (ground (arith, e, w.waiting))
work_in-Waits finished a e w = w

run-Waits : (cs : List Step) (a : Active) → sent cs ≡ [] → Waits a → Waits (run cs a)
unfolding run step sent complete_silent complete_signal wake stop_active
run-Waits [] a e w = w
run-Waits (pushes x ∷ cs) a e w = cc
run-Waits (completes_silent ∷ cs) a e w =
    run-Waits cs (complete_silent a) e (silent_from-Waits a.silent a w)
run-Waits (completes_signal ∷ cs) a e w =
    run-Waits cs (complete_signal a) e (signal_from-Waits a.signals a w)
run-Waits (works ∷ cs) a e w = run-Waits cs (work_in a.phase a) e (work_in-Waits a.phase a refl w)
run-Waits (wakes ∷ cs) a e w =
    run-Waits cs (wake a) e
      (record { waiting = awake-waits a.phase w.waiting; nothing = w.nothing })
run-Waits (stops ∷ cs) a e w =
    run-Waits cs (stop_active a) e
      (record { waiting = awake-waits a.phase w.waiting; nothing = w.nothing })

-- If the thread waits and no event is sent any more, it never returns, whatever else happens: being
-- stopped and being notified included.
pub never_finishes :
    (cs : List Step) (a : Active)
    → (a.phase ≡ inner) ⊎ (a.phase ≡ asleep)
    → a.events ≡ []
    → sent cs ≡ []
    → (run cs a).phase ≢ finished
never_finishes cs a p n e =
    let w = run-Waits cs a e (record { waiting = p; nothing = n }) in
    λ f. ground (arith, f, w.waiting)
