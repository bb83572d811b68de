-- ===== src/Net/Active/Sound.antt =====
-- Active.hpp: what holds of an active object, and keeps holding when it is sent an event, woken or stopped.
use asio_utils.Base.{
  ℕ, zero, suc, ◌+◌, ◌≡◌, ◌≢◌, refl, sym, ap, ◌∙◌, true, List, [], ◌∷◌, ◌++◌, append_assoc, arith,
  length, length-append,
}
use asio_utils.Net.Active.{
  Active, Phase, push_on, silent_from, signal_from, outer, inner, asleep, draining, finished, awake,
  wake, stop_active, Step, pushes, completes_silent, completes_signal, works, wakes, stops, started,
}

-- The events that a run sends, in their order.
unfoldable pub sent : List Step → List ℕ
sent [] = []
sent (pushes x ∷ ss) = x ∷ sent ss
sent (completes_silent ∷ ss) = sent ss
sent (completes_signal ∷ ss) = sent ss
sent (works ∷ ss) = sent ss
sent (wakes ∷ ss) = sent ss
sent (stops ∷ ss) = sent ss

-- Sound with regard to the events that have been sent.
pub record Sound (a : Active) (xs : List ℕ) : Type 0 where
  pub in_order : a.handled ++ (a.swap_events ++ a.events) ≡ xs
  pub drained : a.phase ≢ draining → a.swap_events ≡ []
  pub woken : a.phase ≡ asleep → a.signals ≡ 0 → a.events ≡ []
  pub stopped : a.phase ≡ finished → a.stop ≡ true
  pub all_counted : a.counted + a.signals + a.silent ≡ length xs
  pub all_taken : a.taken ≡ length a.handled

pub started-Sound : Sound started []
unfolding started
started-Sound = record {
  in_order = refl;
  drained = λ h. refl;
  woken = λ h k. refl;
  stopped = λ h. cc;
  all_counted = omega arith;
  all_taken = refl;
}

-- The end of three lists in a row.
pub at_end : (h s e z : List ℕ) → h ++ (s ++ (e ++ z)) ≡ (h ++ (s ++ e)) ++ z
at_end h s e z = simp append_assoc

pub push_on-Sound :
    (x : ℕ) (a : Active) (xs ys : List ℕ)
    → a.events ≡ ys
    → Sound a xs
    → Sound (push_on x a ys) (xs ++ x ∷ [])
unfolding push_on
push_on-Sound x a xs [] e s = record {
  in_order =
      at_end a.handled a.swap_events [] (x ∷ [])
      ∙ ap (λ ys. (a.handled ++ (a.swap_events ++ ys)) ++ x ∷ []) (sym e)
      ∙ ap (λ ys. ys ++ x ∷ []) s.in_order;
  drained = s.drained;
  woken = λ h k. absurd (omega (arith, k));
  stopped = s.stopped;
  all_counted = omega (arith, s.all_counted, length-append xs (x ∷ []));
  all_taken = s.all_taken;
}
push_on-Sound x a xs (y ∷ ys) e s = record {
  in_order =
      at_end a.handled a.swap_events (y ∷ ys) (x ∷ [])
      ∙ ap (λ ys. (a.handled ++ (a.swap_events ++ ys)) ++ x ∷ []) (sym e)
      ∙ ap (λ ys. ys ++ x ∷ []) s.in_order;
  drained = s.drained;
  woken = λ h k. ground (arith, s.woken h k, e);
  stopped = s.stopped;
  all_counted = omega (arith, s.all_counted, length-append xs (x ∷ []));
  all_taken = s.all_taken;
}

-- Waking changes no phase but the one asleep.
pub awake_lem :
    (p : Phase)
    → (awake p ≢ asleep) × (awake p ≢ draining → p ≢ draining) × (awake p ≡ finished → p ≡ finished)
unfolding awake
awake_lem outer = ground arith
awake_lem inner = ground arith
awake_lem asleep = ground arith
awake_lem draining = ground arith
awake_lem finished = ground arith

pub complete_silent-Sound :
    (n : ℕ) (a : Active) (xs : List ℕ) → a.silent ≡ n → Sound a xs → Sound (silent_from n a) xs
unfolding silent_from
complete_silent-Sound zero a xs e s = s
complete_silent-Sound (suc n) a xs e s = record {
  in_order = s.in_order;
  drained = s.drained;
  woken = s.woken;
  stopped = s.stopped;
  all_counted = omega (arith, s.all_counted, e);
  all_taken = s.all_taken;
}

pub complete_signal-Sound :
    (n : ℕ) (a : Active) (xs : List ℕ) → a.signals ≡ n → Sound a xs → Sound (signal_from n a) xs
unfolding signal_from
complete_signal-Sound zero a xs e s = s
complete_signal-Sound (suc n) a xs e s =
    let (up, still, over) = awake_lem a.phase in
    record {
      in_order = s.in_order;
      drained = λ h. s.drained (still h);
      woken = λ h k. absurd (up h);
      stopped = λ h. s.stopped (over h);
      all_counted = omega (arith, s.all_counted, e);
      all_taken = s.all_taken;
    }

pub wake-Sound : (a : Active) (xs : List ℕ) → Sound a xs → Sound (wake a) xs
unfolding wake
wake-Sound a xs s =
    let (up, still, over) = awake_lem a.phase in
    record {
      in_order = s.in_order;
      drained = λ h. s.drained (still h);
      woken = λ h k. absurd (up h);
      stopped = λ h. s.stopped (over h);
      all_counted = s.all_counted;
      all_taken = s.all_taken;
    }

pub stop_active-Sound : (a : Active) (xs : List ℕ) → Sound a xs → Sound (stop_active a) xs
unfolding stop_active
stop_active-Sound a xs s =
    let (up, still, over) = awake_lem a.phase in
    record {
      in_order = s.in_order;
      drained = λ h. s.drained (still h);
      woken = λ h k. absurd (up h);
      stopped = λ h. refl;
      all_counted = s.all_counted;
      all_taken = s.all_taken;
    }
