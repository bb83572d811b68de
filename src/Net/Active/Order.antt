-- ===== src/Net/Active/Order.antt =====
-- What holds of an active object in every run.
use asio_utils.Base.{
  ℕ, ◌≡◌, refl, sym, ap, ◌∙◌, true, List, [], ◌∷◌, ◌++◌, append_assoc, append-nil, arith,
  length-append, subst,
}
use asio_utils.Net.Active.{
  Active, Phase, outer, inner, asleep, draining, finished, push, complete_silent, complete_signal,
  wake, stop_active, drain, take_all, work_in, Step, pushes, completes_silent, completes_signal,
  works, wakes, stops, step, run, started,
}
use asio_utils.Net.Active.Sound.{
  sent, Sound, started-Sound, push_on-Sound, complete_silent-Sound, complete_signal-Sound,
  wake-Sound, stop_active-Sound,
}

take_all-Sound :
    (ys : List ℕ) (a : Active) (xs : List ℕ)
    → a.events ≡ ys
    → a.phase ≡ inner
    → Sound a xs
    → Sound (take_all a ys) xs
unfolding take_all
take_all-Sound [] a xs e p s = record {
  in_order = s.in_order;
  drained = λ h. s.drained (λ q. ground (arith, p, q));
  woken = λ h k. e;
  stopped = λ h. ground (arith, h);
  all_counted = s.all_counted;
  all_taken = s.all_taken;
}
take_all-Sound (y ∷ ys) a xs e p s =
    let none_left : a.swap_events ≡ [] = s.drained (λ q. ground (arith, p, q)) in
    record {
      in_order =
          ap (λ zs. a.handled ++ ((y ∷ ys) ++ zs)) none_left
          ∙ ap (λ zs. a.handled ++ zs) (append-nil (y ∷ ys) ∙ sym e)
          ∙ ap (λ zs. a.handled ++ (zs ++ a.events)) (sym none_left)
          ∙ s.in_order;
      drained = λ h. absurd (h refl);
      woken = λ h k. ground (arith, h);
      stopped = λ h. ground (arith, h);
      all_counted = s.all_counted;
      all_taken = s.all_taken;
    }

drain-Sound :
    (ys : List ℕ) (a : Active) (xs : List ℕ)
    → a.swap_events ≡ ys
    → a.phase ≡ draining
    → Sound a xs
    → Sound (drain a ys) xs
unfolding drain
drain-Sound [] a xs e p s = record {
  in_order = s.in_order;
  drained = λ h. e;
  woken = λ h k. ground (arith, h);
  stopped = λ h. ground (arith, h);
  all_counted = s.all_counted;
  all_taken = s.all_taken;
}
drain-Sound (y ∷ ys) a xs e p s = record {
  in_order =
      append_assoc a.handled (y ∷ []) (ys ++ a.events)
      ∙ ap (λ zs. a.handled ++ (zs ++ a.events)) (sym e)
      ∙ s.in_order;
  drained = λ h. absurd (h p);
  woken = λ h k. ground (arith, h, p);
  stopped = λ h. ground (arith, h, p);
  all_counted = s.all_counted;
  all_taken = omega (arith, s.all_taken, length-append a.handled (y ∷ []));
}

work_in-Sound :
    (p : Phase) (a : Active) (xs : List ℕ) → a.phase ≡ p → Sound a xs → Sound (work_in p a) xs
unfolding work_in
work_in-Sound outer a xs e s = record {
  in_order = s.in_order;
  drained = λ h. s.drained (λ q. ground (arith, e, q));
  woken = λ h k. ground (arith, h);
  stopped = λ h. ground (arith, h);
  all_counted = s.all_counted;
  all_taken = s.all_taken;
}
work_in-Sound inner a xs e s = take_all-Sound a.events a xs refl e s
work_in-Sound asleep a xs e s = s
work_in-Sound draining a xs e s = drain-Sound a.swap_events a xs refl e s
work_in-Sound finished a xs e s = s

-- What a step sends.
news : Step → List ℕ
news (pushes x) = x ∷ []
news completes_silent = []
news completes_signal = []
news works = []
news wakes = []
news stops = []

same : (a : Active) (xs : List ℕ) → Sound a xs → Sound a (xs ++ [])
same a xs s = subst (Sound a) (sym (append-nil xs)) s

step-Sound : (c : Step) (a : Active) (xs : List ℕ) → Sound a xs → Sound (step c a) (xs ++ news c)
unfolding step news push complete_silent complete_signal
step-Sound (pushes x) a xs s = push_on-Sound x a xs a.events refl s
step-Sound completes_silent a xs s =
    same (complete_silent a) xs (complete_silent-Sound a.silent a xs refl s)
step-Sound completes_signal a xs s =
    same (complete_signal a) xs (complete_signal-Sound a.signals a xs refl s)
step-Sound works a xs s = same (work_in a.phase a) xs (work_in-Sound a.phase a xs refl s)
step-Sound wakes a xs s = same (wake a) xs (wake-Sound a xs s)
step-Sound stops a xs s = same (stop_active a) xs (stop_active-Sound a xs s)

sent-news :
    (c : Step) (cs : List Step) (xs : List ℕ) → (xs ++ news c) ++ sent cs ≡ xs ++ sent (c ∷ cs)
unfolding news sent
sent-news (pushes x) cs xs = append_assoc xs (x ∷ []) (sent cs)
sent-news completes_silent cs xs = append_assoc xs [] (sent cs)
sent-news completes_signal cs xs = append_assoc xs [] (sent cs)
sent-news works cs xs = append_assoc xs [] (sent cs)
sent-news wakes cs xs = append_assoc xs [] (sent cs)
sent-news stops cs xs = append_assoc xs [] (sent cs)

pub run-Sound_from :
    (cs : List Step) (a : Active) (xs : List ℕ) → Sound a xs → Sound (run cs a) (xs ++ sent cs)
unfolding run sent
run-Sound_from [] a xs s = same a xs s
run-Sound_from (c ∷ cs) a xs s =
    subst (Sound (run cs (step c a))) (sent-news c cs xs)
      (run-Sound_from cs (step c a) (xs ++ news c) (step-Sound c a xs s))

-- In every run from the start, however the threads are interleaved, the events handled, those taken
-- and those waiting are in this order the events sent: none is lost, doubled or overtaken. The
-- thread does not sleep while events wait and no notification is to come, and it returns only once
-- it has been stopped.
pub run-Sound :
    (cs : List Step)
    → let a = run cs started in
      (a.handled ++ (a.swap_events ++ a.events) ≡ sent cs)
      × (a.phase ≡ asleep → a.signals ≡ 0 → a.events ≡ [])
      × (a.phase ≡ finished → a.stop ≡ true)
run-Sound cs =
    let s = run-Sound_from cs started [] started-Sound in (s.in_order, s.woken, s.stopped)
