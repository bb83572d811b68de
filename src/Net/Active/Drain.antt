-- ===== src/Net/Active/Drain.antt =====
-- An active object that is not stopped gets through what it has been sent.
use asio_utils.Base.{
  ℕ, zero, suc, ◌≡◌, refl, sym, ap, ◌∙◌, false, List, [], ◌∷◌, ◌++◌, append_assoc, append-nil,
  arith, replicate, subst, if◌then◌else◌,
}
use asio_utils.Net.Active.{
  Active, Phase, outer, inner, asleep, draining, finished, signal_from, complete_signal, drain,
  take_all, work_in, Step, completes_signal, works, step, run, started,
}
use asio_utils.Net.Active.Order.{run-Sound_from}
use asio_utils.Net.Active.Sound.{Sound, sent, started-Sound}

-- Some number of steps of the thread alone.
Works : Active → Active → Type 0
Works a b = (n : ℕ) × (run (replicate n works) a ≡ b)

Works-refl : (a : Active) → Works a a
unfolding Works run
Works-refl a = (0, refl)

Works-step : (a b : Active) → Works (work_in a.phase a) b → Works a b
unfolding Works run step
Works-step a b (n, e) = (suc n, e)

-- Everything that waits is handled.
Done : Active → List ℕ → Type 0
Done a xs = (b : Active) × Works a b × (b.handled ≡ xs)

Done-step : (p : Phase) (a : Active) (xs : List ℕ) → a.phase ≡ p → Done (work_in p a) xs → Done a xs
unfolding Done
Done-step p a xs e (b, w, h) = (b, Works-step a b (subst (λ q. Works (work_in q a) b) (sym e) w), h)

draining-Done :
    (ys : List ℕ) (a : Active) (xs : List ℕ)
    → a.phase ≡ draining
    → a.swap_events ≡ ys
    → a.handled ++ ys ≡ xs
    → Done a xs
unfolding Done work_in drain
draining-Done [] a xs p e h = (a, Works-refl a, sym (append-nil a.handled) ∙ h)
draining-Done (y ∷ ys) a xs p e h =
    let b : Active = record a {
      swap_events = ys;
      taken = suc a.taken;
      handled = a.handled ++ y ∷ [];
    } in
    Done-step draining a xs p (
      subst (λ zs. Done (drain a zs) xs) (sym e)
        (draining-Done ys b xs p refl (append_assoc a.handled (y ∷ []) ys ∙ h)))

inner-Done :
    (ys : List ℕ) (a : Active) (xs : List ℕ)
    → a.phase ≡ inner
    → a.events ≡ ys
    → a.handled ++ ys ≡ xs
    → Done a xs
unfolding Done work_in take_all
inner-Done [] a xs p e h = (a, Works-refl a, sym (append-nil a.handled) ∙ h)
inner-Done (y ∷ ys) a xs p e h =
    let b : Active = record a { swap_events = y ∷ ys; events = a.swap_events; phase = draining } in
    Done-step inner a xs p
      (subst (λ zs. Done (take_all a zs) xs) (sym e) (draining-Done (y ∷ ys) b xs refl refl h))

outer-Done :
    (a : Active) (xs : List ℕ)
    → a.phase ≡ outer
    → a.stop ≡ false
    → a.handled ++ a.events ≡ xs
    → Done a xs
unfolding work_in
outer-Done a xs p live h =
    let next : (work_in outer a).phase ≡ inner = ap (λ b. if b then finished else inner) live in
    Done-step outer a xs p (inner-Done a.events (work_in outer a) xs next refl h)

all-Done :
    (ys : List ℕ) (a : Active) (xs : List ℕ)
    → a.phase ≡ draining
    → a.stop ≡ false
    → a.swap_events ≡ ys
    → a.handled ++ (ys ++ a.events) ≡ xs
    → Done a xs
unfolding work_in drain
all-Done [] a xs p live e h = Done-step draining a xs p (
    subst (λ zs. Done (drain a zs) xs) (sym e)
      (outer-Done (record a { phase = outer }) xs refl live h))
all-Done (y ∷ ys) a xs p live e h =
    let b : Active = record a {
      swap_events = ys;
      taken = suc a.taken;
      handled = a.handled ++ y ∷ [];
    } in
    Done-step draining a xs p (
      subst (λ zs. Done (drain a zs) xs) (sym e)
        (all-Done ys b xs p live refl (append_assoc a.handled (y ∷ []) (ys ++ a.events) ∙ h)))

-- From each phase, where no notification is to come.
phase-Done :
    (p : Phase) (a : Active) (xs : List ℕ)
    → a.phase ≡ p
    → a.stop ≡ false
    → a.signals ≡ 0
    → Sound a xs
    → Done a xs
unfolding Done
phase-Done outer a xs p live k s =
    let none_left = s.drained (λ q. ground (arith, p, q)) in
    outer-Done a xs p live (ap (λ zs. a.handled ++ (zs ++ a.events)) (sym none_left) ∙ s.in_order)
phase-Done inner a xs p live k s =
    let none_left = s.drained (λ q. ground (arith, p, q)) in
    inner-Done a.events a xs p refl
      (ap (λ zs. a.handled ++ (zs ++ a.events)) (sym none_left) ∙ s.in_order)
phase-Done asleep a xs p live k s =
    let none_left = s.drained (λ q. ground (arith, p, q)) in
    let none_waiting = s.woken p k in
    (
      a,
      Works-refl a,
      sym (append-nil a.handled)
          ∙ ap (λ zs. a.handled ++ zs) (sym none_waiting)
          ∙ ap (λ zs. a.handled ++ (zs ++ a.events)) (sym none_left)
          ∙ s.in_order,
    )
phase-Done draining a xs p live k s = all-Done a.swap_events a xs p live refl s.in_order
phase-Done finished a xs p live k s = absurd (ground (arith, live, s.stopped p))

-- The notifications that are to come, all of them.
notified : (n : ℕ) (a : Active) → a.signals ≡ n → (run (replicate n completes_signal) a).signals ≡ 0
unfolding run step complete_signal signal_from
notified zero a e = e
notified (suc n) a e =
    subst (λ k. (run (replicate n completes_signal) (signal_from k a)).signals ≡ 0) (sym e)
      (notified n (signal_from (suc n) a) refl)

kept : (n : ℕ) (a : Active) → (signal_from n a).stop ≡ a.stop
unfolding signal_from
kept zero a = refl
kept (suc n) a = refl

live_on : (n : ℕ) (a : Active) → (run (replicate n completes_signal) a).stop ≡ a.stop
unfolding run step complete_signal
live_on zero a = refl
live_on (suc n) a = live_on n (complete_signal a) ∙ kept a.signals a

nothing_sent : (n : ℕ) → sent (replicate n completes_signal) ≡ []
unfolding sent
nothing_sent zero = refl
nothing_sent (suc n) = nothing_sent n

-- After any run in which the object is not stopped, let the calls of `send` that owe a notification
-- give it; then some number of steps of the thread handles everything that was sent, in order.
pub run-drains :
    (cs : List Step)
    → (run cs started).stop ≡ false
    → (b : Active) × ((n : ℕ) × (run
            (replicate n works)
            (run (replicate (run cs started).signals completes_signal) (run cs started))
          ≡ b))
      × (b.handled ≡ sent cs)
unfolding Done Works
run-drains cs live =
    let a = run cs started in
    let k = a.signals in
    let owed = replicate k completes_signal in
    let s = run-Sound_from owed a (sent cs) (run-Sound_from cs started [] started-Sound) in
    let t = run owed a in
    phase-Done t.phase t (sent cs) refl (live_on k a ∙ live) (notified k a refl)
      (subst (Sound t) (ap (λ zs. sent cs ++ zs) (nothing_sent k) ∙ append-nil (sent cs)) s)
