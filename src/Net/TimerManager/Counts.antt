-- ===== src/Net/TimerManager/Counts.antt =====
-- How often a timer calls its handler.
use asio_utils.Base.{
  ℕ, suc, ◌+◌, ◌-◌, ◌≡◌, refl, ◌∙◌, ap, Bool, true, false, List, [], ◌∷◌, ◌++◌, ltb, ltb→lt, ltb→le,
  if◌then◌else◌, if-cases, min, max, arith,
}
use asio_utils.Net.TimerManager.{RepeatHandler, create_timer, invoke, complete, complete_all}

-- The waits that end without an error before one ends with an error.
unfoldable pub successes : List Bool → ℕ
successes [] = 0
successes (true ∷ ecs) = 0
successes (false ∷ ecs) = suc (successes ecs)

idle :
    (ecs : List Bool) (t : RepeatHandler)
    → t.pending ≡ false
    → (complete_all ecs t).called ≡ t.called
unfolding complete_all complete
idle [] t e = refl
idle (ec ∷ ecs) t e =
    ap (λ b. (complete_all ecs (if b then invoke ec t else t)).called) e ∙ idle ecs t e

repeated : RepeatHandler → RepeatHandler
repeated t = record t {
  count = t.count - 1;
  called = suc t.called;
  waits = t.waits ++ t.interval ∷ [];
}

called_lem :
    (ecs : List Bool) (t : RepeatHandler)
    → t.pending ≡ true
    → (complete_all ecs t).called ≡ t.called + min (successes ecs) (max 1 t.count)
unfolding complete_all complete successes invoke repeated
called_lem [] t e = omega arith
called_lem (true ∷ ecs) t e =
    ap (λ b. (complete_all ecs (if b then record t { pending = false } else t)).called) e
    ∙ idle ecs (record t { pending = false }) refl
    ∙ omega arith
called_lem (false ∷ ecs) t e =
    let last : RepeatHandler = record t {
      count = t.count - 1;
      called = suc t.called;
      pending = false;
    } in
    let r = called_lem ecs (repeated t) e in
    ap (λ b. (complete_all ecs (if b then invoke false t else t)).called) e
    ∙ if-cases
        (λ (n : RepeatHandler).
          (complete_all ecs n).called ≡ t.called + min (suc (successes ecs)) (max 1 t.count))
        (ltb 0 (t.count - 1)) (λ h. r ∙ omega (arith, ltb→lt _ _ h))
        (λ h. idle ecs last refl ∙ omega (arith, ltb→le _ _ h))

-- A timer calls its handler once for each wait that ends without an error, up to the first that ends
-- with one, but no more than `count` times; where `count` is not positive, it calls it once all the
-- same.
pub create_timer_lem :
    (delay interval count : ℕ) (ecs : List Bool)
    → (complete_all ecs (create_timer delay interval count)).called
      ≡ min (successes ecs) (max 1 count)
unfolding create_timer
create_timer_lem delay interval count ecs =
    omega (arith, called_lem ecs (create_timer delay interval count) refl)
