-- ===== src/Net/Logging/Order.antt =====
-- What `AsyncLogging` writes, over any sequence of lines, stretches of its thread, and calls of `stop`.
use asio_utils.Base.{
  ℕ, ◌≤◌, ◌<◌, ◌≡◌, ◌≢◌, refl, sym, ◌∙◌, ap, subst, List, [], ◌∷◌, ◌++◌, Option, some, ◌>>=◌,
  length, append-nil, append_assoc, bind-some, run_all, AllAllowed, run_all_lem,
}
use mathlib.Core.Option.{some-injective}
use asio_utils.Net.Logging.Async.{
  Phase, at_top, waiting, writing, finished, start, stop, concat, append_line, work_from, work,
}
use asio_utils.Net.Logging.Sound.{
  System, content, pending, NextOk, PhaseOk, IsSound, append_line-IsSound,
}
use asio_utils.Net.Logging.Take.{Goes, check_top-Goes, take_with-Goes}
use asio_utils.Net.Logging.Write.{write_out-Goes}

-- A line, a stretch of the thread, or `stop`.
pub data Operation : Type 0 where
  line : List ℕ → Operation
  go_on : Operation
  stopped : Operation

-- The lines of a sequence, one after the other.
unfoldable pub lines : List Operation → List ℕ
lines [] = []
lines (line l ∷ ops) = l ++ lines ops
lines (go_on ∷ ops) = lines ops
lines (stopped ∷ ops) = lines ops

said_by : System → List ℕ
said_by s = s.said

module _ (size : ℕ) (dropped : ℕ → List ℕ) where
  unfoldable pub step : Operation → System → Option System
  unfolding append_line work stop
  step (line l) s =
      append_line size l s.log >>= (λ log. some (record { log = log; said = s.said ++ l }))
  step go_on s = work dropped s.log >>= (λ log. some (record s { log = log }))
  step stopped s = some (record s { log = stop s.log })

  -- Lines are shorter than a buffer, and the thread falls no more than 25 buffers behind.
  unfoldable pub Allowed : Operation → System → Type 0
  Allowed (line l) s = length l < size
  Allowed go_on s = length s.log.buffers_to_write ≤ 25
  Allowed stopped s = Unit

  work_from-Goes :
      (s : System) (p : Phase)
      → s.log.phase ≡ p
      → IsSound s
      → length s.log.buffers_to_write ≤ 25
      → Goes s (work_from dropped p s.log)
  unfolding work_from PhaseOk
  work_from-Goes s at_top e i h = check_top-Goes s i e
  work_from-Goes s waiting e i h = take_with-Goes s i e
  work_from-Goes s writing e i h = write_out-Goes dropped s i e h
  work_from-Goes s finished e i h = absurd (
      subst (λ p. PhaseOk p s.log.new_buffer1 s.log.new_buffer2 s.log.buffers_to_write) e
        i.phase_ok)

  step-IsSound :
      (op : Operation) (s : System)
      → IsSound s
      → Allowed op s
      → (s' : System) × (step op s ≡ some s') × IsSound s'
  unfolding step Allowed work Goes stop pending
  step-IsSound (line l) s i h =
      let (log, e, i') = append_line-IsSound size l s i h in
      (
        record { log = log; said = s.said ++ l },
        ap (λ o. o >>= (λ log. some (record { log = log; said = s.said ++ l }))) e,
        i',
      )
  step-IsSound go_on s i h =
      let (log, e, i') = work_from-Goes s s.log.phase refl i h in
      (record s { log = log }, ap (λ o. o >>= (λ log. some (record s { log = log }))) e, i')
  step-IsSound stopped s i h = (
    record s { log = stop s.log },
    refl,
    record {
      running = refl;
      current = i.current;
      next_ok = i.next_ok;
      phase_ok = i.phase_ok;
      text = i.text;
    },
  )

  begun : System
  begun = record { log = start; said = [] }

  start-IsSound : IsSound begun
  unfolding start begun pending NextOk PhaseOk content concat
  start-IsSound = record {
    running = refl;
    current = ([], refl);
    next_ok = refl;
    phase_ok = (refl, refl, refl);
    text = refl;
  }

  not_finished : (s : System) → IsSound s → s.log.phase ≢ finished
  unfolding PhaseOk
  not_finished s i e =
      subst (λ p. PhaseOk p s.log.new_buffer1 s.log.new_buffer2 s.log.buffers_to_write) e i.phase_ok

  run_all-said :
      (ops : List Operation) (s s' : System)
      → run_all step ops s ≡ some s'
      → s'.said ≡ s.said ++ lines ops
  unfolding run_all step lines said_by stop
  run_all-said [] s s' e = ap said_by (some-injective _ _ (sym e)) ∙ sym (append-nil s.said)
  run_all-said (line l ∷ ops) s s' e =
      let (s1, e1, e2) = bind-some (step (line l) s) (run_all step ops) e in
      let (log, e3, e4) =
        bind-some (append_line size l s.log)
          (λ log. some (record { log = log; said = s.said ++ l })) e1 in
      run_all-said ops s1 s' e2
      ∙ ap (λ t. t ++ lines ops) (ap said_by (some-injective _ _ (sym e4)))
      ∙ append_assoc s.said l (lines ops)
  run_all-said (go_on ∷ ops) s s' e =
      let (s1, e1, e2) = bind-some (step go_on s) (run_all step ops) e in
      let (log, e3, e4) =
        bind-some (work dropped s.log) (λ log. some (record s { log = log })) e1 in
      run_all-said ops s1 s' e2
      ∙ ap (λ t. t ++ lines ops) (ap said_by (some-injective _ _ (sym e4)))
  run_all-said (stopped ∷ ops) s s' e = run_all-said ops (record s { log = stop s.log }) s' e

  -- While every line is shorter than a buffer and the thread is never more than 25 buffers behind, no
  -- assertion of the thread fails and no empty pointer is followed, whatever the order of lines and
  -- stretches of the thread; what is written, and then what the buffers hold, is all the lines, in
  -- their order. And the thread has not ended, also where `stop` has been called.
  pub run_all-ordered :
      (ops : List Operation)
      → AllAllowed step Allowed ops (record { log = start; said = [] })
      → (s : System) × (run_all step ops (record { log = start; said = [] }) ≡ some s)
        × (pending s.log ≡ lines ops)
        × (s.log.phase ≢ finished)
  unfolding begun
  run_all-ordered ops a =
      let (s, e, i) = run_all_lem step Allowed IsSound step-IsSound ops begun start-IsSound a in
      (s, e, i.text ∙ run_all-said ops begun s e, not_finished s i)
