-- ===== src/Net/Logging/Take.antt =====
-- The thread of `AsyncLogging` up to the end of its critical section.
use asio_utils.Base.{
  ℕ, ◌≤◌, ◌≡◌, refl, sym, ◌∙◌, ap, subst, true, List, [], ◌∷◌, ◌++◌, Option, none, some, length,
  length-append, append-nil, append_assoc, arith,
}
use asio_utils.Net.Logging.Async.{
  Phase, at_top, waiting, writing, AsyncLogging, concat, is_clear, give_next, take_with, check_top,
}
use asio_utils.Net.Logging.Sound.{
  System, concat-append, content, pending, NextOk, SpareOk, PhaseOk, IsSound,
}

-- A stretch of the thread succeeds, and says nothing new.
unfoldable pub Goes : System → Option AsyncLogging → Type 0
Goes s o = (log : AsyncLogging) × (o ≡ some log) × IsSound (record s { log = log })

clear_some : (o : Option (List ℕ)) → o ≡ some [] → is_clear o ≡ true
unfolding is_clear
clear_some o e = ap is_clear e

pub check_top-Goes : (s : System) → IsSound s → s.log.phase ≡ at_top → Goes s (check_top s.log)
unfolding check_top Goes PhaseOk pending
check_top-Goes s i e =
    let log = s.log in
    let (one, two, none_left) =
      subst (λ p. PhaseOk p log.new_buffer1 log.new_buffer2 log.buffers_to_write) e i.phase_ok in
    (
      record log { phase = waiting },
      ground (arith, i.running, clear_some log.new_buffer1 one, clear_some log.new_buffer2 two),
      record {
        running = i.running;
        current = i.current;
        next_ok = i.next_ok;
        phase_ok = (one, two, none_left);
        text = i.text;
      },
    )

-- What the critical section moves.
take_text :
    (output b : List ℕ) (bs : List (List ℕ))
    → output ++ concat (bs ++ b ∷ []) ++ [] ++ [] ≡ output ++ [] ++ concat bs ++ b
unfolding concat
take_text output b bs =
    append-nil (output ++ concat (bs ++ b ∷ []) ++ [])
    ∙ append-nil (output ++ concat (bs ++ b ∷ []))
    ∙ ap (λ t. output ++ t) (concat-append bs (b ∷ []) ∙ ap (λ t. concat bs ++ t) (append-nil b))
    ∙ sym (append_assoc output (concat bs) b)
    ∙ ap (λ t. t ++ concat bs ++ b) (sym (append-nil output))

-- The state between the steps, with the phase known.
unfoldable pub PhaseIs : Phase → AsyncLogging → Type 0
unfolding PhaseOk
PhaseIs p log = PhaseOk p log.new_buffer1 log.new_buffer2 log.buffers_to_write

taken : AsyncLogging → List ℕ → AsyncLogging
taken log b = record log {
  buffers = log.buffers_to_write;
  buffers_to_write = log.buffers ++ b ∷ [];
  current_buffer = log.new_buffer1;
  new_buffer1 = none;
  phase = writing;
}

taken_text :
    (s : System) (b : List ℕ)
    → IsSound s
    → PhaseIs waiting s.log
    → s.log.current_buffer ≡ some b
    → pending (taken s.log b) ≡ s.said
unfolding taken PhaseIs PhaseOk pending content concat
taken_text s b i (one, two, none_left) c =
    let log = s.log in
    let before = log.output ++ concat (log.buffers ++ b ∷ []) in
    ap (λ bs. before ++ concat bs ++ content log.new_buffer1) none_left
    ∙ ap (λ o. before ++ [] ++ content o) one
    ∙ take_text log.output b log.buffers
    ∙ ap (λ bs. log.output ++ concat bs ++ concat log.buffers ++ b) (sym none_left)
    ∙ ap (λ o. log.output ++ concat log.buffers_to_write ++ concat log.buffers ++ content o) (sym c)
    ∙ i.text

give_next-IsSound :
    (s : System) (b : List ℕ) (o : Option (List ℕ))
    → IsSound s
    → PhaseIs waiting s.log
    → s.log.current_buffer ≡ some b
    → s.log.next_buffer ≡ o
    → IsSound (record s { log = give_next (taken s.log b) o })
unfolding give_next PhaseIs PhaseOk NextOk SpareOk taken pending
give_next-IsSound s b none i (one, two, none_left) c n =
    let log = s.log in
    let waits : 1 ≤ length log.buffers = subst (λ o. NextOk o log.buffers) n i.next_ok in
    record {
      running = i.running;
      current = ([], one);
      next_ok = subst (λ o. NextOk o log.buffers_to_write) (sym two) refl;
      phase_ok = (refl, omega (arith, waits, length-append log.buffers (b ∷ [])));
      text = taken_text s b i (one, two, none_left) c;
    }
give_next-IsSound s b (some n') i (one, two, none_left) c n =
    let log = s.log in
    let clear : n' ≡ [] = subst (λ o. NextOk o log.buffers) n i.next_ok in
    record {
      running = i.running;
      current = ([], one);
      next_ok = subst (λ o. NextOk o log.buffers_to_write) (sym n) clear;
      phase_ok = (
        refl,
        subst (λ o. SpareOk o (log.buffers ++ b ∷ [])) (sym two)
            (refl, omega (arith, length-append log.buffers (b ∷ []))),
      );
      text = taken_text s b i (one, two, none_left) c;
    }

pub take_with-Goes :
    (s : System) → IsSound s → s.log.phase ≡ waiting → Goes s (take_with s.log s.log.current_buffer)
unfolding take_with Goes taken PhaseIs
take_with-Goes s i e =
    let log = s.log in
    let (b, c) = i.current in
    subst (λ o. Goes s (take_with log o)) (sym c)
      (
        give_next (taken log b) log.next_buffer,
        refl,
        give_next-IsSound s b log.next_buffer i (subst (λ p. PhaseIs p log) e i.phase_ok) c refl,
      )
