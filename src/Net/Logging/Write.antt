-- ===== src/Net/Logging/Write.antt =====
-- The thread of `AsyncLogging` outside of its critical section: it writes, and gets new buffers.
use asio_utils.Base.{
  ℕ, suc, ◌≤◌, ◌≡◌, refl, ◌∙◌, ap, subst, List, [], ◌∷◌, ◌++◌, Option, none, some, ltb, ltb→lt,
  ◌==◌, if◌then◌else◌, if-cases, ◌>>=◌, length, take, append-nil, arith,
}
use asio_utils.Net.Logging.Async.{
  at_top, writing, AsyncLogging, concat, pop_back, refill1, refill2, keep_two, write_all, write_out,
}
use asio_utils.Net.Logging.Sound.{System, content, pending, SpareOk, PhaseOk, IsSound}
use asio_utils.Net.Logging.Take.{Goes, PhaseIs}

pop_back-some :
    (bs : List (List ℕ))
    → 1 ≤ length bs
    → (rest : List (List ℕ)) × (pop_back bs ≡ some rest) × (length bs ≡ suc (length rest))
unfolding pop_back
pop_back-some [] h = absurd (omega (arith, h))
pop_back-some (b ∷ []) h = ([], refl, refl)
pop_back-some (b ∷ c ∷ bs) h =
    let (rest, e, l) = pop_back-some (c ∷ bs) (omega arith) in
    (b ∷ rest, ap (λ o. o >>= (λ rest. some (b ∷ rest))) e, omega (arith, l))

refill2-clear :
    (o : Option (List ℕ)) (bs rest : List (List ℕ))
    → SpareOk o bs
    → (2 ≤ length bs → 1 ≤ length rest)
    → refill2 o rest ≡ some (some [])
unfolding refill2 SpareOk
refill2-clear none bs [] h more = absurd (omega (arith, more h))
refill2-clear none bs (b ∷ rest) h more = refl
refill2-clear (some b) bs rest (e, h) more = ap (λ x. some (some x)) e

SpareOk-one : (o : Option (List ℕ)) (bs : List (List ℕ)) → SpareOk o bs → 1 ≤ length bs
unfolding SpareOk
SpareOk-one none bs h = omega (arith, h)
SpareOk-one (some b) bs (e, h) = h

-- The buffers that the thread can use again.
kept : List (List ℕ) → List (List ℕ)
kept bs = if ltb 2 (length bs) then take 2 bs else bs

length-kept :
    (bs : List (List ℕ))
    → (1 ≤ length bs → 1 ≤ length (kept bs)) × (2 ≤ length bs → 2 ≤ length (kept bs))
unfolding kept
length-kept [] = (λ h. h, λ h. h)
length-kept (a ∷ []) = (λ h. omega arith, λ h. absurd (omega (arith, h)))
length-kept (a ∷ b ∷ []) = (λ h. omega arith, λ h. omega arith)
length-kept (a ∷ b ∷ c ∷ bs) = (
  λ h.
      if-cases (λ r. 1 ≤ length r) (ltb 2 (length (a ∷ b ∷ c ∷ bs))) {x = a ∷ b ∷ []}
        {y = a ∷ b ∷ c ∷ bs} (λ e. omega arith) (λ e. omega arith),
  λ h.
      if-cases (λ r. 2 ≤ length r) (ltb 2 (length (a ∷ b ∷ c ∷ bs))) {x = a ∷ b ∷ []}
        {y = a ∷ b ∷ c ∷ bs} (λ e. omega arith) (λ e. omega arith),
)

module _ (dropped : ℕ → List ℕ) where
  written : AsyncLogging → AsyncLogging
  written log = record log {
    output = log.output ++ concat log.buffers_to_write;
    new_buffer1 = some [];
    new_buffer2 = some [];
    buffers_to_write = [];
    phase = at_top;
  }

  write_all_lem :
      (log : AsyncLogging) → PhaseIs writing log → write_all dropped log ≡ some (written log)
  unfolding write_all written PhaseIs PhaseOk refill1 kept
  write_all_lem log (one, spare) =
      let bs = log.buffers_to_write in
      let (at_least_one, at_least_two) = length-kept bs in
      let (rest, e, l) =
        pop_back-some (kept bs) (at_least_one (SpareOk-one log.new_buffer2 bs spare)) in
      let finish = λ (new1 : Option (List ℕ)) (new2 : Option (List ℕ)). record log {
        output = log.output ++ concat bs;
        new_buffer1 = new1;
        new_buffer2 = new2;
        buffers_to_write = [];
        phase = at_top;
      } in
      ap
        (λ o.
          refill1 o (kept bs)
          >>= (λ (new1, rest). refill2 log.new_buffer2 rest >>= (λ new2. some (finish new1 new2))))
        one
      ∙ ap
          (λ (o : Option (List (List ℕ))).
            (o >>= (λ rest. some (some [], rest))) >>= (λ (new1, rest).
              refill2 log.new_buffer2 rest >>= (λ new2. some (finish new1 new2))))
          e
      ∙ ap (λ o. o >>= (λ new2. some (finish (some []) new2)))
          (refill2-clear log.new_buffer2 bs rest spare (λ h. omega (arith, at_least_two h, l)))

  pub write_out-Goes :
      (s : System)
      → IsSound s
      → s.log.phase ≡ writing
      → length s.log.buffers_to_write ≤ 25
      → Goes s (write_out dropped s.log)
  unfolding write_out keep_two Goes PhaseIs PhaseOk written pending concat
  write_out-Goes s i e h =
      let log = s.log in
      let (one, spare) = subst (λ p. PhaseIs p log) e i.phase_ok in
      let some_buffer = SpareOk-one log.new_buffer2 log.buffers_to_write spare in
      if-cases (Goes s) (length log.buffers_to_write == 0)
        (λ z. absurd (ground (arith, z, some_buffer)))
        (λ z.
          if-cases (λ n. Goes s (write_all dropped n)) (ltb 25 (length log.buffers_to_write))
            (λ f. absurd (omega (arith, ltb→lt _ _ f, h)))
            (λ f. (
              written log,
              write_all_lem log (one, spare),
              record {
                running = i.running;
                current = i.current;
                next_ok = i.next_ok;
                phase_ok = (refl, refl, refl);
                text =
                    ap (λ t. t ++ concat log.buffers ++ content log.current_buffer)
                      (append-nil (log.output ++ concat log.buffers_to_write))
                    ∙ i.text;
              },
            )))
