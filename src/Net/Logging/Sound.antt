-- ===== src/Net/Logging/Sound.antt =====
-- What holds of `AsyncLogging` between its steps, and that a line keeps it.
use asio_utils.Base.{
  ℕ, ◌≤◌, ◌<◌, ◌≡◌, refl, sym, ◌∙◌, ap, subst, true, List, [], ◌∷◌, ◌++◌, Option, none, some, ltb,
  ltb→lt, ltb→le, if-cases, length, length-append, append-nil, append_assoc, arith,
}
use asio_utils.Net.Logging.Stream.{writable, append}
use asio_utils.Net.Logging.Async.{
  Phase, at_top, waiting, writing, finished, AsyncLogging, concat, rotate, add_line, append_to,
  append_line,
}

-- The logging, and all the lines so far, one after the other.
pub record System : Type 0 where
  pub log : AsyncLogging
  pub said : List ℕ

pub concat-append : (xs ys : List (List ℕ)) → concat (xs ++ ys) ≡ concat xs ++ concat ys
unfolding concat
concat-append [] ys = refl
concat-append (x ∷ xs) ys =
    ap (λ t. x ++ t) (concat-append xs ys) ∙ sym (append_assoc x (concat xs) (concat ys))

unfoldable pub content : Option (List ℕ) → List ℕ
content none = []
content (some b) = b

-- All that is written, or will be.
unfoldable pub pending : AsyncLogging → List ℕ
unfolding concat content
pending s = s.output ++ concat s.buffers_to_write ++ concat s.buffers ++ content s.current_buffer

-- There is a next buffer, and it is empty, or it has been taken, and then a full one waits.
unfoldable pub NextOk : Option (List ℕ) → List (List ℕ) → Type 0
NextOk none bs = 1 ≤ length bs
NextOk (some b) bs = b ≡ []

-- The thread's buffers.
unfoldable pub SpareOk : Option (List ℕ) → List (List ℕ) → Type 0
SpareOk none bs = 2 ≤ length bs
SpareOk (some b) bs = (b ≡ []) × (1 ≤ length bs)

unfoldable pub PhaseOk : Phase → Option (List ℕ) → Option (List ℕ) → List (List ℕ) → Type 0
unfolding SpareOk
PhaseOk at_top new1 new2 bs = (new1 ≡ some []) × (new2 ≡ some []) × (bs ≡ [])
PhaseOk waiting new1 new2 bs = (new1 ≡ some []) × (new2 ≡ some []) × (bs ≡ [])
PhaseOk writing new1 new2 bs = (new1 ≡ none) × SpareOk new2 bs
PhaseOk finished new1 new2 bs = ⊥

pub record IsSound (s : System) : Type 0 where
  pub running : s.log.running ≡ true
  pub current : (b : List ℕ) × (s.log.current_buffer ≡ some b)
  pub next_ok : NextOk s.log.next_buffer s.log.buffers
  pub phase_ok : PhaseOk s.log.phase s.log.new_buffer1 s.log.new_buffer2 s.log.buffers_to_write
  pub text : pending s.log ≡ s.said

-- A buffer that is put away is still pending.
put_away :
    (written : List ℕ) (bs : List (List ℕ)) (b : List ℕ)
    → written ++ concat (bs ++ b ∷ []) ++ [] ≡ written ++ concat bs ++ b
unfolding concat
put_away written bs b =
    append-nil (written ++ concat (bs ++ b ∷ []))
    ∙ ap (λ t. written ++ t) (concat-append bs (b ∷ []) ∙ ap (λ t. concat bs ++ t) (append-nil b))
    ∙ sym (append_assoc written (concat bs) b)

put_next :
    (b : List ℕ) (s : System) (o : Option (List ℕ))
    → NextOk o s.log.buffers
    → NextOk o (s.log.buffers ++ b ∷ [])
unfolding NextOk
put_next b s none h = omega (arith, h, length-append s.log.buffers (b ∷ []))
put_next b s (some n) h = h

module _ (size : ℕ) where
  append_fits : (l b : List ℕ) → length l < writable size b → append size l b ≡ b ++ l
  unfolding append
  append_fits l b h =
      if-cases (λ r. r ≡ b ++ l) (ltb (length l) (writable size b)) (λ e. refl)
        (λ e. absurd (omega (arith, ltb→le _ _ e, h)))

  append_new : (l : List ℕ) → length l < size → append size l [] ≡ l
  unfolding writable
  append_new l h = append_fits l [] (omega (arith, h))

  -- One more line in the current buffer.
  add_line-IsSound :
      (l b : List ℕ) (s : System)
      → IsSound s
      → s.log.current_buffer ≡ some b
      → length l < writable size b
      → (log : AsyncLogging) × (add_line size l s.log (some b) ≡ some log)
        × IsSound (record { log = log; said = s.said ++ l })
  unfolding add_line pending content
  add_line-IsSound l b s i e h =
      let log = s.log in
      let written = log.output ++ concat log.buffers_to_write ++ concat log.buffers in
      (
        record log { current_buffer = some (append size l b) },
        refl,
        record {
          running = i.running;
          current = (append size l b, refl);
          next_ok = i.next_ok;
          phase_ok = i.phase_ok;
          text =
              ap (λ t. written ++ t) (append_fits l b h)
              ∙ sym (append_assoc written b l)
              ∙ ap (λ t. t ++ l) (ap (λ o. written ++ content o) (sym e) ∙ i.text);
        },
      )

  -- The full buffer is put away; nothing else changes.
  rotate-IsSound :
      (b : List ℕ) (s : System) (o : Option (List ℕ))
      → NextOk o s.log.buffers
      → IsSound s
      → s.log.current_buffer ≡ some b
      → IsSound (record s { log = rotate b s.log o })
        × ((rotate b s.log o).current_buffer ≡ some [])
  unfolding rotate pending content NextOk
  rotate-IsSound b s none next i e =
      let log = s.log in
      (
        record {
          running = i.running;
          current = ([], refl);
          next_ok = put_next b s log.next_buffer i.next_ok;
          phase_ok = i.phase_ok;
          text =
              put_away (log.output ++ concat log.buffers_to_write) log.buffers b
              ∙ ap
                  (λ o.
                    log.output ++ concat log.buffers_to_write ++ concat log.buffers ++ content o)
                  (sym e)
              ∙ i.text;
        },
        refl,
      )
  rotate-IsSound b s (some n) next i e =
      let log = s.log in
      let written = log.output ++ concat log.buffers_to_write in
      (
        record {
          running = i.running;
          current = (n, refl);
          next_ok = omega (arith, length-append log.buffers (b ∷ []));
          phase_ok = i.phase_ok;
          text =
              ap (λ t. written ++ concat (log.buffers ++ b ∷ []) ++ t) next
              ∙ put_away written log.buffers b
              ∙ ap (λ o. written ++ concat log.buffers ++ content o) (sym e)
              ∙ i.text;
        },
        ap some next,
      )

  -- A line that is shorter than a buffer is taken.
  pub append_line-IsSound :
      (l : List ℕ) (s : System)
      → IsSound s
      → length l < size
      → (log : AsyncLogging) × (append_line size l s.log ≡ some log)
        × IsSound (record { log = log; said = s.said ++ l })
  unfolding append_line append_to writable
  append_line-IsSound l s i h =
      let (b, e) = i.current in
      let log = s.log in
      let s' : System = record s { log = rotate b log log.next_buffer } in
      let (i', e') = rotate-IsSound b s log.next_buffer i.next_ok i e in
      let taken = λ (o : Option AsyncLogging).
        (log : AsyncLogging) × (o ≡ some log)
        × IsSound (record { log = log; said = s.said ++ l }) in
      subst (λ o. taken (append_to size l log o)) (sym e)
        (if-cases taken (ltb (length l) (writable size b))
          (λ f. add_line-IsSound l b s i e (ltb→lt _ _ f))
          (λ f.
            subst (λ o. taken (add_line size l s'.log o)) (sym e')
              (add_line-IsSound l [] s' i' e' (omega (arith, h)))))
