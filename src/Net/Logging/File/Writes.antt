-- ===== src/Net/Logging/File/Writes.antt =====
-- `AppendFile::append` writes the whole line.
use asio_utils.Base.{
  ℕ, zero, suc, ◌+◌, ◌-◌, ◌≤◌, ◌<◌, ◌≡◌, refl, sym, ◌∙◌, ap, List, ◌++◌, Option, some, ◌==◌, ==_iff,
  if-cases, ◌>>=◌, length, take, drop, length-drop, take_all, length_zero, take-append-drop,
  drop-drop, append-nil, append_assoc, sub_size, arith,
}
use asio_utils.Net.Logging.File.{LogFile, write, append_rest, append_file}

module _ (fwrite : ℕ → ℕ → ℕ) where
  with_contents : LogFile → List ℕ → ℕ → LogFile
  with_contents l text calls = record l { file = record l.file { contents = text }; calls = calls }

  -- The contents after `text` is written.
  with_text : LogFile → List ℕ → ℕ → LogFile
  unfolding with_contents
  with_text l text calls = with_contents l (l.file.contents ++ text) calls

  module _ (fits : (k n : ℕ) → fwrite k n ≤ n) (moves : (k n : ℕ) → 1 ≤ n → 1 ≤ fwrite k n) where
    append_rest_lem :
        (fuel : ℕ) (line : List ℕ) (n : ℕ) (l : LogFile)
        → n ≤ length line
        → length line < fuel + n
        → (calls : ℕ) × (append_rest fwrite fuel line n l ≡ some (with_text l (drop n line) calls))
    unfolding append_rest write with_text with_contents
    append_rest_lem zero line n l h f = absurd (omega (arith, h, f))
    append_rest_lem (suc fuel) line n l h f =
        let remain = sub_size (length line) n in
        let rest = drop n line in
        let left : remain ≡ length line - n = ground (arith, h) in
        let len : length rest ≡ remain = length-drop n line ∙ sym left in
        let all : take remain rest ≡ rest = take_all remain rest (omega (arith, len)) in
        let chunk = take remain rest in
        let x = fwrite l.calls (length chunk) in
        let found = λ (o : Option LogFile). (calls : ℕ) × (o ≡ some (with_text l rest calls)) in
        let chunk_len : length chunk ≡ remain = ap length all ∙ len in
        if-cases found (remain == 0)
          (λ z. (
            l.calls,
            ap (λ t. some (with_contents l t l.calls))
                (sym (append-nil l.file.contents)
                  ∙ ap (λ t. l.file.contents ++ t)
                      (sym (length_zero rest (len ∙ (==_iff remain 0).0 z)))),
          ))
          (λ z.
            let some_left : 1 ≤ length chunk = ground (arith, z, chunk_len) in
            if-cases found (x == 0)
              (λ stuck. absurd (ground (arith, stuck, moves l.calls (length chunk) some_left)))
              (λ stuck.
                let (calls, e) =
                  append_rest_lem fuel line (n + x) (with_text l (take x chunk) (suc l.calls))
                    (omega (arith, fits l.calls (length chunk), chunk_len, left, h))
                    (omega (arith, f, moves l.calls (length chunk) some_left)) in
                (
                  calls,
                  e
                      ∙ ap (λ t. some (with_contents l t calls))
                          (append_assoc l.file.contents (take x chunk) (drop (n + x) line)
                            ∙ ap (λ t. l.file.contents ++ t)
                                (ap (λ c. take x c ++ drop (n + x) line) all
                                  ∙ ap (λ t. take x rest ++ t)
                                      (sym (drop-drop n x (n + x) line refl))
                                  ∙ take-append-drop x rest)),
                )))

    -- The whole line is written, and counted.
    pub append_file_lem :
        (line : List ℕ) (l : LogFile)
        → (calls : ℕ) × (append_file fwrite line l
            ≡ some (record l {
              file = record l.file {
                contents = l.file.contents ++ line;
                written_bytes = l.file.written_bytes + length line;
              };
              calls = calls;
            }))
    unfolding append_file write with_text with_contents
    append_file_lem line l =
        let n = fwrite l.calls (length line) in
        let (calls, e) =
          append_rest_lem (suc (length line)) line n (with_text l (take n line) (suc l.calls))
            (fits l.calls (length line)) (omega arith) in
        (
          calls,
          ap
                (λ (o : Option LogFile). o >>= (λ l2. some (record l2 {
                  file = record l2.file { written_bytes = l2.file.written_bytes + length line };
                })))
                e
              ∙ ap
                  (λ t. some (record l {
                    file = record l.file {
                      contents = t;
                      written_bytes = l.file.written_bytes + length line;
                    };
                    calls = calls;
                  }))
                  (append_assoc l.file.contents (take n line) (drop n line)
                    ∙ ap (λ t. l.file.contents ++ t) (take-append-drop n line)),
        )
