-- ===== src/Net/Logging/Hex.antt =====
-- `convertHex` prints a pointer in at most 16 digits.
use asio_utils.Base.{
  ℕ, zero, suc, ◌*◌, ◌/◌, ◌%◌, ◌^◌, ◌≤◌, ◌<◌, ◌≡◌, refl, sym, ap, subst, false, List, [], ◌∷◌,
  Option, some, ◌==◌, if◌then◌else◌, if-cases, ◌>>=◌, length, get_elem?, arith,
}
use native.Mathlib.Nat.{pow-suc}
use asio_utils.Net.Logging.Stream.{digits_hex, hex_digits, reverse, convert_hex}
use asio_utils.Net.Logging.Digits.{length-reverse}

-- Text that is there, of `most` characters at most.
unfoldable pub Short : ℕ → Option (List ℕ) → Type 0
Short most o = (t : List ℕ) × (o ≡ some t) × (length t ≤ most)

hex_lem : (r : ℕ) → r < 16 → (c : ℕ) × (get_elem? digits_hex r ≡ some c)
hex_lem zero h = (48, refl)
hex_lem (suc zero) h = (49, refl)
hex_lem (suc (suc zero)) h = (50, refl)
hex_lem (suc (suc (suc zero))) h = (51, refl)
hex_lem (suc (suc (suc (suc zero)))) h = (52, refl)
hex_lem (suc (suc (suc (suc (suc zero))))) h = (53, refl)
hex_lem (suc (suc (suc (suc (suc (suc zero)))))) h = (54, refl)
hex_lem (suc (suc (suc (suc (suc (suc (suc zero))))))) h = (55, refl)
hex_lem (suc (suc (suc (suc (suc (suc (suc (suc zero)))))))) h = (56, refl)
hex_lem (suc (suc (suc (suc (suc (suc (suc (suc (suc zero))))))))) h = (57, refl)
hex_lem (suc (suc (suc (suc (suc (suc (suc (suc (suc (suc zero)))))))))) h = (65, refl)
hex_lem (suc (suc (suc (suc (suc (suc (suc (suc (suc (suc (suc zero))))))))))) h = (66, refl)
hex_lem (suc (suc (suc (suc (suc (suc (suc (suc (suc (suc (suc (suc zero)))))))))))) h = (67, refl)
hex_lem (suc (suc (suc (suc (suc (suc (suc (suc (suc (suc (suc (suc (suc zero))))))))))))) h =
    (68, refl)
hex_lem (suc (suc (suc (suc (suc (suc (suc (suc (suc (suc (suc (suc (suc (suc zero)))))))))))))) h =
    (69, refl)
hex_lem
      (suc (suc (suc (suc (suc (suc (suc (suc (suc (suc (suc (suc (suc (suc (suc zero)))))))))))))))
      h =
    (70, refl)
hex_lem
      (suc
        (suc (suc (suc (suc (suc (suc (suc (suc (suc (suc (suc (suc (suc (suc (suc r))))))))))))))))
      h =
    absurd (omega (arith, h))

below_sixteenth : (n k : ℕ) → n < k * 16 → n / 16 < k
below_sixteenth n k h = omega (arith, h)

hex_more :
    (fuel c : ℕ) (o : Option (List ℕ))
    → Short fuel o
    → Short (suc fuel) (o >>= (λ cs. some (c ∷ cs)))
unfolding Short
hex_more fuel c o (t, e, short) =
    (c ∷ t, ap (λ o. o >>= (λ cs. some (c ∷ cs))) e, omega (arith, short))

one_digit : (fuel c : ℕ) → Short (suc fuel) (some (c ∷ []))
unfolding Short
one_digit fuel c = (c ∷ [], refl, omega arith)

hex_step :
    (fuel n : ℕ)
    → ((n / 16 == 0) ≡ false → Short fuel (hex_digits fuel (n / 16)))
    → Short (suc fuel) (hex_digits (suc fuel) n)
unfolding hex_digits
hex_step fuel n more =
    let (c, e) = hex_lem (n % 16) (omega arith) in
    let rest = hex_digits fuel (n / 16) in
    subst
      (λ d.
        Short (suc fuel)
          (d >>= (λ c. if n / 16 == 0 then some (c ∷ []) else rest >>= (λ cs. some (c ∷ cs)))))
      (sym e)
      (if-cases (Short (suc fuel)) (n / 16 == 0) (λ z. one_digit fuel c)
        (λ z. hex_more fuel c rest (more z)))

hex_digits-Short : (fuel n : ℕ) → n < 16 ^ suc fuel → Short (suc fuel) (hex_digits (suc fuel) n)
hex_digits-Short zero n h = hex_step zero n (λ e. absurd (ground (arith, e, h)))
hex_digits-Short (suc fuel) n h = hex_step (suc fuel) n (λ e.
    hex_digits-Short fuel (n / 16)
      (below_sixteenth n (16 ^ suc fuel) (subst (λ k. n < k) (pow-suc 16 (suc fuel)) h)))

pub convert_hex-Short :
    (p : ℕ) → p < 2 ^ 64 → Short 18 (convert_hex p >>= (λ t. some (48 ∷ 120 ∷ t)))
unfolding convert_hex Short
convert_hex-Short p h =
    let (cs, e, short) = hex_digits-Short 15 p (omega (arith, h)) in
    (
      48 ∷ 120 ∷ reverse cs,
      ap (λ o. (o >>= (λ cs. some (reverse cs))) >>= (λ t. some (48 ∷ 120 ∷ t))) e,
      omega (arith, length-reverse cs, short),
    )
