-- ===== src/Base/Bytes.antt =====
-- Little-endian object representations of the machine's integers.
use Prim.Native.Nat.{ℕ, ◌+◌, ◌*◌, ◌/◌, ◌%◌, ◌^◌, ◌<◌}
use mathlib.Core.Path.{◌≡◌}
use mathlib.Core.List.{List, [], ◌∷◌}
use native.Mathlib.Omega.{arith}

-- The four bytes that `memcpy` takes from an `int32_t`, whose bit pattern is `x`.
abbrev pub le32 : ℕ → List ℕ
le32 x = x % 256 ∷ x / 256 % 256 ∷ x / 65536 % 256 ∷ x / 16777216 % 256 ∷ []

-- The bit pattern that four bytes stand for.
abbrev pub of_le32 : List ℕ → ℕ
of_le32 (a ∷ b ∷ c ∷ d ∷ rest) = a + 256 * b + 65536 * c + 16777216 * d
of_le32 bytes = 0

pub of_le32-le32 : (x : ℕ) → x < 2 ^ 32 → of_le32 (le32 x) ≡ x
of_le32-le32 x h = omega arith
