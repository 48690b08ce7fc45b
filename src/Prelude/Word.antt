-- ===== src/Prelude/Word.antt =====
-- Machine words as native numbers, and the little-endian bytes of a `uint32_t`.
use Prim.Native.Nat.{ℕ, ◌+◌, ◌-◌, ◌*◌, ◌/◌, ◌%◌, ◌<◌}
use mathlib.Core.Path.{◌≡◌}
use mathlib.Core.List.{List, [], ◌∷◌}
use native.Mathlib.Omega.{arith}
use alt_f.Prelude.Int.{ℤ, pos, negsuc}

abbrev pub u32 : ℕ → ℕ
u32 n = n % 4294967296

-- The conversion of an `int` to `unsigned char`.
abbrev pub u8_of_ℤ : ℤ → ℕ
u8_of_ℤ (pos n) = n % 256
u8_of_ℤ (negsuc n) = 255 - n % 256

-- A `uint32_t` in memory on the targets, all of which are little-endian.
abbrev pub le32 : ℕ → List ℕ
le32 n = n % 256 ∷ n / 256 % 256 ∷ n / 65536 % 256 ∷ n / 16777216 % 256 ∷ []

abbrev pub of_le32 : ℕ → ℕ → ℕ → ℕ → ℕ
of_le32 a b c d = a + b * 256 + c * 65536 + d * 16777216

pub of_le32_le32 :
    (n : ℕ)
    → n < 4294967296
    → of_le32 (n % 256) (n / 256 % 256) (n / 65536 % 256) (n / 16777216 % 256) ≡ n
of_le32_le32 n h = omega arith
