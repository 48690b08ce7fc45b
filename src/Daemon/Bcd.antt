-- ===== src/Daemon/Bcd.antt =====
-- `bcd2int` and `int2bcd` of package/alt-f-utils/alt-f-utils-0.1.11/dns320l-daemon.c.
use alt_f.Prelude.{
  ℕ, ◌+◌, ◌-◌, ◌*◌, ◌/◌, ◌%◌, ◌<◌, ◌≡◌, ◌≢◌, refl, subst, bit_and, arith, zero, suc, Bool, true,
  ◌&&◌, ◌==◌, le_or_lt, inl, inr,
}
use alt_f.Prelude.Word.{u8_of_ℤ}
use alt_f.Prelude.Int.{ℤ, pos, negsuc}
use alt_f.Daemon.Commands.{stop_magic}

-- `(n & 0x0f) + 10 * ((n & 0xf0) >> 4)`, of a byte.
pub bcd2int : ℕ → ℕ
bcd2int n = bit_and n 0x0f + 10 * (bit_and n 0xf0 / 16)

-- `((n / 10) << 4) + (n % 10)`, before it is stored in a `char`. Division goes towards 0.
pub int2bcd : ℤ → ℤ
int2bcd (pos n) = pos (n / 10 * 16 + n % 10)
int2bcd (negsuc n) = negsuc ((n + 1) / 10 * 16 + (n + 1) % 10 - 1)

all_below : ℕ → (ℕ → Bool) → Bool
all_below zero p = true
all_below (suc k) p = p k && all_below k p

all_below_sound : (k : ℕ) (p : ℕ → Bool) (n : ℕ) → all_below k p ≡ true → n < k → p n ≡ true
unfolding all_below
all_below_sound zero p n h l = absurd (omega arith)
all_below_sound (suc k) p n h l = elim (le_or_lt k n) [
  | inl g ↦ subst (λ x. p x ≡ true) {x = k} {y = n} (omega arith) (ground arith)
  | inr g ↦ all_below_sound k p n (ground arith) g
]

-- What is stored as binary coded decimal in a byte is read back, for every number of two digits.
pub bcd2int-int2bcd : (n : ℕ) → n < 100 → bcd2int (u8_of_ℤ (int2bcd (pos n))) ≡ n
unfolding bcd2int int2bcd all_below
bcd2int-int2bcd n h =
    ground (arith, all_below_sound 100 (λ m. bcd2int (u8_of_ℤ (int2bcd (pos m))) == m) n refl h)

-- No number from 0 on, not even one above 99, is stored as the byte that ends a packet.
pub int2bcd-ne-stop_magic : (n : ℕ) → u8_of_ℤ (int2bcd (pos n)) ≢ stop_magic
unfolding int2bcd
int2bcd-ne-stop_magic n h = omega arith
