-- ===== src/Prelude/Bits.antt =====
-- Single bits of a number, as `bit_and` with a mask finds them.
use Prim.Native.Nat.{ℕ, zero, suc, ◌+◌, ◌*◌, ◌/◌, ◌%◌, ◌≤◌, min, bit_and, digits, bit_and-bitwise}
use mathlib.Core.Path.{◌≡◌, refl}
use native.Mathlib.Omega.{arith}

-- The common digits of two numbers, with a count of digits that is large enough, are `r`.
Meet : ℕ → ℕ → ℕ → Type 0
Meet a mask r = (n : ℕ) → a ≤ n → digits (λ x. zero) min n a mask ≡ r

Meet-zero : (a : ℕ) → Meet a 0 0
unfolding Meet
Meet-zero a zero h = refl
Meet-zero zero (suc n) h = refl
Meet-zero (suc a) (suc n) h = omega (arith, Meet-zero (suc a / 2) n (omega arith))

-- One more digit in front of those that are known.
Meet-more :
    (a mask r : ℕ) → Meet (a / 2) (mask / 2) r → Meet a mask (r * 2 + min (a % 2) (mask % 2))
unfolding Meet
Meet-more zero mask r k zero h = omega (arith, k zero (omega arith))
Meet-more zero mask r k (suc n) h = omega (arith, k zero (omega arith))
Meet-more (suc a) mask r k zero h = absurd (omega arith)
Meet-more (suc a) mask r k (suc n) h = omega (arith, k n (omega arith))

Meet-one : (a : ℕ) → Meet a 1 (a % 2)
unfolding Meet
Meet-one a n h = omega (arith, Meet-more a 1 0 (Meet-zero (a / 2)) n h)

-- A digit at which the mask has a 0.
Meet-even : (a mask r : ℕ) → Meet (a / 2) (mask / 2) r → mask % 2 ≡ 0 → Meet a mask (r * 2)
unfolding Meet
Meet-even a mask r k e n h = omega (arith, Meet-more a mask r k n h)

-- The seventh bit alone.
pub bit_and_64 : (a : ℕ) → bit_and a 64 ≡ a / 64 % 2 * 64
unfolding Meet
bit_and_64 a =
    let one = Meet-one (a / 2 / 2 / 2 / 2 / 2 / 2) in
    let four =
      Meet-even (a / 2 / 2 / 2 / 2) 4 _ (Meet-even (a / 2 / 2 / 2 / 2 / 2) 2 _ one refl) refl in
    let sixteen = Meet-even (a / 2 / 2) 16 _ (Meet-even (a / 2 / 2 / 2) 8 _ four refl) refl in
    let all = Meet-even a 64 _ (Meet-even (a / 2) 32 _ sixteen refl) refl in
    omega (arith, bit_and-bitwise a 64, all a (omega arith))

-- The second and the fifth bit.
pub bit_and_18 : (a : ℕ) → bit_and a 18 ≡ a / 2 % 2 * 2 + a / 16 % 2 * 16
unfolding Meet
bit_and_18 a =
    let one = Meet-one (a / 2 / 2 / 2 / 2) in
    let four = Meet-even (a / 2 / 2) 4 _ (Meet-even (a / 2 / 2 / 2) 2 _ one refl) refl in
    let all = Meet-even a 18 _ (Meet-more (a / 2) 9 _ four) refl in
    omega (arith, bit_and-bitwise a 18, all a (omega arith))
