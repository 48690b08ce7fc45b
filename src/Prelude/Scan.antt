-- ===== src/Prelude/Scan.antt =====
-- Numbers in C strings: `%d` of printf and scanf, and `strtol`.
use Prim.Native.Nat.{ℕ, zero, suc, ◌+◌, ◌/◌, ◌%◌}
use mathlib.Core.Option.{Option, none, some}
use mathlib.Core.List.{List, [], ◌∷◌}
use alt_f.Prelude.Tests.{ltb, ◌==◌, if◌then◌else◌}
use alt_f.Prelude.Int.{ℤ, pos, negsuc}
use alt_f.Prelude.Text.{skip_spaces, decimal, is_digit}

-- A C string ends at its first 0.
abbrev pub c_string : List ℕ → List ℕ
c_string [] = []
c_string (c ∷ cs) = let rest = c ∷ c_string cs in if c == 0 then [] else rest

digits : ℕ → ℕ → List ℕ → List ℕ
digits zero n acc = acc
digits (suc fuel) n acc =
    let rest = digits fuel (n / 10) ((48 + n % 10) ∷ acc) in
    if ltb n 10 then (48 + n) ∷ acc else rest

-- `%d`.
unfoldable pub show_ℤ : ℤ → List ℕ
unfolding digits
show_ℤ (pos n) = digits (suc n) n []
show_ℤ (negsuc n) = 45 ∷ digits (suc (suc n)) (suc n) []

-- `sscanf(buf, "%d", u)`, which leaves `*u` alone when there is no number.
scan_digits : (ℕ → ℤ) → List ℕ → ℤ → ℤ
scan_digits sign [] old = old
scan_digits sign (c ∷ cs) old = if is_digit c then sign (decimal 0 (c ∷ cs)) else old

negated : ℕ → ℤ
negated zero = pos 0
negated (suc n) = negsuc n

scan_sign : List ℕ → ℤ → ℤ
unfolding scan_digits negated
scan_sign [] old = old
scan_sign (c ∷ cs) old =
    if c == 45
    then scan_digits negated cs old
    else if c == 43
    then scan_digits pos cs old
    else scan_digits pos (c ∷ cs) old

unfoldable pub scan_int : List ℕ → ℤ → ℤ
unfolding scan_sign
scan_int cs old = scan_sign (skip_spaces cs) old

skip_digits : List ℕ → List ℕ
skip_digits [] = []
skip_digits (c ∷ cs) = let rest = skip_digits cs in if is_digit c then rest else c ∷ cs

number_at : (ℕ → ℤ) → List ℕ → Option (ℤ × List ℕ)
unfolding skip_digits
number_at sign [] = none
number_at sign (c ∷ cs) =
    if is_digit c then some (sign (decimal 0 (c ∷ cs)), skip_digits cs) else none

signed_at : List ℕ → Option (ℤ × List ℕ)
unfolding negated number_at
signed_at [] = none
signed_at (c ∷ cs) =
    if c == 45
    then number_at negated cs
    else if c == 43
    then number_at pos cs
    else number_at pos (c ∷ cs)

-- `strtol(ptr, &eptr, 10)` with the rest of the text; `none` is `eptr == ptr`.
unfoldable pub strtol : List ℕ → Option (ℤ × List ℕ)
unfolding signed_at
strtol text = signed_at (skip_spaces text)
