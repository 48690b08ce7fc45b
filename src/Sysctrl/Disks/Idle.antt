-- ===== src/Sysctrl/Disks/Idle.antt =====
-- What a disk tells of its mode, and how long it was not used: the tests of `hdd_powercheck` of
-- package/alt-f-utils/alt-f-utils-0.1.11/sysctrl.c.
use alt_f.Prelude.{
  ℕ, ◌+◌, ◌<◌, ◌≡◌, ◌≢◌, refl, subst, inl, inr, Bool-cases, Bool, true, false, not, ◌&&◌, if_elim,
  ◌==◌, arith,
}
use alt_f.Prelude.Int.{ℤ, pos, negsuc, ◌+ℤ◌, equal_ℤ, ltb_ℤ, equal_sound}
use alt_f.Sysctrl.Globals.{Drive, closed, passes, fails}
use alt_f.Sysctrl.Disks.{mode_of}

-- What `ioctl` gives when it does not tell the mode: the disk cannot be opened, or both commands
-- fail in another way than with a disk that sleeps.
pub data Untold : Drive → Type 0 where
  shut : Untold closed
  failing : Untold (fails false)

-- A time of rest that is set and has passed since a time.
abbrev pub IsLong : ℤ → ℕ → ℕ → Type 0
IsLong time last now = (k : ℕ) × (time ≡ pos k) × (0 < k) × (last + k < now)

pub both_true : (a b : Bool) → (a && b) ≡ true → (a ≡ true) × (b ≡ true)
both_true a b h = ground arith

pub not_both : (a b : Bool) → (a && b) ≡ false → a ≡ true → b ≡ true → ⊥
not_both a b h p q = ground arith

pub nonzero_sound : (z : ℤ) → not (equal_ℤ z (pos 0)) ≡ true → z ≢ pos 0
nonzero_sound z h e = ground (arith, subst (λ x. not (equal_ℤ x (pos 0)) ≡ true) e h)

pub nonzero_true : (z : ℤ) → z ≢ pos 0 → not (equal_ℤ z (pos 0)) ≡ true
nonzero_true z h = elim (Bool-cases (equal_ℤ z (pos 0))) [
  | inl e ↦ absurd (h (equal_sound z (pos 0) e))
  | inr e ↦ rw e refl
]

unfoldable pub is_untold : Drive → Bool
unfolding mode_of
is_untold a = equal_ℤ (mode_of a) (negsuc 0)

pub is_untold-Untold : (a : Drive) → is_untold a ≡ true → Untold a
unfolding is_untold mode_of
is_untold-Untold closed h = shut
is_untold-Untold (passes n) h =
    if_elim (λ z. equal_ℤ z (negsuc 0) ≡ true → Untold (passes n)) (n == 255)
      (λ e. ground (arith, e)) (λ e. ground (arith, e)) h
is_untold-Untold (fails true) h = ground (arith, h)
is_untold-Untold (fails false) h = failing

pub Untold-is_untold : (a : Drive) → Untold a → is_untold a ≡ true
unfolding is_untold mode_of
Untold-is_untold _ shut = refl
Untold-is_untold _ failing = refl

pub positive_lem : (z : ℤ) → ltb_ℤ (pos 0) z ≡ true → (k : ℕ) × (z ≡ pos k) × (0 < k)
positive_lem (pos k) h = (k, refl, ground arith)
positive_lem (negsuc n) h = ground (arith, h)

pub positive_sound : (z : ℤ) → (k : ℕ) × (z ≡ pos k) × (0 < k) → ltb_ℤ (pos 0) z ≡ true
positive_sound z (k, e, p) = rw e (ground arith)

pub long_lem :
    (z : ℤ) (last now : ℕ)
    → ltb_ℤ (pos 0) z ≡ true
    → ltb_ℤ (pos last +ℤ z) (pos now) ≡ true
    → IsLong z last now
unfolding ◌+ℤ◌
long_lem (pos k) last now h l = (k, refl, ground arith, ground arith)
long_lem (negsuc n) last now h l = ground (arith, h)

pub long_sound :
    (z : ℤ) (last now : ℕ)
    → IsLong z last now
    → (ltb_ℤ (pos 0) z ≡ true) × (ltb_ℤ (pos last +ℤ z) (pos now) ≡ true)
unfolding ◌+ℤ◌
long_sound z last now (k, e, p, l) = rw e (ground arith, ground arith)
