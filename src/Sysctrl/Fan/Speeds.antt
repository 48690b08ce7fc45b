-- ===== src/Sysctrl/Fan/Speeds.antt =====
-- Which speeds the fan gets: `fanctl` of package/alt-f-utils/alt-f-utils-0.1.11/sysctrl.c on the
-- boards whose fan has three of them.
use alt_f.Prelude.{
  ℕ, ◌+◌, ◌-◌, ◌≡◌, refl, ap, subst, ◌∙◌, Bool-cases, ◌⊎◌, inl, inr, Bool, true, false,
  if◌then◌else◌, List, [], ◌∷◌, length, replicate, arith,
}
use alt_f.Prelude.Int.{ℤ, pos, equal_ℤ}
use alt_f.Sysctrl.Globals.{
  Board, dns_323_a1, dns_323_b1, dns_323_c1, dns_321_ax, dns_325_ax, dns_320_ax, dns_320_bx,
  dns_320l_ax, dns_327l_ax, dnr_322l_ax, fan_auto, fan_always_off, fan_always_slow, fan_always_fast,
  Args,
}
use alt_f.Sysctrl.Temp.{Floats}
use alt_f.Sysctrl.Fan.Exact.{
  IsExact, IsTuned, not_above_off, not_above_fast, not_below_off, not_below_fast, lift_above,
  drop_below,
}
use alt_f.Sysctrl.Fan.{above, below, pwm_off, pwm_low, pwm_fast, pwm_auto, pwm_by_mode, new_pwm}

-- The boards with a fan of any speed.
abbrev pub has_any_speed : Board → Bool
has_any_speed dns_323_a1 = true
has_any_speed dns_323_b1 = true
has_any_speed _ = false

-- What `config` leaves as the mode.
abbrev pub IsMode : ℤ → Type 0
IsMode n = (n ≡ fan_auto) ⊎ (n ≡ fan_always_off) ⊎ (n ≡ fan_always_slow) ⊎ (n ≡ fan_always_fast)

abbrev pub IsSpeed : ℤ → Type 0
IsSpeed n = (n ≡ pwm_off) ⊎ (n ≡ pwm_low) ⊎ (n ≡ pwm_fast)

-- `enum RPMValue`: what the fan tells when it runs at a speed.
pub data Speed : Type 0 where
  off low fast : Speed

abbrev pub pwm_of : Speed → ℤ
pwm_of off = pwm_off
pwm_of low = pwm_low
pwm_of fast = pwm_fast

abbrev pub rpm_of : Speed → ℤ
rpm_of off = pos 0
rpm_of low = pos 3000
rpm_of fast = pos 6000

either-IsSpeed : {x y : ℤ} (b : Bool) → IsSpeed x → IsSpeed y → IsSpeed (if b then x else y)
either-IsSpeed true h k = h
either-IsSpeed false h k = k

-- What each speed may go over to: none is skipped.
abbrev pub IsStep : Speed → ℤ → Type 0
IsStep off n = (n ≡ pwm_off) ⊎ (n ≡ pwm_low)
IsStep low n = IsSpeed n
IsStep fast n = (n ≡ pwm_low) ⊎ (n ≡ pwm_fast)

by_mode-IsSpeed :
    (n x pwm : ℤ)
    → IsMode n
    → IsSpeed x
    → IsSpeed (
        if equal_ℤ n fan_always_off
        then pwm_off
        else if equal_ℤ n fan_always_slow
        then pwm_low
        else if equal_ℤ n fan_always_fast
        then pwm_fast
        else if equal_ℤ n fan_auto
        then x
        else pwm)
by_mode-IsSpeed n x pwm (inl e) h = rw e h
by_mode-IsSpeed n x pwm (inr (inl e)) h = rw e (inl refl)
by_mode-IsSpeed n x pwm (inr (inr (inl e))) h = rw e (inr (inl refl))
by_mode-IsSpeed n x pwm (inr (inr (inr e))) h = rw e (inr (inr refl))

module _ {F : Type 0} (fl : Floats F) (a : Args F) (temp : F) where
  pwm_auto-IsSpeed : (fan : ℤ) → IsSpeed (pwm_auto fl a temp fan)
  unfolding pwm_auto
  pwm_auto-IsSpeed fan =
      either-IsSpeed (equal_ℤ fan (pos 0)) (either-IsSpeed _ low_speed off_speed) (
        either-IsSpeed (equal_ℤ fan (pos 3000))
          (either-IsSpeed _ off_speed (either-IsSpeed _ fast_speed low_speed))
          (either-IsSpeed (equal_ℤ fan (pos 6000)) (either-IsSpeed _ low_speed fast_speed)
            low_speed))
    where
      off_speed : IsSpeed pwm_off
      off_speed = inl refl

      low_speed : IsSpeed pwm_low
      low_speed = inr (inl refl)

      fast_speed : IsSpeed pwm_fast
      fast_speed = inr (inr refl)

  pwm_by_mode-IsSpeed : (fan pwm : ℤ) → IsMode a.fan_mode → IsSpeed (pwm_by_mode fl a temp fan pwm)
  unfolding pwm_by_mode
  pwm_by_mode-IsSpeed fan pwm mode =
      by_mode-IsSpeed a.fan_mode (pwm_auto fl a temp fan) pwm mode (pwm_auto-IsSpeed fan)

  -- On the boards whose fan has three speeds only, and in a mode that the configuration can have,
  -- the fan is told 0, 127 or 255, whatever the temperature, the speed that is read and the value
  -- that was told before.
  pub new_pwm-IsSpeed :
      (b : Board) (fan pwm : ℤ)
      → has_any_speed b ≡ false
      → IsMode a.fan_mode
      → IsSpeed (new_pwm fl b a temp fan pwm)
  unfolding new_pwm
  new_pwm-IsSpeed dns_323_a1 fan pwm h mode = ground arith
  new_pwm-IsSpeed dns_323_b1 fan pwm h mode = ground arith
  new_pwm-IsSpeed dns_323_c1 fan pwm h mode = pwm_by_mode-IsSpeed fan pwm mode
  new_pwm-IsSpeed dns_321_ax fan pwm h mode = pwm_by_mode-IsSpeed fan pwm mode
  new_pwm-IsSpeed dns_325_ax fan pwm h mode = pwm_by_mode-IsSpeed fan pwm mode
  new_pwm-IsSpeed dns_320_ax fan pwm h mode = pwm_by_mode-IsSpeed fan pwm mode
  new_pwm-IsSpeed dns_320_bx fan pwm h mode = pwm_by_mode-IsSpeed fan pwm mode
  new_pwm-IsSpeed dns_320l_ax fan pwm h mode = pwm_by_mode-IsSpeed fan pwm mode
  new_pwm-IsSpeed dns_327l_ax fan pwm h mode = pwm_by_mode-IsSpeed fan pwm mode
  new_pwm-IsSpeed dnr_322l_ax fan pwm h mode = pwm_by_mode-IsSpeed fan pwm mode

  IsStep-off : IsStep off (pwm_auto fl a temp (rpm_of off))
  unfolding pwm_auto
  IsStep-off = elim (Bool-cases (fl.lt (above fl a.fan_off_temp a.hist_temp) temp)) [
    | inl e ↦ inr (rw e refl)
    | inr e ↦ inl (rw e refl)
  ]

  IsStep-fast : IsStep fast (pwm_auto fl a temp (rpm_of fast))
  unfolding pwm_auto
  IsStep-fast = elim (Bool-cases (fl.lt temp (below fl a.lo_temp a.hist_temp))) [
    | inl e ↦ inl (rw e refl)
    | inr e ↦ inr (rw e refl)
  ]

  IsStep-auto : (s : Speed) → IsStep s (pwm_auto fl a temp (rpm_of s))
  IsStep-auto off = IsStep-off
  IsStep-auto low = pwm_auto-IsSpeed (rpm_of low)
  IsStep-auto fast = IsStep-fast

-- The turns of a fan that follows what it is told.
abbrev turns : ℤ → ℤ
turns told =
    if equal_ℤ told pwm_off
    then rpm_of off
    else if equal_ℤ told pwm_low
    then rpm_of low
    else rpm_of fast

module _ {F : Type 0} (fl : Floats F) where
  -- What the fan is told in round after round, from its turns at the start on.
  abbrev pub follow : Args F → ℤ → List F → List ℤ
  follow a fan [] = []
  follow a fan (x ∷ xs) = let told = pwm_auto fl a x fan in told ∷ follow a (turns told) xs

  -- All are at most `h` away from a temperature.
  abbrev pub AreNear : ℕ → ℕ → List F → Type 0
  AreNear h centre [] = Unit
  AreNear h centre (x ∷ xs) =
      (fl.lt x (fl.of_int (pos (centre - h))) ≡ false)
      × (fl.lt (fl.of_int (pos (centre + h))) x ≡ false)
      × AreNear h centre xs

-- The speeds between which it changes at the temperature where it goes off, and those at the other.
abbrev pub IsBetween : Speed → ℕ → ℕ → ℕ → Type 0
IsBetween off c l centre = centre ≡ c
IsBetween low c l centre = (centre ≡ c) ⊎ (centre ≡ l)
IsBetween fast c l centre = centre ≡ l

module _ {F : Type 0} (fl : Floats F) (ex : IsExact fl) (a : Args F) (c l h : ℕ)
    (tuned : IsTuned fl a c l h) where
  -- Within the margin of the temperature `centre`.
  abbrev IsNear : ℕ → F → Type 0
  IsNear centre x =
      (fl.lt x (fl.of_int (pos (centre - h))) ≡ false)
      × (fl.lt (fl.of_int (pos (centre + h))) x ≡ false)

  keep_off : (x : F) → IsNear c x → pwm_auto fl a x (rpm_of off) ≡ pwm_of off
  unfolding pwm_auto
  keep_off x (lower, upper) = rw (not_above_off fl ex a c l h tuned x upper) refl

  keep_low_by_off : (x : F) → IsNear c x → pwm_auto fl a x (rpm_of low) ≡ pwm_of low
  unfolding pwm_auto
  keep_low_by_off x (lower, upper) =
      rw
        (
          not_below_off fl ex a c l h tuned x lower,
          not_above_fast fl ex a c l h tuned x (lift_above fl ex a c l h tuned x upper),
        )
        refl

  keep_low_by_fast : (x : F) → IsNear l x → pwm_auto fl a x (rpm_of low) ≡ pwm_of low
  unfolding pwm_auto
  keep_low_by_fast x (lower, upper) =
      rw
        (
          not_below_off fl ex a c l h tuned x (drop_below fl ex a c l h tuned x lower),
          not_above_fast fl ex a c l h tuned x upper,
        )
        refl

  keep_fast : (x : F) → IsNear l x → pwm_auto fl a x (rpm_of fast) ≡ pwm_of fast
  unfolding pwm_auto
  keep_fast x (lower, upper) = rw (not_below_fast fl ex a c l h tuned x lower) refl

  keep_lem :
      (s : Speed) (centre : ℕ) (x : F)
      → IsBetween s c l centre
      → IsNear centre x
      → pwm_auto fl a x (rpm_of s) ≡ pwm_of s
  keep_lem off centre x e n = keep_off x (subst (λ y. IsNear y x) e n)
  keep_lem low centre x (inl e) n = keep_low_by_off x (subst (λ y. IsNear y x) e n)
  keep_lem low centre x (inr e) n = keep_low_by_fast x (subst (λ y. IsNear y x) e n)
  keep_lem fast centre x e n = keep_fast x (subst (λ y. IsNear y x) e n)

  turns_lem : (s : Speed) → turns (pwm_of s) ≡ rpm_of s
  turns_lem off = refl
  turns_lem low = refl
  turns_lem fast = refl

  -- In automatic mode, with whole temperatures configured for the two changes of speed and for the
  -- margin, a fan that runs at one of the two speeds on either side of a change, and follows what it
  -- is told, keeps this speed in round after round for as long as the temperature stays within the
  -- margin of this change. This takes the margin to be at most `fan_off_temp`, this at most `lo_temp`,
  -- the sums to stay within 2^24, and floating-point numbers to be exact on such whole numbers. And
  -- whatever the temperature, a fan at rest is never told its full speed,
  -- nor the other way round.
  pub pwm_auto_steps :
      (s : Speed) (centre : ℕ) (temps : List F)
      → IsBetween s c l centre
      → AreNear fl h centre temps
      → (follow fl a (rpm_of s) temps ≡ replicate (length temps) (pwm_of s))
        × ((x : F) → IsStep s (pwm_auto fl a x (rpm_of s)))
  pwm_auto_steps s centre [] b n = (refl, λ x. IsStep-auto fl a x s)
  pwm_auto_steps s centre (x ∷ xs) b (lower, upper, n) =
      let told = keep_lem s centre x b (lower, upper) in
      (
        ap (λ y. y ∷ follow fl a (turns y) xs) told
            ∙ ap (λ y. pwm_of s ∷ follow fl a y xs) (turns_lem s)
            ∙ ap (λ ys. pwm_of s ∷ ys) (pwm_auto_steps s centre xs b n).0,
        λ y. IsStep-auto fl a y s,
      )
