-- ===== src/Sysctrl/Loop/Front.antt =====
-- What holding and releasing the power button does: `mainloop` of
-- package/alt-f-utils/alt-f-utils-0.1.11/sysctrl.c against a counter of seconds.
pub mod Rounds
use alt_f.Prelude.{
  ℕ, zero, suc, ◌∙◌, ◌+◌, ◌%◌, ◌<◌, ◌≡◌, refl, sym, ap, subst, ◌⊎◌, inl, inr, true, false,
  Bool-cases, ltb, length, ◌==◌, if◌then◌else◌, List, [], ◌∷◌, arith,
}
use alt_f.Prelude.Int.{ℤ, equal_ℤ}
use alt_f.Sysctrl.Globals.{
  Machine, End, rebooted, powered_off, Flow, on, left, ◌>>=◌, become, reboot, poweroff,
}
use alt_f.Sysctrl.Button.{no_bt, debounce}
use alt_f.Sysctrl.Temp.{Floats}
use alt_f.Sysctrl.Fan.{fanctl}
use alt_f.Sysctrl.Loop.{
  round, mainloop_rounds, Mode, idle, halt, reboots, Loop, is_back, rest, in_idle, in_halt,
  hold_halt, in_reboot, hold_reboot, in_state, react, after_debounce, prepare,
}

-- The seconds that the button has been held, as a state of the machine.
abbrev pub phase : ℕ → Mode
phase n = if ltb n 3 then idle else if ltb n 6 then halt else reboots

-- What comes of it: the button was held for some seconds, or it was released at the end.
pub data Outcome : Type 0 where
  waiting : ℕ → Outcome
  asked : End → Outcome

-- A release after less than 3 seconds is nothing, after less than 6 it asks for a halt, after less
-- than 9 for a reboot; with the ninth second the count begins again.
abbrev pub held : ℕ → List ℤ → Outcome
held n [] = waiting n
held n (bt ∷ bts) = elim (equal_ℤ bt no_bt) [
  | false ↦ held ((n + 1) % 9) bts
  | true ↦ elim (ltb n 3) [
    | true ↦ held 0 bts
    | false ↦ asked (if ltb n 6 then powered_off else rebooted)
  ]
]

-- No button on the back in the list.
abbrev pub FrontOnly : List ℤ → Type 0
FrontOnly [] = Unit
FrontOnly (bt ∷ bts) = (is_back bt ≡ false) × FrontOnly bts

module _ {ℓ} {A : Type ℓ} where
  abbrev pub flow_or : A → Flow A → A
  flow_or a (on b) = b
  flow_or a (left e) = a

  abbrev pub end_or : End → Flow A → End
  end_or z (on b) = z
  end_or z (left e) = e

  pub on_not_left : {a : A} {e : End} → ¬ (on a ≡ left e)
  on_not_left h = ground (arith, h)

module _ {ℓ κ} {A : Type ℓ} {B : Type κ} where
  pub bind-on :
      (r : Flow A) (f : A → Flow B) {b : B} → (r >>= f) ≡ on b → (a : A) × (r ≡ on a) × (f a ≡ on b)
  bind-on (on a) f h = (a, refl, h)
  bind-on (left e) f h = ground (arith, h)

module _ {S F : Type 0} (m : Machine S) where
  abbrev pub Counts : ℕ → Loop S F → Type 0
  Counts n l = (l.count ≡ n) × (l.state ≡ phase n)

  pub at_state :
      (p : Loop S F) (bt : ℤ) (q : Mode)
      → is_back bt ≡ false
      → p.state ≡ q
      → react m bt p ≡ in_state m q p bt
  unfolding react
  at_state p bt q back s = rw (react, back) (ap (λ x. in_state m x p bt) s)

  module _ (p : Loop S F) (bt : ℤ) (back : is_back bt ≡ false)
      (key : equal_ℤ bt no_bt ≡ false) where
    -- The next second is counted, and the state follows.
    pub pressed :
        (n : ℕ)
        → n < 9
        → p.count ≡ suc n
        → p.state ≡ phase n
        → (l : Loop S F) × (react m bt p ≡ on l) × Counts ((n + 1) % 9) l
    unfolding react in_state in_idle in_halt hold_halt in_reboot hold_reboot rest
    pressed zero h c s = (
      in_idle m p bt,
      at_state p bt _ back s ∙ rw (key, in_state, in_halt, in_reboot) refl,
      ground arith,
    )
    pressed (suc zero) h c s = (
      in_idle m p bt,
      at_state p bt _ back s ∙ rw (key, in_state, in_halt, in_reboot) refl,
      ground arith,
    )
    pressed (suc (suc zero)) h c s = (
      in_idle m p bt,
      at_state p bt _ back s ∙ rw (key, in_state, in_halt, in_reboot) refl,
      ground arith,
    )
    pressed (suc (suc (suc zero))) h c s = (
      hold_halt m p,
      at_state p bt _ back s ∙ rw (key, in_state, in_halt, in_reboot) refl,
      ground arith,
    )
    pressed (suc (suc (suc (suc zero)))) h c s = (
      hold_halt m p,
      at_state p bt _ back s ∙ rw (key, in_state, in_halt, in_reboot) refl,
      ground arith,
    )
    pressed (suc (suc (suc (suc (suc zero))))) h c s = (
      hold_halt m p,
      at_state p bt _ back s ∙ rw (key, in_state, in_halt, in_reboot) refl,
      ground arith,
    )
    pressed (suc (suc (suc (suc (suc (suc zero)))))) h c s = (
      hold_reboot m p,
      at_state p bt _ back s ∙ rw (key, in_state, in_halt, in_reboot) refl,
      ground arith,
    )
    pressed (suc (suc (suc (suc (suc (suc (suc zero))))))) h c s = (
      hold_reboot m p,
      at_state p bt _ back s ∙ rw (key, in_state, in_halt, in_reboot) refl,
      ground arith,
    )
    pressed (suc (suc (suc (suc (suc (suc (suc (suc zero)))))))) h c s = (
      hold_reboot m p,
      at_state p bt _ back s ∙ rw (key, in_state, in_halt, in_reboot) refl,
      ground arith,
    )
    pressed (suc (suc (suc (suc (suc (suc (suc (suc (suc n))))))))) h c s = absurd (omega arith)

  module _ (p : Loop S F) (bt : ℤ) (back : is_back bt ≡ false) (key : equal_ℤ bt no_bt ≡ true) where
    pub released_idle : p.state ≡ idle → (l : Loop S F) × (react m bt p ≡ on l) × Counts 0 l
    unfolding react in_state in_idle
    released_idle s = (in_idle m p bt, at_state p bt _ back s ∙ refl, rw key (refl, s))

    module _ (works : (w : S) → m.execs w ≡ true) where
      pub released_halt : p.state ≡ halt → react m bt p ≡ left powered_off
      unfolding react in_state in_halt rest poweroff become
      released_halt s = at_state p bt _ back s ∙ rw (key, works _, in_halt) refl

      pub released_reboot : p.state ≡ reboots → react m bt p ≡ left rebooted
      unfolding react in_state in_reboot rest reboot become
      released_reboot s = at_state p bt _ back s ∙ rw (key, works _, in_reboot) refl
