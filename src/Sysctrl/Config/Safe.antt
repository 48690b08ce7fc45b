-- ===== src/Sysctrl/Config/Safe.antt =====
-- What no configuration file can set: `checkfile`, `config` and `read_config` of
-- package/alt-f-utils/alt-f-utils-0.1.11/sysctrl.c.
use alt_f.Prelude.{
  ℕ, ◌≡◌, refl, sym, subst, ◌∙◌, ◌⊎◌, inl, inr, Bool, true, false, Bool-cases, ◌/◌, ◌%◌, arith,
  ◌||◌, if◌then◌else◌, Option, none, some, List, [], ◌∷◌,
}
use alt_f.Prelude.Bits.{bit_and_18, bit_and_64}
use alt_f.Prelude.Int.{ℤ, equal_ℤ, equal_sound}
use alt_f.Prelude.Text.{codes, bytes_eq, atoi}
use alt_f.Sysctrl.Globals.{
  fan_auto, fan_always_off, fan_always_slow, fan_always_fast, Args, Sys, Stat, Machine, Flow, on,
  left, ◌>>=◌,
}
use alt_f.Sysctrl.Led.{until}
use alt_f.Sysctrl.Lines.{lines, trim}
use alt_f.Sysctrl.Temp.{Floats}
use alt_f.Sysctrl.Fan.Speeds.{IsMode}
use alt_f.Sysctrl.Config.{
  trusted_stat, checkfile, valid_mode, default_args, option_rows, set_row, config, read_pair, blank,
  read_config_line, read_config_lines, read_config,
}

-- A proof for the first row, and those for the rest.
infixr 20 ◌&◌
◌&◌ {ℓ κ} : {A : Type ℓ} {B : Type κ} → A → B → A × B
a & b = (a, b)

valid_mode-IsMode : (n : ℤ) → IsMode (valid_mode n)
unfolding valid_mode
valid_mode-IsMode n =
    elim (Bool-cases (
      equal_ℤ n fan_always_off
      || equal_ℤ n fan_always_slow
      || equal_ℤ n fan_always_fast
      || equal_ℤ n fan_auto)) [ inl e ↦ rw e (one_of n e) | inr e ↦ rw e (inl refl) ]
  where
    one_of :
        (k : ℤ)
        → (equal_ℤ k fan_always_off
            || equal_ℤ k fan_always_slow
            || equal_ℤ k fan_always_fast
            || equal_ℤ k fan_auto)
          ≡ true
        → IsMode k
    one_of k e = elim (Bool-cases (equal_ℤ k fan_always_off)) [
      | inl h ↦ inr (inl (equal_sound k _ h))
      | inr h1 ↦ elim (Bool-cases (equal_ℤ k fan_always_slow)) [
        | inl h ↦ inr (inr (inl (equal_sound k _ h)))
        | inr h2 ↦ elim (Bool-cases (equal_ℤ k fan_always_fast)) [
          | inl h ↦ inr (inr (inr (equal_sound k _ h)))
          | inr h3 ↦ inl (equal_sound k fan_auto (sym (rw (h1, h2, h3) refl) ∙ e))
        ]
      ]
    ]

-- A file of user 0 whose mode lets its owner execute it, and neither the group nor others write to
-- it: the bits are those of 0100, 0020 and 0002 in octal.
abbrev pub IsOwn : Stat → Type 0
IsOwn st = (st.uid ≡ 0) × (st.mode / 64 % 2 ≡ 1) × (st.mode / 16 % 2 ≡ 0) × (st.mode / 2 % 2 ≡ 0)

trusted_stat-IsOwn : (st : Stat) → trusted_stat st ≡ true → IsOwn st
unfolding trusted_stat
trusted_stat-IsOwn st h =
    let low = bit_and_18 st.mode in let high = bit_and_64 st.mode in ground arith

module _ {S : Type 0} (m : Machine S) where
  -- A command that is run as root: none, the one set in the program, or a file of root's.
  abbrev pub IsTrusted : Option (List ℕ) → Type 0
  IsTrusted none = Unit
  IsTrusted (some file) =
      (file ≡ codes "/usr/sbin/poweroff") ⊎ ((st : Stat) × (m.stat file ≡ some st) × IsOwn st)

  judged :
      (file : List ℕ) (o : Option Stat)
      → m.stat file ≡ o
      → IsTrusted (elim o [ none ↦ none | some st ↦ if trusted_stat st then some file else none ])
  judged file none e = tt
  judged file (some st) e = elim (Bool-cases (trusted_stat st)) [
    | inl t ↦
        subst (λ b. IsTrusted (if b then some file else none)) (sym t)
          (inr (st, e, trusted_stat-IsOwn st t))
    | inr t ↦ subst (λ b. IsTrusted (if b then some file else none)) (sym t) tt
  ]

  checkfile-IsTrusted : (v : List ℕ) → IsTrusted (checkfile m v)
  unfolding checkfile
  checkfile-IsTrusted [] = tt
  checkfile-IsTrusted (c ∷ cs) = judged (c ∷ cs) (m.stat (c ∷ cs)) refl

module _ {S F : Type 0} (m : Machine S) (fl : Floats F) where
  -- A fan mode that the program knows, and commands that can be trusted.
  abbrev pub IsSafe : Args F → Type 0
  IsSafe a =
      IsMode a.fan_mode
      × IsTrusted m a.warn_temp_command
      × IsTrusted m a.crit_temp_command
      × IsTrusted m a.front_button_command1
      × IsTrusted m a.front_button_command2
      × IsTrusted m a.back_button_command

  -- Each of the assignments leaves what is safe safe.
  abbrev KeepSafe : List (List ℕ × (Args F → List ℕ → Args F)) → Type 0
  KeepSafe [] = Unit
  KeepSafe (row ∷ rows) =
      ((a : Args F) (v : List ℕ) → IsSafe a → IsSafe (row.1 a v)) × KeepSafe rows

  set_row-IsSafe :
      (rows : List (List ℕ × (Args F → List ℕ → Args F))) (n v : List ℕ) (a : Args F)
      → KeepSafe rows
      → IsSafe a
      → IsSafe (set_row m fl rows n v a)
  unfolding set_row
  set_row-IsSafe [] n v a k h = h
  set_row-IsSafe (row ∷ rows) n v a (k, ks) h =
      elim_safe (bytes_eq n (row.0)) (row.1 a v) (set_row m fl rows n v a) (k a v h)
        (set_row-IsSafe rows n v a ks h)
    where
      elim_safe :
          (b : Bool) (x y : Args F) → IsSafe x → IsSafe y → IsSafe (elim b [ true ↦ x | false ↦ y ])
      elim_safe true x y hx hy = hx
      elim_safe false x y hx hy = hy

  rows-KeepSafe : KeepSafe (option_rows m fl)
  rows-KeepSafe =
      same
      & same
      & same
      & same
      & same
      & same
      & mode
      & same
      & same
      & same
      & same
      & same
      & same
      & (λ a v h. (h.0, h.1, checkfile-IsTrusted m v, h.3, h.4, h.5))
      & (λ a v h. (h.0, checkfile-IsTrusted m v, h.2, h.3, h.4, h.5))
      & (λ a v h. (h.0, h.1, h.2, checkfile-IsTrusted m v, h.4, h.5))
      & (λ a v h. (h.0, h.1, h.2, h.3, checkfile-IsTrusted m v, h.5))
      & (λ a v h. (h.0, h.1, h.2, h.3, h.4, checkfile-IsTrusted m v))
      & tt
    where
      mode :
          (a : Args F) (v : List ℕ)
          → IsSafe a
          → IsSafe (record a { fan_mode = valid_mode (atoi v) })
      mode a v h = (valid_mode-IsMode (atoi v), h.1, h.2, h.3, h.4, h.5)

      same : (a : Args F) → List ℕ → IsSafe a → IsSafe a
      same a v h = h

  config-IsSafe : (n v : List ℕ) (a : Args F) → IsSafe a → IsSafe (config m fl n v a)
  unfolding config
  config-IsSafe n v a h = set_row-IsSafe (option_rows m fl) n v a rows-KeepSafe h

  pub default_args-IsSafe : IsSafe (default_args fl)
  unfolding default_args
  default_args-IsSafe = (inl refl, tt, inl refl, tt, tt, tt)

  -- What holds of the configuration when the program goes on.
  abbrev pub OnSafe : Flow (Sys S F) → Type 0
  OnSafe (on s) = IsSafe s.args
  OnSafe (left e) = Unit

  read_pair-OnSafe :
      (s : Sys S F) (p : List ℕ × Option (List ℕ)) → IsSafe s.args → OnSafe (read_pair m fl s p)
  unfolding read_pair
  read_pair-OnSafe s (n, none) h = tt
  read_pair-OnSafe s (n, some v) h = config-IsSafe (trim n) (trim v) s.args h

  read_config_line-OnSafe :
      (line : List ℕ) (s : Sys S F) → IsSafe s.args → OnSafe (read_config_line m fl line s)
  unfolding read_config_line
  read_config_line-OnSafe line s h = elim_on (blank (until 35 line)) _ (read_pair-OnSafe s _ h)
    where
      elim_on :
          (b : Bool) (r : Flow (Sys S F)) → OnSafe r → OnSafe (elim b [ true ↦ on s | false ↦ r ])
      elim_on true r k = h
      elim_on false r k = k

  bind-OnSafe :
      (r : Flow (Sys S F)) (f : Sys S F → Flow (Sys S F))
      → OnSafe r
      → ((s : Sys S F) → IsSafe s.args → OnSafe (f s))
      → OnSafe (r >>= f)
  bind-OnSafe (on s) f h k = k s h
  bind-OnSafe (left e) f h k = tt

  read_config_lines-OnSafe :
      (ls : List (List ℕ)) (s : Sys S F) → IsSafe s.args → OnSafe (read_config_lines m fl ls s)
  unfolding read_config_lines
  read_config_lines-OnSafe [] s h = h
  read_config_lines-OnSafe (line ∷ ls) s h =
      bind-OnSafe (read_config_line m fl line s) (read_config_lines m fl ls)
        (read_config_line-OnSafe line s h) (read_config_lines-OnSafe ls)

  -- Whatever stands in /etc/sysctrl.conf, when it has been read the fan mode is one of the four that
  -- exist, and each of the five commands is missing, the one set in the program, or a file that at
  -- this moment belongs to user 0, has the execute bit of its owner, and has neither the write bit of
  -- its group nor that of others, provided that this was so before, as it is of the defaults.
  pub read_config-OnSafe : (s : Sys S F) → IsSafe s.args → OnSafe (read_config m fl s)
  unfolding read_config
  read_config-OnSafe s h = elim_file (s.files (codes "/etc/sysctrl.conf"))
    where
      elim_file :
          (o : Option (List ℕ))
          → OnSafe (elim o [ none ↦ on s | some text ↦ read_config_lines m fl (lines 128 text) s ])
      elim_file none = h
      elim_file (some text) = read_config_lines-OnSafe (lines 128 text) s h
