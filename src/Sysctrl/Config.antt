-- ===== src/Sysctrl/Config.antt =====
-- The configuration: `args`, `checkfile`, `config` and `read_config` of
-- package/alt-f-utils/alt-f-utils-0.1.11/sysctrl.c.
pub mod Safe
use alt_f.Prelude.{
  ℕ, Bool, true, false, ◌&&◌, ◌||◌, not, Option, none, some, List, [], ◌∷◌, bit_and, ◌==◌,
  if◌then◌else◌,
}
use alt_f.Prelude.Int.{ℤ, pos, equal_ℤ}
use alt_f.Prelude.Text.{codes, bytes_eq, atoi, is_space}
use alt_f.Sysctrl.Globals.{
  fan_auto, fan_always_off, fan_always_slow, fan_always_fast, Args, Sys, Stat, Machine, Flow, on,
  left, fault, ◌>>=◌,
}
use alt_f.Sysctrl.Temp.{Floats}
use alt_f.Sysctrl.Led.{until}
use alt_f.Sysctrl.Lines.{lines, split_at, trim}

-- Owned by root, executable by it (S_IXUSR), and not for others to write (S_IWGRP | S_IWOTH).
pub trusted_stat : Stat → Bool
trusted_stat st = st.uid == 0 && not (bit_and st.mode 64 == 0) && bit_and st.mode 18 == 0

module _ {S : Type 0} (m : Machine S) where
  pub checkfile : List ℕ → Option (List ℕ)
  checkfile [] = none
  checkfile (c ∷ cs) = elim (m.stat (c ∷ cs)) [
    | none ↦ none
    | some st ↦ if trusted_stat st then some (c ∷ cs) else none
  ]

-- `default: args.fan_mode = FAN_AUTO`
pub valid_mode : ℤ → ℤ
valid_mode n =
    if equal_ℤ n fan_always_off
      || equal_ℤ n fan_always_slow
      || equal_ℤ n fan_always_fast
      || equal_ℤ n fan_auto
    then n
    else fan_auto

module _ {F : Type 0} (fl : Floats F) where
  unfoldable pub default_args : Args F
  default_args = record {
    hist_temp = fl.single (fl.literal (pos 2) 0);
    lo_fan = pos 2000;
    hi_fan = pos 5000;
    lo_temp = pos 40;
    hi_temp = pos 50;
    disks_temp = pos 0;
    mail = pos 1;
    recovery = pos 1;
    fan_off_temp = pos 38;
    max_fan_speed = pos 6000;
    warn_temp = pos 52;
    crit_temp = pos 54;
    fan_mode = fan_auto;
    warn_temp_command = none;
    crit_temp_command = some (codes "/usr/sbin/poweroff");
    front_button_command1 = none;
    front_button_command2 = none;
    back_button_command = none;
  }

-- `strspn(str, " \f\n\r\t\v") == strlen(str)`
pub blank : List ℕ → Bool
blank [] = true
blank (c ∷ cs) = is_space c && blank cs

module _ {S F : Type 0} (m : Machine S) (fl : Floats F) where
  -- The tests of `config`, in their order, and what each sets.
  abbrev pub option_rows : List (List ℕ × (Args F → List ℕ → Args F))
  option_rows =
      (codes "lo_fan", λ a v. record a { lo_fan = atoi v })
      ∷ (codes "hi_fan", λ a v. record a { hi_fan = atoi v })
      ∷ (codes "lo_temp", λ a v. record a { lo_temp = atoi v })
      ∷ (codes "hi_temp", λ a v. record a { hi_temp = atoi v })
      ∷ (codes "hist_temp", λ a v. record a { hist_temp = fl.single (fl.read v) })
      ∷ (codes "disks_temp", λ a v. record a { disks_temp = atoi v })
      ∷ (codes "fan_mode", λ a v. record a { fan_mode = valid_mode (atoi v) })
      ∷ (codes "fan_off_temp", λ a v. record a { fan_off_temp = atoi v })
      ∷ (codes "max_fan_speed", λ a v. record a { max_fan_speed = atoi v })
      ∷ (codes "crit_temp", λ a v. record a { crit_temp = atoi v })
      ∷ (codes "warn_temp", λ a v. record a { warn_temp = atoi v })
      ∷ (codes "mail", λ a v. record a { mail = atoi v })
      ∷ (codes "recovery", λ a v. record a { recovery = atoi v })
      ∷ (codes "crit_temp_command", λ a v. record a { crit_temp_command = checkfile m v })
      ∷ (codes "warn_temp_command", λ a v. record a { warn_temp_command = checkfile m v })
      ∷ (codes "front_button_command1", λ a v. record a { front_button_command1 = checkfile m v })
      ∷ (codes "front_button_command2", λ a v. record a { front_button_command2 = checkfile m v })
      ∷ (codes "back_button_command", λ a v. record a { back_button_command = checkfile m v })
      ∷ []

  pub set_row : List (List ℕ × (Args F → List ℕ → Args F)) → List ℕ → List ℕ → Args F → Args F
  set_row [] n v a = a
  set_row ((name, setter) ∷ rows) n v a = elim (bytes_eq n name) [
    | true ↦ setter a v
    | false ↦ set_row rows n v a
  ]

  pub config : List ℕ → List ℕ → Args F → Args F
  unfolding set_row
  config = set_row option_rows

  -- `name = value`; without a "=" the program reads from address 1.
  pub read_pair : Sys S F → List ℕ × Option (List ℕ) → Flow (Sys S F)
  read_pair s (n, none) = left fault
  read_pair s (n, some v) = on (record s { args = config (trim n) (trim v) s.args })

  pub read_config_line : List ℕ → Sys S F → Flow (Sys S F)
  unfolding read_pair blank
  read_config_line line s =
      let str = until 35 line in
      elim (blank str) [ true ↦ on s | false ↦ read_pair s (split_at 61 str) ]

  pub read_config_lines : List (List ℕ) → Sys S F → Flow (Sys S F)
  read_config_lines [] s = on s
  read_config_lines (line ∷ ls) s = read_config_line line s >>= read_config_lines ls

  pub read_config : Sys S F → Flow (Sys S F)
  read_config s = elim (s.files (codes "/etc/sysctrl.conf")) [
    | none ↦ on s
    | some text ↦ read_config_lines (lines 128 text) s
  ]
