-- ===== src/Daemon/State.antt =====
-- The globals of the daemon and the files under /tmp/sys that it shares with sysctrl:
-- package/alt-f-utils/alt-f-utils-0.1.11/dns320l-daemon.c.
use alt_f.Prelude.{
  ℕ, ◌-◌, Bool, Option, none, some, List, [], ◌∷◌, ◌++◌, length, take, ltb, ◌==◌, if◌then◌else◌,
}
use alt_f.Prelude.Int.{ℤ}
unfoldable pub use alt_f.Prelude.Scan.{c_string, show_ℤ, scan_int, strtol}

-- sys_pled_trigger, sys_pled_brightness, sys_pwm, sys_fan_input, sys_temp_input.
pub data Sysfile : Type 0 where
  pled_trigger pled_brightness pwm fan_input temp_input : Sysfile

abbrev sysfile_id : Sysfile → ℕ
sysfile_id pled_trigger = 0
sysfile_id pled_brightness = 1
sysfile_id pwm = 2
sysfile_id fan_input = 3
sysfile_id temp_input = 4

-- `line` is the controller's; `files` has `none` where a file cannot be opened. `old_temp` and
-- `old_pwm` are the statics of `readset_temp`.
pub record Daemon (S : Type 0) : Type 0 where
  pub line : S
  pub files : Sysfile → Option (List ℕ)
  pub fan_speed : ℤ
  pub led_trigger : List ℕ
  pub led_brightness : ℤ
  pub old_temp : List ℕ
  pub old_pwm : ℤ

-- What the program does not decide: which of the files can be opened for writing, the `int` that
-- stands in the uninitialised `pwm`, the one in `led_brightness` in each round of the main loop, and
-- what stands behind ThermalTable in memory.
pub record Host : Type 0 where
  pub writable : Sysfile → Bool
  pub stale_int : ℤ
  pub stale_led : ℕ → ℤ
  pub behind_table : ℕ → ℕ

with_text : Sysfile → List ℕ → (Sysfile → Option (List ℕ)) → Sysfile → Option (List ℕ)
with_text f text files g = if sysfile_id g == sysfile_id f then some text else files g

module _ {S : Type 0} where
  -- The last byte read, a newline, gives way to the 0; `none` is -1.
  unfoldable pub read_str_from_file : Daemon S → Sysfile → ℕ → Option (List ℕ)
  read_str_from_file d f sz = elim (d.files f) [
    | none ↦ none
    | some bytes ↦
        let got = take sz bytes in
        if ltb (length got) 1 then none else some (c_string (take (length got - 1) got))
  ]

  unfoldable pub read_int_from_file : Daemon S → Sysfile → ℤ → Option ℤ
  read_int_from_file d f old = elim (read_str_from_file d f 64) [
    | none ↦ none
    | some text ↦ some (scan_int text old)
  ]

  -- The result, which no caller uses, is left out. A text has less than 64 bytes.
  unfoldable pub write_str_to_file : Host → Daemon S → Sysfile → List ℕ → Daemon S
  unfolding with_text
  write_str_to_file h d f str =
      if h.writable f then record d { files = with_text f (str ++ 10 ∷ []) d.files } else d

  unfoldable pub write_int_to_file : Host → Daemon S → Sysfile → ℤ → Daemon S
  write_int_to_file h d f u = write_str_to_file h d f (show_ℤ u)
