-- ===== src/Sysctrl/Fan/Shared.antt =====
-- The files that sysctrl shares with the daemon of the DNS-320L: `write_pwm` and `read_fan` of
-- package/alt-f-utils/alt-f-utils-0.1.11/sysctrl.c against `readset_temp` of dns320l-daemon.c.
use alt_f.Prelude.{◌≡◌, ◌≢◌, refl, ◌∙◌, true, false, some, [], ◌∷◌, ◌++◌, ℕ}
use alt_f.Prelude.Int.{ℤ, pos}
use alt_f.Prelude.Text.{skip_spaces, decimal}
use alt_f.Prelude.Scan.{show_ℤ, scan_int}
use alt_f.Daemon.Serial.{success, Wire}
use alt_f.Daemon.State.{pwm, fan_input, Daemon, Host}
use alt_f.Daemon.State
use alt_f.Daemon.Actions.{send}
use alt_f.Daemon.Control.{fan_for, new_pwm}
use alt_f.Daemon.Control.Fan
use alt_f.Daemon.Control.Fan.{new_pwm_done, packet_of}
use alt_f.Sysctrl.Globals.{
  Sys, Machine, read_str_from_file, read_int_from_file, write_str_to_file, write_int_to_file,
}
use alt_f.Sysctrl.Fan.{sys_pwm, sys_fan_input, read_fan, write_pwm}
use alt_f.Sysctrl.Fan.Speeds.{Speed, off, low, fast, pwm_of, rpm_of}

module _ {S F : Type 0} where
  -- The text that stands in the file of the speeds after `write_pwm`.
  write_pwm_text :
      (m : Machine S) (t : Sys S F) (n : ℤ)
      → m.writable sys_pwm ≡ true
      → (write_pwm m t n).files sys_pwm ≡ some (show_ℤ n ++ 10 ∷ [])
  unfolding write_pwm write_int_to_file write_str_to_file
  write_pwm_text m t n h = rw h refl

module _ {S : Type 0} (w : Wire S) (retries : ℕ) (host : Host) (d : Daemon S) where
  reads_speed :
      (s : Speed)
      → d.files pwm ≡ some (show_ℤ (pwm_of s) ++ 10 ∷ [])
      → State.read_int_from_file d pwm host.stale_int ≡ some (pwm_of s)
  unfolding show_ℤ scan_int skip_spaces decimal State.read_int_from_file State.read_str_from_file
  reads_speed off e = rw (e, State.read_int_from_file, State.read_str_from_file) refl
  reads_speed low e = rw (e, State.read_int_from_file, State.read_str_from_file) refl
  reads_speed fast e = rw (e, State.read_int_from_file, State.read_str_from_file) refl

  told_speed :
      {S₂ F : Type 0} (s : Speed) (u : Sys S₂ F)
      → u.files sys_fan_input ≡ some (Fan.rpm_of (fan_for (pwm_of s)) ++ 10 ∷ [])
      → read_fan u ≡ rpm_of s
  unfolding read_fan read_int_from_file read_str_from_file scan_int skip_spaces decimal fan_for
  told_speed off u e = rw (e, read_int_from_file, read_str_from_file) refl
  told_speed low u e = rw (e, read_int_from_file, read_str_from_file) refl
  told_speed fast u e = rw (e, read_int_from_file, read_str_from_file) refl

  -- The two daemons understand each other about the three speeds of the fan: what `fanctl` writes for
  -- a speed is read by the daemon of the DNS-320L as this value, and once it has passed a new speed on
  -- to the controller, the file it writes tells `fanctl` the turns of the fan at this speed. This
  -- takes the two files to be shared and writable, the fan to run at another speed before, and the
  -- controller to take the packet.
  pub read_fan-write_pwm :
      {S₂ F : Type 0} (m : Machine S₂) (t u : Sys S₂ F) (s : Speed)
      → m.writable sys_pwm ≡ true
      → d.files pwm ≡ (write_pwm m t (pwm_of s)).files sys_pwm
      → pwm_of s ≢ d.old_pwm
      → d.fan_speed ≢ pos (fan_for (pwm_of s))
      → host.writable fan_input ≡ true
      → (send w retries host
          (record d { old_pwm = pwm_of s })
          (packet_of (fan_for (pwm_of s)))
          false).status
        ≡ success
      → u.files sys_fan_input ≡ (new_pwm w retries host d (pwm_of s)).files fan_input
      → (State.read_int_from_file d pwm host.stale_int ≡ some (pwm_of s)) × (read_fan u ≡ rpm_of s)
  read_fan-write_pwm m t u s can shared changed other writes ok back = (
    reads_speed s (shared ∙ write_pwm_text m t (pwm_of s) can),
    told_speed s u (back ∙ (new_pwm_done w retries host d (pwm_of s) changed other writes ok).1),
  )
