-- ===== src/Daemon/Control.antt =====
-- What the main loop does between commands, `readset_powerled` and `readset_temp` of
-- package/alt-f-utils/alt-f-utils-0.1.11/dns320l-daemon.c.
pub mod Fan
pub mod Led
use alt_f.Prelude.{ℕ, ◌||◌, none, some, List, ◌==◌, if◌then◌else◌}
use alt_f.Prelude.Int.{ℤ, pos, negsuc, ltb_ℤ, equal_ℤ}
use alt_f.Prelude.Text.{codes, bytes_eq}
use alt_f.Daemon.Commands.{
  fan_stop_cmd, fan_half_cmd, fan_full_cmd, pwr_led_off_cmd, pwr_led_on_cmd, pwr_led_blink_cmd,
  thermal_status_get_cmd,
}
use alt_f.Daemon.Serial.{Wire}
use alt_f.Daemon.State.{
  pled_trigger, pled_brightness, pwm, Daemon, Host, read_str_from_file, read_int_from_file,
}
use alt_f.Daemon.Actions.{Done, setfan_cmd, gettemperature_cmd, setpowerled_cmd}

-- `fanSpeed` for a `pwm`.
unfoldable pub fan_for : ℤ → ℕ
fan_for n = if equal_ℤ n (pos 0) then 0 else if ltb_ℤ n (pos 128) then 1 else 2

fan_cmd : ℕ → List ℕ
fan_cmd n = if n == 0 then fan_stop_cmd else if n == 1 then fan_half_cmd else fan_full_cmd

module _ {S : Type 0} (w : Wire S) (retries : ℕ) (host : Host) where
  -- "heartbeat" and "timer" blink; the brightness is then to be set again.
  blink : Daemon S → List ℕ → Daemon S
  blink d trigger =
      let r = setpowerled_cmd w retries host d pwr_led_blink_cmd 16 in
      if bytes_eq (codes "heartbeat") trigger || bytes_eq (codes "timer") trigger
      then if equal_ℤ r.code (pos 0)
        then record r.daemon { led_brightness = negsuc 0 }
        else r.daemon
      else d

  new_trigger : Daemon S → List ℕ → Daemon S
  unfolding blink
  new_trigger d trigger =
      if bytes_eq d.led_trigger trigger
      then d
      else blink (record d { led_trigger = trigger }) trigger

  new_brightness : Daemon S → ℤ → Daemon S
  new_brightness d n =
      let d' = record d { led_brightness = n } in
      let off = setpowerled_cmd w retries host d' pwr_led_off_cmd 16 in
      let on = setpowerled_cmd w retries host d' pwr_led_on_cmd 16 in
      if equal_ℤ d.led_brightness n
      then d
      else if equal_ℤ n (pos 0)
      then off.daemon
      else if equal_ℤ n (pos 1)
      then on.daemon
      else d'

  -- `stale` is what stands in `led_brightness` before it is read, in this and the next function.
  steady : ℤ → Daemon S → List ℕ → Daemon S
  unfolding new_brightness
  steady stale d trigger =
      if bytes_eq (codes "none") trigger
      then elim (read_int_from_file d pled_brightness stale) [
        | none ↦ d
        | some n ↦ new_brightness d n
      ]
      else d

  pub readset_powerled : ℤ → Daemon S → Daemon S
  unfolding new_trigger steady
  readset_powerled stale d = elim (read_str_from_file d pled_trigger 32) [
    | none ↦ d
    | some trigger ↦ steady stale (new_trigger d trigger) trigger
  ]

  -- The new temperature is remembered for the log.
  note_temp : Done S → Daemon S
  note_temp r =
      if equal_ℤ r.code (pos 0) then record r.daemon { old_temp = r.message } else r.daemon

  -- The command goes out when the fan has another speed.
  set_speed : Daemon S → ℕ → Daemon S
  unfolding fan_cmd
  set_speed d n =
      let r = setfan_cmd w retries host d (fan_cmd n) 16 in
      if equal_ℤ d.fan_speed (pos n) then d else r.daemon

  pub new_pwm : Daemon S → ℤ → Daemon S
  unfolding set_speed
  new_pwm d n = if equal_ℤ n d.old_pwm then d else set_speed (record d { old_pwm = n }) (fan_for n)

  pub readset_temp : Daemon S → Daemon S
  unfolding note_temp
  readset_temp d =
      let d' = note_temp (gettemperature_cmd w retries host d thermal_status_get_cmd 16) in
      elim (read_int_from_file d' pwm host.stale_int) [ none ↦ d' | some n ↦ new_pwm d' n ]
