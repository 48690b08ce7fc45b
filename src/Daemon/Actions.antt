-- ===== src/Daemon/Actions.antt =====
-- The commands that set and read the controller's switches, fan, temperature and LED:
-- package/alt-f-utils/alt-f-utils-0.1.11/dns320l-daemon.c.
use alt_f.Prelude.{
  ℕ, ◌-◌, ◌*◌, Bool, true, false, none, some, List, [], get_or, get_elem?, take, set, ◌==◌,
  if◌then◌else◌,
}
use alt_f.Prelude.Int.{ℤ, pos, negsuc}
use alt_f.Prelude.Text.{codes}
use alt_f.Prelude.Word.{u8_of_ℤ}
use alt_f.Daemon.Commands.{thermal_table, device_shutdown_cmd}
use alt_f.Daemon.Bcd.{int2bcd}
use alt_f.Daemon.Serial.{success, Wire, Reply, SendCommand}
use alt_f.Daemon.State.{
  pled_trigger, pled_brightness, fan_input, temp_input, Daemon, Host, show_ℤ, scan_int,
  write_str_to_file, write_int_to_file,
}

-- What a command returns, what stands in `retMessage`, and the daemon afterwards.
pub record Done (S : Type 0) : Type 0 where
  pub code : ℤ
  pub message : List ℕ
  pub daemon : Daemon S

-- `strncpy(retMessage, text, retSize)` and `snprintf(retMessage, retSize, ...)`.
abbrev pub strncpy : List ℕ → ℕ → List ℕ
strncpy text size = take size text

abbrev pub snprintf : List ℕ → ℕ → List ℕ
snprintf text size = take (size - 1) text

module _ {S : Type 0} (w : Wire S) (retries : ℕ) (host : Host) where
  unfoldable pub err : Daemon S → ℕ → Done S
  err d size = record { code = pos 1; message = strncpy (codes "ERR") size; daemon = d }

  unfoldable pub done_ok : Daemon S → ℕ → Done S
  done_ok d size = record { code = pos 0; message = strncpy (codes "OK") size; daemon = d }

  -- `SendCommand(fd, mcmd, NULL)` or `SendCommand(fd, mcmd, buf)`, with the daemon's line.
  unfoldable pub send : Daemon S → List ℕ → Bool → Reply S
  send d mcmd wanted = SendCommand w retries d.line mcmd wanted []

  unfoldable pub simple_cmd : Daemon S → List ℕ → ℕ → Done S
  simple_cmd d mcmd size =
      let r = send d mcmd false in
      let d' = record d { line = r.line } in
      elim r.status [ success ↦ done_ok d' size | _ ↦ err d' size ]

  unfoldable pub simple_cmd2 : Daemon S → List ℕ → ℕ → Done S
  simple_cmd2 d mcmd size =
      let r = send d mcmd true in
      let d' = record d { line = r.line } in
      elim r.status [
        | success ↦ record {
          code = pos 0;
          message = snprintf (show_ℤ (pos (get_or r.buf 5 0))) size;
          daemon = d';
        }
        | _ ↦ err d' size
      ]

  -- The text for the fan's file, and the daemon with its `fanSpeed`.
  fan_switch : Daemon S → ℕ → List ℕ × Daemon S
  fan_switch d n =
      if n == 0
      then (codes "0", record d { fan_speed = pos 0 })
      else if n == 1
      then (codes "3000", record d { fan_speed = pos 1 })
      else if n == 2
      then (codes "6000", record d { fan_speed = pos 2 })
      else (codes "0", d)

  unfoldable pub set_fan : Done S → List ℕ → ℕ → Done S
  unfolding fan_switch
  set_fan r mcmd size = elim r.code [
    | pos n ↦ elim (n == 0) [
      | true ↦
          let (text, d) = fan_switch r.daemon (get_or mcmd 3 0) in
          done_ok (write_str_to_file host d fan_input text) size
      | false ↦ err r.daemon size
    ]
    | negsuc n ↦ err r.daemon size
  ]

  unfoldable pub setfan_cmd : Daemon S → List ℕ → ℕ → Done S
  setfan_cmd d mcmd size = set_fan (simple_cmd d mcmd size) mcmd size

  -- A reading behind the end of the table is not refused.
  pub temperature : ℕ → ℕ
  temperature n = elim (get_elem? thermal_table n) [ none ↦ host.behind_table n | some t ↦ t ]

  unfoldable pub gettemperature_cmd : Daemon S → List ℕ → ℕ → Done S
  gettemperature_cmd d mcmd size =
      let r = send d mcmd true in
      let d' = record d { line = r.line } in
      let text = snprintf (show_ℤ (pos (temperature (get_or r.buf 5 0) * 1000))) size in
      elim r.status [
        | success ↦ record {
          code = pos 0;
          message = text;
          daemon = write_str_to_file host d' temp_input text;
        }
        | _ ↦ err d' size
      ]

  unfoldable pub led_switch : Daemon S → ℕ → Daemon S
  led_switch d n =
      if n == 0
      then record d { led_trigger = codes "none"; led_brightness = pos 0 }
      else if n == 1
      then record d { led_trigger = codes "none"; led_brightness = pos 1 }
      else if n == 2
      then record d { led_trigger = codes "timer" }
      else d

  -- The two files are written after the globals are set.
  unfoldable pub tell_led : Daemon S → Daemon S
  tell_led d =
      write_int_to_file host (write_str_to_file host d pled_trigger d.led_trigger) pled_brightness
        d.led_brightness

  unfoldable pub set_powerled : Done S → List ℕ → ℕ → Done S
  set_powerled r mcmd size = elim r.code [
    | pos n ↦ elim (n == 0) [
      | true ↦ done_ok (tell_led (led_switch r.daemon (get_or mcmd 3 0))) size
      | false ↦ err r.daemon size
    ]
    | negsuc n ↦ err r.daemon size
  ]

  unfoldable pub setpowerled_cmd : Daemon S → List ℕ → ℕ → Done S
  setpowerled_cmd d mcmd size = set_powerled (simple_cmd d mcmd size) mcmd size

  -- `text` is what `retMessage` holds on entry; a text without a number stands for 5 seconds.
  unfoldable pub deviceshutdown_cmd : Daemon S → List ℕ → ℕ → Done S
  deviceshutdown_cmd d text size =
      simple_cmd d (set device_shutdown_cmd 5 (u8_of_ℤ (int2bcd (scan_int text (pos 5))))) size

  unfoldable pub shutdowndaemon_cmd : Daemon S → ℕ → Done S
  shutdowndaemon_cmd d size = record (done_ok d size) { code = negsuc 1 }

  unfoldable pub quit_cmd : Daemon S → ℕ → Done S
  quit_cmd d size = record { code = negsuc 0; message = strncpy (codes "Bye") size; daemon = d }
