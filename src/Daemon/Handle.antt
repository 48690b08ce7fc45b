-- ===== src/Daemon/Handle.antt =====
-- The commands of a client: `cmds` of package/alt-f-utils/alt-f-utils-0.1.11/dns320l-daemon.h, and
-- `help_cmd` and `HandleCommand` of dns320l-daemon.c beside it.
pub mod Answers
pub mod Names
pub mod Dispatch
use alt_f.Prelude.{
  ℕ, ◌-◌, Bool, Option, none, some, List, [], ◌∷◌, ◌++◌, map, String, take, length, ◌==◌,
  if◌then◌else◌,
}
use alt_f.Prelude.Int.{pos}
use alt_f.Prelude.Text.{codes, bytes_eq}
use alt_f.Daemon.Commands.{
  apr_disable_cmd, apr_enable_cmd, apr_status_cmd, device_ready_cmd, device_shutdown_cmd,
  fan_full_cmd, fan_half_cmd, fan_stop_cmd, pwr_led_blink_cmd, pwr_led_off_cmd, pwr_led_on_cmd,
  r_date_and_time_cmd, thermal_status_get_cmd, w_alarm_disable_cmd, w_alarm_enable_cmd,
  w_date_and_time_cmd, wol_status_disable_cmd, wol_status_enable_cmd, wol_status_get_cmd,
}
use alt_f.Daemon.Serial.{Wire}
use alt_f.Daemon.State.{Daemon, Host}
use alt_f.Daemon.Actions.{
  Done, simple_cmd, simple_cmd2, setfan_cmd, gettemperature_cmd, setpowerled_cmd,
  deviceshutdown_cmd, shutdowndaemon_cmd, quit_cmd,
}
use alt_f.Daemon.Alarm.{Tm, Clock, to_lower, read_alarm_cmd}
use alt_f.Daemon.Alarm.Write.{write_alarm_cmd}
use alt_f.Daemon.Rtc.{systohc_cmd, hctosys_cmd, readrtc_cmd}

pub data Func : Type 0 where
  simple simple2 deviceshutdown shutdowndaemon setfan setpowerled readrtc read_alarm write_alarm
        systohc hctosys gettemperature help quit :
      Func

-- A row of `cmds`; NULL is the empty packet, which no function looks at.
pub record Cmd : Type 0 where
  pub ucmd : List ℕ
  pub mcmd : List ℕ
  pub func : Func

abbrev cmd : String → List ℕ → Func → Cmd
cmd name packet f = record { ucmd = codes name; mcmd = packet; func = f }

abbrev pub cmds : List Cmd
cmds =
    cmd "DeviceReady" device_ready_cmd simple
    ∷ cmd "DeviceShutdown" device_shutdown_cmd deviceshutdown
    ∷ cmd "ShutdownDaemon" [] shutdowndaemon
    ∷ cmd "EnablePowerRecovery" apr_enable_cmd simple
    ∷ cmd "DisablePowerRecovery" apr_disable_cmd simple
    ∷ cmd "GetPowerRecoveryState" apr_status_cmd simple2
    ∷ cmd "EnableWOL" wol_status_enable_cmd simple
    ∷ cmd "DisableWOL" wol_status_disable_cmd simple
    ∷ cmd "GetWOLState" wol_status_get_cmd simple2
    ∷ cmd "SetFanStop" fan_stop_cmd setfan
    ∷ cmd "SetFanHalf" fan_half_cmd setfan
    ∷ cmd "SetFanFull" fan_full_cmd setfan
    ∷ cmd "PowerLedOn" pwr_led_on_cmd setpowerled
    ∷ cmd "PowerLedOff" pwr_led_off_cmd setpowerled
    ∷ cmd "PowerLedBlink" pwr_led_blink_cmd setpowerled
    ∷ cmd "ReadRtc" r_date_and_time_cmd readrtc
    ∷ cmd "ReadAlarm" [] read_alarm
    ∷ cmd "WriteAlarm" [] write_alarm
    ∷ cmd "EnableAlarm" w_alarm_enable_cmd simple
    ∷ cmd "DisableAlarm" w_alarm_disable_cmd simple
    ∷ cmd "systohc" w_date_and_time_cmd systohc
    ∷ cmd "hctosys" r_date_and_time_cmd hctosys
    ∷ cmd "GetTemperature" thermal_status_get_cmd gettemperature
    ∷ cmd "help" [] help
    ∷ cmd "quit" [] quit
    ∷ []

-- `strcasecmp(a, b) == 0`
pub same_name : List ℕ → List ℕ → Bool
same_name a b = bytes_eq (map to_lower a) (map to_lower b)

pub find : List Cmd → List ℕ → Option Cmd
find [] name = none
find (c ∷ cs) name = let rest = find cs name in if same_name c.ucmd name then some c else rest

-- The name up to the first blank, and the options behind it where there is a blank.
pub split_name : List ℕ → List ℕ × Option (List ℕ)
split_name [] = ([], none)
split_name (c ∷ cs) =
    let (name, opts) = split_name cs in if c == 32 then ([], some cs) else (c ∷ name, opts)

join_names : List Cmd → List ℕ
join_names [] = []
join_names (c ∷ cs) = c.ucmd ++ codes ", " ++ join_names cs

-- The last comma and blank give way to the full stop.
pub help_text : List ℕ
unfolding join_names
help_text =
    let text = codes "Available Commands:\n\n" ++ join_names cmds in
    take (length text - 2) text ++ codes "."

module _ {S : Type 0} (w : Wire S) (retries : ℕ) (host : Host) (clock : Clock) (utc : Tm) where
  help_cmd : Daemon S → Done S
  help_cmd d = record { code = pos 1; message = help_text; daemon = d }

  -- `cmds[i].func(cmds[i].mcmd, retMessage, retSize)`
  pub call : Func → Daemon S → List ℕ → List ℕ → ℕ → Done S
  unfolding help_cmd
  call simple d m text size = simple_cmd w retries host d m size
  call simple2 d m text size = simple_cmd2 w retries host d m size
  call deviceshutdown d m text size = deviceshutdown_cmd w retries host d text size
  call shutdowndaemon d m text size = shutdowndaemon_cmd w retries host d size
  call setfan d m text size = setfan_cmd w retries host d m size
  call setpowerled d m text size = setpowerled_cmd w retries host d m size
  call readrtc d m text size = readrtc_cmd w retries host clock d m size
  call read_alarm d m text size = read_alarm_cmd w retries host clock d size
  call write_alarm d m text size = write_alarm_cmd w retries host clock d text size
  call systohc d m text size = systohc_cmd w retries host clock d m utc size
  call hctosys d m text size = hctosys_cmd w retries host clock d size
  call gettemperature d m text size = gettemperature_cmd w retries host d m size
  call help d m text size = help_cmd d
  call quit d m text size = quit_cmd w retries host d size

  pub unknown : List ℕ → Daemon S → Done S
  unknown name d = record {
    code = pos 1;
    message = codes "ERR Unknown command \"" ++ name ++ codes "\"";
    daemon = d;
  }

  pub dispatch : Option Cmd → List ℕ → Daemon S → List ℕ → ℕ → Done S
  dispatch none name d text size = unknown name d
  dispatch (some c) name d text size = call c.func d c.mcmd text size

  -- `text` is what `retMessage` holds on entry: options that come with the command take its place.
  unfoldable pub HandleCommand : Daemon S → List ℕ → List ℕ → ℕ → Done S
  HandleCommand d line text size =
      let (name, opts) = split_name line in
      dispatch (find cmds name) name d (elim opts [ none ↦ text | some o ↦ o ]) size
