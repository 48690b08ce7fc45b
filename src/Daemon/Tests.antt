-- ===== src/Daemon/Tests.antt =====
-- Runs of the DNS-320L daemon with a scripted controller and scripted clients.
mod Alarm
use alt_f.Prelude.{
  ap, ℕ, ◌≤◌, ◌≡◌, ◌≢◌, ◌↔◌, refl, Bool, true, false, Option, none, some, List, [], ◌∷◌, ◌++◌,
  length, replicate, take, arith, ◌==◌, not, ◌&&◌,
}
use alt_f.Prelude.Int.{pos}
use alt_f.Prelude.Text.{codes, skip_spaces}
use alt_f.Prelude.Word.{u8_of_ℤ}
use alt_f.Daemon.Bcd.{bcd2int, int2bcd, bcd2int-int2bcd, int2bcd-ne-stop_magic}
use alt_f.Daemon.Commands.{
  stop_magic, ack_from_serial, fan_half_cmd, thermal_status_get_cmd, w_date_and_time_cmd,
}
use alt_f.Daemon.Serial.{
  success, Wire, SendCommand, _SendCommand, send_pkt, ClearSerialPort, answer, expect, finish,
  receive_pkt, CheckResponse,
}
use alt_f.Daemon.Serial.Laws.{IsBody, over, Gives, Takes, _SendCommand_answered}
use alt_f.Daemon.Serial.Sound.{SendCommand_sound}
use alt_f.Daemon.Serial.Retry.{Fails, SendCommand_retried, SendCommand_exhausted}
use alt_f.Daemon.Rtc.{with_date, date_of}
use alt_f.Daemon.Rtc.Laws.{tm_of, date_of-with_date}
use alt_f.Daemon.Actions.{send}
use alt_f.Daemon.Control.{fan_for, new_pwm, readset_powerled}
use alt_f.Daemon.Control.Led.Once.{readset_powerled_twice}
use alt_f.Daemon.Control.Fan.{rpm_of, new_pwm_done, new_pwm_lost}
use alt_f.Daemon.Poll.Invariant.{IsSafe}
use alt_f.Daemon.Poll.Overflow.{serve_fault_iff}
use alt_f.Daemon.Loop.Schedule.{control_early, tick_late}
use alt_f.Daemon.Loop.Safety.{main_loop-startup}
use alt_f.Daemon.Handle.{split_name, setfan, call, HandleCommand}
use alt_f.Daemon.Handle.Dispatch.{HandleCommand-row}
use alt_f.Daemon.Handle.Names.{Lacks}
use alt_f.Daemon.Client.{request, options}
use alt_f.Daemon.Client.Laws.{line_of-request}
use alt_f.Daemon.State.{
  Sysfile, pled_trigger, pled_brightness, fan_input, Daemon, Host, read_int_from_file,
  read_str_from_file, scan_int,
}
use alt_f.Daemon.Alarm.{to_lower, Tm, Clock}
use alt_f.Daemon.Poll.{
  line_of, serve, poll_wait, Net, timed_out, events, Server, fault, no_events, Revents,
}
use alt_f.Daemon.Loop.{first_daemon, control, tick, startup, main_loop}

-- The controller's bytes are given beforehand, and it takes whatever is sent.
abbrev pub scripted : Wire (List ℕ)
scripted = record {
  pending = λ _. 0;
  discard = λ s _. s;
  put = λ s _. (true, s);
  get = λ s. elim s [ [] ↦ (none, []) | b ∷ bs ↦ (some b, bs) ];
  stale = λ _. replicate 16 0;
}

-- A line on which nothing can be written.
abbrev cut_off : Wire (List ℕ)
cut_off = record {
  pending = λ _. 0;
  discard = λ s _. s;
  put = λ s _. (false, s);
  get = λ s. (none, s);
  stale = λ _. replicate 16 0;
}

abbrev pub host : Host
host = record { writable = λ _. true; stale_int = pos 0; stale_led = pos; behind_table = λ _. 0 }

abbrev new_year : Tm
new_year = record {
  sec = pos 0;
  min = pos 0;
  hour = pos 0;
  mday = pos 1;
  mon = pos 0;
  year = pos 117;
  wday = pos 0;
}

abbrev clock : Clock
clock = record {
  now = pos 1483228800;
  localtime = λ _. new_year;
  gmtime = λ _. some new_year;
  mktime = λ _. some (pos 1483228800);
  timegm = λ _. some (pos 1483228800);
  date_text = λ _. codes "2017-01-01 00:00";
  ctime = λ _. codes "Sun Jan  1 00:00:00 2017\n";
  settimeofday = λ _. true;
}

abbrev no_files : Sysfile → Option (List ℕ)
no_files _ = none

-- A daemon whose controller acknowledges so often.
abbrev pub daemon_with : List ℕ → Daemon (List ℕ)
daemon_with script = first_daemon script no_files

-- One client, number 7, that sends these bytes.
abbrev client_sends : List ℕ → Net (List ℕ)
client_sends bytes = record {
  accept = λ s. (some 7, s);
  recv = λ s _. (some bytes, s);
  send = λ s _ _. (true, s);
  cleanup = λ s _. s;
}

abbrev readable : Revents
readable = record { pollin = true; pollhup = false; pollerr = false; pollnval = false }

-- The controller's answer to a request for the temperature.
abbrev temperature_answer : List ℕ
temperature_answer = 0xfa ∷ 3 ∷ 8 ∷ 0 ∷ 0 ∷ 39 ∷ []

abbrev answered : List ℕ
answered = (temperature_answer ++ stop_magic ∷ []) ++ ack_from_serial

SendCommand_sound_example :
    take 5 (SendCommand scripted 2 answered thermal_status_get_cmd true []).buf
    ≡ take 5 thermal_status_get_cmd
unfolding SendCommand _SendCommand send_pkt ClearSerialPort answer expect finish receive_pkt
    CheckResponse
SendCommand_sound_example = SendCommand_sound scripted 2 answered thermal_status_get_cmd [] refl

-- Over a line that is cut off, three attempts fail.
SendCommand_exhausted_example :
    Fails cut_off thermal_status_get_cmd true 3 answered []
      (SendCommand cut_off 2 answered thermal_status_get_cmd true []).line
      (SendCommand cut_off 2 answered thermal_status_get_cmd true []).buf
unfolding SendCommand _SendCommand send_pkt ClearSerialPort
SendCommand_exhausted_example =
    SendCommand_exhausted cut_off thermal_status_get_cmd true 2 answered [] (λ e. ground (arith, e))

-- A wrong first byte, then the answer.
SendCommand_retried_example :
    SendCommand scripted 1 (0xfb ∷ answered) thermal_status_get_cmd true []
    ≡ _SendCommand scripted answered thermal_status_get_cmd true []
unfolding Fails _SendCommand send_pkt ClearSerialPort answer expect finish receive_pkt CheckResponse
SendCommand_retried_example =
    SendCommand_retried scripted thermal_status_get_cmd true 1 1 (0xfb ∷ answered) answered [] []
      (omega arith) ((λ e. ground (arith, e)), (refl, refl)) refl

lacks : ℕ → List ℕ → Bool
lacks x [] = true
lacks x (c ∷ cs) = not (c == x) && lacks x cs

-- A text that is given has no such byte.
Lacks-by : (x : ℕ) (cs : List ℕ) → lacks x cs ≡ true → Lacks x cs
unfolding lacks
Lacks-by x [] h = tt
Lacks-by x (c ∷ cs) h = ((λ e. ground (arith, h, e)), Lacks-by x cs (ground (arith, h)))

IsBody-by : (cs : List ℕ) → Lacks stop_magic cs → IsBody cs
unfolding IsBody
IsBody-by [] h = tt
IsBody-by (c ∷ cs) (h, hs) = (h, IsBody-by cs hs)

-- It gives the bytes at the front of what it was given, and takes everything.
scripted-Gives : (bs rest : List ℕ) → Gives scripted (bs ++ rest) bs rest
unfolding Gives
scripted-Gives [] rest = refl
scripted-Gives (b ∷ bs) rest = (bs ++ rest, refl, scripted-Gives bs rest)

scripted-Takes : (bs s : List ℕ) → Takes scripted s bs s
unfolding Takes
scripted-Takes [] s = refl
scripted-Takes (b ∷ bs) s = (s, refl, scripted-Takes bs s)

_SendCommand_answered_example :
    _SendCommand scripted answered thermal_status_get_cmd true [] ≡ record {
      status = success;
      line = [];
      buf = over (temperature_answer ++ stop_magic ∷ []) (replicate 16 0);
    }
unfolding lacks ClearSerialPort
_SendCommand_answered_example =
    _SendCommand_answered scripted (take 6 thermal_status_get_cmd) temperature_answer answered
      answered ack_from_serial [] [] refl
      (IsBody-by (take 6 thermal_status_get_cmd)
        (Lacks-by stop_magic (take 6 thermal_status_get_cmd) refl))
      (IsBody-by temperature_answer (Lacks-by stop_magic temperature_answer refl)) (omega arith)
      (omega arith) refl (scripted-Takes (take 7 thermal_status_get_cmd) answered)
      (scripted-Gives (temperature_answer ++ stop_magic ∷ []) ack_from_serial)
      (scripted-Gives ack_from_serial [])

bcd2int-int2bcd_example : bcd2int (u8_of_ℤ (int2bcd (pos 59))) ≡ 59
bcd2int-int2bcd_example = bcd2int-int2bcd 59 (omega arith)

int2bcd-ne-stop_magic_example : u8_of_ℤ (int2bcd (pos 251)) ≢ stop_magic
int2bcd-ne-stop_magic_example = int2bcd-ne-stop_magic 251

-- The last second of the year 2016.
date_of-with_date_example :
    date_of (with_date w_date_and_time_cmd (tm_of 59 59 23 31 11 16 6)) ≡ tm_of 59 59 23 31 11 16 0
date_of-with_date_example =
    date_of-with_date 59 59 23 31 11 16 6 (omega arith) (omega arith) (omega arith) (omega arith)
      (omega arith) (omega arith)

-- `SETFANHALF` with options.
HandleCommand-row_example :
    HandleCommand scripted 2 host clock new_year
      (daemon_with ack_from_serial)
      (codes "SETFANHALF" ++ 32 ∷ codes "now")
      []
      512
    ≡ call scripted 2 host clock new_year setfan
        (daemon_with ack_from_serial)
        fan_half_cmd
        (codes "now")
        512
unfolding lacks to_lower
HandleCommand-row_example =
    HandleCommand-row scripted 2 host clock new_year (daemon_with ack_from_serial) 10
      (record { ucmd = codes "SetFanHalf"; mcmd = fan_half_cmd; func = setfan })
      (codes "SETFANHALF") (codes "now") [] 512 refl refl (Lacks-by 32 (codes "SETFANHALF") refl)

line_of-request_example :
    HandleCommand scripted 2 host clock new_year
      (daemon_with [])
      (line_of (request (codes "DeviceShutdown") (some (codes "10")) ++ 10 ∷ []))
      []
      512
    ≡ HandleCommand scripted 2 host clock new_year
        (daemon_with [])
        (codes "DeviceShutdown")
        (options (some (codes "10")))
        512
unfolding lacks options
line_of-request_example =
    line_of-request scripted 2 host clock new_year (daemon_with []) (codes "DeviceShutdown")
      (some (codes "10")) 512 (Lacks-by 32 (codes "DeviceShutdown") refl)
      (Lacks-by 0 (codes "DeviceShutdown") refl) (Lacks-by 0 (codes "10") refl)

new_pwm_done_example :
    ((new_pwm scripted 2 host (daemon_with ack_from_serial) (pos 100)).fan_speed
      ≡ pos (fan_for (pos 100)))
    × ((new_pwm scripted 2 host (daemon_with ack_from_serial) (pos 100)).files fan_input
        ≡ some (rpm_of (fan_for (pos 100)) ++ 10 ∷ []))
unfolding send SendCommand _SendCommand send_pkt ClearSerialPort answer expect finish receive_pkt
    CheckResponse fan_for
new_pwm_done_example =
    new_pwm_done scripted 2 host (daemon_with ack_from_serial) (pos 100) (λ e. ground (arith, e))
      (λ e. ground (arith, e)) refl refl

new_pwm_lost_example :
    ((new_pwm cut_off 2 host (daemon_with []) (pos 0)).fan_speed ≡ (daemon_with []).fan_speed)
    × (new_pwm cut_off 2 host (new_pwm cut_off 2 host (daemon_with []) (pos 0)) (pos 0)
        ≡ new_pwm cut_off 2 host (daemon_with []) (pos 0))
unfolding send SendCommand _SendCommand send_pkt ClearSerialPort fan_for
new_pwm_lost_example =
    new_pwm_lost cut_off 2 host (daemon_with []) (pos 0) (λ e. ground (arith, e))
      (λ e. ground (arith, e)) (λ e. ground (arith, e))

-- After three weeks and a half.
control_early_example :
    control (client_sends []) scripted 2 host clock new_year 214748350 (daemon_with [])
    ≡ readset_powerled scripted 2 host (pos 214748350) (daemon_with [])
control_early_example =
    control_early (client_sends []) scripted 2 host clock new_year 214748350 (daemon_with [])
      (omega arith)

abbrev server : Server (List ℕ) (List ℕ)
server =
    startup (client_sends (codes "quit\n")) scripted 2 host clock new_year
      (daemon_with ack_from_serial) [] 3

-- A month after the start.
tick_late_example :
    tick (client_sends (codes "quit\n")) scripted 2 host clock new_year 259200000 server timed_out
    ≡ poll_wait (client_sends (codes "quit\n")) scripted 2 host clock new_year server timed_out
tick_late_example =
    tick_late (client_sends (codes "quit\n")) scripted 2 host clock new_year 259200000 server
      timed_out (omega arith) (omega arith)

serve_fault_iff_example :
    (serve (client_sends []) scripted 2 host clock new_year server 1 7 (some (replicate 491 65))
      ≡ fault)
    ↔ (490 ≤ length (split_name (line_of (replicate 491 65))).0)
serve_fault_iff_example =
    serve_fault_iff (client_sends []) scripted 2 host clock new_year server 1 7 65
      (replicate 490 65)

-- A client connects and then asks for the connection to be closed.
main_loop-startup_example : IsSafe (
    main_loop
      (client_sends (codes "quit\n"))
      scripted
      2
      host
      clock
      new_year
      0
      (startup
        (client_sends (codes "quit\n"))
        scripted
        2
        host
        clock
        new_year
        (daemon_with ack_from_serial)
        []
        3)
      (events 1 (readable ∷ []) ∷ events 1 (no_events ∷ readable ∷ []) ∷ timed_out ∷ []))
main_loop-startup_example =
    main_loop-startup (client_sends (codes "quit\n")) scripted 2 host clock new_year
      (λ s f b bytes e. omega (
        arith,
        ap {A = Option (List ℕ)} {B = ℕ} (λ o. elim o [ none ↦ 0 | some bs ↦ length bs ]) e,
      ))
      (daemon_with ack_from_serial) [] 3
      (events 1 (readable ∷ []) ∷ events 1 (no_events ∷ readable ∷ []) ∷ timed_out ∷ [])

-- The LED's files as another program left them.
abbrev heartbeat_files : Sysfile → Option (List ℕ)
heartbeat_files pled_trigger = some (codes "heartbeat\n")
heartbeat_files pled_brightness = some (codes "1\n")
heartbeat_files _ = none

readset_powerled_twice_example :
    readset_powerled scripted 2 host
      (pos 5)
      (readset_powerled scripted 2 host (pos 7) (first_daemon ack_from_serial heartbeat_files))
    ≡ readset_powerled scripted 2 host (pos 7) (first_daemon ack_from_serial heartbeat_files)
unfolding read_int_from_file read_str_from_file scan_int skip_spaces
readset_powerled_twice_example =
    readset_powerled_twice scripted 2 host refl refl (first_daemon ack_from_serial heartbeat_files)
      (pos 7) (pos 5) (λ x y. refl)
