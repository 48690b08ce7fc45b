-- ===== src/Sysctrl/Tests.antt =====
-- The daemon on small inputs: a box whose buttons are a list of readings.
pub mod Devices
use alt_f.Prelude.{
  ℕ, ◌+◌, ◌-◌, ◌*◌, ◌/◌, ◌^◌, ◌≤◌, ◌<◌, ◌≡◌, refl, sym, inl, true, false, ltb, ◌==◌, Option, none,
  some, List, [], ◌∷◌, ◌++◌, length, replicate, ◌⊎◌, arith,
}
use alt_f.Prelude.Int.{◌+ℤ◌, ℤ, pos, pos_part}
use alt_f.Prelude.Text.{codes, skip_spaces, decimal}
use alt_f.Daemon.Commands.{ack_from_serial}
use alt_f.Daemon.Serial.{
  SendCommand, _SendCommand, send_pkt, ClearSerialPort, answer, expect, finish, receive_pkt,
  CheckResponse,
}
use alt_f.Daemon.State
use alt_f.Daemon.State.{pwm, Daemon}
use alt_f.Daemon.Actions.{send}
use alt_f.Daemon.Control.{fan_for}
use alt_f.Daemon.Control.Fan.{new_pwm_done}
use alt_f.Daemon.Tests.{scripted, host, daemon_with}
use alt_f.Sysctrl.Fan.{sys_pwm, sys_fan_input, read_fan, write_pwm}
use alt_f.Sysctrl.Fan.Shared.{read_fan-write_pwm}
use alt_f.Sysctrl.Led.{check_syserrlog}
use alt_f.Sysctrl.Led.Errors.{syserrorlog-Shows}
use alt_f.Sysctrl.Globals.{
  dns_325_ax, Disk, ledoff, Reading, nothing, partial, again, event, passes, Sys, Machine, on, left,
  powered_off, with_text, syswrite, write_str_to_file, syserrorlog, poweroff, become,
  exec_userscript,
}
use alt_f.Sysctrl.Globals.{
  na, ledon, ledblink, fails, usb_dev, spindown, calling, read_str_from_file, read_int_from_file,
}
use alt_f.Sysctrl.Disks.{
  check_disk, disk_mode, guess_mode, rested, check_powermode, mode_of, show_change, store_mode,
  dstat, spindown_disk, store_disk,
}
use alt_f.Sysctrl.Led.Queue.{Shows, leds_proc-Shows}
use alt_f.Sysctrl.Led.{
  leds_proc, default_leds, leds_off, led_set, led_blink, blink_in, for_leds, set_in,
}
use alt_f.Sysctrl.Button.{
  decode, key_held, keep_button, power_button, sync_loop, read_key, read_device, with_world, button,
  settle, settled, debounce,
}
use alt_f.Sysctrl.Button.Settles.{IsDevice, tells, debounce_ends}
use alt_f.Sysctrl.Temp.{Floats}
use alt_f.Sysctrl.Config.{default_args}
use alt_f.Sysctrl.Loop.{
  Loop, idle, prepare, react, in_state, in_idle, in_halt, rest, after_debounce,
}
use alt_f.Sysctrl.Fan.{pwm_auto, new_pwm, warning}
use alt_f.Sysctrl.Fan.Exact.{IsExact, IsTuned}
use alt_f.Sysctrl.Fan.Speeds.{
  low, IsSpeed, IsStep, follow, pwm_of, rpm_of, new_pwm-IsSpeed, pwm_auto_steps,
}
use alt_f.Sysctrl.Fan.Alerts.{limits_run, limits_run_once}
use alt_f.Sysctrl.Raid.{md_stat, md_dev, md_file, redundant}
use alt_f.Prelude.Scan.{show_ℤ, scan_int}
use alt_f.Sysctrl.Raid.Files.{Tells}
use alt_f.Sysctrl.Raid.Marks.{AllMarked, Alarm, marks, md_stat_lem}
use alt_f.Sysctrl.Config.{read_config}
use alt_f.Sysctrl.Config.Safe.{OnSafe, default_args-IsSafe, read_config-OnSafe}
use alt_f.Sysctrl.Loop.Front.{held}
use alt_f.Sysctrl.Loop.Front.Rounds.{Meets, Rounds-refine, Rounds, next, ends}

-- Readings that are to come; when there are none left, the device has nothing new.
abbrev read_next : List Reading → Reading × List Reading
read_next [] = (again, [])
read_next (r ∷ rs) = (r, rs)

abbrev pub box : Machine (List Reading)
box = record {
  writable = λ name. true;
  stale_int = pos 0;
  stale_text = [];
  opens_events = λ s. true;
  reads_event = read_next;
  pending = length;
  zeros = length;
  time = λ s. (0, s);
  date = λ s. codes "Jan 01";
  execs = λ s. true;
  makes_lock = λ s. (true, s);
  drops_lock = λ s. s;
  alive = λ n. false;
  pid = pos 100;
  hddtemp = λ s. ([], s);
  drive = λ s dev. (passes 255, s);
  stat = λ name. some (record { uid = 0; mode = 493 });
  first_line = λ command. some (codes "admin");
  holds = length;
}

box-IsDevice : IsDevice box
box-IsDevice = record { takes = takes; keeps = keeps; fewer = fewer }
  where
    takes : (s : List Reading) → tells (read_next s).0 ≡ true → length (read_next s).1 < length s
    takes [] h = ground (arith, h)
    takes (r ∷ rs) h = omega arith

    keeps : (s : List Reading) → length (read_next s).1 ≤ length s
    keeps [] = omega arith
    keeps (r ∷ rs) = omega arith

    fewer : (s : List Reading) → (read_next s).0 ≡ nothing → length (read_next s).1 < length s
    fewer [] h = ground (arith, h)
    fewer (r ∷ rs) h = omega arith

-- Floating-point numbers without their fractions.
abbrev pub whole : Floats ℕ
whole = record {
  of_int = pos_part;
  literal = λ z k. pos_part z / 10 ^ k;
  single = λ x. x;
  add = λ x y. x + y;
  sub = λ x y. x - y;
  mul = λ x y. x * y;
  div = λ x y. x / y;
  abs = λ x. x;
  lt = ltb;
  eq = ◌==◌;
  trunc = pos;
  show = λ x. codes "?";
  read = λ text. 0;
}

abbrev no_disk : Disk
no_disk = record {
  dev = none;
  slot = [];
  rdwr_cnt = 0;
  last_access = 0;
  spindow_time = pos 0;
  power_state = pos 1;
}

abbrev pub disk_files : List ℕ → Option (List ℕ)
disk_files = with_text (codes "/proc/mdstat") (codes "raid1") (λ name. none)

abbrev pub box_sys : List Reading → Sys (List Reading) ℕ
box_sys rs = record {
  world = rs;
  files = disk_files;
  calls = [];
  args = default_args whole;
  board = dns_325_ax;
  leds = default_leds;
  nslots = 3;
  disks = λ i. no_disk;
  ndisks = 0;
  queue = ledoff ∷ ledoff ∷ ledoff ∷ [];
  leds_state = false;
  bt = pos 0;
  events_open = true;
  fan = record {
    temp = 30;
    log_temp = 30;
    warn = false;
    crit = false;
    log_fan = pos 0;
    log_pos = none;
  };
  last_degraded = false;
  degraded = replicate 10 false;
}

-- The front button is pressed, and released after two more readings of `debounce`.
abbrev press_release : List Reading
press_release = event true 0x74 1 ∷ partial ∷ replicate 52 again ++ event true 0x74 0 ∷ partial ∷ []

debounce_ends_example :
    (debounce box (box_sys press_release) ≡ left powered_off)
    ⊎ ((r : ℤ × Sys (List Reading) ℕ) × (debounce box (box_sys press_release) ≡ on r))
debounce_ends_example = debounce_ends box box-IsDevice (box_sys press_release)

debounce_press : (r : Sys (List Reading) ℕ) × (debounce box (box_sys press_release) ≡ on (pos 1, r))
unfolding debounce button settle settled decode key_held keep_button power_button sync_loop read_key
    read_device with_world
debounce_press = (_, refl)

-- A loop in its first seconds, in a round that has neither the fan nor the disks to look after.
abbrev box_loop : ℕ → List Reading → Loop (List Reading) ℕ
box_loop n rs = record {
  sys = box_sys rs;
  count = n;
  state = idle;
  powercheck_count = 0;
  fan_count = 1;
}

-- Three seconds held, and released in the fourth: the box is switched off.
three_seconds :
    Rounds box whole
      (box_loop 0 press_release)
      (pos 1 ∷ pos 1 ∷ pos 1 ∷ pos 0 ∷ [])
      (left powered_off)
unfolding debounce button settle settled decode key_held keep_button power_button sync_loop read_key
    read_device with_world prepare react in_state in_idle after_debounce leds_off led_set for_leds
    set_in syswrite write_str_to_file led_blink blink_in in_halt rest poweroff become
    exec_userscript
three_seconds = next refl refl (next refl refl (next refl refl (ends refl refl)))

Rounds-refine_example :
    Meets box whole (left powered_off) (held 0 (pos 1 ∷ pos 1 ∷ pos 1 ∷ pos 0 ∷ []))
Rounds-refine_example =
    Rounds-refine box whole (λ w. refl) 0 three_seconds (omega arith) (refl, refl)
      (refl, (refl, (refl, (refl, tt))))

-- A file that asks for a fan mode that does not exist, and for a script of root's.
abbrev config_file : List ℕ
config_file = codes "fan_mode = 7 # or not" ++ 10 ∷ codes "back_button_command=/bin/x" ++ 10 ∷ []

abbrev configured : Sys (List Reading) ℕ
configured = record (box_sys []) {
  files = with_text (codes "/etc/sysctrl.conf") config_file disk_files;
}

read_config-OnSafe_example : OnSafe box whole (read_config box whole configured)
read_config-OnSafe_example = read_config-OnSafe box whole configured (default_args-IsSafe box whole)

-- The highest priority wants the LEDs to blink, and the lowest wants them on.
abbrev queued : Sys (List Reading) ℕ
queued = record (box_sys []) { queue = ledblink ∷ na ∷ ledon ∷ [] }

leds_proc-Shows_example : Shows (leds_proc box queued) ledon
leds_proc-Shows_example = leds_proc-Shows box (λ name. refl) queued (refl, refl)

-- A disk that does not tell its mode, and was not used for a long time.
abbrev usb_box : Machine (List Reading)
usb_box = record box { drive = λ s dev. (fails false, s); time = λ s. (9999, s) }

abbrev usb_sys : Sys (List Reading) ℕ
usb_sys = record (box_sys []) {
  disks = λ i. record no_disk { dev = some (codes "sdc"); spindow_time = pos 600 };
}

-- It is sent to rest in this round, and not again in the next.
rests_once :
    let t : Sys (List Reading) ℕ = (check_disk usb_box usb_sys usb_dev (codes "sdc") false).1 in
    (t.calls ≡ spindown (codes "sdc") ∷ [])
    × ((check_disk usb_box t usb_dev (codes "sdc") false).1.calls ≡ spindown (codes "sdc") ∷ [])
unfolding check_disk disk_mode guess_mode rested check_powermode mode_of show_change store_mode
    dstat spindown_disk calling store_disk led_blink led_set blink_in set_in syswrite
    write_str_to_file read_str_from_file ◌+ℤ◌
rests_once = (refl, refl)

-- The DNS-320L: both daemons on the same files.
abbrev shared_daemon : Daemon (List ℕ)
shared_daemon = record (daemon_with ack_from_serial) {
  files = λ f. elim f [ pwm ↦ (write_pwm box (box_sys []) (pos 127)).files sys_pwm | _ ↦ none ];
}

abbrev answered : Sys (List Reading) ℕ
answered = record (box_sys []) {
  files = with_text sys_fan_input (codes "3000" ++ 10 ∷ []) (box_sys []).files;
}

read_fan-write_pwm_example :
    (State.read_int_from_file shared_daemon pwm host.stale_int ≡ some (pos 127))
    × (read_fan answered ≡ pos 3000)
unfolding send SendCommand _SendCommand send_pkt ClearSerialPort answer expect finish receive_pkt
    CheckResponse fan_for
read_fan-write_pwm_example =
    read_fan-write_pwm scripted 2 host shared_daemon box (box_sys []) answered low refl refl
      (λ e. ground (arith, e)) (λ e. ground (arith, e)) refl refl
      (sym
        (new_pwm_done scripted 2 host shared_daemon (pos 127) (λ e. ground (arith, e))
          (λ e. ground (arith, e)) refl refl).1)

syserrorlog-Shows_example :
    ((check_syserrlog box (syserrorlog box (box_sys []) (codes "hot"))).0 ≡ true)
    × Shows
        (leds_proc box (check_syserrlog box (syserrorlog box (box_sys []) (codes "hot"))).1)
        ledon
syserrorlog-Shows_example =
    syserrorlog-Shows box (λ name. refl) (box_sys []) (codes "hot") ledoff ledoff ledoff
      (refl, refl) refl refl
