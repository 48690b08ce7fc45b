-- ===== src/Daemon/Loop.antt =====
-- The start of the server and its endless loop: `main` of
-- package/alt-f-utils/alt-f-utils-0.1.11/dns320l-daemon.c. A run is the list of what `poll` returns.
pub mod Schedule
pub mod Safety
use alt_f.Prelude.{
  ℕ, suc, ◌+◌, ◌-◌, ◌*◌, ◌%◌, Bool, true, false, Option, none, some, List, [], ◌∷◌, ltb, ◌==◌,
  if◌then◌else◌,
}
use alt_f.Prelude.Int.{negsuc}
use alt_f.Prelude.Word.{u32}
use alt_f.Daemon.Commands.{device_ready_cmd}
use alt_f.Daemon.Serial.{Wire}
use alt_f.Daemon.State.{Sysfile, Daemon, Host}
use alt_f.Daemon.Actions.{send}
use alt_f.Daemon.Alarm.{Tm, Clock}
use alt_f.Daemon.Control.{readset_powerled, readset_temp}
use alt_f.Daemon.Poll.{Net, Polled, Server, Outcome, running, exits, fault, poll_setup, poll_wait}

-- The globals and statics at the start.
abbrev pub first_daemon : {S : Type 0} → S → (Sysfile → Option (List ℕ)) → Daemon S
first_daemon line files = record {
  line = line;
  files = files;
  fan_speed = negsuc 0;
  led_trigger = [];
  led_brightness = negsuc 0;
  old_temp = [];
  old_pwm = negsuc 0;
}

-- The absolute value of the `int` with these 32 bits.
abbrev magnitude : ℕ → ℕ
magnitude u = if ltb u 2147483648 then u else 4294967296 - u

-- `((sleepCount * pollTimeMs) % period) == 0` in round `count`, with pollTimeMs = 10. The product
-- is one of `int`, which the targets compute modulo 2^32.
pub due : ℕ → ℕ → Bool
due period count = magnitude (u32 (count * 10)) % period == 0

module _ {N S : Type 0} (n : Net N) (w : Wire S) (retries : ℕ) (host : Host) (clock : Clock)
    (utc : Tm) where
  -- What is done before a client is waited for.
  pub control : ℕ → Daemon S → Daemon S
  unfolding due
  control count d =
      let d₁ =
        if due 500 count then readset_powerled w retries host (host.stale_led count) d else d in
      if due 15000 count then readset_temp w retries host d₁ else d₁

  pub tick : ℕ → Server N S → Polled → Outcome N S
  tick count srv ev =
      poll_wait n w retries host clock utc (record srv { daemon = control count srv.daemon }) ev

  -- The listening socket is open, and the controller is told that the system is ready.
  pub startup : Daemon S → N → ℕ → Server N S
  startup d net ls =
      let (fds, nfds) = poll_setup ls in
      record {
        fds = fds;
        nfds = nfds;
        net = net;
        daemon = record d { line = (send w retries host d device_ready_cmd false).line };
      }

  -- `while(1)`, from the round `count` on.
  pub main_loop : ℕ → Server N S → List Polled → Outcome N S
  main_loop count srv [] = running srv
  main_loop count srv (ev ∷ evs) = elim (tick count srv ev) [
    | running srv' ↦ main_loop (count + 1) srv' evs
    | exits status ↦ exits status
    | fault ↦ fault
  ]
