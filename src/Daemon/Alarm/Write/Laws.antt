-- ===== src/Daemon/Alarm/Write/Laws.antt =====
-- What `writeAlarm_cmd` of package/alt-f-utils/alt-f-utils-0.1.11/dns320l-daemon.c answers when the
-- controller keeps its alarm registers.
use alt_f.Prelude.{ℕ, ◌<◌, ◌≡◌, refl, ap, ◌∙◌, Bool, true, false, List, ◌++◌, arith}
use alt_f.Prelude.Int.{ℤ, pos, ◌-ℤ◌}
use alt_f.Prelude.Text.{codes}
use alt_f.Daemon.Serial.{Wire}
use alt_f.Daemon.State.{Daemon, Host}
use alt_f.Daemon.Actions.{snprintf}
use alt_f.Daemon.Alarm.{
  Tm, Clock, is_disabled, begins, to_lower, writealarm, read_alarm_cmd, report_alarm,
}
use alt_f.Daemon.Alarm.Stored.{KeepsAlarm, readalarm-writealarm}
use alt_f.Daemon.Alarm.Write.{wish, written, grant, write_alarm_cmd}

-- The alarm of the registers in the present year.
abbrev pub utc_alarm : Clock → ℤ → ℕ → ℕ → ℕ → Tm
utc_alarm clock mon day hour minute = record {
  sec = pos 0;
  min = pos minute;
  hour = pos hour;
  mday = pos day;
  mon = mon;
  year = (clock.localtime clock.now).year;
  wday = pos 0;
}

module _ {S : Type 0} (w : Wire S) (retries : ℕ) (host : Host) (clock : Clock) where
  written-true :
      (r : Bool × Daemon S) (size : ℕ)
      → r.0 ≡ true
      → written w retries host clock r size ≡ read_alarm_cmd w retries host clock r.1 size
  unfolding written
  written-true (true, d) size e = refl
  written-true (false, d) size e = ground (arith, e)

  -- What is reported is what was written.
  written_lem :
      (k : KeepsAlarm w retries) (d : Daemon S) (month day hour minute size : ℕ)
      → month < 100
      → day < 100
      → hour < 100
      → minute < 100
      → k.Ready d.line
      → (d' : Daemon S) × (written w retries host clock
            (writealarm w retries host d (pos month -ℤ pos 1) (pos day) (pos hour) (pos minute))
            size
          ≡ report_alarm w retries host clock
              (record {
                ok = true;
                month = pos month;
                day = pos day;
                hour = pos hour;
                minute = pos minute;
                daemon = d';
              })
              size)
  unfolding read_alarm_cmd
  written_lem k d month day hour minute size a b c e ready =
      let r = writealarm w retries host d (pos month -ℤ pos 1) (pos day) (pos hour) (pos minute) in
      let (done, s, read) =
        readalarm-writealarm w retries host k d month day hour minute a b c e ready in
      (
        record r.1 { line = s },
        written-true r size done ∙ ap (λ x. report_alarm w retries host clock x size) read,
      )

  -- With a controller that keeps its alarm registers, a text that begins with "disable" is answered
  -- as a disabled alarm is: code 3 and its text.
  pub write_alarm_cmd-disabled :
      (k : KeepsAlarm w retries) (d : Daemon S) (rest : List ℕ) (size : ℕ)
      → k.Ready d.line
      → ((write_alarm_cmd w retries host clock d (codes "disable" ++ rest) size).code ≡ pos 3)
        × ((write_alarm_cmd w retries host clock d (codes "disable" ++ rest) size).message
            ≡ snprintf (codes "Wakeup alarm disabled") size)
  unfolding write_alarm_cmd wish begins to_lower grant report_alarm is_disabled ◌-ℤ◌
  write_alarm_cmd-disabled k d rest size ready =
      let (d', e) =
        written_lem k d 0 0 0 0 size (omega arith) (omega arith) (omega arith) (omega arith)
          ready in
      (ap (λ r. r.code) e, ap (λ r. r.message) e)
