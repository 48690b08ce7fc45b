-- ===== src/Daemon/Alarm.antt =====
-- The wake-up alarm of the controller: `readalarm`, `writealarm`, `readAlarm_cmd` and
-- `writeAlarm_cmd` of package/alt-f-utils/alt-f-utils-0.1.11/dns320l-daemon.c.
pub mod Write
pub mod Stored
use alt_f.Prelude.{
  ℕ, zero, suc, ◌+◌, ◌-◌, Bool, true, false, not, ◌&&◌, ◌||◌, Option, none, some, List, [], ◌∷◌,
  ◌++◌, map, set, get_or, take, ltb, leb, ◌==◌, if◌then◌else◌,
}
use alt_f.Prelude.Int.{ℤ, pos, negsuc, ◌+ℤ◌, ◌-ℤ◌, ltb_ℤ, equal_ℤ}
use alt_f.Prelude.Text.{codes, bytes_eq, skip_spaces, decimal, is_digit}
use alt_f.Prelude.Word.{u8_of_ℤ}
use alt_f.Daemon.Bcd.{bcd2int, int2bcd}
use alt_f.Daemon.Commands.{
  r_alarm_month_cmd, w_alarm_month_cmd, r_alarm_date_cmd, w_alarm_date_cmd, r_alarm_hour_cmd,
  w_alarm_hour_cmd, r_alarm_minute_cmd, w_alarm_minute_cmd, w_alarm_disable_cmd, w_alarm_enable_cmd,
}
use alt_f.Daemon.Serial.{Status, success, Wire, Reply}
use alt_f.Daemon.State.{Daemon, Host, show_ℤ, strtol}
use alt_f.Daemon.Actions.{Done, snprintf, send, simple_cmd}

-- `struct tm`, with the library's ranges for its fields.
pub record Tm : Type 0 where
  pub sec : ℤ
  pub min : ℤ
  pub hour : ℤ
  pub mday : ℤ
  pub mon : ℤ
  pub year : ℤ
  pub wday : ℤ

-- The C library's clock and calendar; `none` is -1 or NULL.
pub record Clock : Type 0 where
  pub now : ℤ
  pub localtime : ℤ → Tm
  pub gmtime : ℤ → Option Tm
  pub mktime : Tm → Option ℤ
  pub timegm : Tm → Option ℤ
  -- `strftime` with "%F %R", and `ctime`
  pub date_text : Tm → List ℕ
  pub ctime : ℤ → List ℕ
  pub settimeofday : ℤ → Bool

-- `*month`, `*day`, `*hour` and `*min`, and whether the reads went well so far.
pub record AlarmRead (S : Type 0) : Type 0 where
  pub ok : Bool
  pub month : ℤ
  pub day : ℤ
  pub hour : ℤ
  pub minute : ℤ
  pub daemon : Daemon S

-- `day == 0 && month == 0 && hour == 0 && min == 0`
pub is_disabled : {S : Type 0} → AlarmRead S → Bool
is_disabled a =
    equal_ℤ a.day (pos 0)
    && equal_ℤ a.month (pos 0)
    && equal_ℤ a.hour (pos 0)
    && equal_ℤ a.minute (pos 0)

-- `day < 1 || day > 31 || month < 1 || month > 12 || hour < 0 || hour > 23 || min < 0 || min > 59`
unfoldable pub out_of_range : ℤ → ℤ → ℤ → ℤ → Bool
out_of_range month day hour minute =
    ltb_ℤ day (pos 1)
    || ltb_ℤ (pos 31) day
    || ltb_ℤ month (pos 1)
    || ltb_ℤ (pos 12) month
    || ltb_ℤ hour (pos 0)
    || ltb_ℤ (pos 23) hour
    || ltb_ℤ minute (pos 0)
    || ltb_ℤ (pos 59) minute

unfoldable pub to_lower : ℕ → ℕ
to_lower c = if leb 65 c && leb c 90 then c + 32 else c

-- `strncasecmp(text, word, n) == 0` for a word of `n` small letters.
unfoldable pub begins : ℕ → List ℕ → List ℕ → Bool
begins n word text = bytes_eq (map to_lower (take n text)) word

module _ {S : Type 0} (w : Wire S) (retries : ℕ) (host : Host) where
  -- One register: the value goes where `put` says; after a failure nothing more is asked.
  read_field : List ℕ → (ℤ → AlarmRead S → AlarmRead S) → AlarmRead S → AlarmRead S
  read_field cmd put a =
      let r = send w retries host a.daemon cmd true in
      let a' = record a { daemon = record a.daemon { line = r.line } } in
      if not a.ok then a else elim r.status [
        | success ↦ put (pos (bcd2int (get_or r.buf 5 0))) a'
        | _ ↦ record a' { ok = false }
      ]

  pub readalarm : AlarmRead S → AlarmRead S
  unfolding read_field
  readalarm a =
      read_field r_alarm_minute_cmd (λ n b. record b { minute = n })
        (read_field r_alarm_hour_cmd (λ n b. record b { hour = n })
          (read_field r_alarm_date_cmd (λ n b. record b { day = n })
            (read_field r_alarm_month_cmd (λ n b. record b { month = n }) a)))

  write_field : List ℕ → ℤ → Bool × Daemon S → Bool × Daemon S
  write_field cmd n (false, d) = (false, d)
  write_field cmd n (true, d) =
      let r = send w retries host d (set cmd 5 (u8_of_ℤ (int2bcd n))) false in
      let d' = record d { line = r.line } in
      elim r.status [ success ↦ (true, d') | _ ↦ (false, d') ]

  -- `true` is 0. `month` counts from 0.
  pub writealarm : Daemon S → ℤ → ℤ → ℤ → ℤ → Bool × Daemon S
  unfolding write_field
  writealarm d month day hour minute = write_field w_alarm_minute_cmd minute (
      write_field w_alarm_hour_cmd hour (
        write_field w_alarm_date_cmd day
          (write_field w_alarm_month_cmd (month +ℤ pos 1) (true, d))))

  -- The four variables before anything is read.
  pub unread : Daemon S → AlarmRead S
  unread d = record {
    ok = true;
    month = negsuc 0;
    day = negsuc 0;
    hour = negsuc 0;
    minute = negsuc 0;
    daemon = d;
  }

  module _ (clock : Clock) where
    unfoldable pub alarm_err : AlarmRead S → Daemon S → ℕ → Done S
    alarm_err a d size = record {
      code = pos 1;
      message =
          snprintf
            (codes "ERR "
              ++ show_ℤ a.month
              ++ codes "/"
              ++ show_ℤ a.day
              ++ codes " "
              ++ show_ℤ a.hour
              ++ codes ":"
              ++ show_ℤ a.minute)
            size;
      daemon = d;
    }

    -- In the current year, in UTC.
    alarm_tm : AlarmRead S → Tm
    alarm_tm a = record {
      sec = pos 0;
      min = a.minute;
      hour = a.hour;
      mday = a.day;
      mon = a.month -ℤ pos 1;
      year = (clock.localtime clock.now).year;
      wday = pos 0;
    }

    unfoldable pub alarm_set : Daemon S → ℤ → ℕ → Done S
    alarm_set d utime size =
        let elapsed = ltb_ℤ utime clock.now in
        record {
          code = if elapsed then pos 2 else pos 0;
          message =
              snprintf
                (codes "Wakeup alarm"
                  ++ (if elapsed then codes " (elapsed) " else codes " ")
                  ++ codes "set to: "
                  ++ clock.date_text (clock.localtime utime))
                size;
          daemon = d;
        }

    unfoldable pub report_alarm : AlarmRead S → ℕ → Done S
    unfolding alarm_tm
    report_alarm a size =
        let off = simple_cmd w retries host a.daemon w_alarm_disable_cmd size in
        let on = simple_cmd w retries host a.daemon w_alarm_enable_cmd size in
        if not a.ok
        then alarm_err a a.daemon size
        else if is_disabled a
        then record {
          code = pos 3;
          message = snprintf (codes "Wakeup alarm disabled") size;
          daemon = off.daemon;
        }
        else elim (clock.timegm (alarm_tm a)) [
          | none ↦ alarm_err a on.daemon size
          | some utime ↦ alarm_set on.daemon utime size
        ]

    unfoldable pub read_alarm_cmd : Daemon S → ℕ → Done S
    read_alarm_cmd d size = report_alarm (readalarm (unread d)) size
