-- ===== src/Daemon/Alarm/Write.antt =====
-- `writeAlarm_cmd` of package/alt-f-utils/alt-f-utils-0.1.11/dns320l-daemon.c.
pub mod Laws
use alt_f.Prelude.{
  ℕ, Bool, true, false, not, Option, none, some, List, [], ◌∷◌, ◌==◌, if◌then◌else◌,
}
use alt_f.Prelude.Int.{ℤ, pos, negsuc, ◌+ℤ◌, ◌-ℤ◌}
use alt_f.Prelude.Text.{codes}
use alt_f.Daemon.Serial.{Wire}
use alt_f.Daemon.State.{Daemon, Host, strtol}
use alt_f.Daemon.Actions.{Done, snprintf}
use alt_f.Daemon.Alarm.{
  Tm, Clock, AlarmRead, is_disabled, out_of_range, begins, readalarm, writealarm, unread,
  read_alarm_cmd,
}

-- What the text asks for: nothing that can be done, no alarm, or a local month, day, hour, minute.
pub data Wish (S : Type 0) : Type 0 where
  refused disabled : Daemon S → Wish S
  wanted : ℤ → ℤ → ℤ → ℤ → Daemon S → Wish S

-- The four numbers, each where the one before it ended.
four_numbers : List ℕ → Option (ℤ × ℤ × ℤ × ℤ)
four_numbers text = elim (strtol text) [
  | none ↦ none
  | some p ↦
      let (month, t₁) = p in
      elim (strtol t₁) [
        | none ↦ none
        | some q ↦
            let (day, t₂) = q in
            elim (strtol t₂) [
              | none ↦ none
              | some r ↦
                  let (hour, t₃) = r in
                  elim (strtol t₃) [
                    | none ↦ none
                    | some u ↦ let (minute, t₄) = u in some (month, day, hour, minute)
                  ]
            ]
      ]
]

-- `*ptr`, which is 0 at the end.
first_char : List ℕ → ℕ
first_char [] = 0
first_char (c ∷ cs) = c

module _ {S : Type 0} (w : Wire S) (retries : ℕ) (host : Host) (clock : Clock) where
  -- Three minutes from now.
  wish_now : Daemon S → ℤ → ℤ → Wish S
  wish_now d nmonth ndays =
      let t = clock.localtime clock.now in
      wanted (t.mon +ℤ pos 1 +ℤ nmonth) (t.mday +ℤ ndays) t.hour (t.min +ℤ pos 3) d

  -- The alarm that is set, or the present time, moved on.
  shift : AlarmRead S → ℤ → ℤ → Wish S
  unfolding wish_now
  shift a nmonth ndays =
      if not a.ok
      then refused a.daemon
      else if is_disabled a
      then wish_now a.daemon nmonth ndays
      else wanted (a.month +ℤ nmonth) (a.day +ℤ ndays) a.hour a.minute a.daemon

  wish_plus : Daemon S → List ℕ → Wish S
  unfolding first_char shift
  wish_plus d text = elim (strtol text) [
    | none ↦ refused d
    | some p ↦
        let (i, rest) = p in
        let a = readalarm w retries host (unread w retries host d) in
        if first_char rest == 109
        then shift a i (pos 0)
        else if first_char rest == 100
        then shift a (pos 0) i
        else refused d
  ]

  wish_date : Daemon S → List ℕ → Wish S
  unfolding four_numbers
  wish_date d text = elim (four_numbers text) [
    | none ↦ refused d
    | some p ↦
        let (month, day, hour, minute) = p in
        if out_of_range month day hour minute then refused d else wanted month day hour minute d
  ]

  unfoldable pub wish : Daemon S → List ℕ → Wish S
  unfolding first_char wish_now wish_plus wish_date
  wish d text =
      if begins 3 (codes "now") text
      then wish_now d (pos 0) (pos 0)
      else if begins 7 (codes "disable") text
      then disabled d
      else if first_char text == 43
      then wish_plus d text
      else wish_date d text

  unfoldable pub write_err : Daemon S → ℕ → Done S
  write_err d size = record {
    code = pos 1;
    message =
        snprintf (codes "ERR WriteAlarm: month day hour min | +N{d|m} (days|month) | now | disable")
          size;
    daemon = d;
  }

  unfoldable pub written : Bool × Daemon S → ℕ → Done S
  written (true, d) size = read_alarm_cmd w retries host clock d size
  written (false, d) size = write_err d size

  -- The local time as it is handed to `mktime`, in the current year.
  pub local_tm : ℤ → ℤ → ℤ → ℤ → Tm
  local_tm month day hour minute = record {
    sec = pos 0;
    min = minute;
    hour = hour;
    mday = day;
    mon = month -ℤ pos 1;
    year = (clock.localtime clock.now).year;
    wday = pos 0;
  }

  unfoldable pub grant : Wish S → ℕ → Done S
  unfolding local_tm
  grant (refused d) size = write_err d size
  grant (disabled d) size =
      written (writealarm w retries host d (negsuc 0) (pos 0) (pos 0) (pos 0)) size
  grant (wanted month day hour minute d) size =
      elim (clock.mktime (local_tm month day hour minute)) [
        | none ↦ write_err d size
        | some utime ↦ elim (clock.gmtime utime) [
          | none ↦ write_err d size
          | some t ↦ written (writealarm w retries host d t.mon t.mday t.hour t.min) size
        ]
      ]

  -- `text` is what `retMessage` holds on entry.
  unfoldable pub write_alarm_cmd : Daemon S → List ℕ → ℕ → Done S
  write_alarm_cmd d text size = grant (wish d text) size
