-- ===== src/Daemon/Rtc.antt =====
-- The controller's clock: `systohc_cmd`, `hctosys_cmd` and `readrtc_cmd` of
-- package/alt-f-utils/alt-f-utils-0.1.11/dns320l-daemon.c.
pub mod Laws
use alt_f.Prelude.{
  ℕ, zero, suc, ◌+◌, ◌-◌, Bool, true, false, Option, none, some, List, [], ◌∷◌, ◌++◌, length, take,
  set, get_or, if◌then◌else◌,
}
use alt_f.Prelude.Int.{ℤ, pos, negsuc, ◌+ℤ◌, ◌-ℤ◌}
use alt_f.Prelude.Text.{codes}
use alt_f.Prelude.Word.{u8_of_ℤ}
use alt_f.Daemon.Bcd.{bcd2int, int2bcd}
use alt_f.Daemon.Commands.{r_date_and_time_cmd}
use alt_f.Daemon.Serial.{Status, success, Wire, Reply}
use alt_f.Daemon.State.{Daemon, Host, show_ℤ}
use alt_f.Daemon.Actions.{Done, strncpy, snprintf, send, err, simple_cmd}
use alt_f.Daemon.Alarm.{Tm, Clock}

-- A field stored in a `char`, and then again as decimal digits.
pub bcd_field : ℤ → ℕ
bcd_field n = u8_of_ℤ (int2bcd (pos (u8_of_ℤ n)))

-- Bytes 5 to 11 of the packet.
pub with_date : List ℕ → Tm → List ℕ
with_date cmd t =
    set
      (set
        (set
          (set (set (set (set cmd 5 (bcd_field t.sec)) 6 (bcd_field t.min)) 7 (bcd_field t.hour)) 8
            (bcd_field t.wday))
          9 (bcd_field t.mday))
        10 (bcd_field (t.mon +ℤ pos 1)))
      11 (bcd_field (t.year -ℤ pos 100))

-- The number in a byte of the packet.
field : List ℕ → ℕ → ℕ
field buf i = bcd2int (get_or buf i 0)

-- The day of the week is not used.
pub date_of : List ℕ → Tm
unfolding field
date_of buf = record {
  sec = pos (field buf 5);
  min = pos (field buf 6);
  hour = pos (field buf 7);
  mday = pos (field buf 9);
  mon = pos (field buf 10) -ℤ pos 1;
  year = pos (100 + field buf 11);
  wday = pos 0;
}

-- A `time_t`, which is -1 for what cannot be told.
time_or_error : Option ℤ → ℤ
time_or_error none = negsuc 0
time_or_error (some t) = t

module _ {S : Type 0} (w : Wire S) (retries : ℕ) (host : Host) (clock : Clock) where
  -- `utc` is `gmtime` of the present time.
  unfoldable pub systohc_cmd : Daemon S → List ℕ → Tm → ℕ → Done S
  systohc_cmd d mcmd utc size = simple_cmd w retries host d (with_date mcmd utc) size

  unfoldable pub set_clock : Daemon S → ℤ → ℕ → Done S
  set_clock d rtc size = record {
    code = pos 0;
    message =
        if clock.settimeofday rtc
        then snprintf
            (clock.ctime rtc
              ++ codes "Sys: "
              ++ clock.ctime clock.now
              ++ codes "Diff: "
              ++ show_ℤ (clock.now -ℤ rtc)
              ++ codes "s")
            size
        else strncpy (codes "ERR") size;
    daemon = d;
  }

  -- The command given is not the one that is sent.
  unfoldable pub hctosys_cmd : Daemon S → ℕ → Done S
  unfolding time_or_error
  hctosys_cmd d size =
      let r = send w retries host d r_date_and_time_cmd true in
      let d' = record d { line = r.line } in
      elim r.status [
        | success ↦ set_clock d' (time_or_error (clock.timegm (date_of r.buf))) size
        | _ ↦ err w retries host d' size
      ]

  unfoldable pub readrtc_cmd : Daemon S → List ℕ → ℕ → Done S
  unfolding time_or_error
  readrtc_cmd d mcmd size =
      let r = send w retries host d mcmd true in
      let d' = record d { line = r.line } in
      let text = clock.ctime (time_or_error (clock.mktime (date_of r.buf))) in
      elim r.status [
        | success ↦ record {
          code = pos 0;
          message = snprintf (take (length text - 1) text) size;
          daemon = d';
        }
        | _ ↦ err w retries host d' size
      ]
