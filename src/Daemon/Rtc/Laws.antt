-- ===== src/Daemon/Rtc/Laws.antt =====
-- The date in a packet, package/alt-f-utils/alt-f-utils-0.1.11/dns320l-daemon.c.
use alt_f.Prelude.{ℕ, ◌+◌, ◌%◌, ◌<◌, ◌≡◌, ap, ◌∙◌, arith}
use alt_f.Prelude.Int.{pos, ◌+ℤ◌, ◌-ℤ◌}
use alt_f.Prelude.Word.{u8_of_ℤ}
use alt_f.Daemon.Bcd.{bcd2int, int2bcd, bcd2int-int2bcd}
use alt_f.Daemon.Commands.{w_date_and_time_cmd}
use alt_f.Daemon.Alarm.{Tm}
use alt_f.Daemon.Rtc.{bcd_field, with_date, date_of, field}

-- A broken-down UTC time of the years 2000 to 2099, in the ranges of `gmtime`.
pub tm_of : ℕ → ℕ → ℕ → ℕ → ℕ → ℕ → ℕ → Tm
tm_of sec min hour mday mon year wday = record {
  sec = pos sec;
  min = pos min;
  hour = pos hour;
  mday = pos mday;
  mon = pos mon;
  year = pos (100 + year);
  wday = pos wday;
}

bcd_field_lem : (n : ℕ) → n < 100 → bcd2int (bcd_field (pos n)) ≡ n
unfolding bcd_field
bcd_field_lem n h =
    ap (λ m. bcd2int (u8_of_ℤ (int2bcd (pos m)))) {x = n % 256} {y = n} (omega arith)
    ∙ bcd2int-int2bcd n h

plus_one : (n : ℕ) → pos n +ℤ pos 1 ≡ pos (n + 1)
unfolding ◌+ℤ◌
plus_one n = ground arith

minus_one : (n : ℕ) → pos (n + 1) -ℤ pos 1 ≡ pos n
unfolding ◌-ℤ◌
minus_one n = ground arith

minus_century : (n : ℕ) → pos (100 + n) -ℤ pos 100 ≡ pos n
unfolding ◌-ℤ◌
minus_century n = ground arith

month_field : (mon : ℕ) → mon < 12 → pos (bcd2int (bcd_field (pos mon +ℤ pos 1))) -ℤ pos 1 ≡ pos mon
month_field mon h =
    ap (λ x. pos (bcd2int (bcd_field x)) -ℤ pos 1) (plus_one mon)
    ∙ ap (λ x. pos x -ℤ pos 1) (bcd_field_lem (mon + 1) (omega arith))
    ∙ minus_one mon

year_field : (year : ℕ) → year < 100 → bcd2int (bcd_field (pos (100 + year) -ℤ pos 100)) ≡ year
year_field year h = ap (λ x. bcd2int (bcd_field x)) (minus_century year) ∙ bcd_field_lem year h

-- The date that `systohc_cmd` puts into its packet is the one that `readrtc_cmd` and `hctosys_cmd`
-- take from a packet with the same bytes, but for the day of the week, in the years 2000 to 2099.
pub date_of-with_date :
    (sec min hour mday mon year wday : ℕ)
    → sec < 62
    → min < 60
    → hour < 24
    → mday < 32
    → mon < 12
    → year < 100
    → date_of (with_date w_date_and_time_cmd (tm_of sec min hour mday mon year wday))
      ≡ tm_of sec min hour mday mon year 0
unfolding date_of with_date tm_of field
date_of-with_date sec min hour mday mon year wday a b c d e f = λ i. record {
  sec = pos (bcd_field_lem sec (omega arith) i);
  min = pos (bcd_field_lem min (omega arith) i);
  hour = pos (bcd_field_lem hour (omega arith) i);
  mday = pos (bcd_field_lem mday (omega arith) i);
  mon = month_field mon e i;
  year = pos (100 + year_field year f i);
  wday = pos 0;
}
