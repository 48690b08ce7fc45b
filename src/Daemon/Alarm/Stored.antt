-- ===== src/Daemon/Alarm/Stored.antt =====
-- An alarm that is written and then read: `writealarm` and `readalarm` of
-- package/alt-f-utils/alt-f-utils-0.1.11/dns320l-daemon.c, and the registers behind them.
use alt_f.Prelude.{
  ℕ, ◌<◌, ◌≡◌, ◌≢◌, refl, sym, ap, subst, ◌∙◌, Bool, true, false, List, [], set, get_or, arith,
}
use alt_f.Prelude.Int.{pos, ℤ, ◌+ℤ◌, ◌-ℤ◌}
use alt_f.Prelude.Word.{u8_of_ℤ}
use alt_f.Daemon.Bcd.{bcd2int, int2bcd, bcd2int-int2bcd, int2bcd-ne-stop_magic}
use alt_f.Daemon.Commands.{
  stop_magic, r_alarm_month_cmd, w_alarm_month_cmd, r_alarm_date_cmd, w_alarm_date_cmd,
  r_alarm_hour_cmd, w_alarm_hour_cmd, r_alarm_minute_cmd, w_alarm_minute_cmd,
}
use alt_f.Daemon.Serial.{success, Wire, SendCommand}
use alt_f.Daemon.State.{Daemon, Host}
use alt_f.Daemon.Actions.{send}
use alt_f.Daemon.Alarm.{AlarmRead, read_field, readalarm, write_field, writealarm, unread}

pub data Register : Type 0 where
  month_reg date_reg hour_reg minute_reg : Register

abbrev pub read_packet : Register → List ℕ
read_packet month_reg = r_alarm_month_cmd
read_packet date_reg = r_alarm_date_cmd
read_packet hour_reg = r_alarm_hour_cmd
read_packet minute_reg = r_alarm_minute_cmd

abbrev pub write_packet : Register → List ℕ
write_packet month_reg = w_alarm_month_cmd
write_packet date_reg = w_alarm_date_cmd
write_packet hour_reg = w_alarm_hour_cmd
write_packet minute_reg = w_alarm_minute_cmd

-- The registers after one of them is written.
abbrev pub stored : Register → ℕ → (Register → ℕ) → Register → ℕ
stored month_reg b h month_reg = b
stored date_reg b h date_reg = b
stored hour_reg b h hour_reg = b
stored minute_reg b h minute_reg = b
stored _ b h g = h g

-- A controller that acknowledges the alarm's packets and keeps the four registers. `Ready` is what
-- it is between two packets.
pub record KeepsAlarm {S : Type 0} (w : Wire S) (retries : ℕ) : Type 1 where
  pub Ready : S → Type 0
  pub holds : S → Register → ℕ
  pub stores :
      (s : S) (f : Register) (b : ℕ)
      → Ready s
      → b ≢ stop_magic
      → ((SendCommand w retries s (set (write_packet f) 5 b) false []).status ≡ success)
        × Ready (SendCommand w retries s (set (write_packet f) 5 b) false []).line
        × ((g : Register)
            → holds (SendCommand w retries s (set (write_packet f) 5 b) false []).line g
              ≡ stored f b (holds s) g)
  pub tells :
      (s : S) (f : Register)
      → Ready s
      → holds s f ≢ stop_magic
      → ((SendCommand w retries s (read_packet f) true []).status ≡ success)
        × (get_or (SendCommand w retries s (read_packet f) true []).buf 5 0 ≡ holds s f)
        × Ready (SendCommand w retries s (read_packet f) true []).line
        × ((g : Register)
            → holds (SendCommand w retries s (read_packet f) true []).line g ≡ holds s g)

-- Where the value of a register goes.
abbrev put_at : {S : Type 0} → Register → ℤ → AlarmRead S → AlarmRead S
put_at month_reg n b = record b { month = n }
put_at date_reg n b = record b { day = n }
put_at hour_reg n b = record b { hour = n }
put_at minute_reg n b = record b { minute = n }

stored_ext :
    (f : Register) (b : ℕ) (h k : Register → ℕ)
    → ((g : Register) → h g ≡ k g)
    → (g : Register) → stored f b h g ≡ stored f b k g
stored_ext month_reg b h k e month_reg = refl
stored_ext month_reg b h k e date_reg = e date_reg
stored_ext month_reg b h k e hour_reg = e hour_reg
stored_ext month_reg b h k e minute_reg = e minute_reg
stored_ext date_reg b h k e month_reg = e month_reg
stored_ext date_reg b h k e date_reg = refl
stored_ext date_reg b h k e hour_reg = e hour_reg
stored_ext date_reg b h k e minute_reg = e minute_reg
stored_ext hour_reg b h k e month_reg = e month_reg
stored_ext hour_reg b h k e date_reg = e date_reg
stored_ext hour_reg b h k e hour_reg = refl
stored_ext hour_reg b h k e minute_reg = e minute_reg
stored_ext minute_reg b h k e month_reg = e month_reg
stored_ext minute_reg b h k e date_reg = e date_reg
stored_ext minute_reg b h k e hour_reg = e hour_reg
stored_ext minute_reg b h k e minute_reg = refl

month_back : (n : ℕ) → pos n -ℤ pos 1 +ℤ pos 1 ≡ pos n
unfolding ◌-ℤ◌ ◌+ℤ◌
month_back n = ground arith

byte : ℕ → ℕ
byte n = u8_of_ℤ (int2bcd (pos n))

module _ {S : Type 0} (w : Wire S) (retries : ℕ) (host : Host) (k : KeepsAlarm w retries) where
  -- So far all went well, and the registers are these.
  IsWritten : (Register → ℕ) → Bool × Daemon S → Type 0
  IsWritten h r = (r.0 ≡ true) × k.Ready r.1.line × ((g : Register) → k.holds r.1.line g ≡ h g)

  write_step :
      (f : Register) (n : ℕ) (h : Register → ℕ) (r : Bool × Daemon S)
      → IsWritten h r
      → IsWritten (stored f (byte n) h) (write_field w retries host (write_packet f) (pos n) r)
  unfolding IsWritten write_field byte send
  write_step f n h (false, d) (e, ready, same) = ground (arith, e)
  write_step f n h (true, d) (e, ready, same) =
      let (done, ready', now) = k.stores d.line f (byte n) ready (int2bcd-ne-stop_magic n) in
      rw (done, write_field)
        (refl, ready', λ g. now g ∙ stored_ext f (byte n) (k.holds d.line) h same g)

  -- One register is read: its value goes to its place, and the registers stay what they are.
  read_step :
      (f : Register) (h : Register → ℕ) (a : AlarmRead S)
      → k.Ready a.daemon.line
      → ((g : Register) → k.holds a.daemon.line g ≡ h g)
      → h f ≢ stop_magic
      → (s : S) × (read_field w retries host (read_packet f) (put_at f) (record a { ok = true })
          ≡ put_at f
              (pos (bcd2int (h f)))
              (record a { ok = true; daemon = record a.daemon { line = s } }))
        × k.Ready s
        × ((g : Register) → k.holds s g ≡ h g)
  unfolding read_field send
  read_step f h a ready same whole =
      let (done, value, ready', kept) =
        k.tells a.daemon.line f ready (λ e. whole (sym (same f) ∙ e)) in
      let s = (SendCommand w retries a.daemon.line (read_packet f) true []).line in
      (
        s,
        rw (done, read_field)
            (ap
              (λ n.
                put_at f (pos (bcd2int n))
                  (record a { ok = true; daemon = record a.daemon { line = s } }))
              (value ∙ same f)),
        ready',
        λ g. kept g ∙ same g,
      )

  all-IsWritten :
      (d : Daemon S) (month day hour minute : ℕ)
      → k.Ready d.line
      → IsWritten
          (stored minute_reg (byte minute) (
            stored hour_reg
              (byte hour)
              (stored date_reg (byte day) (stored month_reg (byte month) (k.holds d.line)))))
          (writealarm w retries host d (pos month -ℤ pos 1) (pos day) (pos hour) (pos minute))
  unfolding writealarm IsWritten
  all-IsWritten d month day hour minute ready =
      subst
        (λ n.
          IsWritten
            (stored minute_reg (byte minute) (
              stored hour_reg (byte hour)
                (stored date_reg (byte day) (stored month_reg (byte month) (k.holds d.line)))))
            (write_field w retries host w_alarm_minute_cmd (pos minute) (
              write_field w retries host w_alarm_hour_cmd (pos hour) (
                write_field w retries host w_alarm_date_cmd (pos day)
                  (write_field w retries host w_alarm_month_cmd n (true, d))))))
        (sym (month_back month))
        (write_step minute_reg minute _ _ (
          write_step hour_reg hour _ _ (
            write_step date_reg day _ _
              (write_step month_reg month (k.holds d.line) (true, d) (refl, ready, λ g. refl)))))

  -- What is read from registers that hold two-digit numbers.
  all_read :
      (d : Daemon S) (h : Register → ℕ)
      → k.Ready d.line
      → ((g : Register) → k.holds d.line g ≡ h g)
      → ((g : Register) → h g ≢ stop_magic)
      → (s : S) × (readalarm w retries host (unread w retries host d) ≡ record {
        ok = true;
        month = pos (bcd2int (h month_reg));
        day = pos (bcd2int (h date_reg));
        hour = pos (bcd2int (h hour_reg));
        minute = pos (bcd2int (h minute_reg));
        daemon = record d { line = s };
      })
  unfolding readalarm unread
  all_read d h ready same whole =
      let (s₁, e₁, r₁, k₁) =
        read_step month_reg h (unread w retries host d) ready same (whole month_reg) in
      let a₁ : AlarmRead S = record (unread w retries host d) {
        month = pos (bcd2int (h month_reg));
        daemon = record d { line = s₁ };
      } in
      let (s₂, e₂, r₂, k₂) = read_step date_reg h a₁ r₁ k₁ (whole date_reg) in
      let a₂ : AlarmRead S = record a₁ {
        day = pos (bcd2int (h date_reg));
        daemon = record d { line = s₂ };
      } in
      let (s₃, e₃, r₃, k₃) = read_step hour_reg h a₂ r₂ k₂ (whole hour_reg) in
      let a₃ : AlarmRead S = record a₂ {
        hour = pos (bcd2int (h hour_reg));
        daemon = record d { line = s₃ };
      } in
      let (s₄, e₄, r₄, k₄) = read_step minute_reg h a₃ r₃ k₃ (whole minute_reg) in
      let date = read_field w retries host r_alarm_date_cmd (put_at date_reg) in
      let hours = read_field w retries host r_alarm_hour_cmd (put_at hour_reg) in
      let minutes = read_field w retries host r_alarm_minute_cmd (put_at minute_reg) in
      (
        s₄,
        ap (λ a. minutes (hours (date a))) e₁ ∙ ap (λ a. minutes (hours a)) e₂ ∙ ap minutes e₃ ∙ e₄,
      )

  -- With a controller that keeps its alarm registers, `writealarm` succeeds, and `readalarm` then
  -- gives the same month, day, hour and minute, for all numbers of two digits. `writealarm` takes the
  -- month as one less.
  pub readalarm-writealarm :
      (d : Daemon S) (month day hour minute : ℕ)
      → month < 100
      → day < 100
      → hour < 100
      → minute < 100
      → k.Ready d.line
      → let r =
          writealarm w retries host d (pos month -ℤ pos 1) (pos day) (pos hour) (pos minute) in
        (r.0 ≡ true)
        × (s : S) × (readalarm w retries host (unread w retries host r.1) ≡ record {
          ok = true;
          month = pos month;
          day = pos day;
          hour = pos hour;
          minute = pos minute;
          daemon = record r.1 { line = s };
        })
  unfolding IsWritten byte
  readalarm-writealarm d month day hour minute a b c e ready =
      let h = stored minute_reg (byte minute) (
        stored hour_reg (byte hour)
          (stored date_reg (byte day) (stored month_reg (byte month) (k.holds d.line)))) in
      let (done, ready', same) = all-IsWritten d month day hour minute ready in
      let r = writealarm w retries host d (pos month -ℤ pos 1) (pos day) (pos hour) (pos minute) in
      let (s, read) = all_read r.1 h ready' same whole in
      (
        done,
        s,
        read ∙ (λ i. record {
          ok = true;
          month = pos (bcd2int-int2bcd month a i);
          day = pos (bcd2int-int2bcd day b i);
          hour = pos (bcd2int-int2bcd hour c i);
          minute = pos (bcd2int-int2bcd minute e i);
          daemon = record r.1 { line = s };
        }),
      )
    where
      whole :
          (g : Register)
          → stored minute_reg
              (byte minute)
              (stored hour_reg
                (byte hour)
                (stored date_reg (byte day) (stored month_reg (byte month) (k.holds d.line))))
              g
            ≢ stop_magic
      whole month_reg = int2bcd-ne-stop_magic month
      whole date_reg = int2bcd-ne-stop_magic day
      whole hour_reg = int2bcd-ne-stop_magic hour
      whole minute_reg = int2bcd-ne-stop_magic minute
