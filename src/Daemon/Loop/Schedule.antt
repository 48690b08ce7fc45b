-- ===== src/Daemon/Loop/Schedule.antt =====
-- When the LED and the fan are looked after: the two tests of the loop of
-- package/alt-f-utils/alt-f-utils-0.1.11/dns320l-daemon.c.
use alt_f.Prelude.{
  ℕ, ◌*◌, ◌%◌, ◌≤◌, ◌<◌, ◌≡◌, ◌≢◌, refl, false, lt→ltb, le→ltb, le_or_lt, ◌⊎◌, inl, inr, ◌-◌, ne→==,
  ◌==◌, if◌then◌else◌, arith,
}
use alt_f.Daemon.Serial.{Wire}
use alt_f.Daemon.State.{Daemon, Host}
use alt_f.Daemon.Alarm.{Tm, Clock}
use alt_f.Daemon.Control.{readset_powerled, readset_temp}
use alt_f.Daemon.Poll.{Net, Polled, Server, poll_wait}
use alt_f.Daemon.Loop.{magnitude, due, control, tick}

eq_tests : (a b : ℕ) → (a ≡ 0 → b ≡ 0) → (b ≡ 0 → a ≡ 0) → (a == 0) ≡ (b == 0)
eq_tests a b f g = ground arith

due_500 : (count : ℕ) → count < 214748365 → due 500 count ≡ (count % 50 == 0)
unfolding due
due_500 count h =
    rw (lt→ltb (count * 10 % 4294967296) 2147483648 (omega arith))
      (eq_tests (count * 10 % 4294967296 % 500) (count % 50) (λ e. omega arith) (λ e. omega arith))

due_15000 : (count : ℕ) → count < 214748365 → due 15000 count ≡ (count % 1500 == 0)
unfolding due
due_15000 count h = rw (lt→ltb (count * 10 % 4294967296) 2147483648 (omega arith)) (
    eq_tests (count * 10 % 4294967296 % 15000) (count % 1500) (λ e. omega arith) (λ e. omega arith))

-- The product has wrapped around one to four times: modulo 10 it is what 2^32 leaves.
due_10 :
    (count : ℕ)
    → 214748365 ≤ count
    → count ≤ 1932735283
    → magnitude (count * 10 % 4294967296) % 10 ≢ 0
due_10 count lo hi e = elim (le_or_lt 2147483648 (count * 10 % 4294967296)) [
  | inl high ↦ high_ten high (rw (le→ltb (count * 10 % 4294967296) 2147483648 high) at e)
  | inr low ↦ low_ten low (rw (lt→ltb (count * 10 % 4294967296) 2147483648 low) at e)
]
  where
    low_ten : count * 10 % 4294967296 < 2147483648 → count * 10 % 4294967296 % 10 ≡ 0 → ⊥
    low_ten h z = omega arith

    high_ten :
        2147483648 ≤ count * 10 % 4294967296 → (4294967296 - count * 10 % 4294967296) % 10 ≡ 0 → ⊥
    high_ten h z = omega arith

-- A multiple of 500 is one of 10.
not_due : (period m : ℕ) → (period ≡ 500) ⊎ (period ≡ 15000) → m % 10 ≢ 0 → m % period ≢ 0
not_due period m (inl p) h e = h (omega (arith, rw p at e))
not_due period m (inr p) h e = h (omega (arith, rw p at e))

due_late :
    (period count : ℕ)
    → (period ≡ 500) ⊎ (period ≡ 15000)
    → 214748365 ≤ count
    → count ≤ 1932735283
    → due period count ≡ false
unfolding due
due_late period count p lo hi =
    ne→== (magnitude (count * 10 % 4294967296) % period) 0
      (not_due period (magnitude (count * 10 % 4294967296)) p (due_10 count lo hi))

module _ {N S : Type 0} (n : Net N) (w : Wire S) (retries : ℕ) (host : Host) (clock : Clock)
    (utc : Tm) where
  -- In the first 214748365 rounds the LED is looked after in every 50th, and the temperature and the
  -- fan in every 1500th.
  pub control_early :
      (count : ℕ) (d : Daemon S)
      → count < 214748365
      → control n w retries host clock utc count d ≡ (
          let d₁ =
            if count % 50 == 0
            then readset_powerled w retries host (host.stale_led count) d
            else d in
          if count % 1500 == 0 then readset_temp w retries host d₁ else d₁)
  unfolding control
  control_early count d h = rw (due_500 count h, due_15000 count h)

  -- In the 1717986919 rounds from round 214748365 on, the product of `sleepCount` and `pollTimeMs`
  -- having left the range of `int`, a round does nothing but wait for clients.
  pub tick_late :
      (count : ℕ) (srv : Server N S) (ev : Polled)
      → 214748365 ≤ count
      → count ≤ 1932735283
      → tick n w retries host clock utc count srv ev ≡ poll_wait n w retries host clock utc srv ev
  unfolding tick control
  tick_late count srv ev lo hi =
      rw (due_late 500 count (inl refl) lo hi, due_late 15000 count (inr refl) lo hi)
