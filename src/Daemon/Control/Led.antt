-- ===== src/Daemon/Control/Led.antt =====
-- The LED follows its files: `setpowerled_cmd` and `readset_powerled` of
-- package/alt-f-utils/alt-f-utils-0.1.11/dns320l-daemon.c.
pub mod Once
use alt_f.Prelude.{
  ℕ, ◌≡◌, ◌≢◌, refl, sym, ap, subst, ◌∙◌, ◌⊎◌, inl, inr, true, false, Bool-cases, Option-cases,
  ◌||◌, if◌then◌else◌, none, some, List, get_or, arith,
}
use alt_f.Prelude.Int.{ℤ, pos, negsuc, equal_ℤ, equal_refl, equal_sound}
use alt_f.Prelude.Text.{codes, bytes_eq, bytes_eq_refl, bytes_eq_sound, skip_spaces, decimal}
use alt_f.Daemon.Commands.{pwr_led_off_cmd, pwr_led_on_cmd, pwr_led_blink_cmd}
use alt_f.Daemon.Serial.{Status, success, wrong_answer, write_error, failed, Wire}
use alt_f.Daemon.State.{
  pled_trigger, pled_brightness, Daemon, Host, read_str_from_file, read_int_from_file,
  write_str_to_file, write_int_to_file, show_ℤ, scan_int,
}
use alt_f.Daemon.Actions.{
  Done, send, simple_cmd, setpowerled_cmd, set_powerled, done_ok, err, tell_led, led_switch,
}
use alt_f.Daemon.Control.{blink, new_trigger, new_brightness, steady, readset_powerled}

status_cases : (t : Status) → (t ≡ success) ⊎ (t ≢ success)
status_cases success = inl refl
status_cases wrong_answer = inr (λ e. ground (arith, e))
status_cases write_error = inr (λ e. ground (arith, e))
status_cases failed = inr (λ e. ground (arith, e))

module _ {S : Type 0} (w : Wire S) (retries : ℕ) (host : Host) where
  -- What the files ask for is what is remembered.
  data Settled : Daemon S → Type 0 where
    no_trigger : (d : Daemon S) → read_str_from_file d pled_trigger 32 ≡ none → Settled d
    blinking :
        (d : Daemon S) (t : List ℕ)
        → read_str_from_file d pled_trigger 32 ≡ some t
        → d.led_trigger ≡ t
        → bytes_eq (codes "none") t ≡ false
        → Settled d
    unread :
        (d : Daemon S)
        → read_str_from_file d pled_trigger 32 ≡ some (codes "none")
        → d.led_trigger ≡ codes "none"
        → ((stale : ℤ) → read_int_from_file d pled_brightness stale ≡ none)
        → Settled d
    held :
        (d : Daemon S) (n : ℤ)
        → read_str_from_file d pled_trigger 32 ≡ some (codes "none")
        → d.led_trigger ≡ codes "none"
        → ((stale : ℤ) → read_int_from_file d pled_brightness stale ≡ some n)
        → d.led_brightness ≡ n
        → Settled d

  seen_trigger :
      (d : Daemon S) (t : List ℕ) → d.led_trigger ≡ t → new_trigger w retries host d t ≡ d
  unfolding new_trigger
  seen_trigger d t e =
      let same : bytes_eq d.led_trigger t ≡ true =
        subst (λ x. bytes_eq x t ≡ true) (sym e) (bytes_eq_refl t) in
      rw (same, new_trigger)

  still : (stale : ℤ) (d : Daemon S) → Settled d → readset_powerled w retries host stale d ≡ d
  unfolding readset_powerled steady new_brightness
  still stale d (no_trigger _ e) = rw (e, readset_powerled)
  still stale d (blinking _ t e seen other) =
      rw (e, seen_trigger d t seen, other, readset_powerled, steady)
  still stale d (unread _ e seen none_read) =
      rw (e, seen_trigger d (codes "none") seen, none_read stale, readset_powerled, steady)
        (seen_trigger d (codes "none") seen)
  still stale d (held _ n e seen read same) =
      let equal : equal_ℤ d.led_brightness n ≡ true =
        subst (λ x. equal_ℤ x n ≡ true) (sym same) (equal_refl n) in
      rw (e, seen_trigger d (codes "none") seen, read stale, readset_powerled, steady)
        (ap (λ x. new_brightness w retries host x n) (seen_trigger d (codes "none") seen)
          ∙ rw (equal, new_brightness))

  -- What a LED command leaves.
  powerled_done :
      (d : Daemon S) (packet : List ℕ)
      → (send w retries host d packet false).status ≡ success
      → (setpowerled_cmd w retries host d packet 16)
        ≡ done_ok w retries host
            (tell_led w retries host (
              led_switch w retries host
                (record d { line = (send w retries host d packet false).line })
                (get_or packet 3 0)))
            16
  unfolding setpowerled_cmd set_powerled simple_cmd done_ok
  powerled_done d packet ok = rw (ok, setpowerled_cmd, simple_cmd)

  powerled_failed :
      (d : Daemon S) (packet : List ℕ)
      → (send w retries host d packet false).status ≢ success
      → (setpowerled_cmd w retries host d packet 16)
        ≡ err w retries host (record d { line = (send w retries host d packet false).line }) 16
  unfolding setpowerled_cmd set_powerled simple_cmd err
  powerled_failed d packet bad = ground arith

  -- Only the line has changed.
  abbrev after : Daemon S → List ℕ → Daemon S
  after d packet = record d { line = (send w retries host d packet false).line }

  module _ (can_tell : host.writable pled_trigger ≡ true)
      (can_dim : host.writable pled_brightness ≡ true) where
    told_trigger :
        (d : Daemon S)
        → (read_str_from_file
              (tell_led w retries host (record d { led_trigger = codes "none" }))
              pled_trigger
              32
            ≡ some (codes "none"))
          × (read_str_from_file
                (tell_led w retries host (record d { led_trigger = codes "timer" }))
                pled_trigger
                32
              ≡ some (codes "timer"))
    unfolding tell_led write_int_to_file write_str_to_file read_str_from_file
    told_trigger d = rw (can_tell, can_dim) (refl, refl)

    told_brightness :
        (stale : ℤ) (d : Daemon S)
        → (read_int_from_file
              (tell_led w retries host
                (record d { led_trigger = codes "none"; led_brightness = pos 0 }))
              pled_brightness
              stale
            ≡ some (pos 0))
          × (read_int_from_file
                (tell_led w retries host
                  (record d { led_trigger = codes "none"; led_brightness = pos 1 }))
                pled_brightness
                stale
              ≡ some (pos 1))
    unfolding tell_led write_int_to_file write_str_to_file read_str_from_file read_int_from_file
        show_ℤ scan_int skip_spaces decimal
    told_brightness stale d = rw (can_tell, can_dim) (refl, refl)

    told_memory :
        (d : Daemon S)
        → ((tell_led w retries host d).led_trigger ≡ d.led_trigger)
          × ((tell_led w retries host d).led_brightness ≡ d.led_brightness)
    unfolding tell_led write_int_to_file write_str_to_file
    told_memory d = rw (can_tell, can_dim) (refl, refl)
