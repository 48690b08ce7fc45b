-- ===== src/Daemon/Control/Led/Once.antt =====
-- What the LED's files ask for is acted upon once: `readset_powerled` of
-- package/alt-f-utils/alt-f-utils-0.1.11/dns320l-daemon.c.
use alt_f.Prelude.{
  ℕ, ◌≡◌, refl, sym, ap, subst, ◌∙◌, inl, inr, true, false, Bool-cases, Option-cases, ◌||◌,
  if◌then◌else◌, some, List,
}
use alt_f.Prelude.Int.{ℤ, pos, negsuc, equal_ℤ, equal_sound}
use alt_f.Prelude.Text.{codes, bytes_eq, bytes_eq_sound}
use alt_f.Daemon.Commands.{pwr_led_off_cmd, pwr_led_on_cmd, pwr_led_blink_cmd}
use alt_f.Daemon.Serial.{Wire}
use alt_f.Daemon.State.{
  pled_trigger, pled_brightness, Daemon, Host, read_str_from_file, read_int_from_file,
}
use alt_f.Daemon.Actions.{Done, send, setpowerled_cmd, done_ok, err, tell_led, led_switch}
use alt_f.Daemon.Control.{blink, new_trigger, new_brightness, steady, readset_powerled}
use alt_f.Daemon.Control.Led.{
  Settled, no_trigger, blinking, unread, held, status_cases, still, powerled_done, powerled_failed,
  after, told_trigger, told_brightness, told_memory,
}

-- The file of the brightness cannot be read, or holds a number: what is read does not depend on what
-- stood in the variable before.
abbrev pub HoldsNumber : {S : Type 0} → Daemon S → Type 0
HoldsNumber d =
    (x y : ℤ) → read_int_from_file d pled_brightness x ≡ read_int_from_file d pled_brightness y

module _ {S : Type 0} (w : Wire S) (retries : ℕ) (host : Host) where
  module _ (can_tell : host.writable pled_trigger ≡ true)
      (can_dim : host.writable pled_brightness ≡ true) where
    off-Settled :
        (d : Daemon S)
        → read_str_from_file d pled_trigger 32 ≡ some (codes "none")
        → d.led_trigger ≡ codes "none"
        → ((stale : ℤ) → read_int_from_file d pled_brightness stale ≡ some (pos 0))
        → d.led_brightness ≡ pos 0
        → Settled w retries host (setpowerled_cmd w retries host d pwr_led_off_cmd 16).daemon
    unfolding read_str_from_file read_int_from_file done_ok err led_switch
    off-Settled d trigger seen read same =
        elim (status_cases (send w retries host d pwr_led_off_cmd false).status) [
          | inl ok ↦
              let d' : Daemon S = record (after w retries host d pwr_led_off_cmd) {
                led_trigger = codes "none";
                led_brightness = pos 0;
              } in
              subst (Settled w retries host)
                (sym (ap (λ r. r.daemon) (powerled_done w retries host d pwr_led_off_cmd ok)))
                (held (tell_led w retries host d') (pos 0)
                  (told_trigger w retries host can_tell can_dim d').0
                  (told_memory w retries host can_tell can_dim d').0
                  (λ x. (told_brightness w retries host can_tell can_dim x d').0)
                  (told_memory w retries host can_tell can_dim d').1)
          | inr bad ↦
              subst (Settled w retries host)
                (sym (ap (λ r. r.daemon) (powerled_failed w retries host d pwr_led_off_cmd bad)))
                (held (after w retries host d pwr_led_off_cmd) (pos 0) trigger seen read same)
        ]

    on-Settled :
        (d : Daemon S)
        → read_str_from_file d pled_trigger 32 ≡ some (codes "none")
        → d.led_trigger ≡ codes "none"
        → ((stale : ℤ) → read_int_from_file d pled_brightness stale ≡ some (pos 1))
        → d.led_brightness ≡ pos 1
        → Settled w retries host (setpowerled_cmd w retries host d pwr_led_on_cmd 16).daemon
    unfolding read_str_from_file read_int_from_file done_ok err led_switch
    on-Settled d trigger seen read same =
        elim (status_cases (send w retries host d pwr_led_on_cmd false).status) [
          | inl ok ↦
              let d' : Daemon S = record (after w retries host d pwr_led_on_cmd) {
                led_trigger = codes "none";
                led_brightness = pos 1;
              } in
              subst (Settled w retries host)
                (sym (ap (λ r. r.daemon) (powerled_done w retries host d pwr_led_on_cmd ok)))
                (held (tell_led w retries host d') (pos 1)
                  (told_trigger w retries host can_tell can_dim d').0
                  (told_memory w retries host can_tell can_dim d').0
                  (λ x. (told_brightness w retries host can_tell can_dim x d').1)
                  (told_memory w retries host can_tell can_dim d').1)
          | inr bad ↦
              subst (Settled w retries host)
                (sym (ap (λ r. r.daemon) (powerled_failed w retries host d pwr_led_on_cmd bad)))
                (held (after w retries host d pwr_led_on_cmd) (pos 1) trigger seen read same)
        ]

    -- A brightness is remembered, whether or not the controller took the command.
    new_brightness-Settled :
        (d : Daemon S) (n : ℤ)
        → read_str_from_file d pled_trigger 32 ≡ some (codes "none")
        → d.led_trigger ≡ codes "none"
        → ((stale : ℤ) → read_int_from_file d pled_brightness stale ≡ some n)
        → Settled w retries host (new_brightness w retries host d n)
    unfolding new_brightness read_str_from_file read_int_from_file
    new_brightness-Settled d n trigger seen read =
        let d' : Daemon S = record d { led_brightness = n } in
        elim (Bool-cases (equal_ℤ d.led_brightness n)) [
          | inl same ↦ rw same (held d n trigger seen read (equal_sound d.led_brightness n same))
          | inr other ↦ elim (Bool-cases (equal_ℤ n (pos 0))) [
            | inl off ↦
                let e = equal_sound n (pos 0) off in
                rw (other, off) (off-Settled d' trigger seen (λ x. read x ∙ ap some e) e)
            | inr lit ↦ elim (Bool-cases (equal_ℤ n (pos 1))) [
              | inl on ↦
                  let e = equal_sound n (pos 1) on in
                  rw (other, lit, on) (on-Settled d' trigger seen (λ x. read x ∙ ap some e) e)
              | inr odd ↦ rw (other, lit, odd) (held d' n trigger seen read refl)
            ]
          ]
        ]

    -- So is a trigger other than "none".
    new_trigger-Settled :
        (d : Daemon S) (t : List ℕ)
        → read_str_from_file d pled_trigger 32 ≡ some t
        → bytes_eq (codes "none") t ≡ false
        → Settled w retries host (new_trigger w retries host d t)
    unfolding new_trigger blink read_str_from_file done_ok err led_switch
    new_trigger-Settled d t trigger lively =
        let d' : Daemon S = record d { led_trigger = t } in
        let settle : Done S → Daemon S = λ r.
          if equal_ℤ r.code (pos 0)
          then record r.daemon { led_brightness = negsuc 0 }
          else r.daemon in
        elim (Bool-cases (bytes_eq d.led_trigger t)) [
          | inl same ↦ rw same (blinking d t trigger (bytes_eq_sound d.led_trigger t same) lively)
          | inr other ↦
              elim (Bool-cases (bytes_eq (codes "heartbeat") t || bytes_eq (codes "timer") t)) [
                | inl word ↦
                    elim (status_cases (send w retries host d' pwr_led_blink_cmd false).status) [
                      | inl ok ↦
                          let told : Daemon S = record (after w retries host d' pwr_led_blink_cmd) {
                            led_trigger = codes "timer";
                          } in
                          rw (other, word)
                            (subst (λ r. Settled w retries host (settle r))
                              (sym (powerled_done w retries host d' pwr_led_blink_cmd ok))
                              (blinking
                                (record (tell_led w retries host told) {
                                  led_brightness = negsuc 0;
                                })
                                (codes "timer")
                                (told_trigger w retries host can_tell can_dim told).1
                                (told_memory w retries host can_tell can_dim told).0 refl))
                      | inr bad ↦
                          rw (other, word)
                            (subst (λ r. Settled w retries host (settle r))
                              (sym (powerled_failed w retries host d' pwr_led_blink_cmd bad))
                              (blinking (after w retries host d' pwr_led_blink_cmd) t trigger refl
                                lively))
                    ]
                | inr calm ↦ rw (other, calm) (blinking d' t trigger refl lively)
              ]
        ]

    new_trigger_none :
        (d : Daemon S)
        → new_trigger w retries host d (codes "none") ≡ record d { led_trigger = codes "none" }
    unfolding new_trigger blink
    new_trigger_none d = elim (Bool-cases (bytes_eq d.led_trigger (codes "none"))) [
      | inl same ↦
          rw same
            (λ i. record d { led_trigger = bytes_eq_sound d.led_trigger (codes "none") same i })
      | inr other ↦ rw other
    ]

    steady-Settled :
        (stale : ℤ) (d : Daemon S)
        → HoldsNumber d
        → read_str_from_file d pled_trigger 32 ≡ some (codes "none")
        → d.led_trigger ≡ codes "none"
        → Settled w retries host (steady w retries host stale d (codes "none"))
    unfolding steady
    steady-Settled stale d number trigger seen =
        elim (Option-cases (read_int_from_file d pled_brightness stale)) [
          | inl e ↦ rw e (unread d trigger seen (λ x. number x stale ∙ e))
          | inr (n, e) ↦ rw e (new_brightness-Settled d n trigger seen (λ x. number x stale ∙ e))
        ]

    readset_powerled-Settled :
        (stale : ℤ) (d : Daemon S)
        → HoldsNumber d
        → Settled w retries host (readset_powerled w retries host stale d)
    unfolding readset_powerled read_str_from_file read_int_from_file
    readset_powerled-Settled stale d number =
        elim (Option-cases (read_str_from_file d pled_trigger 32)) [
          | inl e ↦ rw (e, readset_powerled) (no_trigger d e)
          | inr (t, e) ↦ elim (Bool-cases (bytes_eq (codes "none") t)) [
            | inl calm ↦
                let e' = e ∙ ap some (sym (bytes_eq_sound (codes "none") t calm)) in
                rw (e', readset_powerled)
                  (subst
                    (λ x. Settled w retries host (steady w retries host stale x (codes "none")))
                    (sym (new_trigger_none d))
                    (steady-Settled stale (record d { led_trigger = codes "none" }) number e' refl))
            | inr lively ↦
                rw (e, readset_powerled, lively, steady) (new_trigger-Settled d t e lively)
          ]
        ]

    -- With both of its files writable, and a number in the file of the brightness where this can be
    -- read, what `readset_powerled` finds in them is acted upon once: a second call changes nothing,
    -- whatever stands in its uninitialised variable in each of the two calls, and whether or not the
    -- controller took the command.
    pub readset_powerled_twice :
        (d : Daemon S) (first second : ℤ)
        → HoldsNumber d
        → readset_powerled w retries host second (readset_powerled w retries host first d)
          ≡ readset_powerled w retries host first d
    readset_powerled_twice d first second number =
        still w retries host second (readset_powerled w retries host first d)
          (readset_powerled-Settled first d number)
