-- ===== src/Daemon/Control/Fan.antt =====
-- The fan follows the `pwm` file: `setfan_cmd` and `readset_temp` of
-- package/alt-f-utils/alt-f-utils-0.1.11/dns320l-daemon.c.
use alt_f.Prelude.{
  ℕ, zero, suc, ◌<◌, ◌≡◌, ◌≢◌, refl, sym, subst, ap, ◌∙◌, true, false, Bool-cases, inl, inr, some,
  List, [], ◌∷◌, ◌++◌, arith,
}
use alt_f.Prelude.Int.{ℤ, pos, equal_ℤ, equal_refl, equal_sound}
use alt_f.Prelude.Text.{codes}
use alt_f.Daemon.Commands.{fan_stop_cmd, fan_half_cmd, fan_full_cmd}
use alt_f.Daemon.Serial.{success, Wire}
use alt_f.Daemon.State.{fan_input, Daemon, Host, write_str_to_file}
use alt_f.Daemon.Actions.{send, err, done_ok, simple_cmd, set_fan, setfan_cmd}
use alt_f.Daemon.Control.{fan_for, fan_cmd, set_speed, new_pwm}

-- The packet and the text for a speed.
abbrev pub packet_of : ℕ → List ℕ
packet_of zero = fan_stop_cmd
packet_of (suc zero) = fan_half_cmd
packet_of (suc (suc k)) = fan_full_cmd

abbrev pub rpm_of : ℕ → List ℕ
rpm_of zero = codes "0"
rpm_of (suc zero) = codes "3000"
rpm_of (suc (suc k)) = codes "6000"

fan_for-lt : (n : ℤ) → fan_for n < 3
unfolding fan_for
fan_for-lt n = ground arith

fan_cmd_packet : (k : ℕ) → k < 3 → fan_cmd k ≡ packet_of k
unfolding fan_cmd
fan_cmd_packet zero h = refl
fan_cmd_packet (suc zero) h = refl
fan_cmd_packet (suc (suc zero)) h = refl
fan_cmd_packet (suc (suc (suc k))) h = absurd (omega arith)

differs : (a b : ℤ) → a ≢ b → equal_ℤ a b ≡ false
differs a b h = elim (Bool-cases (equal_ℤ a b)) [
  | inl same ↦ absurd (h (equal_sound a b same))
  | inr other ↦ other
]

module _ {S : Type 0} (w : Wire S) (retries : ℕ) (host : Host) where
  -- The line after the packet is sent.
  abbrev pub line_after : Daemon S → List ℕ → S
  line_after d packet = (send w retries host d packet false).line

  simple_cmd_done :
      (d : Daemon S) (packet : List ℕ) (size : ℕ)
      → (send w retries host d packet false).status ≡ success
      → simple_cmd w retries host d packet size
        ≡ done_ok w retries host (record d { line = line_after d packet }) size
  unfolding simple_cmd
  simple_cmd_done d packet size ok = rw (ok, simple_cmd)

  setfan_done :
      (d : Daemon S) (k size : ℕ)
      → k < 3
      → (send w retries host d (packet_of k) false).status ≡ success
      → setfan_cmd w retries host d (packet_of k) size
        ≡ done_ok w retries host
            (write_str_to_file host
              (record d { line = line_after d (packet_of k); fan_speed = pos k })
              fan_input
              (rpm_of k))
            size
  unfolding setfan_cmd set_fan done_ok
  setfan_done d zero size h ok =
      ap (λ r. set_fan w retries host r (packet_of 0) size)
        (simple_cmd_done d (packet_of 0) size ok)
  setfan_done d (suc zero) size h ok =
      ap (λ r. set_fan w retries host r (packet_of 1) size)
        (simple_cmd_done d (packet_of 1) size ok)
  setfan_done d (suc (suc zero)) size h ok =
      ap (λ r. set_fan w retries host r (packet_of 2) size)
        (simple_cmd_done d (packet_of 2) size ok)
  setfan_done d (suc (suc (suc k))) size h ok = absurd (omega arith)

  setfan_failed :
      (d : Daemon S) (packet : List ℕ) (size : ℕ)
      → (send w retries host d packet false).status ≢ success
      → setfan_cmd w retries host d packet size
        ≡ err w retries host (record d { line = line_after d packet }) size
  unfolding setfan_cmd set_fan simple_cmd err
  setfan_failed d packet size bad = ground arith

  setfan_keeps_pwm :
      (d : Daemon S) (packet : List ℕ) (size : ℕ)
      → (setfan_cmd w retries host d packet size).daemon.old_pwm ≡ d.old_pwm
  unfolding setfan_cmd set_fan simple_cmd err done_ok write_str_to_file
  setfan_keeps_pwm d packet size = ground arith

  old_pwm-new_pwm : (d : Daemon S) (n : ℤ) → (new_pwm w retries host d n).old_pwm ≡ n
  unfolding new_pwm set_speed
  old_pwm-new_pwm d n = elim (Bool-cases (equal_ℤ n d.old_pwm)) [
    | inl seen ↦ rw seen (sym (equal_sound n d.old_pwm seen))
    | inr changed ↦ elim (Bool-cases (equal_ℤ d.fan_speed (pos (fan_for n)))) [
      | inl same ↦ rw (changed, same)
      | inr other ↦
          rw (changed, other) (setfan_keeps_pwm (record d { old_pwm = n }) (fan_cmd (fan_for n)) 16)
    ]
  ]

  -- A `pwm` that has been seen is not acted upon again.
  new_pwm_again :
      (d : Daemon S) (n : ℤ)
      → new_pwm w retries host (new_pwm w retries host d n) n ≡ new_pwm w retries host d n
  unfolding new_pwm
  new_pwm_again d n = seen (new_pwm w retries host d n) (old_pwm-new_pwm d n)
    where
      seen : (d' : Daemon S) → d'.old_pwm ≡ n → new_pwm w retries host d' n ≡ d'
      seen d' e =
          let same : equal_ℤ n d'.old_pwm ≡ true =
            subst (λ m. equal_ℤ n m ≡ true) (sym e) (equal_refl n) in
          rw (same, new_pwm)

  new_pwm_other :
      (d : Daemon S) (n : ℤ)
      → n ≢ d.old_pwm
      → d.fan_speed ≢ pos (fan_for n)
      → new_pwm w retries host d n
        ≡ (setfan_cmd w retries host (record d { old_pwm = n }) (packet_of (fan_for n)) 16).daemon
  unfolding new_pwm set_speed
  new_pwm_other d n changed other = rw (
    differs n d.old_pwm changed,
    differs d.fan_speed (pos (fan_for n)) other,
    fan_cmd_packet (fan_for n) (fan_for-lt n),
  )

  -- When `pwm` changes to a value that asks for another speed, the controller takes the packet and
  -- the fan's file can be written, the speed that is remembered is the one asked for, and the file
  -- tells it.
  pub new_pwm_done :
      (d : Daemon S) (n : ℤ)
      → n ≢ d.old_pwm
      → d.fan_speed ≢ pos (fan_for n)
      → host.writable fan_input ≡ true
      → (send w retries host (record d { old_pwm = n }) (packet_of (fan_for n)) false).status
        ≡ success
      → ((new_pwm w retries host d n).fan_speed ≡ pos (fan_for n))
        × ((new_pwm w retries host d n).files fan_input ≡ some (rpm_of (fan_for n) ++ 10 ∷ []))
  unfolding done_ok write_str_to_file
  new_pwm_done d n changed other writes ok =
      let e =
        new_pwm_other d n changed other
        ∙ ap (λ r. r.daemon)
            (setfan_done (record d { old_pwm = n }) (fan_for n) 16 (fan_for-lt n) ok) in
      (ap (λ x. x.fan_speed) e ∙ rw writes, ap (λ x. x.files fan_input) e ∙ rw writes)

  -- When `pwm` changes to a value that asks for another speed and the controller does not take the
  -- packet, the speed stays what it was, and the same `pwm` is not tried again.
  pub new_pwm_lost :
      (d : Daemon S) (n : ℤ)
      → n ≢ d.old_pwm
      → d.fan_speed ≢ pos (fan_for n)
      → (send w retries host (record d { old_pwm = n }) (packet_of (fan_for n)) false).status
        ≢ success
      → ((new_pwm w retries host d n).fan_speed ≡ d.fan_speed)
        × (new_pwm w retries host (new_pwm w retries host d n) n ≡ new_pwm w retries host d n)
  unfolding err
  new_pwm_lost d n changed other bad = (
    ap (λ x. x.fan_speed)
        (new_pwm_other d n changed other
          ∙ ap (λ r. r.daemon)
              (setfan_failed (record d { old_pwm = n }) (packet_of (fan_for n)) 16 bad)),
    new_pwm_again d n,
  )
