-- ===== src/Sysctrl/Loop.antt =====
-- What the daemon does each second: `back_button` and `mainloop` of
-- package/alt-f-utils/alt-f-utils-0.1.11/sysctrl.c.
pub mod Front
use alt_f.Prelude.{
  ℕ, zero, suc, ◌-◌, ◌%◌, Bool, true, false, ◌&&◌, ◌||◌, not, none, some, ltb, ◌==◌, if◌then◌else◌,
}
use alt_f.Prelude.Int.{ℤ, pos, equal_ℤ}
use alt_f.Prelude.Text.{codes}
use alt_f.Sysctrl.Globals.{
  left_led, right_led, Sys, Machine, Flow, on, left, hung, ◌>>=◌, exec_userscript, reboot, poweroff,
}
use alt_f.Sysctrl.Button.{no_bt, reset_bt, usb_bt, debounce}
use alt_f.Sysctrl.Led.{led_set, led_blink, leds_off, leds_blink, leds_proc, check_syserrlog}
use alt_f.Sysctrl.Disks.{hdd_powercheck}
use alt_f.Sysctrl.Raid.{md_stat}
use alt_f.Sysctrl.Temp.{Floats}
use alt_f.Sysctrl.Fan.{fanctl}

-- The values that `state` takes; `abort` is no value of it but the count at which it ends.
pub data Mode : Type 0 where
  idle halt reboots : Mode

abbrev pub halt_count : ℕ
halt_count = 3

abbrev pub reboot_count : ℕ
reboot_count = 6

abbrev pub abort_count : ℕ
abort_count = 9

abbrev is_idle : Mode → Bool
is_idle idle = true
is_idle _ = false

abbrev pub is_back : ℤ → Bool
is_back bt = equal_ℤ bt reset_bt || equal_ℤ bt usb_bt

-- The locals of `mainloop` beside the globals.
pub record Loop (S F : Type 0) : Type 0 where
  pub sys : Sys S F
  pub count : ℕ
  pub state : Mode
  pub powercheck_count : ℕ
  pub fan_count : ℕ

module _ {S F : Type 0} (m : Machine S) where
  -- `do ... while (bt == RESET_BT || bt == USB_BT)`, with fuel for as often as the button is held.
  held_loop : ℕ → Sys S F → Flow (Sys S F)
  held_loop zero s = left hung
  held_loop (suc fuel) s =
      debounce m s >>= λ r. elim (is_back r.0) [ true ↦ held_loop fuel r.1 | false ↦ on r.1 ]

  -- By the seconds that the button was held.
  pub back_action : Sys S F → ℕ → Sys S F
  back_action s count =
      if not (equal_ℤ s.args.recovery (pos 0)) && ltb 20 count
      then exec_userscript s (some (codes "/usr/sbin/recover")) 5 (some (codes "f"))
      else if not (equal_ℤ s.args.recovery (pos 0)) && ltb 10 count
      then exec_userscript s (some (codes "/usr/sbin/recover")) 5 (some (codes "t"))
      else elim s.args.back_button_command [
        | some command ↦ exec_userscript s (some command) 5 none
        | none ↦ exec_userscript s (some (codes "/usr/bin/eject")) 5 (some (codes "usb"))
      ]

  released : ℕ → Sys S F → Sys S F
  released start s =
      let (stop, w) = m.time s.world in
      leds_off m (back_action (record s { world = w }) (stop - start))

  pub back_button : Sys S F → Flow (Sys S F)
  unfolding held_loop released
  back_button s =
      let (start, w) = m.time s.world in
      let t = leds_blink m (record s { world = w }) in
      held_loop (suc (m.holds w)) t >>= λ u. on (released start u)

  pub with_sys : Loop S F → Sys S F → Loop S F
  with_sys l s = record l { sys = s }

  -- Out of a state: idle again, all LEDs off.
  unfoldable pub rest : Loop S F → Loop S F
  rest l = record l { sys = leds_off m l.sys; count = 0; state = idle }

  unfoldable pub in_idle : Loop S F → ℤ → Loop S F
  in_idle l bt =
      if equal_ℤ bt no_bt
      then record l { count = 0 }
      else if l.count == halt_count
      then record l { sys = led_blink m l.sys right_led (codes "250") (codes "250"); state = halt }
      else l

  pub hold_halt : Loop S F → Loop S F
  hold_halt l =
      if l.count == reboot_count
      then record l {
        sys =
            led_blink m (led_set m l.sys right_led (codes "0")) left_led (codes "250")
              (codes "250");
        state = reboots;
      }
      else l

  unfoldable pub in_halt : Loop S F → ℤ → Flow (Loop S F)
  unfolding with_sys
  in_halt l bt = elim (equal_ℤ bt no_bt) [
    | true ↦ poweroff m (rest l).sys >>= λ s. on (with_sys (rest l) s)
    | false ↦ on (hold_halt l)
  ]

  pub hold_reboot : Loop S F → Loop S F
  hold_reboot l = if l.count == abort_count then rest l else l

  pub in_reboot : Loop S F → ℤ → Flow (Loop S F)
  unfolding with_sys
  in_reboot l bt = elim (equal_ℤ bt no_bt) [
    | true ↦ reboot m (rest l).sys >>= λ s. on (with_sys (rest l) s)
    | false ↦ on (hold_reboot l)
  ]

  unfoldable pub in_state : Mode → Loop S F → ℤ → Flow (Loop S F)
  in_state idle l bt = on (in_idle l bt)
  in_state halt l bt = in_halt l bt
  in_state reboots l bt = in_reboot l bt

  -- The rest of a round, from the value of the button on.
  unfoldable pub react : ℤ → Loop S F → Flow (Loop S F)
  unfolding with_sys
  react bt l = elim (is_back bt) [
    | true ↦ back_button l.sys >>= λ s. on (with_sys l s)
    | false ↦ in_state l.state l bt
  ]

  pub powercheck : Sys S F → Sys S F
  powercheck s =
      let (degraded, t) = md_stat m (hdd_powercheck m s false) in
      let (errors, u) = check_syserrlog m t in leds_proc m u

  -- What is done once the button is known, up to where it is acted upon.
  unfoldable pub after_debounce : Loop S F → ℤ → Sys S F → Loop S F
  after_debounce l bt s =
      let next = suc l.powercheck_count in
      let t = if next % 5 == 0 && equal_ℤ bt no_bt then powercheck s else s in
      record l {
        sys = if not (equal_ℤ bt no_bt) && is_idle l.state then leds_off m t else t;
        count = suc l.count;
        powercheck_count = next;
        fan_count = suc l.fan_count;
      }

  module _ (fl : Floats F) where
    unfoldable pub prepare : Loop S F → Flow (ℤ × Loop S F)
    prepare l = do
      s ← elim (l.fan_count % 15 == 0) [ true ↦ fanctl fl m l.sys | false ↦ on l.sys ]
      (bt, t) ← debounce m s
      on (bt, after_debounce l bt t)

    pub round : Loop S F → Flow (Loop S F)
    round l = prepare l >>= λ p. react p.0 p.1

    -- The rounds of `mainloop` that are looked at.
    pub mainloop_rounds : ℕ → Loop S F → Flow (Loop S F)
    mainloop_rounds zero l = on l
    mainloop_rounds (suc n) l = round l >>= λ l'. mainloop_rounds n l'

  pub mainloop_start : Sys S F → Loop S F
  mainloop_start s = record {
    sys = leds_off m s;
    count = 0;
    state = idle;
    powercheck_count = 4;
    fan_count = 14;
  }
