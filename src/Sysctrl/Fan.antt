-- ===== src/Sysctrl/Fan.antt =====
-- The fan follows the temperature: `poly`, `smail` and `fanctl` of
-- package/alt-f-utils/alt-f-utils-0.1.11/sysctrl.c.
pub mod Alerts
pub mod Exact
pub mod Shared
pub mod Speeds
use alt_f.Prelude.{
  ℕ, Bool, true, false, ◌&&◌, ◌||◌, not, none, some, List, [], ◌∷◌, ◌++◌, if◌then◌else◌,
}
use alt_f.Prelude.Int.{ℤ, pos, negsuc, ◌-ℤ◌, ltb_ℤ, equal_ℤ}
use alt_f.Prelude.Text.{codes}
use alt_f.Prelude.Scan.{show_ℤ}
use alt_f.Sysctrl.Globals.{
  FanStatics, Board, dns_323_a1, dns_323_b1, fan_always_off, fan_always_slow, fan_always_fast,
  fan_auto, Args, Sys, Machine, mails, calling, Flow, on, ◌>>=◌, read_int_from_file,
  write_int_to_file, syserrorlog, exec_userscript,
}
use alt_f.Sysctrl.Log.{fanlog}
use alt_f.Sysctrl.Temp.{Floats, thousandth, max_ℤ, or_zero, read_temp, read_disks_temp}

abbrev pub pwm_off : ℤ
pwm_off = pos 0

abbrev pub pwm_low : ℤ
pwm_low = pos 127

abbrev pub pwm_fast : ℤ
pwm_fast = pos 255

abbrev pub sys_pwm : List ℕ
sys_pwm = codes "/tmp/sys/pwm1"

abbrev pub sys_fan_input : List ℕ
sys_fan_input = codes "/tmp/sys/fan1_input"

module _ {S F : Type 0} where
  pub read_fan : Sys S F → ℤ
  read_fan s = or_zero (read_int_from_file s sys_fan_input (pos 0))

  pub read_pwm : Sys S F → ℤ
  read_pwm s = or_zero (read_int_from_file s sys_pwm (pos 0))

  pub write_pwm : Machine S → Sys S F → ℤ → Sys S F
  write_pwm m s u = write_int_to_file m s sys_pwm u

  -- The mail goes out when the addresses can be found.
  pub smail : Machine S → Sys S F → List ℕ → ℤ → Sys S F
  smail m s kind limit = elim (m.first_line (codes "grep '^MAILTO' /etc/misc.conf | cut -d= -f2")) [
    | none ↦ s
    | some to ↦ elim (m.first_line (codes "grep '^from' /etc/msmtprc | cut -f2")) [
      | none ↦ s
      | some from ↦ calling s (mails kind limit)
    ]
  ]

module _ {F : Type 0} (fl : Floats F) where
  open fl use {of_int, literal, single, add, sub, mul, div, abs, lt, eq, trunc, show}

  -- `float` arithmetic on what the configuration holds.
  abbrev above : ℤ → F → F
  above n x = single (add (single (of_int n)) x)

  abbrev below : ℤ → F → F
  below n x = single (sub (single (of_int n)) x)

  -- Horner's rule over the coefficients that are left.
  horner : F → F → List F → F
  horner x ret [] = ret
  horner x ret (c ∷ cs) = horner x (single (add (single (mul x ret)) c)) cs

  pub poly : F → List F → F
  unfolding horner
  poly x [] = x
  poly x (c ∷ cs) = horner x c cs

  abbrev pub f2p : List F
  f2p =
      single (literal (pos 266029) 14)
      ∷ single (literal (negsuc 428951) 10)
      ∷ single (literal (pos 244737) 6)
      ∷ single (literal (negsuc 328232) 3)
      ∷ []

  -- The fan speed wanted at a temperature is on the line through the two points of the configuration.
  wanted_speed : Args F → F → F
  wanted_speed a temp =
      let m = single (
        div (mul (of_int (a.hi_fan -ℤ a.lo_fan)) (literal (pos 1) 0))
          (of_int (a.hi_temp -ℤ a.lo_temp))) in
      let b =
        single (sub (single (of_int a.lo_fan)) (single (mul m (single (of_int a.lo_temp))))) in
      single (add (single (mul temp m)) b)

  cap_pwm : Args F → ℤ → ℤ → ℤ
  cap_pwm a fan pwm =
      let tpwm = trunc (poly (single (of_int a.max_fan_speed)) f2p) in
      if not (ltb_ℤ fan a.max_fan_speed) && ltb_ℤ tpwm pwm then tpwm else pwm

  -- The boards whose fan takes any speed.
  pub pwm_by_line : Args F → F → ℤ → ℤ → ℤ
  unfolding wanted_speed cap_pwm
  pwm_by_line a temp fan pwm = cap_pwm a fan (
      if lt temp (below a.fan_off_temp a.hist_temp)
      then pos 0
      else if lt (above a.fan_off_temp a.hist_temp) temp
      then trunc (poly (wanted_speed a temp) f2p)
      else pwm)

  -- The fan's speed tells the state that it is in.
  pub pwm_auto : Args F → F → ℤ → ℤ
  pwm_auto a temp fan =
      if equal_ℤ fan (pos 0)
      then if lt (above a.fan_off_temp a.hist_temp) temp then pwm_low else pwm_off
      else if equal_ℤ fan (pos 3000)
      then if lt temp (below a.fan_off_temp a.hist_temp)
        then pwm_off
        else if lt (above a.lo_temp a.hist_temp) temp
        then pwm_fast
        else pwm_low
      else if equal_ℤ fan (pos 6000)
      then if lt temp (below a.lo_temp a.hist_temp) then pwm_low else pwm_fast
      else pwm_low

  pub pwm_by_mode : Args F → F → ℤ → ℤ → ℤ
  pwm_by_mode a temp fan pwm =
      if equal_ℤ a.fan_mode fan_always_off
      then pwm_off
      else if equal_ℤ a.fan_mode fan_always_slow
      then pwm_low
      else if equal_ℤ a.fan_mode fan_always_fast
      then pwm_fast
      else if equal_ℤ a.fan_mode fan_auto
      then pwm_auto a temp fan
      else pwm

  pub new_pwm : Board → Args F → F → ℤ → ℤ → ℤ
  new_pwm dns_323_a1 = pwm_by_line
  new_pwm dns_323_b1 = pwm_by_line
  new_pwm _ = pwm_by_mode

  module _ {S : Type 0} (m : Machine S) where
    pub warning : Sys S F → F → ℤ → List ℕ
    warning s temp fan =
        codes "WARNING TEMP: fan="
        ++ show_ℤ fan
        ++ codes " temp="
        ++ show temp
        ++ codes " exceeded warn="
        ++ show_ℤ s.args.warn_temp

    pub mail_if : Sys S F → List ℕ → ℤ → Sys S F
    mail_if s kind limit = if equal_ℤ s.args.mail (pos 0) then s else smail m s kind limit

    pub with_warn : Sys S F → Bool → Sys S F
    with_warn s b = record s { fan = record (s.fan) { warn = b } }

    pub with_crit : Sys S F → Bool → Sys S F
    with_crit s b = record s { fan = record (s.fan) { crit = b } }

    pub warn_user : Sys S F → F → ℤ → Sys S F
    unfolding warning mail_if with_warn
    warn_user s temp fan =
        let t = mail_if (syserrorlog m s (warning s temp fan)) (codes "warning") s.args.warn_temp in
        with_warn (exec_userscript t s.args.warn_temp_command 20 none) true

    -- A text "OVERHEAT" is put together here and goes nowhere.
    pub crit_user : Sys S F → Sys S F
    unfolding mail_if with_crit
    crit_user s =
        let t = mail_if s (codes "CRITICAL") s.args.crit_temp in
        with_crit (exec_userscript t s.args.crit_temp_command 20 none) true

    pub check_warn : Sys S F → F → ℤ → Sys S F
    unfolding warn_user
    check_warn s temp fan =
        if lt (single (of_int s.args.warn_temp)) temp
          && lt temp (single (of_int s.args.crit_temp))
          && not s.fan.warn
        then warn_user s temp fan
        else s

    pub clear_warn : Sys S F → F → Sys S F
    unfolding with_warn
    clear_warn s temp =
        if lt temp (single (of_int s.args.warn_temp)) && s.fan.warn then with_warn s false else s

    pub check_crit : Sys S F → F → Sys S F
    unfolding crit_user
    check_crit s temp =
        if lt (single (of_int s.args.crit_temp)) temp && not s.fan.crit then crit_user s else s

    pub clear_crit : Sys S F → F → Sys S F
    unfolding with_crit
    clear_crit s temp =
        if lt temp (single (of_int s.args.crit_temp)) && s.fan.crit then with_crit s false else s

    pub check_limits : Sys S F → F → ℤ → Sys S F
    unfolding check_warn clear_warn check_crit clear_crit
    check_limits s temp fan =
        clear_crit (check_crit (clear_warn (check_warn s temp fan) temp) temp) temp

    with_temp : Sys S F → F → Sys S F
    with_temp s x = record s { fan = record (s.fan) { temp = x } }

    first_temp : Sys S F → Flow (Sys S F)
    unfolding with_temp
    first_temp s = elim (eq s.fan.temp (of_int (pos 0))) [
      | false ↦ on s
      | true ↦ read_temp m s >>= λ r.
          on (with_temp r.1 (single (div (of_int r.0) (literal (pos 1000) 0))))
    ]

    ask_disks : Sys S F → ℤ × Sys S F
    ask_disks s = if equal_ℤ s.args.disks_temp (pos 0) then (pos 0, s) else read_disks_temp m fl s

    -- The temperature that counts moves by nine tenths towards what is measured.
    smooth : ℤ → F → F
    smooth measured temp =
        single (add (mul (literal (pos 9) 1) (of_int measured)) (mul (literal (pos 1) 1) temp))

    -- `fabsf(temp - log_temp) > 1.0 || abs(fan - log_fan) > 400`
    has_moved : FanStatics F → F → ℤ → Bool
    has_moved st temp fan =
        lt (literal (pos 1) 0) (abs (single (sub temp st.log_temp)))
        || ltb_ℤ (pos 400) (fan -ℤ st.log_fan)
        || ltb_ℤ (pos 400) (st.log_fan -ℤ fan)

    log_change : Sys S F → F → ℤ → ℤ → ℤ → ℤ → Sys S F
    unfolding has_moved
    log_change s temp stemp dtemp pwm fan =
        if has_moved s.fan temp fan
        then fanlog m (record s { fan = record (s.fan) { log_temp = temp; log_fan = fan } }) stemp
            dtemp pwm fan
        else s

    -- What is done once everything is read.
    pub control : Sys S F → ℤ → ℤ → Sys S F
    unfolding smooth with_temp log_change
    control s stemp dtemp =
        let temp = smooth (max_ℤ stemp dtemp) s.fan.temp in
        let fan = read_fan s in
        let pwm = read_pwm s in
        let t = log_change (with_temp s temp) temp stemp dtemp pwm fan in
        check_limits (write_pwm m t (new_pwm t.board t.args temp fan pwm)) temp fan

    pub fanctl : Sys S F → Flow (Sys S F)
    unfolding first_temp ask_disks
    fanctl s = do
      t ← first_temp s
      (millis, u) ← read_temp m t
      let (dtemp, v) = ask_disks u
      on (control v (thousandth millis) dtemp)
