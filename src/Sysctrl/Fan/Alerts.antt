-- ===== src/Sysctrl/Fan/Alerts.antt =====
-- How often the user is warned: the end of `fanctl` of
-- package/alt-f-utils/alt-f-utils-0.1.11/sysctrl.c.
use alt_f.Prelude.{
  ℕ, ◌≡◌, refl, sym, ap, subst, ◌∙◌, inl, inr, true, false, not, ◌&&◌, Bool-cases, Option, none,
  some, List, [], ◌∷◌, arith,
}
use alt_f.Prelude.Int.{ℤ, pos, equal_ℤ}
use alt_f.Prelude.Text.{codes}
use alt_f.Sysctrl.Globals.{Sys, Machine, syserrorfn, calling, syserrorlog, exec_userscript}
use alt_f.Sysctrl.Temp.{Floats}
use alt_f.Sysctrl.Fan.{
  smail, warning, mail_if, with_warn, with_crit, warn_user, crit_user, check_warn, clear_warn,
  check_crit, clear_crit, check_limits,
}

module _ {S F : Type 0} where
  -- Nothing but the calls may differ.
  abbrev Quiet : Sys S F → Sys S F → Type 0
  Quiet s t = t ≡ record s { calls = t.calls }

  exec_userscript-Quiet :
      (s : Sys S F) (c : Option (List ℕ)) (n : ℕ) (arg : Option (List ℕ))
      → Quiet s (exec_userscript s c n arg)
  unfolding exec_userscript calling
  exec_userscript-Quiet s none n arg = refl
  exec_userscript-Quiet s (some []) n arg = refl
  exec_userscript-Quiet s (some (c ∷ cs)) n arg = refl

  smail-Quiet :
      (m : Machine S) (s : Sys S F) (kind : List ℕ) (limit : ℤ) → Quiet s (smail m s kind limit)
  unfolding smail calling
  smail-Quiet m s kind limit = ground arith

module _ {S F : Type 0} (fl : Floats F) (m : Machine S) where
  mail_if-Quiet : (s : Sys S F) (kind : List ℕ) (limit : ℤ) → Quiet s (mail_if fl m s kind limit)
  unfolding mail_if
  mail_if-Quiet s kind limit = elim (Bool-cases (equal_ℤ s.args.mail (pos 0))) [
    | inl e ↦ rw (e, mail_if) refl
    | inr e ↦ rw (e, mail_if) (smail-Quiet m s kind limit)
  ]

  -- What is looked at: the files, the configuration, and whether a warning is out.
  abbrev Seen : Sys S F → Sys S F → Type 0
  Seen s t = (t.files ≡ s.files) × (t.args ≡ s.args) × (t.fan.warn ≡ s.fan.warn)

  Quiet-Seen : (s t : Sys S F) → Quiet s t → Seen s t
  Quiet-Seen s t q = (ap (λ x. x.files) q, ap (λ x. x.args) q, ap (λ x. x.fan.warn) q)

  Seen-trans : (s t u : Sys S F) → Seen s t → Seen t u → Seen s u
  Seen-trans s t u (a, b, c) (d, e, f) = (d ∙ a, e ∙ b, f ∙ c)

  abbrev warn_level : Sys S F → F
  warn_level s = fl.single (fl.of_int s.args.warn_temp)

  abbrev crit_level : Sys S F → F
  crit_level s = fl.single (fl.of_int s.args.crit_temp)

  crit_user-Seen : (s : Sys S F) → Seen s (crit_user fl m s)
  unfolding crit_user with_crit
  crit_user-Seen s =
      let t = mail_if fl m s (codes "CRITICAL") s.args.crit_temp in
      let u = exec_userscript t s.args.crit_temp_command 20 none in
      Seen-trans s t u (Quiet-Seen s t (mail_if-Quiet s _ _))
        (Quiet-Seen t u (exec_userscript-Quiet t s.args.crit_temp_command 20 none))

  check_crit-Seen : (s : Sys S F) (temp : F) → Seen s (check_crit fl m s temp)
  unfolding check_crit
  check_crit-Seen s temp = elim (Bool-cases (fl.lt (crit_level s) temp && not s.fan.crit)) [
    | inl e ↦ rw e (crit_user-Seen s)
    | inr e ↦ rw e (refl, refl, refl)
  ]

  clear_crit-Seen : (s : Sys S F) (temp : F) → Seen s (clear_crit fl m s temp)
  unfolding clear_crit with_crit
  clear_crit-Seen s temp = elim (Bool-cases (fl.lt temp (crit_level s) && s.fan.crit)) [
    | inl e ↦ rw e (refl, refl, refl)
    | inr e ↦ rw e (refl, refl, refl)
  ]

  check_warn_done :
      (s : Sys S F) (temp : F) (fan : ℤ) → s.fan.warn ≡ true → check_warn fl m s temp fan ≡ s
  unfolding check_warn
  check_warn_done s temp fan h = ground arith

  clear_warn_done :
      (s : Sys S F) (temp : F) → fl.lt temp (warn_level s) ≡ false → clear_warn fl m s temp ≡ s
  unfolding clear_warn
  clear_warn_done s temp h = rw h refl

  crit_stage : (s : Sys S F) (temp : F) → Seen s (clear_crit fl m (check_crit fl m s temp) temp)
  crit_stage s temp =
      let t = check_crit fl m s temp in
      Seen-trans s t (clear_crit fl m t temp) (check_crit-Seen s temp) (clear_crit-Seen t temp)

  quiet_round :
      (s : Sys S F) (temp : F) (fan : ℤ)
      → s.fan.warn ≡ true
      → fl.lt temp (warn_level s) ≡ false
      → Seen s (check_limits fl m s temp fan)
  unfolding check_limits
  quiet_round s temp fan h k =
      let same : clear_warn fl m (check_warn fl m s temp fan) temp ≡ s =
        ap (λ x. clear_warn fl m x temp) (check_warn_done s temp fan h)
        ∙ clear_warn_done s temp k in
      subst (λ x. Seen s (clear_crit fl m (check_crit fl m x temp) temp)) (sym same)
        (crit_stage s temp)

  -- One call of `check_limits` after another, each with a temperature and a speed.
  pub limits_run : List (F × ℤ) → Sys S F → Sys S F
  limits_run [] s = s
  limits_run ((temp, fan) ∷ ts) s = limits_run ts (check_limits fl m s temp fan)

  -- No temperature of the list is below the level.
  abbrev pub NoneBelow : F → List (F × ℤ) → Type 0
  NoneBelow level [] = Unit
  NoneBelow level ((temp, fan) ∷ ts) = (fl.lt temp level ≡ false) × NoneBelow level ts

  quiet_run :
      (ts : List (F × ℤ)) (s : Sys S F)
      → s.fan.warn ≡ true
      → NoneBelow (warn_level s) ts
      → Seen s (limits_run ts s)
  unfolding limits_run
  quiet_run [] s h k = (refl, refl, refl)
  quiet_run ((temp, fan) ∷ ts) s h (k, ks) =
      let t = check_limits fl m s temp fan in
      let q = quiet_round s temp fan h k in
      Seen-trans s t (limits_run ts t) q (
        quiet_run ts t (q.2 ∙ h)
          (subst (λ a. NoneBelow (fl.single (fl.of_int a.warn_temp)) ts) (sym (q.1)) ks))

  syserrorlog-args : (s : Sys S F) (msg : List ℕ) → (syserrorlog m s msg).args ≡ s.args
  unfolding syserrorlog
  syserrorlog-args s msg = elim (Bool-cases (m.writable syserrorfn)) [
    | inl e ↦ rw e refl
    | inr e ↦ rw e refl
  ]

  warn_user_lem :
      (s : Sys S F) (temp : F) (fan : ℤ)
      → ((warn_user fl m s temp fan).files ≡ (syserrorlog m s (warning fl m s temp fan)).files)
        × ((warn_user fl m s temp fan).args ≡ s.args)
        × ((warn_user fl m s temp fan).fan.warn ≡ true)
  unfolding warn_user with_warn
  warn_user_lem s temp fan =
      let logged = syserrorlog m s (warning fl m s temp fan) in
      let t = mail_if fl m logged (codes "warning") s.args.warn_temp in
      let u = exec_userscript t s.args.warn_temp_command 20 none in
      let q =
        Seen-trans logged t u (Quiet-Seen logged t (mail_if-Quiet logged _ _))
          (Quiet-Seen t u (exec_userscript-Quiet t s.args.warn_temp_command 20 none)) in
      (q.0, q.1 ∙ syserrorlog-args s (warning fl m s temp fan), refl)

  warning_round :
      (s : Sys S F) (temp : F) (fan : ℤ)
      → s.fan.warn ≡ false
      → fl.lt (warn_level s) temp ≡ true
      → fl.lt temp (crit_level s) ≡ true
      → fl.lt temp (warn_level s) ≡ false
      → Seen (warn_user fl m s temp fan) (check_limits fl m s temp fan)
  unfolding check_limits check_warn
  warning_round s temp fan w a b k =
      let u = warn_user fl m s temp fan in
      let first : check_warn fl m s temp fan ≡ u = rw (a, b, w, check_warn) refl in
      let level : fl.lt temp (warn_level u) ≡ false =
        subst (λ x. fl.lt temp (fl.single (fl.of_int x.warn_temp)) ≡ false)
          (sym (warn_user_lem s temp fan).1) k in
      let same : clear_warn fl m (check_warn fl m s temp fan) temp ≡ u =
        ap (λ x. clear_warn fl m x temp) first ∙ clear_warn_done u temp level in
      subst (λ x. Seen u (clear_crit fl m (check_crit fl m x temp) temp)) (sym same)
        (crit_stage u temp)

  -- A temperature between the two limits is written to the file of errors once: with the message out,
  -- no file changes any more for as long as the temperature does not fall below the lower limit,
  -- whatever it does above it, and the warning stays marked as given.
  pub limits_run_once :
      (s : Sys S F) (temp : F) (fan : ℤ) (ts : List (F × ℤ))
      → s.fan.warn ≡ false
      → fl.lt (warn_level s) temp ≡ true
      → fl.lt temp (crit_level s) ≡ true
      → NoneBelow (warn_level s) ((temp, fan) ∷ ts)
      → ((limits_run ((temp, fan) ∷ ts) s).files
          ≡ (syserrorlog m s (warning fl m s temp fan)).files)
        × ((limits_run ((temp, fan) ∷ ts) s).fan.warn ≡ true)
  unfolding limits_run
  limits_run_once s temp fan ts w a b (k, ks) =
      let u = warn_user fl m s temp fan in
      let t = check_limits fl m s temp fan in
      let (files, args, flag) = warn_user_lem s temp fan in
      let (f, g, h) = warning_round s temp fan w a b k in
      let q =
        quiet_run ts t (h ∙ flag)
          (subst (λ x. NoneBelow (fl.single (fl.of_int x.warn_temp)) ts) (sym (g ∙ args)) ks) in
      (q.0 ∙ f ∙ files, q.2 ∙ h ∙ flag)
