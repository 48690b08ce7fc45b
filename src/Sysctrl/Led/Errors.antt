-- ===== src/Sysctrl/Led/Errors.antt =====
-- An error that is logged lights the LEDs: `syserrorlog`, `check_syserrlog` and `leds_proc` of
-- package/alt-f-utils/alt-f-utils-0.1.11/sysctrl.c.
use alt_f.Prelude.{
  ℕ, ◌≡◌, refl, sym, ap, subst, ◌∙◌, true, false, Option, none, some, List, [], ◌∷◌, ◌++◌, set,
  if◌then◌else◌,
}
use alt_f.Prelude.Text.{codes}
use alt_f.Sysctrl.Globals.{
  LedMode, ledon, Sys, Machine, syserrorfn, append_to, syserrorlog, with_text,
}
use alt_f.Sysctrl.Led.{plow, has_bytes, leds_set, note_log, check_syserrlog, leds_proc}
use alt_f.Sysctrl.Led.Queue.{HasLeds, Shows, last_mode, leds_proc-Shows}

appended :
    (old : Option (List ℕ)) (c : ℕ) (text : List ℕ)
    → has_bytes (some (append_to old (c ∷ text))) ≡ true
unfolding append_to
appended none c text = refl
appended (some []) c text = refl
appended (some (x ∷ xs)) c text = refl

module _ {S F : Type 0} (m : Machine S) (w : (name : List ℕ) → m.writable name ≡ true) where
  -- What `syserrorlog` leaves.
  logged : Sys S F → List ℕ → Sys S F
  logged s msg = record s {
    files =
        with_text syserrorfn
          (append_to (s.files syserrorfn) (codes "<li>" ++ msg ++ codes "</li>" ++ 10 ∷ []))
          s.files;
  }

  syserrorlog_lem : (s : Sys S F) (msg : List ℕ) → syserrorlog m s msg ≡ logged s msg
  unfolding syserrorlog logged
  syserrorlog_lem s msg = ap (λ b. if b then logged s msg else s) (w syserrorfn)

  noticed :
      (s : Sys S F) (msg : List ℕ)
      → s.leds_state ≡ false
      → check_syserrlog m (logged s msg)
        ≡ (true, record (logged s msg) { leds_state = true; queue = set s.queue plow ledon })
  unfolding check_syserrlog note_log leds_set logged
  noticed s msg h =
      ap (λ b. (b, note_log m (logged s msg) b)) (appended (s.files syserrorfn) 60 _)
      ∙ ap
          (λ b. (
            true,
            if b
                then logged s msg
                else record (logged s msg) { leds_state = true; queue = set s.queue plow ledon },
          ))
          h

  -- An error that is written to the log is shown at the next look at it, when none was known before:
  -- `check_syserrlog` tells it, and `leds_proc` then turns both red LEDs on, whatever the queue of
  -- three modes held. This is for a box with the two LEDs, whose files can all be written.
  pub syserrorlog-Shows :
      (s : Sys S F) (msg : List ℕ) (a b c : LedMode)
      → HasLeds s
      → s.queue ≡ a ∷ b ∷ c ∷ []
      → s.leds_state ≡ false
      → ((check_syserrlog m (syserrorlog m s msg)).0 ≡ true)
        × Shows (leds_proc m (check_syserrlog m (syserrorlog m s msg)).1) ledon
  unfolding logged
  syserrorlog-Shows s msg a b c leds queue state =
      let t = record (logged s msg) { leds_state = true; queue = set s.queue plow ledon } in
      let e : check_syserrlog m (syserrorlog m s msg) ≡ (true, t) =
        ap (check_syserrlog m) (syserrorlog_lem s msg) ∙ noticed s msg state in
      let shown : Shows (leds_proc m t) ledon =
        subst (λ q. Shows (leds_proc m t) (last_mode (set q plow ledon))) queue
          (leds_proc-Shows m w t leds) in
      (ap (λ r. r.0) e, subst (λ r. Shows (leds_proc m (r.1)) ledon) (sym e) shown)
