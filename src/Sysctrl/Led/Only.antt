-- ===== src/Sysctrl/Led/Only.antt =====
-- What the functions on LEDs leave alone: `led_set` and `led_blink` of
-- package/alt-f-utils/alt-f-utils-0.1.11/sysctrl.c.
use alt_f.Prelude.{ℕ, ◌≡◌, refl, ap, ◌∙◌, if_elim, Option, none, some, List, ◌++◌}
use alt_f.Prelude.Text.{codes}
use alt_f.Sysctrl.Globals.{Led, Sys, Machine, syswrite, write_str_to_file}
use alt_f.Sysctrl.Led.{set_in, led_set, blink_in, led_blink}

module _ {S F : Type 0} where
  -- Nothing but the files may differ.
  abbrev pub OnlyFiles : Sys S F → Sys S F → Type 0
  OnlyFiles s t = t ≡ record s { files = t.files }

  then_files : (s t u : Sys S F) → OnlyFiles s t → OnlyFiles t u → OnlyFiles s u
  then_files s t u h k = k ∙ ap (λ (x : Sys S F). record x { files = u.files }) h

module _ {S F : Type 0} (m : Machine S) where
  syswrite-OnlyFiles : (s : Sys S F) (name text : List ℕ) → OnlyFiles s (syswrite m s name text)
  unfolding syswrite write_str_to_file
  syswrite-OnlyFiles s name text = if_elim (OnlyFiles s) (m.writable name) refl refl

  set_in-OnlyFiles : (s : Sys S F) (dir mode : List ℕ) → OnlyFiles s (set_in m s dir mode)
  unfolding set_in
  set_in-OnlyFiles s dir mode =
      let t = syswrite m s (dir ++ codes "trigger") (codes "none") in
      then_files s t (syswrite m t (dir ++ codes "brightness") mode)
        (syswrite-OnlyFiles s (dir ++ codes "trigger") (codes "none"))
        (syswrite-OnlyFiles t (dir ++ codes "brightness") mode)

  pub led_set-OnlyFiles :
      (s : Sys S F) (which : Led) (mode : List ℕ) → OnlyFiles s (led_set m s which mode)
  unfolding led_set
  led_set-OnlyFiles s which mode = cases (s.leds which)
    where
      cases :
          (o : Option (List ℕ)) → OnlyFiles s (elim o [ none ↦ s | some dir ↦ set_in m s dir mode ])
      cases none = refl
      cases (some dir) = set_in-OnlyFiles s dir mode

  pub led_blink-OnlyFiles :
      (s : Sys S F) (which : Led) (on_time off_time : List ℕ)
      → OnlyFiles s (led_blink m s which on_time off_time)
  unfolding led_blink blink_in
  led_blink-OnlyFiles s which on_time off_time = cases (s.leds which)
    where
      cases :
          (o : Option (List ℕ))
          → OnlyFiles s (elim o [ none ↦ s | some dir ↦ blink_in m s which dir on_time off_time ])
      cases none = refl
      cases (some dir) =
          let a = led_set m s which (codes "0") in
          let b = syswrite m a (dir ++ codes "trigger") (codes "timer") in
          let c = syswrite m b (dir ++ codes "delay_on") on_time in
          let d = syswrite m c (dir ++ codes "delay_off") off_time in
          then_files s a d (led_set-OnlyFiles s which (codes "0")) (
            then_files a b d (syswrite-OnlyFiles a (dir ++ codes "trigger") (codes "timer")) (
              then_files b c d (syswrite-OnlyFiles b (dir ++ codes "delay_on") on_time)
                (syswrite-OnlyFiles c (dir ++ codes "delay_off") off_time)))
