-- ===== src/Sysctrl/Led/Queue.antt =====
-- Which of the queued modes the LEDs show: `leds_proc` of
-- package/alt-f-utils/alt-f-utils-0.1.11/sysctrl.c.
use alt_f.Prelude.{
  ℕ, ◌≡◌, refl, sym, ap, subst, ◌∙◌, true, Option, none, some, List, [], ◌∷◌, ◌++◌, if◌then◌else◌,
  arith,
}
use alt_f.Prelude.Text.{codes}
use alt_f.Sysctrl.Globals.{
  Led, left_led, right_led, LedMode, na, ledoff, ledon, ledblink, Sys, Machine, with_text, syswrite,
  write_str_to_file,
}
use alt_f.Sysctrl.Led.{
  red_leds, set_in, led_set, blink_in, led_blink, for_leds, leds_on, leds_off, leds_blink,
  serve_entry, proc_entries, leds_proc,
}

module _ {S F : Type 0} where
  -- The text of a file of both red LEDs.
  abbrev BothHold : Sys S F → List ℕ → List ℕ → Type 0
  BothHold s name text =
      (s.files (codes "/tmp/sys/left_led/" ++ name) ≡ some (text ++ 10 ∷ []))
      × (s.files (codes "/tmp/sys/right_led/" ++ name) ≡ some (text ++ 10 ∷ []))

  -- What the files tell the kernel for a mode.
  abbrev pub Shows : Sys S F → LedMode → Type 0
  Shows s na = Unit
  Shows s ledoff =
      BothHold s (codes "trigger") (codes "none") × BothHold s (codes "brightness") (codes "0")
  Shows s ledon =
      BothHold s (codes "trigger") (codes "none") × BothHold s (codes "brightness") (codes "1")
  Shows s ledblink =
      BothHold s (codes "trigger") (codes "timer")
      × BothHold s (codes "delay_on") (codes "250")
      × BothHold s (codes "delay_off") (codes "250")

  -- The table `leds` has the two red LEDs.
  abbrev pub HasLeds : Sys S F → Type 0
  HasLeds s =
      (s.leds left_led ≡ some (codes "/tmp/sys/left_led/"))
      × (s.leds right_led ≡ some (codes "/tmp/sys/right_led/"))

-- The last entry that asks for something.
abbrev pub last_mode : List LedMode → LedMode
last_mode [] = na
last_mode (e ∷ es) = elim (last_mode es) [
  | na ↦ e
  | ledoff ↦ ledoff
  | ledon ↦ ledon
  | ledblink ↦ ledblink
]

entry_na :
    (e q : LedMode)
    → elim q [ na ↦ e | ledoff ↦ ledoff | ledon ↦ ledon | ledblink ↦ ledblink ] ≡ na
    → (e ≡ na) × (q ≡ na)
entry_na e na h = (h, refl)
entry_na e ledoff h = ground (arith, h)
entry_na e ledon h = ground (arith, h)
entry_na e ledblink h = ground (arith, h)

-- The files as they are written.
abbrev Files : Type 0
Files = List ℕ → Option (List ℕ)

abbrev with_line : List ℕ → List ℕ → Files → Files
with_line name text files = with_text name (text ++ 10 ∷ []) files

abbrev set_files : List ℕ → List ℕ → Files → Files
set_files mode dir files =
    with_line (dir ++ codes "brightness") mode
      (with_line (dir ++ codes "trigger") (codes "none") files)

abbrev blink_files : List ℕ → Files → Files
blink_files dir files = with_line (dir ++ codes "delay_off") (codes "250") (
    with_line (dir ++ codes "delay_on") (codes "250")
      (with_line (dir ++ codes "trigger") (codes "timer") (set_files (codes "0") dir files)))

module _ {S F : Type 0} (m : Machine S) (w : (name : List ℕ) → m.writable name ≡ true) where
  syswrite_lem :
      (s : Sys S F) (name text : List ℕ)
      → syswrite m s name text ≡ record s { files = with_line name text s.files }
  unfolding syswrite write_str_to_file
  syswrite_lem s name text =
      ap (λ b. if b then record s { files = with_line name text s.files } else s) (w name)

  set_in_lem :
      (s : Sys S F) (dir mode : List ℕ)
      → set_in m s dir mode ≡ record s { files = set_files mode dir s.files }
  unfolding set_in
  set_in_lem s dir mode =
      ap (λ t. syswrite m t (dir ++ codes "brightness") mode) (syswrite_lem s _ (codes "none"))
      ∙ syswrite_lem _ _ mode

  led_set_lem :
      (s : Sys S F) (which : Led) (dir mode : List ℕ)
      → s.leds which ≡ some dir
      → led_set m s which mode ≡ record s { files = set_files mode dir s.files }
  unfolding led_set
  led_set_lem s which dir mode h =
      ap (λ o. elim o [ none ↦ s | some d ↦ set_in m s d mode ]) h ∙ set_in_lem s dir mode

  led_blink_lem :
      (s : Sys S F) (which : Led) (dir : List ℕ)
      → s.leds which ≡ some dir
      → led_blink m s which (codes "250") (codes "250")
        ≡ record s { files = blink_files dir s.files }
  unfolding led_blink blink_in
  led_blink_lem s which dir h =
      ap (λ o. elim o [ none ↦ s | some d ↦ blink_in m s which d (codes "250") (codes "250") ]) h
      ∙ ap
          (λ t.
            syswrite m
              (syswrite m (syswrite m t (dir ++ codes "trigger") (codes "timer"))
                (dir ++ codes "delay_on") (codes "250"))
              (dir ++ codes "delay_off") (codes "250"))
          (led_set_lem s which dir (codes "0") h)
      ∙ ap
          (λ t.
            syswrite m (syswrite m t (dir ++ codes "delay_on") (codes "250"))
              (dir ++ codes "delay_off") (codes "250"))
          (syswrite_lem _ _ (codes "timer"))
      ∙ ap (λ t. syswrite m t (dir ++ codes "delay_off") (codes "250"))
          (syswrite_lem _ _ (codes "250"))
      ∙ syswrite_lem _ _ (codes "250")

  -- Both red LEDs, one after the other.
  both_lem :
      (body : Sys S F → Led → Sys S F) (change : List ℕ → Files → Files)
      → ((s : Sys S F) (l : Led) (dir : List ℕ)
          → s.leds l ≡ some dir
          → body s l ≡ record s { files = change dir s.files })
      → (s : Sys S F) → HasLeds s
      → for_leds m body red_leds s ≡ record s {
        files = change (codes "/tmp/sys/right_led/") (change (codes "/tmp/sys/left_led/") s.files);
      }
  unfolding for_leds
  both_lem body change step s (l, r) =
      ap (λ t. body t right_led) (step s left_led _ l)
      ∙ step (record s { files = change (codes "/tmp/sys/left_led/") s.files }) right_led _ r

  abbrev Done : Sys S F → LedMode → Type 0
  Done s e = Shows s e × HasLeds s

  on-Shows : (s : Sys S F) → HasLeds s → Done (leds_on m s) ledon
  unfolding leds_on
  on-Shows s h =
      subst (λ t. Done t ledon)
        (sym (both_lem _ (set_files (codes "1")) (λ s l dir. led_set_lem s l dir (codes "1")) s h))
        (((refl, refl), (refl, refl)), h)

  off-Shows : (s : Sys S F) → HasLeds s → Done (leds_off m s) ledoff
  unfolding leds_off
  off-Shows s h =
      subst (λ t. Done t ledoff)
        (sym (both_lem _ (set_files (codes "0")) (λ s l dir. led_set_lem s l dir (codes "0")) s h))
        (((refl, refl), (refl, refl)), h)

  blink-Shows : (s : Sys S F) → HasLeds s → Done (leds_blink m s) ledblink
  unfolding leds_blink
  blink-Shows s h =
      subst (λ t. Done t ledblink) (sym (both_lem _ blink_files led_blink_lem s h))
        (((refl, refl), (refl, refl), (refl, refl)), h)

  serve-Shows : (e : LedMode) (s : Sys S F) → HasLeds s → Done (serve_entry m s e).0 e
  unfolding serve_entry
  serve-Shows na s h = (tt, h)
  serve-Shows ledoff s h = off-Shows s h
  serve-Shows ledon s h = on-Shows s h
  serve-Shows ledblink s h = blink-Shows s h

  -- Entries that ask for nothing leave what is shown.
  later :
      (q : LedMode) (e : LedMode) (s t : Sys S F)
      → Done s e
      → (q ≡ na → t ≡ s)
      → Done t q
      → Done t (elim q [ na ↦ e | ledoff ↦ ledoff | ledon ↦ ledon | ledblink ↦ ledblink ])
  later na e s t d same g = subst (λ x. Done x e) (sym (same refl)) d
  later ledoff e s t d same g = g
  later ledon e s t d same g = g
  later ledblink e s t d same g = g

  serve_na : (e : LedMode) (s : Sys S F) → e ≡ na → (serve_entry m s e).0 ≡ s
  unfolding serve_entry
  serve_na na s h = refl
  serve_na ledoff s h = ground (arith, h)
  serve_na ledon s h = ground (arith, h)
  serve_na ledblink s h = ground (arith, h)

  entries_na : (es : List LedMode) (s : Sys S F) → last_mode es ≡ na → (proc_entries m s es).0 ≡ s
  unfolding proc_entries
  entries_na [] s h = refl
  entries_na (e ∷ es) s h =
      let (he, hq) = entry_na e (last_mode es) h in
      entries_na es (serve_entry m s e).0 hq ∙ serve_na e s he

  entries-Shows :
      (es : List LedMode) (s : Sys S F) → HasLeds s → Done (proc_entries m s es).0 (last_mode es)
  unfolding proc_entries
  entries-Shows [] s h = (tt, h)
  entries-Shows (e ∷ es) s h =
      let d = serve-Shows e s h in
      later (last_mode es) e (serve_entry m s e).0 _ d (entries_na es _)
        (entries-Shows es (serve_entry m s e).0 (d.1))

  -- After `leds_proc` both red LEDs show the mode of the last entry of the queue that asks for one,
  -- which is the one of the lowest priority, and entries in front of it are not seen. This is for a
  -- box with the two LEDs, whose files can all be written.
  pub leds_proc-Shows : (s : Sys S F) → HasLeds s → Shows (leds_proc m s) (last_mode s.queue)
  unfolding leds_proc
  leds_proc-Shows s h =
      kept (last_mode s.queue) (proc_entries m s s.queue).0 (proc_entries m s s.queue).1
        (entries-Shows s.queue s h).0
    where
      kept :
          (e : LedMode) (t : Sys S F) (q : List LedMode)
          → Shows t e
          → Shows (record t { queue = q }) e
      kept na t q h = tt
      kept ledoff t q h = h
      kept ledon t q h = h
      kept ledblink t q h = h
