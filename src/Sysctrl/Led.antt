-- ===== src/Sysctrl/Led.antt =====
-- The LEDs and their queue: `led_set`, `led_get`, `led_blink`, `leds_on`, `leds_off`, `leds_blink`,
-- `leds_set`, `leds_proc` and `check_syserrlog` of
-- package/alt-f-utils/alt-f-utils-0.1.11/sysctrl.c.
pub mod Errors
pub mod Only
pub mod Queue
use alt_f.Prelude.{
  ℕ, Bool, true, false, Option, none, some, List, [], ◌∷◌, ◌++◌, set, ◌==◌, if◌then◌else◌,
}
use alt_f.Prelude.Int.{ℤ, negsuc}
use alt_f.Prelude.Text.{codes}
use alt_f.Sysctrl.Globals.{
  Led, left_led, right_led, usb_led, power_led, LedMode, na, ledoff, ledon, ledblink, Sys, Machine,
  syserrorfn, read_str_from_file, read_int_from_file, syswrite,
}

abbrev pub default_leds : Led → Option (List ℕ)
default_leds left_led = some (codes "/tmp/sys/left_led/")
default_leds right_led = some (codes "/tmp/sys/right_led/")
default_leds usb_led = some (codes "/tmp/sys/usb_led/")
default_leds power_led = some (codes "/tmp/sys/power_led/")

-- `strchr`: the text from the character on.
abbrev pub strchr : ℕ → List ℕ → Option (List ℕ)
strchr c [] = none
strchr c (x ∷ xs) = let rest = strchr c xs in if x == c then some (x ∷ xs) else rest

-- The text up to the character, where `*te = '\0'` ends it.
abbrev pub until : ℕ → List ℕ → List ℕ
until c [] = []
until c (x ∷ xs) = let rest = x ∷ until c xs in if x == c then [] else rest

after_first : List ℕ → List ℕ
after_first [] = []
after_first (x ∷ xs) = xs

-- What is copied from `ts + 1`, when the first `]` of the text has become its end.
cut_name : Option (List ℕ) → List ℕ → List ℕ
cut_name none name = until 93 name
cut_name (some earlier) name = name

-- The name of the trigger in use is in brackets, or it is the whole text; with one bracket only,
-- `mode` stays as it was.
trigger_name : List ℕ → List ℕ → List ℕ
unfolding after_first cut_name
trigger_name mode text = elim (strchr 91 text) [
  | none ↦ elim (strchr 93 text) [ none ↦ text | some te ↦ mode ]
  | some ts ↦ elim (strchr 93 text) [
    | none ↦ mode
    | some te ↦ cut_name (strchr 93 (until 91 text)) (after_first ts)
  ]
]

-- The value read, or -1.
abbrev or_minus_one : Option ℤ → ℤ
or_minus_one none = negsuc 0
or_minus_one (some u) = u

abbrev pub red_leds : List Led
red_leds = left_led ∷ right_led ∷ []

abbrev pub phigh : ℕ
phigh = 0

abbrev pub plow : ℕ
plow = 2

-- What `stat` says of the file of errors: that it is missing, or whether it has bytes.
abbrev pub has_bytes : Option (List ℕ) → Bool
has_bytes none = false
has_bytes (some []) = false
has_bytes (some (x ∷ xs)) = true

module _ {S F : Type 0} (m : Machine S) where
  unfoldable pub set_in : Sys S F → List ℕ → List ℕ → Sys S F
  set_in s dir mode =
      syswrite m (syswrite m s (dir ++ codes "trigger") (codes "none")) (dir ++ codes "brightness")
        mode

  unfoldable pub led_set : Sys S F → Led → List ℕ → Sys S F
  unfolding set_in
  led_set s which mode = elim (s.leds which) [ none ↦ s | some dir ↦ set_in s dir mode ]

  get_in : Sys S F → List ℕ → List ℕ → ℤ → ℤ × List ℕ
  unfolding trigger_name
  get_in s dir mode old = elim (read_str_from_file s (dir ++ codes "trigger") 128) [
    | none ↦ (negsuc 0, mode)
    | some text ↦ (
      or_minus_one (read_int_from_file s (dir ++ codes "brightness") old),
      trigger_name mode text,
    )
  ]

  -- The brightness and the trigger. `mode` and `old` are what stands in `*mode` and in `u` before.
  pub led_get : Sys S F → Led → List ℕ → ℤ → ℤ × List ℕ
  unfolding get_in
  led_get s which mode old = elim (s.leds which) [
    | none ↦ (negsuc 0, mode)
    | some dir ↦ get_in s dir mode old
  ]

  unfoldable pub blink_in : Sys S F → Led → List ℕ → List ℕ → List ℕ → Sys S F
  blink_in s which dir on_time off_time =
      syswrite m
        (syswrite m
          (syswrite m (led_set s which (codes "0")) (dir ++ codes "trigger") (codes "timer"))
          (dir ++ codes "delay_on") on_time)
        (dir ++ codes "delay_off") off_time

  unfoldable pub led_blink : Sys S F → Led → List ℕ → List ℕ → Sys S F
  unfolding blink_in
  led_blink s which on_time off_time = elim (s.leds which) [
    | none ↦ s
    | some dir ↦ blink_in s which dir on_time off_time
  ]

  unfoldable pub for_leds : (Sys S F → Led → Sys S F) → List Led → Sys S F → Sys S F
  for_leds body [] s = s
  for_leds body (l ∷ ls) s = for_leds body ls (body s l)

  pub leds_on : Sys S F → Sys S F
  unfolding for_leds
  leds_on = for_leds (λ s l. led_set s l (codes "1")) red_leds

  unfoldable pub leds_off : Sys S F → Sys S F
  unfolding for_leds
  leds_off = for_leds (λ s l. led_set s l (codes "0")) red_leds

  pub leds_blink : Sys S F → Sys S F
  unfolding for_leds
  leds_blink = for_leds (λ s l. led_blink s l (codes "250") (codes "250")) red_leds

  unfoldable pub leds_set : Sys S F → ℕ → LedMode → Sys S F
  leds_set s priority mode = record s { queue = set s.queue priority mode }

  -- One entry of the queue, and what it becomes.
  pub serve_entry : Sys S F → LedMode → Sys S F × LedMode
  serve_entry s na = (s, na)
  serve_entry s ledoff = (leds_off s, na)
  serve_entry s ledon = (leds_on s, ledon)
  serve_entry s ledblink = (leds_blink s, ledblink)

  pub proc_entries : Sys S F → List LedMode → Sys S F × List LedMode
  proc_entries s [] = (s, [])
  proc_entries s (e ∷ es) =
      let (s', e') = serve_entry s e in let (t, rest) = proc_entries s' es in (t, e' ∷ rest)

  pub leds_proc : Sys S F → Sys S F
  leds_proc s = let (t, queue) = proc_entries s s.queue in record t { queue = queue }

  -- The state of the log and what the LEDs are told when it changes.
  pub note_log : Sys S F → Bool → Sys S F
  note_log s true = if s.leds_state then s else leds_set (record s { leds_state = true }) plow ledon
  note_log s false =
      if s.leds_state then leds_set (record s { leds_state = false }) plow ledoff else s

  pub check_syserrlog : Sys S F → Bool × Sys S F
  unfolding note_log
  check_syserrlog s = let full = has_bytes (s.files syserrorfn) in (full, note_log s full)
