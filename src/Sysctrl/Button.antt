-- ===== src/Sysctrl/Button.antt =====
-- The buttons: `button` and `debounce` of package/alt-f-utils/alt-f-utils-0.1.11/sysctrl.c.
pub mod Settles
use alt_f.Prelude.{
  ℕ, zero, suc, ◌-◌, ◌*◌, Bool, true, false, ◌||◌, bit_and, bit_or, ◌==◌, if◌then◌else◌, some,
}
use alt_f.Prelude.Int.{ℤ, pos, negsuc, equal_ℤ}
use alt_f.Prelude.Text.{codes}
use alt_f.Sysctrl.Globals.{
  Board, dns_320l_ax, dns_320_bx, dns_327l_ax, Reading, nothing, partial, again, broken, event, Sys,
  Machine, Flow, on, left, hung, ◌>>=◌, read_int_from_file, poweroff,
}

-- `enum Button`.
abbrev pub no_bt : ℤ
no_bt = pos 0

abbrev pub front_bt : ℤ
front_bt = pos 1

abbrev pub reset_bt : ℤ
reset_bt = pos 2

abbrev pub usb_bt : ℤ
usb_bt = pos 3

-- FRONT_EV, RESET_EV and USB_EV; any other key is no button.
unfoldable pub decode : ℕ → ℕ → ℤ
decode key value =
    if key == 0x74
    then pos (bit_or 1 (value * 128))
    else if key == 0x198
    then pos (bit_or 2 (value * 128))
    else if key == 0x85
    then pos (bit_or 3 (value * 128))
    else no_bt

-- Bit 7 of a pressed key is cleared, and a key that is not pressed is none. The complement of the
-- bits of `negsuc n` are those of `n`.
unfoldable pub key_held : ℤ → ℤ
key_held (pos n) = if bit_and n 128 == 0 then no_bt else pos (n - bit_and n 128)
key_held (negsuc n) = if bit_and n 128 == 0 then negsuc (bit_or n 128) else no_bt

-- Whether `debounce` takes what `button` gives for no new event at its first call.
abbrev pub no_event : ℤ → Bool
no_event n = equal_ℤ n (negsuc 0) || equal_ℤ n (pos 0)

-- The boards with a power button of their own.
abbrev pub has_power_button : Board → Bool
has_power_button dns_320l_ax = true
has_power_button dns_320_bx = true
has_power_button dns_327l_ax = true
has_power_button _ = false

module _ {S : Type 0} (m : Machine S) where
  -- `while ((n = read(...)) == 0)`, with fuel for as many reads as give nothing.
  unfoldable pub sync_loop : ℕ → S → Flow S
  sync_loop zero s = left hung
  sync_loop (suc fuel) s =
      let (r, s') = m.reads_event s in elim r [ nothing ↦ sync_loop fuel s' | _ ↦ on s' ]

  unfoldable pub read_key : Reading → S → Flow (ℤ × S)
  unfolding sync_loop
  read_key nothing s = on (no_bt, s)
  read_key partial s = on (no_bt, s)
  read_key again s = on (no_bt, s)
  read_key broken s = on (negsuc 0, s)
  read_key (event false key value) s = on (no_bt, s)
  read_key (event true key value) s =
      sync_loop (suc (m.zeros s)) s >>= λ s'. on (decode key value, s')

  unfoldable pub read_device : S → Flow (ℤ × S)
  unfolding read_key
  read_device s = let (r, s') = m.reads_event s in read_key r s'

module _ {S F : Type 0} (m : Machine S) where
  unfoldable pub with_world : Sys S F → Flow (ℤ × S) → Flow (ℤ × Sys S F)
  with_world s r = r >>= λ p. on (p.0, record s { world = p.1; events_open = true })

  unfoldable pub button : Sys S F → Flow (ℤ × Sys S F)
  unfolding read_device with_world
  button s =
      if s.events_open || m.opens_events s.world
      then with_world s (read_device m s.world)
      else on (negsuc 0, s)

  -- `while (count--)`: `count` is 50 again after every event, so that the recursion is on the events
  -- that may still come and, below them, on `count`.
  unfoldable pub settle : ℕ → ℕ → ℤ → Sys S F → Flow (ℤ × Sys S F)
  settle events zero bt s = on (bt, s)
  settle zero (suc count) bt s = do
    (tbt, s') ← button s
    elim (equal_ℤ tbt (pos 0)) [ true ↦ settle zero count bt s' | false ↦ left hung ]
  settle (suc events) (suc count) bt s = do
    (tbt, s') ← button s
    elim (equal_ℤ tbt (pos 0)) [
      | true ↦ settle (suc events) count bt s'
      | false ↦ settle events 50 tbt s'
    ]

  -- The value is stored in the static, also while the events are awaited.
  unfoldable pub keep_button : ℤ × Sys S F → ℤ × Sys S F
  keep_button (bt, s) = (key_held bt, record s { bt = key_held bt })

  unfoldable pub power_button : Sys S F → Flow (Sys S F)
  power_button s =
      if has_power_button s.board
      then elim (read_int_from_file s (codes "/tmp/sys/power_button") m.stale_int) [
        | some (pos zero) ↦ poweroff m s
        | _ ↦ on s
      ]
      else on s

  -- What is made of the first value that `button` gives.
  unfoldable pub settled : ℤ × Sys S F → Flow (ℤ × Sys S F)
  unfolding keep_button
  settled (tbt, s) = elim (no_event tbt) [
    | true ↦ on (s.bt, s)
    | false ↦ settle (m.pending s.world) 50 tbt s >>= λ r. on (keep_button r)
  ]

  unfoldable pub debounce : Sys S F → Flow (ℤ × Sys S F)
  unfolding power_button settled
  debounce s = power_button s >>= λ t. button t >>= settled
