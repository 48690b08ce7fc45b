-- ===== src/Sysctrl/Disks.antt =====
-- Disks at rest: `check_powermode`, `dstat`, `spindown_disk` and `hdd_powercheck` of
-- package/alt-f-utils/alt-f-utils-0.1.11/sysctrl.c.
pub mod Idle
pub mod Rest
use alt_f.Prelude.{
  ℕ, ◌+◌, Bool, ◌&&◌, ◌||◌, not, Option, none, some, List, [], ◌∷◌, ◌++◌, take, ltb, ◌==◌,
  if◌then◌else◌,
}
use alt_f.Prelude.Int.{ℤ, pos, negsuc, ◌+ℤ◌, ltb_ℤ, equal_ℤ}
use alt_f.Prelude.Text.{codes, bytes_eq}
use alt_f.Prelude.Scan.{strtol}
use alt_f.Sysctrl.Globals.{
  Led, left_led, right_led, usb_led, power_led, Slot, left_dev, right_dev, usb_dev, Disk, Drive,
  closed, passes, fails, Sys, Machine, spindown, calling, read_str_from_file,
}
use alt_f.Sysctrl.Led.{led_set, led_get, led_blink}

abbrev pub slot_id : Slot → ℕ
slot_id left_dev = 0
slot_id right_dev = 1
slot_id usb_dev = 2

-- The LED with the number of the slot.
abbrev pub led_of : Slot → Led
led_of left_dev = left_led
led_of right_dev = right_led
led_of usb_dev = usb_led

abbrev pub slots : ℕ → List Slot
slots n = take n (left_dev ∷ right_dev ∷ usb_dev ∷ [])

abbrev pub with_disk : (Slot → Disk) → Slot → Disk → Slot → Disk
with_disk disks i d j = if slot_id j == slot_id i then d else disks j

-- 1 is active, 0 standby or sleep, -1 unknown.
unfoldable pub mode_of : Drive → ℤ
mode_of closed = negsuc 0
mode_of (passes sectors) = if sectors == 255 then pos 1 else pos 0
mode_of (fails asleep) = if asleep then pos 0 else negsuc 0

-- One field of `sscanf`, as a number and the rest of the text.
field : List ℕ → Option (ℤ × List ℕ)
field = strtol

-- `%lu %*d %*d %*d %lu` in turn: `%*d` has to match and is dropped. A negative number would be taken
-- modulo 2^32; the kernel writes none.
sum_fields : Option (ℤ × List ℕ) → Option (ℤ × List ℕ) → ℕ
sum_fields (some (pos rd, _)) (some (pos wr, _)) = rd + wr
sum_fields _ _ = 0

skip_field : Option (ℤ × List ℕ) → Option (ℤ × List ℕ)
unfolding field
skip_field none = none
skip_field (some (n, rest)) = field rest

pub sum_stat : List ℕ → ℕ
unfolding field sum_fields skip_field
sum_stat text = sum_fields first (skip_field (skip_field (skip_field (skip_field first))))
  where
    first : Option (ℤ × List ℕ)
    first = field text

module _ {S F : Type 0} where
  unfoldable pub dstat : Sys S F → List ℕ → ℕ
  unfolding sum_stat
  dstat s dev = elim (read_str_from_file s (codes "/sys/block/" ++ dev ++ codes "/stat") 128) [
    | none ↦ 0
    | some text ↦ sum_stat text
  ]

  -- The request goes to the SCSI layer, and nothing depends on what becomes of it.
  unfoldable pub spindown_disk : Sys S F → List ℕ → Sys S F
  spindown_disk s dev = calling s (spindown dev)

  unfoldable pub store_disk : Sys S F → Slot → Disk → Sys S F
  store_disk s i d = record s { disks = with_disk s.disks i d }

-- `ctime - last_access > spindow_time`.
unfoldable pub rested : Disk → ℕ → Bool
rested d ctime = ltb_ℤ (pos d.last_access +ℤ d.spindow_time) (pos ctime)

-- What the power LED is to show, when no other script has it.
power_level : ℤ → ℕ → List ℕ
power_level dpmf ndisks = if not (equal_ℤ dpmf (pos 0)) || ndisks == 0 then codes "1" else codes "0"

module _ {S F : Type 0} (m : Machine S) where
  unfoldable pub check_powermode : Sys S F → List ℕ → ℤ × Sys S F
  check_powermode s dev =
      let (answer, w) = m.drive s.world dev in (mode_of answer, record s { world = w })

  -- The mode of a disk that does not tell it, from its reads and writes.
  unfoldable pub guess_mode : Sys S F → Slot → List ℕ → ℤ × Sys S F
  unfolding rested
  guess_mode s i dev =
      let (ctime, w) = m.time s.world in
      let t = record s { world = w } in
      let d = s.disks i in
      let dst = dstat t dev in
      if ltb d.rdwr_cnt dst
      then (pos 1, store_disk t i (record d { rdwr_cnt = dst; last_access = ctime }))
      else if not (equal_ℤ d.power_state (pos 0)) && rested d ctime
      then (pos 0, spindown_disk t dev)
      else (d.power_state, t)

  unfoldable pub disk_mode : Sys S F → Slot → List ℕ → ℤ × Sys S F
  unfolding guess_mode
  disk_mode s i dev =
      let (dpm, t) = check_powermode s dev in
      if equal_ℤ dpm (negsuc 0) && ltb_ℤ (pos 0) (s.disks i).spindow_time
      then guess_mode t i dev
      else (dpm, t)

  unfoldable pub show_change : Sys S F → Slot → ℤ → Bool → Sys S F
  show_change s i dpm noleds =
      if equal_ℤ (s.disks i).power_state dpm || noleds
      then s
      else if equal_ℤ dpm (pos 0)
      then led_blink m s (led_of i) (codes "10") (codes "2000")
      else led_set m s (led_of i) (codes "0")

  unfoldable pub store_mode : Sys S F → Slot → ℤ → Sys S F
  store_mode s i dpm = store_disk s i (record (s.disks i) { power_state = dpm })

  -- One round of the loop: the mode found, and what it leaves.
  unfoldable pub check_disk : Sys S F → Slot → List ℕ → Bool → ℤ × Sys S F
  unfolding show_change store_mode
  check_disk s i dev noleds =
      let (dpm, t) = disk_mode s i dev in (dpm, store_mode (show_change t i dpm noleds) i dpm)

  pub check_slot : Sys S F → Slot → Bool → ℤ × Sys S F
  check_slot s i noleds = elim (s.disks i).dev [
    | none ↦ (pos 0, s)
    | some dev ↦ check_disk s i dev noleds
  ]

  check_slots : List Slot → ℤ → Bool → Sys S F → ℤ × Sys S F
  check_slots [] dpmf noleds s = (dpmf, s)
  check_slots (i ∷ is) dpmf noleds s =
      let (dpm, t) = check_slot s i noleds in check_slots is (dpmf +ℤ dpm) noleds t

  show_power : ℤ → Sys S F → Sys S F
  unfolding power_level
  show_power dpmf s =
      let (level, pled) = led_get m s power_led m.stale_text m.stale_int in
      if not (equal_ℤ level (negsuc 0)) && bytes_eq pled (codes "none")
      then led_set m s power_led (power_level dpmf s.ndisks)
      else s

  pub hdd_powercheck : Sys S F → Bool → Sys S F
  unfolding check_slots show_power
  hdd_powercheck s noleds =
      let (dpmf, t) = check_slots (slots s.nslots) (pos 0) noleds s in show_power dpmf t
