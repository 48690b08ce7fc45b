-- ===== src/Sysctrl/Bay.antt =====
-- The disks and when they are to rest: `read_misc` and `read_bay` of
-- package/alt-f-utils/alt-f-utils-0.1.11/sysctrl.c.
use alt_f.Prelude.{
  ℕ, ◌+◌, ◌*◌, Bool, ◌&&◌, Option, none, some, List, [], ◌∷◌, ◌++◌, take, drop, if◌then◌else◌,
}
use alt_f.Prelude.Int.{ℤ, pos, negsuc}
use alt_f.Prelude.Text.{codes, bytes_eq}
use alt_f.Prelude.Scan.{scan_int}
use alt_f.Sysctrl.Globals.{Slot, left_dev, right_dev, usb_dev, Disk, Sys, Machine, syserrorlog}
use alt_f.Sysctrl.Disks.{slots, store_disk}
use alt_f.Sysctrl.Lines.{lines, strtok}

times_60 : ℤ → ℤ
times_60 (pos n) = pos (n * 60)
times_60 (negsuc n) = negsuc (n * 60 + 59)

-- The two tokens of a line `name=value`.
pub pair_of : List ℕ → Option (List ℕ × List ℕ)
pair_of line = elim (strtok 61 line) [
  | none ↦ none
  | some (name, rest) ↦ elim (strtok 10 rest) [ none ↦ none | some (value, _) ↦ some (name, value) ]
]

-- `strncmp(&opt[4], "_dev", 4)`: behind an `opt` of three bytes stands its 0, and then `dev`.
is_usb : List ℕ → List ℕ → Bool
is_usb opt dev =
    bytes_eq (take 3 opt) (codes "usb")
    && bytes_eq (take 4 (drop 4 (opt ++ 0 ∷ dev))) (codes "_dev")

module _ {S F : Type 0} where
  unfoldable pub for_disks : (Disk → Disk) → List Slot → Sys S F → Sys S F
  for_disks change [] s = s
  for_disks change (i ∷ is) s = for_disks change is (store_disk s i (change (s.disks i)))

  set_spindown : Sys S F → Slot → ℤ → Sys S F
  unfolding times_60
  set_spindown s i sl = store_disk s i (record (s.disks i) { spindow_time = times_60 sl })

  -- The minutes `sl` stay those of an earlier line when the value is no number.
  misc_pair : Option (List ℕ × List ℕ) → ℤ → Sys S F → ℤ × Sys S F
  unfolding set_spindown
  misc_pair none sl s = (sl, s)
  misc_pair (some (cmd, val)) old s =
      let sl = scan_int val old in
      if bytes_eq cmd (codes "HDSLEEP_LEFT")
      then (sl, set_spindown s left_dev sl)
      else if bytes_eq cmd (codes "HDSLEEP_RIGHT")
      then (sl, set_spindown s right_dev sl)
      else if bytes_eq cmd (codes "HDSLEEP_USB")
      then (sl, set_spindown s usb_dev sl)
      else (sl, s)

  misc_lines : List (List ℕ) → ℤ × Sys S F → Sys S F
  unfolding misc_pair pair_of
  misc_lines [] (sl, s) = s
  misc_lines (line ∷ ls) (sl, s) = misc_lines ls (misc_pair (pair_of line) sl s)

  pub read_misc : Machine S → Sys S F → Sys S F
  unfolding misc_lines for_disks
  read_misc m s = elim (s.files (codes "/etc/misc.conf")) [
    | none ↦ syserrorlog m s (codes "can't open /etc/misc.conf")
    | some text ↦
        misc_lines (lines 256 text)
          (m.stale_int, for_disks (λ d. record d { spindow_time = pos 0 }) (slots s.nslots) s)
  ]

  insert_disk : Sys S F → Slot → List ℕ → List ℕ → Sys S F
  insert_disk s i slot dev =
      let t = store_disk s i (record (s.disks i) { dev = some dev; slot = slot }) in
      record t { ndisks = t.ndisks + 1 }

  pub bay_pair : Option (List ℕ × List ℕ) → Sys S F → Sys S F
  unfolding insert_disk is_usb
  bay_pair none s = s
  bay_pair (some (opt, dev)) s =
      if bytes_eq opt (codes "left_dev")
      then insert_disk s left_dev (codes "left") dev
      else if bytes_eq opt (codes "right_dev")
      then insert_disk s right_dev (codes "right") dev
      else if is_usb opt dev
      then insert_disk s usb_dev (codes "usb") dev
      else s

  pub bay_lines : List (List ℕ) → Sys S F → Sys S F
  unfolding pair_of
  bay_lines [] s = s
  bay_lines (line ∷ ls) s = bay_lines ls (bay_pair (pair_of line) s)

  pub read_bay : Machine S → Sys S F → Sys S F
  unfolding for_disks
  read_bay m s = elim (s.files (codes "/etc/bay")) [
    | none ↦ syserrorlog m s (codes "can't open /etc/bay")
    | some text ↦
        bay_lines (lines 256 text)
          (record (for_disks (λ d. record d { dev = none }) (slots s.nslots) s) { ndisks = 0 })
  ]
