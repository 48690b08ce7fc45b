-- ===== src/Sysctrl/Temp.antt =====
-- Temperatures: `dolock`, `clearlock`, `read_temp` and `read_disks_temp` of
-- package/alt-f-utils/alt-f-utils-0.1.11/sysctrl.c.
use alt_f.Prelude.{
  ℕ, zero, suc, ◌/◌, Bool, true, false, ◌&&◌, ◌||◌, not, Option, none, some, List, [], ◌∷◌, ◌++◌,
  drop, ◌==◌, if◌then◌else◌,
}
use alt_f.Prelude.Int.{ℤ, pos, negsuc, ◌-ℤ◌, ltb_ℤ, equal_ℤ}
use alt_f.Prelude.Text.{codes, bytes_eq}
use alt_f.Prelude.Scan.{show_ℤ}
use alt_f.Sysctrl.Globals.{
  Slot, Sys, Machine, Flow, on, left, exited, ◌>>=◌, read_int_from_file, with_text, without,
}
use alt_f.Sysctrl.Disks.{slots}

-- Floating-point numbers of the machine: `single` rounds a `double` to a `float`, `literal z k` is
-- z / 10^k, `trunc` the conversion to `int`, `show` the format %.1f.
pub record Floats (F : Type 0) : Type 0 where
  pub of_int : ℤ → F
  pub literal : ℤ → ℕ → F
  pub single : F → F
  pub add : F → F → F
  pub sub : F → F → F
  pub mul : F → F → F
  pub div : F → F → F
  pub abs : F → F
  pub lt : F → F → Bool
  pub eq : F → F → Bool
  pub trunc : F → ℤ
  pub show : F → List ℕ
  pub read : List ℕ → F

-- Division of `int`s, which cuts off towards 0.
abbrev pub thousandth : ℤ → ℤ
thousandth (pos n) = pos (n / 1000)
thousandth (negsuc n) = pos 0 -ℤ pos (suc n / 1000)

abbrev pub max_ℤ : ℤ → ℤ → ℤ
max_ℤ a b = if ltb_ℤ b a then a else b

-- What `strtok` gives for "|", one call after another.
tokens_from : List ℕ → List ℕ → List (List ℕ)
tokens_from [] [] = []
tokens_from (a ∷ acc) [] = (a ∷ acc) ∷ []
tokens_from [] (c ∷ cs) = elim (c == 124) [
  | true ↦ tokens_from [] cs
  | false ↦ tokens_from (c ∷ []) cs
]
tokens_from (a ∷ acc) (c ∷ cs) = elim (c == 124) [
  | true ↦ (a ∷ acc) ∷ tokens_from [] cs
  | false ↦ tokens_from (a ∷ acc ++ c ∷ []) cs
]

-- The text of the buffer ends at its first 0.
tokens : List ℕ → List (List ℕ)
unfolding tokens_from
tokens text = tokens_from [] text

abbrev lock_pid : List ℕ
lock_pid = codes "/var/lock/temp-lock/pid"

abbrev pub sys_temp_input : List ℕ
sys_temp_input = codes "/tmp/sys/temp1_input"

abbrev pub or_zero : Option ℤ → ℤ
or_zero none = pos 0
or_zero (some u) = u

module _ {S F : Type 0} where
  -- A slot whose disk has the name, on the left or on the right.
  disk_temp : Sys S F → List ℕ → ℤ → List Slot → ℤ → ℤ
  disk_temp s name temp [] maxtemp = maxtemp
  disk_temp s name temp (i ∷ is) maxtemp = disk_temp s name temp is (elim (s.disks i).dev [
    | none ↦ maxtemp
    | some dev ↦
        if bytes_eq name dev
          && (bytes_eq (s.disks i).slot (codes "left") || bytes_eq (s.disks i).slot (codes "right"))
        then max_ℤ temp maxtemp
        else maxtemp
  ])

module _ {S F : Type 0} (m : Machine S) (fl : Floats F) where
  -- A device, a name, a temperature and a unit; an entry that is cut off is not used. A device has
  -- five bytes or more.
  entries_temp : Sys S F → List (List ℕ) → ℤ → ℤ
  unfolding disk_temp
  entries_temp s (dev ∷ name ∷ temp ∷ unit ∷ rest) maxtemp =
      entries_temp s rest
        (disk_temp s (drop 5 dev) (fl.trunc (fl.read temp)) (slots s.nslots) maxtemp)
  entries_temp s _ maxtemp = maxtemp

  tries_temp : ℕ → Sys S F → ℤ × Sys S F
  unfolding entries_temp tokens
  tries_temp zero s = (pos 0, s)
  tries_temp (suc n) s =
      let (text, w) = m.hddtemp s.world in
      let t = record s { world = w } in
      let maxtemp = entries_temp t (tokens text) (pos 0) in
      elim (equal_ℤ maxtemp (pos 0)) [ true ↦ tries_temp n t | false ↦ (maxtemp, t) ]

  pub read_disks_temp : Sys S F → ℤ × Sys S F
  unfolding tries_temp
  read_disks_temp = tries_temp 3

module _ {S F : Type 0} (m : Machine S) where
  -- The owner that the lock names is another process, and it lives: the program leaves. Otherwise it
  -- takes the lock for its own.
  owner_lives : Sys S F → Bool
  owner_lives s = elim (read_int_from_file s lock_pid (pos 0)) [
    | none ↦ false
    | some u ↦ not (equal_ℤ m.pid u) && m.alive u
  ]

  take_over : Sys S F → Flow (Sys S F)
  unfolding owner_lives
  take_over s = if owner_lives s then left exited else on s

  -- `while (mkdir(...)) { if (i-- == 0) ...; usleep(...); }`
  lock_loop : ℕ → Sys S F → Flow (Sys S F)
  unfolding take_over
  lock_loop zero s =
      let (made, w) = m.makes_lock s.world in
      let t = record s { world = w } in if made then on t else take_over t
  lock_loop (suc i) s =
      let (made, w) = m.makes_lock s.world in
      let t = record s { world = w } in elim made [ true ↦ on t | false ↦ lock_loop i t ]

  write_pid : Sys S F → Sys S F
  write_pid s =
      if m.writable lock_pid
      then record s { files = with_text lock_pid (show_ℤ m.pid ++ 10 ∷ []) s.files }
      else s

  pub dolock : Sys S F → Flow (Sys S F)
  unfolding lock_loop write_pid
  dolock s = lock_loop 100 s >>= λ t. on (write_pid t)

  pub clearlock : Sys S F → Sys S F
  clearlock s = record s { files = without lock_pid s.files; world = m.drops_lock s.world }

  -- The temperature is read under the lock.
  temp_locked : Sys S F → ℤ × Sys S F
  temp_locked s = (or_zero (read_int_from_file s sys_temp_input (pos 0)), clearlock s)

  pub read_temp : Sys S F → Flow (ℤ × Sys S F)
  unfolding temp_locked
  read_temp s = dolock s >>= λ t. on (temp_locked t)
