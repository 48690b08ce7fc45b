-- ===== src/Sysctrl/Raid.antt =====
-- The state of the RAID arrays: `md_stat` of
-- package/alt-f-utils/alt-f-utils-0.1.11/sysctrl.c. The paths are read into buffers that are taken
-- to be large enough: `state` and `level` have 16 bytes, and up to 64 are read.
pub mod Alarm
pub mod Files
pub mod Marks
use alt_f.Prelude.{
  ℕ, zero, suc, Bool, true, false, ◌||◌, ◌&&◌, not, Option, none, some, List, [], ◌∷◌, ◌++◌, set,
  get_or, take, ◌==◌, if◌then◌else◌,
}
use alt_f.Prelude.Int.{ℤ, pos, equal_ℤ}
use alt_f.Prelude.Text.{codes, bytes_eq}
use alt_f.Prelude.Scan.{show_ℤ}
use alt_f.Sysctrl.Globals.{
  ledoff, ledon, Sys, Machine, read_str_from_file, read_int_from_file, syserrorlog,
}
use alt_f.Sysctrl.Led.{phigh, leds_set}

-- `stat` passes.
abbrev pub exists : Option (List ℕ) → Bool
exists none = false
exists (some text) = true

-- The text read, or what stood in the buffer.
abbrev or_stale : Option (List ℕ) → List ℕ → List ℕ
or_stale none old = old
or_stale (some text) old = text

abbrev or_stale_int : Option ℤ → ℤ → ℤ
or_stale_int none old = old
or_stale_int (some n) old = n

unfoldable pub md_dev : ℕ → List ℕ
md_dev dev = codes "/dev/md" ++ show_ℤ (pos dev)

unfoldable pub md_file : ℕ → List ℕ → List ℕ
md_file dev name = codes "/sys/block/md" ++ show_ℤ (pos dev) ++ codes "/md/" ++ name

-- The number of arrays that are marked.
abbrev pub marked : List Bool → ℕ
marked [] = 0
marked (true ∷ ds) = suc (marked ds)
marked (false ∷ ds) = marked ds

-- The locals of the loop: `cdegraded`, `state` and `level` keep what an earlier round read.
pub record Locals : Type 0 where
  pub cdegraded : ℤ
  pub state : List ℕ
  pub level : List ℕ

unfoldable pub redundant : List ℕ → Bool
redundant level = bytes_eq level (codes "raid1") || bytes_eq level (codes "raid5")

module _ {S F : Type 0} (m : Machine S) where
  pub unmark : Sys S F → ℕ → Sys S F
  unmark s dev = record s { degraded = set s.degraded dev false }

  pub mark : Sys S F → ℕ → List ℕ → Sys S F
  mark s dev level =
      syserrorlog m
        (leds_set m (record s { degraded = set s.degraded dev true; last_degraded = true }) phigh
          ledon)
        (codes "Your md" ++ show_ℤ (pos dev) ++ codes " " ++ level ++ codes " device is degraded!")

  -- `degraded` is the number the array tells.
  pub count_degraded : Sys S F → ℕ → List ℕ → ℤ → Sys S F
  unfolding unmark mark
  count_degraded s dev level cdegraded =
      if equal_ℤ cdegraded (pos 0)
      then unmark s dev
      else if get_or s.degraded dev false
      then s
      else mark s dev level

  -- What the round reads: `level` and `cdegraded` stay when the code does not come to them.
  pub read_locals : Sys S F → ℕ → Locals → Locals
  unfolding md_dev md_file redundant
  read_locals s dev l =
      let state = or_stale (read_str_from_file s (md_file dev (codes "array_state")) 64) l.state in
      let level = or_stale (read_str_from_file s (md_file dev (codes "level")) 64) l.level in
      let told = md_file dev (codes "degraded") in
      if not (exists (s.files (md_dev dev)))
      then l
      else if bytes_eq state (codes "inactive")
      then record l { state = state }
      else if redundant level && exists (s.files told)
      then record {
        cdegraded = or_stale_int (read_int_from_file s told l.cdegraded) l.cdegraded;
        state = state;
        level = level;
      }
      else record l { state = state; level = level }

  pub check_level : Sys S F → ℕ → Locals → Sys S F
  unfolding md_file redundant unmark
  check_level s dev l =
      if redundant l.level
      then if exists (s.files (md_file dev (codes "degraded")))
        then count_degraded s dev l.level l.cdegraded
        else s
      else unmark s dev

  -- One round, with what it has read.
  pub check_array : Sys S F → ℕ → Locals → Sys S F
  unfolding md_dev check_level unmark
  check_array s dev l =
      if exists (s.files (md_dev dev))
      then if bytes_eq l.state (codes "inactive") then unmark s dev else check_level s dev l
      else s

  -- The rounds left, and the number of the array.
  pub check_arrays : ℕ → ℕ → Sys S F → Locals → Sys S F
  unfolding check_array read_locals
  check_arrays zero dev s l = s
  check_arrays (suc n) dev s l =
      check_arrays n (suc dev) (check_array s dev (read_locals s dev l)) (read_locals s dev l)

  pub all_well : Sys S F → Sys S F
  all_well s =
      if s.last_degraded && marked (take 9 s.degraded) == 0
      then leds_set m (record s { last_degraded = false }) phigh ledoff
      else s

  pub count_marked : Sys S F → ℕ × Sys S F
  unfolding all_well
  count_marked s = (marked (take 9 s.degraded), all_well s)

  pub md_stat : Sys S F → ℕ × Sys S F
  unfolding check_arrays count_marked
  md_stat s =
      if exists (s.files (codes "/proc/mdstat"))
      then count_marked (
          check_arrays 9 0 s
            (record { cdegraded = m.stale_int; state = m.stale_text; level = m.stale_text }))
      else (0, s)
