-- ===== src/Sysctrl/Tests/Devices.antt =====
-- The fan and the RAID arrays on small inputs, with the box of Sysctrl/Tests.
use alt_f.Prelude.{ℕ, ◌≤◌, ◌≡◌, refl, inl, true, ltb, Option, List, [], ◌∷◌, replicate, arith}
use alt_f.Prelude.Int.{pos}
use alt_f.Prelude.Text.{codes, skip_spaces, decimal}
use alt_f.Sysctrl.Globals.{dns_325_ax, Reading, Sys, with_text, syserrorlog}
use alt_f.Sysctrl.Globals.{read_str_from_file, read_int_from_file}
use alt_f.Sysctrl.Config.{default_args}
use alt_f.Sysctrl.Fan.{pwm_auto, new_pwm, warning}
use alt_f.Sysctrl.Fan.Exact.{IsExact, IsTuned}
use alt_f.Sysctrl.Fan.Speeds.{
  low, IsSpeed, IsStep, follow, pwm_of, rpm_of, new_pwm-IsSpeed, pwm_auto_steps,
}
use alt_f.Sysctrl.Fan.Alerts.{limits_run, limits_run_once}
use alt_f.Sysctrl.Raid.{md_stat, md_dev, md_file, redundant}
use alt_f.Prelude.Scan.{show_ℤ, scan_int}
use alt_f.Sysctrl.Raid.Files.{Tells}
use alt_f.Sysctrl.Raid.Marks.{AllMarked, Alarm, marks, md_stat_lem}
use alt_f.Sysctrl.Tests.{box, whole, box_sys, disk_files}

new_pwm-IsSpeed_example :
    IsSpeed (new_pwm whole dns_325_ax (default_args whole) 60 (pos 3000) (pos 5))
unfolding default_args
new_pwm-IsSpeed_example =
    new_pwm-IsSpeed whole (default_args whole) 60 dns_325_ax (pos 3000) (pos 5) refl (inl refl)

whole-IsExact : IsExact whole
whole-IsExact = record {
  rounds = λ n k. refl;
  sums = λ n k p. refl;
  differences = λ n k p q. refl;
  not_below = λ x n k p q r. ground arith;
  not_above = λ x n k p q r. ground arith;
}

default-IsTuned : IsTuned whole (default_args whole) 38 40 2
unfolding default_args
default-IsTuned = record {
  off_at = refl;
  fast_at = refl;
  margin = refl;
  ordered = omega arith;
  small = omega arith;
  exact = omega arith;
}

-- Around the 38 degrees at which the fan goes off.
pwm_auto_steps_example :
    (follow whole (default_args whole) (rpm_of low) (36 ∷ 40 ∷ 38 ∷ []) ≡ replicate 3 (pwm_of low))
    × ((x : ℕ) → IsStep low (pwm_auto whole (default_args whole) x (rpm_of low)))
pwm_auto_steps_example =
    pwm_auto_steps whole whole-IsExact (default_args whole) 38 40 2 default-IsTuned low 38
      (36 ∷ 40 ∷ 38 ∷ []) (inl refl) (refl, refl, (refl, refl, (refl, refl, tt)))

limits_run_once_example :
    ((limits_run whole box ((53, pos 6000) ∷ (60, pos 6000) ∷ []) (box_sys [])).files
      ≡ (syserrorlog box (box_sys []) (warning whole box (box_sys []) 53 (pos 6000))).files)
    × ((limits_run whole box ((53, pos 6000) ∷ (60, pos 6000) ∷ []) (box_sys [])).fan.warn ≡ true)
unfolding default_args
limits_run_once_example =
    limits_run_once whole box (box_sys []) 53 (pos 6000) ((60, pos 6000) ∷ []) refl refl refl
      (refl, (refl, tt))

-- A mirror of which one disk fails.
abbrev mirror_files : List ℕ → Option (List ℕ)
mirror_files = with_text (codes "/dev/md0") [] (
    with_text (codes "/sys/block/md0/md/array_state") (codes "clean\n") (
      with_text (codes "/sys/block/md0/md/level") (codes "raid1\n")
        (with_text (codes "/sys/block/md0/md/degraded") (codes "1\n") disk_files)))

abbrev mirror : Sys (List Reading) ℕ
mirror = record (box_sys []) { files = mirror_files }

mirror-Tells : Tells box mirror 0 (pos 1)
unfolding read_str_from_file read_int_from_file md_dev md_file redundant show_ℤ scan_int skip_spaces
    decimal
mirror-Tells = record {
  state = codes "clean";
  level = codes "raid1";
  listed = refl;
  state_read = refl;
  active = refl;
  level_read = refl;
  has_redundancy = refl;
  counts = refl;
  count_read = λ stale. refl;
}

md_stat_lem_example :
    ((md_stat box mirror).0 ≤ 9)
    × (marks (md_stat box mirror).1 ≡ (md_stat box mirror).0)
    × ((md_stat box mirror).1.last_degraded ≡ ltb 0 (md_stat box mirror).0)
    × AllMarked box (md_stat box mirror).1 ((0, pos 1) ∷ [])
    × Alarm box mirror (md_stat box mirror).1
md_stat_lem_example =
    md_stat_lem box mirror ((0, pos 1) ∷ []) (record { watch = λ e. refl }) (omega arith) refl
      (omega arith, mirror-Tells, tt)
