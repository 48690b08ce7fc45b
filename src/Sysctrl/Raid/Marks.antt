-- ===== src/Sysctrl/Raid/Marks.antt =====
-- The alarm follows the arrays: `md_stat` of package/alt-f-utils/alt-f-utils-0.1.11/sysctrl.c.
use alt_f.Prelude.{
  ◌<◌, length, not, ℕ, zero, suc, ◌≤◌, ◌≡◌, refl, ap, ◌∙◌, sym, inl, inr, Bool, true, false, ◌&&◌,
  Bool-cases, if_elim, ltb, ◌==◌, List, [], ◌∷◌, set, take, get_or, arith,
}
use alt_f.Prelude.Int.{ℤ, pos, equal_ℤ}
use alt_f.Prelude.Text.{codes}
use alt_f.Sysctrl.Globals.{ledon, ledoff, Sys, Machine, syserrorfn, syserrorlog}
use alt_f.Sysctrl.Led.{leds_set}
use alt_f.Sysctrl.Raid.Alarm.{
  AreMarked, set-set_first, Raised, by_mark, by_none, Raised-refl, check_arrays-Raised,
}
use alt_f.Sysctrl.Raid.Files.{Tells, rounds_lem}
use alt_f.Sysctrl.Raid.{
  exists, marked, Locals, unmark, mark, read_locals, count_degraded, check_level, check_array,
  check_arrays, all_well, count_marked, md_stat,
}

marked-set-false :
    (n : ℕ) (ds : List Bool) (i : ℕ) → marked (take n (set ds i false)) ≤ marked (take n ds)
marked-set-false zero ds i = omega arith
marked-set-false (suc n) [] i = omega arith
marked-set-false (suc n) (true ∷ ds) zero = omega arith
marked-set-false (suc n) (false ∷ ds) zero = omega arith
marked-set-false (suc n) (true ∷ ds) (suc i) = omega (arith, marked-set-false n ds i)
marked-set-false (suc n) (false ∷ ds) (suc i) = marked-set-false n ds i

marked_bound : (n : ℕ) (ds : List Bool) → marked (take n ds) ≤ n
marked_bound zero ds = omega arith
marked_bound (suc n) [] = omega arith
marked_bound (suc n) (true ∷ ds) = omega (arith, marked_bound n ds)
marked_bound (suc n) (false ∷ ds) = omega (arith, marked_bound n ds)

module _ {S F : Type 0} where
  abbrev pub marks : Sys S F → ℕ
  marks s = marked (take 9 s.degraded)

  -- No array is marked without the alarm.
  pub record IsWatched (s : Sys S F) : Type 0 where
    pub watch : s.last_degraded ≡ false → marks s ≡ 0

module _ {S F : Type 0} (m : Machine S) where
  unmark-IsWatched : (s : Sys S F) (dev : ℕ) → IsWatched s → IsWatched (unmark m s dev)
  unfolding unmark
  unmark-IsWatched s dev w = record {
    watch = λ e. omega (arith, w.watch e, marked-set-false 9 s.degraded dev);
  }

  mark-IsWatched : (s : Sys S F) (dev : ℕ) (level : List ℕ) → IsWatched (mark m s dev level)
  unfolding mark syserrorlog leds_set
  mark-IsWatched s dev level =
      if_elim IsWatched (m.writable syserrorfn) (record { watch = λ e. ground (arith, e) })
        (record { watch = λ e. ground (arith, e) })

  count_degraded-IsWatched :
      (s : Sys S F) (dev : ℕ) (level : List ℕ) (n : ℤ)
      → IsWatched s
      → IsWatched (count_degraded m s dev level n)
  unfolding count_degraded
  count_degraded-IsWatched s dev level n w =
      if_elim IsWatched (equal_ℤ n (pos 0)) (unmark-IsWatched s dev w)
        (if_elim IsWatched (get_or s.degraded dev false) w (mark-IsWatched s dev level))

  check_level-IsWatched :
      (s : Sys S F) (dev : ℕ) (l : Locals) → IsWatched s → IsWatched (check_level m s dev l)
  unfolding check_level
  check_level-IsWatched s dev l w =
      if_elim IsWatched _
        (if_elim IsWatched _ (count_degraded-IsWatched s dev l.level l.cdegraded w) w)
        (unmark-IsWatched s dev w)

  check_array-IsWatched :
      (s : Sys S F) (dev : ℕ) (l : Locals) → IsWatched s → IsWatched (check_array m s dev l)
  unfolding check_array
  check_array-IsWatched s dev l w =
      if_elim IsWatched _
        (if_elim IsWatched _ (unmark-IsWatched s dev w) (check_level-IsWatched s dev l w)) w

  check_arrays-IsWatched :
      (n dev : ℕ) (s : Sys S F) (l : Locals) → IsWatched s → IsWatched (check_arrays m n dev s l)
  unfolding check_arrays
  check_arrays-IsWatched zero dev s l w = w
  check_arrays-IsWatched (suc n) dev s l w =
      check_arrays-IsWatched n (suc dev) (check_array m s dev (read_locals m s dev l))
        (read_locals m s dev l) (check_array-IsWatched s dev (read_locals m s dev l) w)

  -- What `all_well` leaves: the marks as they were, and the alarm on exactly when there are some.
  all_well_lem :
      (s : Sys S F)
      → IsWatched s
      → (marks (all_well m s) ≡ marks s) × ((all_well m s).last_degraded ≡ ltb 0 (marks s))
  unfolding all_well leds_set
  all_well_lem s w = elim (Bool-cases s.last_degraded) [
    | inr e ↦ rw (e, w.watch e) (refl, refl)
    | inl e ↦ elim (Bool-cases (marks s == 0)) [
      | inl z ↦ let z' : marks s ≡ 0 = ground arith in rw (e, z') (z', refl)
      | inr z ↦ let p : ltb 0 (marks s) ≡ true = ground arith in rw (e, z) (refl, sym p)
    ]
  ]

  -- What `md_stat` has made of the first entry of the queue of the LEDs, the one of RAID: it asks for
  -- the LEDs to be on, or to be off, or it stays as it was; then the alarm has not changed, and no
  -- array is marked that was not before.
  pub data Alarm (s t : Sys S F) : Type 0 where
    raised : t.queue ≡ set s.queue 0 ledon → t.last_degraded ≡ true → Alarm s t
    cleared : t.queue ≡ set s.queue 0 ledoff → t.last_degraded ≡ false → Alarm s t
    kept :
        t.queue ≡ s.queue
        → t.last_degraded ≡ s.last_degraded
        → AreMarked t.degraded s.degraded
        → Alarm s t

  off_lem : (s t : Sys S F) → Raised s t → set t.queue 0 ledoff ≡ set s.queue 0 ledoff
  off_lem s t (by_mark q l) = ap (λ x. set x 0 ledoff) q ∙ set-set_first s.queue ledon ledoff
  off_lem s t (by_none q l a) = ap (λ x. set x 0 ledoff) q

  Raised-Alarm : (s t : Sys S F) → Raised s t → Alarm s t
  Raised-Alarm s t (by_mark q l) = raised q l
  Raised-Alarm s t (by_none q l a) = kept q l a

  all_well-Alarm : (s t : Sys S F) → Raised s t → Alarm s (all_well m t)
  unfolding all_well leds_set
  all_well-Alarm s t r =
      if_elim (Alarm s) (t.last_degraded && marks t == 0) (cleared (off_lem s t r) refl)
        (Raised-Alarm s t r)

  -- What arrays tell of themselves in their files, each with its number and the disks that fail.
  abbrev pub AllTell : Sys S F → List (ℕ × ℤ) → Type 0
  AllTell s [] = Unit
  AllTell s ((dev, n) ∷ rest) = (dev < 9) × Tells m s dev n × AllTell s rest

  -- Those of which disks fail are marked, and the others are not.
  abbrev pub AllMarked : Sys S F → List (ℕ × ℤ) → Type 0
  AllMarked t [] = Unit
  AllMarked t ((dev, n) ∷ rest) =
      (get_or t.degraded dev false ≡ not (equal_ℤ n (pos 0))) × AllMarked t rest

  all_well-degraded : (t : Sys S F) → (all_well m t).degraded ≡ t.degraded
  unfolding all_well leds_set
  all_well-degraded t =
      if_elim (λ (x : Sys S F). x.degraded ≡ t.degraded) (t.last_degraded && marks t == 0) refl refl

  marked_lem :
      (s : Sys S F) (l : Locals) (told : List (ℕ × ℤ))
      → 9 ≤ length s.degraded
      → AllTell s told
      → AllMarked (all_well m (check_arrays m 9 0 s l)) told
  marked_lem s l [] long h = tt
  marked_lem s l ((dev, n) ∷ rest) long (small, h, hs) = (
    ap (λ ds. get_or ds dev false) (all_well-degraded (check_arrays m 9 0 s l))
        ∙ rounds_lem m 9 0 s l dev n h (omega arith) (omega arith) (omega arith),
    marked_lem s l rest long hs,
  )

  -- With the arrays listed, `md_stat` returns how many of them are marked as degraded, nine at most,
  -- and the alarm is on from then on exactly when this is not 0. Of the arrays numbered 0 to 8 that have
  -- a device node, are not inactive, are of level raid1 or raid5, and tell in their files how many
  -- disks fail, those that tell a number other than 0 are marked, and the others are not. When the alarm goes on, or an array is
  -- marked that was not before, the first entry of the queue of the LEDs asks for them to be on; when
  -- it goes off, to be off; otherwise the queue may stay as it was. This takes `degraded` to
  -- have nine entries or more, and that no array was marked without the alarm before, as is so at the
  -- start and after every call.
  pub md_stat_lem :
      (s : Sys S F) (told : List (ℕ × ℤ))
      → IsWatched s
      → 9 ≤ length s.degraded
      → exists (s.files (codes "/proc/mdstat")) ≡ true
      → AllTell s told
      → ((md_stat m s).0 ≤ 9)
        × (marks (md_stat m s).1 ≡ (md_stat m s).0)
        × ((md_stat m s).1.last_degraded ≡ ltb 0 (md_stat m s).0)
        × AllMarked (md_stat m s).1 told
        × Alarm s (md_stat m s).1
  unfolding md_stat count_marked
  md_stat_lem s told w long e h =
      let l : Locals = record {
        cdegraded = m.stale_int;
        state = m.stale_text;
        level = m.stale_text;
      } in
      let t = check_arrays m 9 0 s l in
      let (a, b) = all_well_lem t (check_arrays-IsWatched 9 0 s l w) in
      let alarm = all_well-Alarm s t (check_arrays-Raised m s 9 0 s l (Raised-refl s)) in
      rw e (marked_bound 9 t.degraded, a, b, marked_lem s l told long h, alarm)
