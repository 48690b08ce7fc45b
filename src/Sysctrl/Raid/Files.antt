-- ===== src/Sysctrl/Raid/Files.antt =====
-- The marks follow the files of the arrays: the rounds of `md_stat` of
-- package/alt-f-utils/alt-f-utils-0.1.11/sysctrl.c.
use alt_f.Prelude.{
  ◌⊎◌, ◌==◌, ℕ, zero, suc, ◌+◌, ◌<◌, ◌≤◌, ◌≡◌, ◌≢◌, refl, sym, ap, ◌∙◌, Bool, true, false, not,
  Bool-cases, inl, inr, if_elim, some, List, [], ◌∷◌, set, get_or, length, length-set, arith,
}
use alt_f.Prelude.Int.{ℤ, pos, equal_ℤ}
use alt_f.Prelude.Text.{codes, bytes_eq}
use alt_f.Sysctrl.Globals.{
  Sys, Machine, syserrorfn, syserrorlog, read_str_from_file, read_int_from_file,
}
use alt_f.Sysctrl.Led.{leds_set}
use alt_f.Sysctrl.Raid.{
  exists, md_dev, md_file, redundant, Locals, unmark, mark, read_locals, count_degraded,
  check_level, check_array, check_arrays,
}

get_or-set_self :
    (ds : List Bool) (i : ℕ) (b : Bool) → i < length ds → get_or (set ds i b) i false ≡ b
get_or-set_self [] i b h = absurd (omega arith)
get_or-set_self (d ∷ ds) zero b h = refl
get_or-set_self (d ∷ ds) (suc i) b h = get_or-set_self ds i b (omega arith)

get_or-set_ne :
    (ds : List Bool) (i j : ℕ) (b : Bool) → i ≢ j → get_or (set ds i b) j false ≡ get_or ds j false
get_or-set_ne [] i j b h = refl
get_or-set_ne (d ∷ ds) zero zero b h = absurd (h refl)
get_or-set_ne (d ∷ ds) zero (suc j) b h = refl
get_or-set_ne (d ∷ ds) (suc i) zero b h = refl
get_or-set_ne (d ∷ ds) (suc i) (suc j) b h = get_or-set_ne ds i j b (λ e. h (ap suc e))

same_or_other : (i j : ℕ) → (i ≡ j) ⊎ (i ≢ j)
same_or_other i j = elim (Bool-cases (i == j)) [
  | inl e ↦ inl (ground arith)
  | inr e ↦ inr (λ k. ground (arith, k))
]

module _ {S F : Type 0} where
  -- What a round over an array may change: its mark, and the log of errors.
  record IsRound (dev : ℕ) (s t : Sys S F) : Type 0 where
    same_files : (name : List ℕ) → bytes_eq name syserrorfn ≡ false → t.files name ≡ s.files name
    same_length : length t.degraded ≡ length s.degraded
    others : (j : ℕ) → dev ≢ j → get_or t.degraded j false ≡ get_or s.degraded j false

  IsRound-refl : (dev : ℕ) (s : Sys S F) → IsRound dev s s
  IsRound-refl dev s = record { same_files = λ n h. refl; same_length = refl; others = λ j h. refl }

module _ {S F : Type 0} (m : Machine S) where
  unmark-IsRound : (s : Sys S F) (dev : ℕ) → IsRound dev s (unmark m s dev)
  unfolding unmark
  unmark-IsRound s dev = record {
    same_files = λ n h. refl;
    same_length = length-set s.degraded dev false;
    others = λ j h. get_or-set_ne s.degraded dev j false h;
  }

  mark-IsRound : (s : Sys S F) (dev : ℕ) (level : List ℕ) → IsRound dev s (mark m s dev level)
  unfolding mark syserrorlog leds_set
  mark-IsRound s dev level =
      if_elim (IsRound dev s) (m.writable syserrorfn)
        (record {
          same_files = λ n h. rw h refl;
          same_length = length-set s.degraded dev true;
          others = λ j h. get_or-set_ne s.degraded dev j true h;
        })
        (record {
          same_files = λ n h. refl;
          same_length = length-set s.degraded dev true;
          others = λ j h. get_or-set_ne s.degraded dev j true h;
        })

  count_degraded-IsRound :
      (s : Sys S F) (dev : ℕ) (level : List ℕ) (n : ℤ)
      → IsRound dev s (count_degraded m s dev level n)
  unfolding count_degraded
  count_degraded-IsRound s dev level n =
      if_elim (IsRound dev s) (equal_ℤ n (pos 0)) (unmark-IsRound s dev) (
        if_elim (IsRound dev s) (get_or s.degraded dev false) (IsRound-refl dev s)
          (mark-IsRound s dev level))

  check_level-IsRound : (s : Sys S F) (dev : ℕ) (l : Locals) → IsRound dev s (check_level m s dev l)
  unfolding check_level
  check_level-IsRound s dev l =
      if_elim (IsRound dev s) _
        (if_elim (IsRound dev s) _ (count_degraded-IsRound s dev l.level l.cdegraded)
          (IsRound-refl dev s))
        (unmark-IsRound s dev)

  check_array-IsRound : (s : Sys S F) (dev : ℕ) (l : Locals) → IsRound dev s (check_array m s dev l)
  unfolding check_array
  check_array-IsRound s dev l =
      if_elim (IsRound dev s) _
        (if_elim (IsRound dev s) _ (unmark-IsRound s dev) (check_level-IsRound s dev l))
        (IsRound-refl dev s)

  -- The array is there, active, of a level with redundancy, and tells that `n` of its disks fail.
  pub record Tells (s : Sys S F) (dev : ℕ) (n : ℤ) : Type 0 where
    pub state : List ℕ
    pub level : List ℕ
    pub listed : exists (s.files (md_dev dev)) ≡ true
    pub state_read : read_str_from_file s (md_file dev (codes "array_state")) 64 ≡ some state
    pub active : bytes_eq state (codes "inactive") ≡ false
    pub level_read : read_str_from_file s (md_file dev (codes "level")) 64 ≡ some level
    pub has_redundancy : redundant level ≡ true
    pub counts : exists (s.files (md_file dev (codes "degraded"))) ≡ true
    pub count_read :
        (stale : ℤ) → read_int_from_file s (md_file dev (codes "degraded")) stale ≡ some n

  text_kept :
      (s t : Sys S F) (name : List ℕ) (sz : ℕ)
      → t.files name ≡ s.files name
      → read_str_from_file t name sz ≡ read_str_from_file s name sz
  unfolding read_str_from_file
  text_kept s t name sz e = rw (e, read_str_from_file)

  int_kept :
      (s t : Sys S F) (name : List ℕ) (old : ℤ)
      → t.files name ≡ s.files name
      → read_int_from_file t name old ≡ read_int_from_file s name old
  unfolding read_int_from_file
  int_kept s t name old e = rw (text_kept s t name 64 e, read_int_from_file)

  Tells-kept : (d dev : ℕ) (n : ℤ) (s t : Sys S F) → IsRound d s t → Tells s dev n → Tells t dev n
  unfolding md_dev md_file
  Tells-kept d dev n s t r h = record {
    state = h.state;
    level = h.level;
    listed = rw (r.same_files (md_dev dev) refl) h.listed;
    state_read =
        text_kept s t (md_file dev (codes "array_state")) 64 (r.same_files _ refl) ∙ h.state_read;
    active = h.active;
    level_read =
        text_kept s t (md_file dev (codes "level")) 64 (r.same_files _ refl) ∙ h.level_read;
    has_redundancy = h.has_redundancy;
    counts = rw (r.same_files (md_file dev (codes "degraded")) refl) h.counts;
    count_read =
        λ x. int_kept s t (md_file dev (codes "degraded")) x (r.same_files _ refl) ∙ h.count_read x;
  }

  mark_self :
      (s : Sys S F) (dev : ℕ) (level : List ℕ)
      → dev < length s.degraded
      → get_or (mark m s dev level).degraded dev false ≡ true
  unfolding mark syserrorlog leds_set
  mark_self s dev level less =
      if_elim (λ (x : Sys S F). get_or x.degraded dev false ≡ true) (m.writable syserrorfn)
        (get_or-set_self s.degraded dev true less) (get_or-set_self s.degraded dev true less)

  counted_self :
      (s : Sys S F) (dev : ℕ) (level : List ℕ) (n : ℤ)
      → dev < length s.degraded
      → get_or (count_degraded m s dev level n).degraded dev false ≡ not (equal_ℤ n (pos 0))
  unfolding count_degraded unmark
  counted_self s dev level n less = elim (Bool-cases (equal_ℤ n (pos 0))) [
    | inl e ↦ rw e (get_or-set_self s.degraded dev false less)
    | inr e ↦ elim (Bool-cases (get_or s.degraded dev false)) [
      | inl k ↦ rw (e, k) k
      | inr k ↦ rw (e, k) (mark_self s dev level less)
    ]
  ]

  read_locals_lem :
      (s : Sys S F) (dev : ℕ) (n : ℤ) (l : Locals) (h : Tells s dev n)
      → read_locals m s dev l ≡ record { cdegraded = n; state = h.state; level = h.level }
  unfolding read_locals
  read_locals_lem s dev n l h =
      rw
        (
          h.listed,
          h.state_read,
          h.level_read,
          h.active,
          h.has_redundancy,
          h.counts,
          h.count_read l.cdegraded,
        )
        refl

  -- In its own round, an array is marked when it tells a number other than 0, and else unmarked.
  own_round :
      (s : Sys S F) (dev : ℕ) (n : ℤ) (l : Locals)
      → Tells s dev n
      → dev < length s.degraded
      → get_or (check_array m s dev (read_locals m s dev l)).degraded dev false
        ≡ not (equal_ℤ n (pos 0))
  unfolding check_array check_level
  own_round s dev n l h less =
      rw (read_locals_lem s dev n l h, h.listed, h.active, h.has_redundancy, h.counts)
        (counted_self s dev h.level n less)

  later_rounds :
      (n first : ℕ) (s : Sys S F) (l : Locals) (dev : ℕ)
      → dev < first
      → get_or (check_arrays m n first s l).degraded dev false ≡ get_or s.degraded dev false
  unfolding check_arrays
  later_rounds zero first s l dev less = refl
  later_rounds (suc n) first s l dev less =
      let next = read_locals m s first l in
      later_rounds n (suc first) (check_array m s first next) next dev (omega arith)
      ∙ (check_array-IsRound s first next).others dev (λ e. omega (arith, e))

  own :
      (s : Sys S F) (first : ℕ) (l : Locals) (dev : ℕ) (told : ℤ)
      → dev ≡ first
      → Tells s dev told
      → dev < length s.degraded
      → get_or (check_array m s first (read_locals m s first l)).degraded dev false
        ≡ not (equal_ℤ told (pos 0))
  own s first l dev told e h less =
      ap (λ k. get_or (check_array m s k (read_locals m s k l)).degraded dev false) (sym e)
      ∙ own_round s dev told l h less

  -- Rounds from one array on, of which the own one is among the `n` that are left.
  pub rounds_lem :
      (n first : ℕ) (s : Sys S F) (l : Locals) (dev : ℕ) (told : ℤ)
      → Tells s dev told
      → dev < length s.degraded
      → first ≤ dev
      → dev < first + n
      → get_or (check_arrays m n first s l).degraded dev false ≡ not (equal_ℤ told (pos 0))
  unfolding check_arrays
  rounds_lem zero first s l dev told h less low high = absurd (omega arith)
  rounds_lem (suc n) first s l dev told h less low high =
      let next = read_locals m s first l in
      let t = check_array m s first next in
      let r = check_array-IsRound s first next in
      let less' : dev < length t.degraded = omega (arith, r.same_length) in
      elim (same_or_other first dev) [
        | inl e ↦
            later_rounds n (suc first) t next dev (omega (arith, e))
            ∙ own s first l dev told (sym e) h less
        | inr other ↦
            rounds_lem n (suc first) t next dev told (Tells-kept first dev told s t r h) less'
              (omega (arith, other)) (omega arith)
      ]
