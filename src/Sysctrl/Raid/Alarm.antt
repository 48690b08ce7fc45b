-- ===== src/Sysctrl/Raid/Alarm.antt =====
-- What the rounds over the RAID arrays do to the queue of the LEDs: `md_stat` of
-- package/alt-f-utils/alt-f-utils-0.1.11/sysctrl.c.
use alt_f.Prelude.{
  ℕ, zero, suc, ◌≡◌, refl, ap, ◌∙◌, Bool, true, false, if_elim, List, [], ◌∷◌, set, get_or, arith,
}
use alt_f.Prelude.Int.{ℤ, pos, equal_ℤ}
use alt_f.Sysctrl.Globals.{LedMode, ledon, Sys, Machine, syserrorfn, syserrorlog}
use alt_f.Sysctrl.Led.{leds_set}
use alt_f.Sysctrl.Raid.{
  Locals, unmark, mark, read_locals, count_degraded, check_level, check_array, check_arrays,
}

-- Every array that is marked in the first list is in the second.
abbrev pub AreMarked : List Bool → List Bool → Type 0
AreMarked new old = (i : ℕ) → get_or new i false ≡ true → get_or old i false ≡ true

get_or-set-false :
    (ds : List Bool) (j i : ℕ) → get_or (set ds j false) i false ≡ true → get_or ds i false ≡ true
get_or-set-false [] j i h = h
get_or-set-false (d ∷ ds) zero zero h = ground (arith, h)
get_or-set-false (d ∷ ds) zero (suc i) h = h
get_or-set-false (d ∷ ds) (suc j) zero h = h
get_or-set-false (d ∷ ds) (suc j) (suc i) h = get_or-set-false ds j i h

pub set-set_first : (q : List LedMode) (a b : LedMode) → set (set q 0 a) 0 b ≡ set q 0 b
set-set_first [] a b = refl
set-set_first (x ∷ q) a b = refl

module _ {S F : Type 0} where
  -- Since a state: an array was marked and the LEDs are asked for, or none was and nothing has changed.
  pub data Raised (s t : Sys S F) : Type 0 where
    by_mark : t.queue ≡ set s.queue 0 ledon → t.last_degraded ≡ true → Raised s t
    by_none :
        t.queue ≡ s.queue
        → t.last_degraded ≡ s.last_degraded
        → AreMarked t.degraded s.degraded
        → Raised s t

  pub Raised-refl : (s : Sys S F) → Raised s s
  Raised-refl s = by_none refl refl (λ i h. h)

  queue_lem : (s t : Sys S F) → Raised s t → set t.queue 0 ledon ≡ set s.queue 0 ledon
  queue_lem s t (by_mark q l) = ap (λ x. set x 0 ledon) q ∙ set-set_first s.queue ledon ledon
  queue_lem s t (by_none q l a) = ap (λ x. set x 0 ledon) q

module _ {S F : Type 0} (m : Machine S) (s : Sys S F) where
  unmark-Raised : (t : Sys S F) (dev : ℕ) → Raised s t → Raised s (unmark m t dev)
  unfolding unmark
  unmark-Raised t dev (by_mark q l) = by_mark q l
  unmark-Raised t dev (by_none q l a) =
      by_none q l (λ i e. a i (get_or-set-false t.degraded dev i e))

  mark-Raised :
      (t : Sys S F) (dev : ℕ) (level : List ℕ) → Raised s t → Raised s (mark m t dev level)
  unfolding mark syserrorlog leds_set
  mark-Raised t dev level r =
      if_elim (Raised s) (m.writable syserrorfn) (by_mark (queue_lem s t r) refl)
        (by_mark (queue_lem s t r) refl)

  count_degraded-Raised :
      (t : Sys S F) (dev : ℕ) (level : List ℕ) (n : ℤ)
      → Raised s t
      → Raised s (count_degraded m t dev level n)
  unfolding count_degraded
  count_degraded-Raised t dev level n r =
      if_elim (Raised s) (equal_ℤ n (pos 0)) (unmark-Raised t dev r)
        (if_elim (Raised s) (get_or t.degraded dev false) r (mark-Raised t dev level r))

  check_level-Raised :
      (t : Sys S F) (dev : ℕ) (l : Locals) → Raised s t → Raised s (check_level m t dev l)
  unfolding check_level
  check_level-Raised t dev l r =
      if_elim (Raised s) _
        (if_elim (Raised s) _ (count_degraded-Raised t dev l.level l.cdegraded r) r)
        (unmark-Raised t dev r)

  check_array-Raised :
      (t : Sys S F) (dev : ℕ) (l : Locals) → Raised s t → Raised s (check_array m t dev l)
  unfolding check_array
  check_array-Raised t dev l r =
      if_elim (Raised s) _
        (if_elim (Raised s) _ (unmark-Raised t dev r) (check_level-Raised t dev l r)) r

  pub check_arrays-Raised :
      (n dev : ℕ) (t : Sys S F) (l : Locals) → Raised s t → Raised s (check_arrays m n dev t l)
  unfolding check_arrays
  check_arrays-Raised zero dev t l r = r
  check_arrays-Raised (suc n) dev t l r =
      check_arrays-Raised n (suc dev) (check_array m t dev (read_locals m t dev l))
        (read_locals m t dev l) (check_array-Raised t dev (read_locals m t dev l) r)
