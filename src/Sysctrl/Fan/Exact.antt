-- ===== src/Sysctrl/Fan/Exact.antt =====
-- Whole numbers as numbers of type `float`, and the temperatures at which `fanctl` of
-- package/alt-f-utils/alt-f-utils-0.1.11/sysctrl.c changes the speed.
use alt_f.Prelude.{ℕ, ◌+◌, ◌-◌, ◌≤◌, ◌≡◌, ap, ◌∙◌, false, arith}
use alt_f.Prelude.Int.{ℤ, pos}
use alt_f.Sysctrl.Globals.{Args}
use alt_f.Sysctrl.Temp.{Floats}
use alt_f.Sysctrl.Fan.{above, below}

-- Up to this, all whole numbers are numbers of type `float`.
abbrev pub max_whole : ℕ
max_whole = 16777216

-- What IEEE 754 says of `float` and `double`: whole numbers up to 2^24 are exact, and so are their
-- sums and differences; and the order is transitive.
pub record IsExact {F : Type 0} (fl : Floats F) : Type 0 where
  pub rounds : (n : ℕ) → n ≤ max_whole → fl.single (fl.of_int (pos n)) ≡ fl.of_int (pos n)
  pub sums :
      (n k : ℕ)
      → n + k ≤ max_whole
      → fl.single (fl.add (fl.of_int (pos n)) (fl.of_int (pos k))) ≡ fl.of_int (pos (n + k))
  pub differences :
      (n k : ℕ)
      → k ≤ n
      → n ≤ max_whole
      → fl.single (fl.sub (fl.of_int (pos n)) (fl.of_int (pos k))) ≡ fl.of_int (pos (n - k))
  pub not_below :
      (x : F) (n k : ℕ)
      → k ≤ n
      → n ≤ max_whole
      → fl.lt x (fl.of_int (pos n)) ≡ false
      → fl.lt x (fl.of_int (pos k)) ≡ false
  pub not_above :
      (x : F) (n k : ℕ)
      → n ≤ k
      → k ≤ max_whole
      → fl.lt (fl.of_int (pos n)) x ≡ false
      → fl.lt (fl.of_int (pos k)) x ≡ false

module _ {F : Type 0} (fl : Floats F) where
  -- The configured temperatures: the fan goes off at `c`, has to be fast at `l`, and keeps its speed
  -- for `h` around these.
  pub record IsTuned (a : Args F) (c l h : ℕ) : Type 0 where
    pub off_at : a.fan_off_temp ≡ pos c
    pub fast_at : a.lo_temp ≡ pos l
    pub margin : a.hist_temp ≡ fl.of_int (pos h)
    pub ordered : c ≤ l
    pub small : h ≤ c
    pub exact : l + h ≤ max_whole

module _ {F : Type 0} (fl : Floats F) (ex : IsExact fl) (a : Args F) (c l h : ℕ)
    (tuned : IsTuned fl a c l h) where
  above_lem :
      (n : ℕ) (z : ℤ)
      → z ≡ pos n
      → n + h ≤ max_whole
      → above fl z a.hist_temp ≡ fl.of_int (pos (n + h))
  above_lem n z e k =
      ap (λ y. above fl y a.hist_temp) e
      ∙ ap (λ y. above fl (pos n) y) tuned.margin
      ∙ ap (λ y. fl.single (fl.add y (fl.of_int (pos h)))) (ex.rounds n (omega arith))
      ∙ ex.sums n h k

  below_lem :
      (n : ℕ) (z : ℤ)
      → z ≡ pos n
      → h ≤ n
      → n ≤ max_whole
      → below fl z a.hist_temp ≡ fl.of_int (pos (n - h))
  below_lem n z e k j =
      ap (λ y. below fl y a.hist_temp) e
      ∙ ap (λ y. below fl (pos n) y) tuned.margin
      ∙ ap (λ y. fl.single (fl.sub y (fl.of_int (pos h)))) (ex.rounds n j)
      ∙ ex.differences n h k j

  -- Not above the first limit, nor above the second, and so on, as `pwm_auto` asks for it.
  pub not_above_off :
      (x : F)
      → fl.lt (fl.of_int (pos (c + h))) x ≡ false
      → fl.lt (above fl a.fan_off_temp a.hist_temp) x ≡ false
  not_above_off x k =
      let p : c ≤ l = tuned.ordered in
      let q : l + h ≤ max_whole = tuned.exact in
      ap (λ y. fl.lt y x) (above_lem c a.fan_off_temp tuned.off_at (omega arith)) ∙ k

  pub not_above_fast :
      (x : F)
      → fl.lt (fl.of_int (pos (l + h))) x ≡ false
      → fl.lt (above fl a.lo_temp a.hist_temp) x ≡ false
  not_above_fast x k = ap (λ y. fl.lt y x) (above_lem l a.lo_temp tuned.fast_at tuned.exact) ∙ k

  pub not_below_off :
      (x : F)
      → fl.lt x (fl.of_int (pos (c - h))) ≡ false
      → fl.lt x (below fl a.fan_off_temp a.hist_temp) ≡ false
  not_below_off x k =
      let p : c ≤ l = tuned.ordered in
      let q : l + h ≤ max_whole = tuned.exact in
      ap (fl.lt x) (below_lem c a.fan_off_temp tuned.off_at tuned.small (omega arith)) ∙ k

  pub not_below_fast :
      (x : F)
      → fl.lt x (fl.of_int (pos (l - h))) ≡ false
      → fl.lt x (below fl a.lo_temp a.hist_temp) ≡ false
  not_below_fast x k =
      let p : c ≤ l = tuned.ordered in
      let q : l + h ≤ max_whole = tuned.exact in
      let r : h ≤ c = tuned.small in
      ap (fl.lt x) (below_lem l a.lo_temp tuned.fast_at (omega arith) (omega arith)) ∙ k

  -- What is not above the first limit is not above the second, and the other way round.
  pub lift_above :
      (x : F)
      → fl.lt (fl.of_int (pos (c + h))) x ≡ false
      → fl.lt (fl.of_int (pos (l + h))) x ≡ false
  lift_above x =
      let p : c ≤ l = tuned.ordered in ex.not_above x (c + h) (l + h) (omega arith) tuned.exact

  pub drop_below :
      (x : F)
      → fl.lt x (fl.of_int (pos (l - h))) ≡ false
      → fl.lt x (fl.of_int (pos (c - h))) ≡ false
  drop_below x =
      let p : c ≤ l = tuned.ordered in
      let q : l + h ≤ max_whole = tuned.exact in
      ex.not_below x (l - h) (c - h) (omega arith) (omega arith)
