-- ===== src/Sysctrl/Loop/Front/Rounds.antt =====
-- The rounds of `mainloop` of package/alt-f-utils/alt-f-utils-0.1.11/sysctrl.c against the counter of
-- seconds of Sysctrl/Loop/Front.
use alt_f.Prelude.{
  ℕ, zero, suc, ◌∙◌, ◌+◌, ◌%◌, ◌<◌, ◌≡◌, refl, sym, ap, subst, ◌⊎◌, inl, inr, true, false,
  Bool-cases, ltb, length, ◌==◌, List, [], ◌∷◌, arith,
}
use alt_f.Prelude.Int.{ℤ, equal_ℤ}
use alt_f.Sysctrl.Globals.{Machine, End, rebooted, powered_off, Flow, on, left, ◌>>=◌}
use alt_f.Sysctrl.Button.{no_bt, debounce}
use alt_f.Sysctrl.Temp.{Floats}
use alt_f.Sysctrl.Fan.{fanctl}
use alt_f.Sysctrl.Loop.{round, mainloop_rounds, Loop, is_back, rest, react, after_debounce, prepare}
use alt_f.Sysctrl.Loop.Front.{
  phase, Outcome, waiting, asked, held, FrontOnly, flow_or, end_or, on_not_left, bind-on, Counts,
  pressed, released_idle, released_halt, released_reboot,
}

module _ {S F : Type 0} (m : Machine S) where
  module _ (fl : Floats F) where
    -- The rounds from a state on, with the values that `debounce` gave in them, up to the last that
    -- is looked at or to the one in which the program is left.
    pub data Rounds : Loop S F → List ℤ → Flow (Loop S F) → Type 0 where
      here : (l : Loop S F) → Rounds l [] (on l)
      next :
          {l p u : Loop S F} {bt : ℤ} {bts : List ℤ} {r : Flow (Loop S F)}
          → prepare m fl l ≡ on (bt, p)
          → react m bt p ≡ on u
          → Rounds u bts r
          → Rounds l (bt ∷ bts) r
      ends :
          {l p : Loop S F} {bt : ℤ} {e : End}
          → prepare m fl l ≡ on (bt, p)
          → react m bt p ≡ left e
          → Rounds l (bt ∷ []) (left e)

    -- The round that a value begins.
    abbrev prepared : Flow (ℤ × Loop S F) → Loop S F → Loop S F
    prepared (on (bt, p)) l = p
    prepared (left e) l = l

    prepare-keeps :
        (l p : Loop S F) (bt : ℤ)
        → prepare m fl l ≡ on (bt, p)
        → (p.count ≡ suc l.count) × (p.state ≡ l.state)
    unfolding prepare after_debounce
    prepare-keeps l p bt h =
        let (s, e, g) =
          bind-on (elim (l.fan_count % 15 == 0) [ true ↦ fanctl fl m l.sys | false ↦ on l.sys ]) _
            h in
        let ((b, t), e', g') = bind-on (debounce m s) _ g in
        let same : after_debounce m l b t ≡ p = ap (λ r. prepared r l) g' in
        (ap (λ x. x.count) (sym same), ap (λ x. x.state) (sym same))

    -- What is left is as the counter has it.
    abbrev pub Meets : Flow (Loop S F) → Outcome → Type 0
    Meets (on l) (waiting n) = Counts m n l
    Meets (left e) (asked e') = e ≡ e'
    Meets _ _ = ⊥

    module _ (works : (w : S) → m.execs w ≡ true) where
      -- The round and the counter agree.
      abbrev Agrees : ℕ → Loop S F → ℤ → List ℤ → Type 0
      Agrees n p bt bts =
          ((l : Loop S F) × (k : ℕ) × (react m bt p ≡ on l)
            × (k < 9)
            × Counts m k l
            × (held n (bt ∷ bts) ≡ held k bts))
          ⊎ ((e : End) × (react m bt p ≡ left e) × (held n (bt ∷ bts) ≡ asked e))

      agree_released :
          (n : ℕ) (p : Loop S F) (bt : ℤ) (bts : List ℤ)
          → p.state ≡ phase n
          → is_back bt ≡ false
          → equal_ℤ bt no_bt ≡ true
          → Agrees n p bt bts
      agree_released n p bt bts s back key = elim (Bool-cases (ltb n 3)) [
        | inl a ↦
            let (l, e, c) = released_idle m p bt back key (s ∙ rw a refl) in
            inl (l, 0, e, omega arith, c, rw (key, a, held) refl)
        | inr a ↦ elim (Bool-cases (ltb n 6)) [
          | inl b ↦ inr (
            powered_off,
            released_halt m p bt back key works (s ∙ rw (a, b) refl),
            rw (key, a, b, held) refl,
          )
          | inr b ↦ inr (
            rebooted,
            released_reboot m p bt back key works (s ∙ rw (a, b) refl),
            rw (key, a, b, held) refl,
          )
        ]
      ]

      agree :
          (n : ℕ) (p : Loop S F) (bt : ℤ) (bts : List ℤ)
          → n < 9
          → p.count ≡ suc n
          → p.state ≡ phase n
          → is_back bt ≡ false
          → Agrees n p bt bts
      agree n p bt bts h c s back = elim (Bool-cases (equal_ℤ bt no_bt)) [
        | inl key ↦ agree_released n p bt bts s back key
        | inr key ↦
            let (l, e, d) = pressed m p bt back key n h c s in
            inl (l, (n + 1) % 9, e, omega arith, d, rw (key, held) refl)
      ]

      -- The rounds of the main loop in which no button on the back is pressed do what a counter of the
      -- seconds for which the power button is held says: a release before the third second does
      -- nothing, one before the sixth halts the box, one before the ninth reboots it, and with the
      -- ninth second the count begins again. This takes `execl` to work, and begins in any state
      -- that the counter can be in.
      pub Rounds-refine :
          {l : Loop S F} {bts : List ℤ} {r : Flow (Loop S F)} (n : ℕ)
          → Rounds l bts r
          → n < 9
          → Counts m n l
          → FrontOnly bts
          → Meets r (held n bts)
      Rounds-refine n (here l) h c f = c
      Rounds-refine {r = r} n (next {l = l} {p = p} {u = u} {bt = bt} {bts = bts} e g rest) h c
            (f, fs) =
          let (pc, ps) = prepare-keeps l p bt e in
          elim (agree n p bt bts h (pc ∙ ap suc (c.0)) (ps ∙ c.1) f) [
            | inl (v, k, e', k9, d, eq) ↦
                let same : v ≡ u = ap (flow_or v) (sym e' ∙ g) in
                subst (Meets r) (sym eq) (Rounds-refine k rest k9 (subst (Counts m k) same d) fs)
            | inr (z, e', eq) ↦ absurd (on_not_left (sym g ∙ e'))
          ]
      Rounds-refine n (ends {l = l} {p = p} {bt = bt} {e = z} e g) h c (f, fs) =
          let (pc, ps) = prepare-keeps l p bt e in
          elim (agree n p bt [] h (pc ∙ ap suc (c.0)) (ps ∙ c.1) f) [
            | inl (v, k, e', k9, d, eq) ↦ absurd (on_not_left (sym e' ∙ g))
            | inr (y, e', eq) ↦ subst (Meets (left z)) (sym eq) (ap (end_or z) (sym g ∙ e'))
          ]

    -- Rounds of `mainloop` that the program does not leave are such rounds, one value in each.
    pub mainloop_rounds-Rounds :
        (n : ℕ) (l u : Loop S F)
        → mainloop_rounds m fl n l ≡ on u
        → (bts : List ℤ) × (length bts ≡ n) × Rounds l bts (on u)
    unfolding mainloop_rounds round
    mainloop_rounds-Rounds zero l u h =
        ([], refl, subst (λ x. Rounds l [] (on x)) (ap (flow_or l) h) (here l))
    mainloop_rounds-Rounds (suc n) l u h =
        let (v, e, k) =
          bind-on (prepare m fl l >>= λ p. react m (p.0) (p.1)) (mainloop_rounds m fl n) h in
        let ((bt, p), e', k') = bind-on (prepare m fl l) (λ p. react m (p.0) (p.1)) e in
        let (bts, len, rest) = mainloop_rounds-Rounds n v u k in
        (bt ∷ bts, ap suc len, next e' k' rest)
