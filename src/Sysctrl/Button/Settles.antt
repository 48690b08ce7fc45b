-- ===== src/Sysctrl/Button/Settles.antt =====
-- `debounce` comes to an end: package/alt-f-utils/alt-f-utils-0.1.11/sysctrl.c.
use alt_f.Prelude.{
  ℕ, zero, suc, ◌≤◌, ◌<◌, ◌≡◌, refl, ap, ◌∙◌, inl, inr, Bool, true, false, Bool-cases, ◌||◌,
  if◌then◌else◌, some, none, Option, ◌⊎◌, if_elim, arith,
}
use alt_f.Prelude.Int.{ℤ, pos, negsuc, equal_ℤ}
use alt_f.Sysctrl.Globals.{
  Reading, nothing, partial, again, broken, event, Sys, Machine, Flow, on, left, hung, ◌>>=◌,
  powered_off, become, poweroff,
}
use alt_f.Sysctrl.Button.{
  no_bt, decode, no_event, sync_loop, read_key, read_device, with_world, button, settle,
  has_power_button, keep_button, power_button, settled, debounce,
}

-- Whether `button` makes something of what is read: a key, or -1.
abbrev pub tells : Reading → Bool
tells broken = true
tells (event true key value) = true
tells _ = false

-- The device of the buttons: every key event and every read error is one of the finitely many that
-- were to come, and reads that give nothing are as few as `zeros` says.
pub record IsDevice {S : Type 0} (m : Machine S) : Type 0 where
  pub takes :
      (s : S) → tells (m.reads_event s).0 ≡ true → m.pending (m.reads_event s).1 < m.pending s
  pub keeps : (s : S) → m.pending (m.reads_event s).1 ≤ m.pending s
  pub fewer : (s : S) → (m.reads_event s).0 ≡ nothing → m.zeros (m.reads_event s).1 < m.zeros s

module _ {S : Type 0} (m : Machine S) (dev : IsDevice m) where
  -- A state of the device with no more events pending than before.
  abbrev Later : S → Flow S → Type 0
  Later s f = (t : S) × (f ≡ on t) × (m.pending t ≤ m.pending s)

  sync_read :
      (r : Reading) (s t : S) (next : Flow S)
      → m.pending t ≤ m.pending s
      → (r ≡ nothing → Later t next)
      → Later s (elim r [ nothing ↦ next | _ ↦ on t ])
  sync_read nothing s t next h go = let (u, e, k) = go refl in (u, e, omega arith)
  sync_read partial s t next h go = (t, refl, h)
  sync_read again s t next h go = (t, refl, h)
  sync_read broken s t next h go = (t, refl, h)
  sync_read (event key code value) s t next h go = (t, refl, h)

  -- The loop over the synchronization event ends.
  sync_lem : (fuel : ℕ) (s : S) → m.zeros s < fuel → Later s (sync_loop m fuel s)
  unfolding sync_loop
  sync_lem zero s h = absurd (omega arith)
  sync_lem (suc fuel) s h =
      sync_read (m.reads_event s).0 s (m.reads_event s).1 (sync_loop m fuel (m.reads_event s).1)
        (dev.keeps s)
        (λ e.
          let less : m.zeros (m.reads_event s).1 < m.zeros s = dev.fewer s e in
          sync_lem fuel (m.reads_event s).1 (omega arith))

  -- What `button` has made of the device: a value that is not 0 has taken an event.
  abbrev Read : S → Flow (ℤ × S) → Type 0
  Read s f =
      (v : ℤ) × (t : S) × (f ≡ on (v, t))
      × (m.pending t ≤ m.pending s)
      × (equal_ℤ v (pos 0) ≡ false → m.pending t < m.pending s)

  read_key_lem :
      (r : Reading) (s t : S)
      → m.pending t ≤ m.pending s
      → (tells r ≡ true → m.pending t < m.pending s)
      → Read s (read_key m r t)
  unfolding read_key
  read_key_lem nothing s t h k = (no_bt, t, refl, h, λ e. ground (arith, e))
  read_key_lem partial s t h k = (no_bt, t, refl, h, λ e. ground (arith, e))
  read_key_lem again s t h k = (no_bt, t, refl, h, λ e. ground (arith, e))
  read_key_lem broken s t h k = (negsuc 0, t, refl, h, λ e. k refl)
  read_key_lem (event false key value) s t h k = (no_bt, t, refl, h, λ e. ground (arith, e))
  read_key_lem (event true key value) s t h k =
      let (u, e, l) = sync_lem (suc (m.zeros t)) t (omega arith) in
      let less : m.pending t < m.pending s = k refl in
      (
        decode key value,
        u,
        ap (λ f. f >>= λ x. on (decode key value, x)) e,
        omega arith,
        λ _. omega arith,
      )

  read_device_lem : (s : S) → Read s (read_device m s)
  unfolding read_device
  read_device_lem s =
      read_key_lem (m.reads_event s).0 s (m.reads_event s).1 (dev.keeps s) (dev.takes s)

module _ {S F : Type 0} (m : Machine S) (dev : IsDevice m) where
  -- The same of `button`, with the device open from then on.
  abbrev Pressed : Sys S F → Flow (ℤ × Sys S F) → Type 0
  Pressed s f =
      (v : ℤ) × (t : Sys S F) × (f ≡ on (v, t))
      × (t.events_open ≡ true)
      × (m.pending t.world ≤ m.pending s.world)
      × (equal_ℤ v (pos 0) ≡ false → m.pending t.world < m.pending s.world)

  opened_lem : (s : Sys S F) → Pressed s (with_world m s (read_device m s.world))
  unfolding with_world
  opened_lem s =
      let (v, t, e, h, k) = read_device_lem m dev s.world in
      (
        v,
        record s { world = t; events_open = true },
        ap (λ f. f >>= λ p. on (p.0, record s { world = p.1; events_open = true })) e,
        refl,
        h,
        k,
      )

  button_open : (s : Sys S F) → s.events_open ≡ true → Pressed s (button m s)
  unfolding button
  button_open s h =
      let p = opened_lem s in
      (
        p.0,
        p.1,
        ap
              (λ b.
                if b || m.opens_events s.world
                then with_world m s (read_device m s.world)
                else on (negsuc 0, s))
              h
            ∙ p.2,
        p.3,
        p.4,
        p.5,
      )

  settle_step :
      (b : Bool) {x y : Flow (ℤ × Sys S F)}
      → (b ≡ true → (r : ℤ × Sys S F) × (x ≡ on r))
      → (b ≡ false → (r : ℤ × Sys S F) × (y ≡ on r))
      → (r : ℤ × Sys S F) × (elim b [ true ↦ x | false ↦ y ] ≡ on r)
  settle_step true f g = f refl
  settle_step false f g = g refl

  settle_lem :
      (events count : ℕ) (bt : ℤ) (s : Sys S F)
      → s.events_open ≡ true
      → m.pending s.world ≤ events
      → (r : ℤ × Sys S F) × (settle m events count bt s ≡ on r)
  unfolding settle
  settle_lem events zero bt s o h = ((bt, s), refl)
  settle_lem zero (suc count) bt s o h =
      let (v, t, e, open_t, le, less) = button_open s o in
      let (r, q) =
        settle_step (equal_ℤ v (pos 0)) {y = left hung}
          (λ _. settle_lem zero count bt t open_t (omega arith))
          (λ z. absurd (omega (arith, less z))) in
      (
        r,
        ap
              (λ f. f >>= λ p. elim (equal_ℤ (p.0) (pos 0)) [
                | true ↦ settle m zero count bt (p.1)
                | false ↦ left hung
              ])
              e
            ∙ q,
      )
  settle_lem (suc events) (suc count) bt s o h =
      let (v, t, e, open_t, le, less) = button_open s o in
      let (r, q) =
        settle_step (equal_ℤ v (pos 0))
          (λ _. settle_lem (suc events) count bt t open_t (omega arith))
          (λ z. settle_lem events 50 v t open_t (omega (arith, less z))) in
      (
        r,
        ap
              (λ f. f >>= λ p. elim (equal_ℤ (p.0) (pos 0)) [
                | true ↦ settle m (suc events) count bt (p.1)
                | false ↦ settle m events 50 (p.0) (p.1)
              ])
              e
            ∙ q,
      )

  settled_lem :
      (v : ℤ) (s : Sys S F)
      → (no_event v ≡ false → s.events_open ≡ true)
      → (r : ℤ × Sys S F) × (settled m (v, s) ≡ on r)
  unfolding settled
  settled_lem v s o =
      settle_step (no_event v) (λ _. ((s.bt, s), refl))
        (λ z.
          let (r, q) = settle_lem (m.pending s.world) 50 v s (o z) (omega arith) in
          (keep_button m r, ap (λ f. f >>= λ x. on (keep_button m x)) q))

  first_lem : (s : Sys S F) → (r : ℤ × Sys S F) × ((button m s >>= settled m) ≡ on r)
  unfolding button
  first_lem s = elim (Bool-cases (s.events_open || m.opens_events s.world)) [
    | inl b ↦
        let p = opened_lem s in
        let (r, q) = settled_lem (p.0) (p.1) (λ _. p.3) in
        (
          r,
          ap
                (λ b.
                  (if b then with_world m s (read_device m s.world) else on (negsuc 0, s))
                  >>= settled m)
                b
              ∙ ap (λ f. f >>= settled m) (p.2)
              ∙ q,
        )
    | inr b ↦
        let (r, q) = settled_lem (negsuc 0) s (λ z. ground (arith, z)) in
        (
          r,
          ap
                (λ b.
                  (if b then with_world m s (read_device m s.world) else on (negsuc 0, s))
                  >>= settled m)
                b
              ∙ q,
        )
  ]

  abbrev Powers : Flow (Sys S F) → Type 0
  Powers f = (f ≡ left powered_off) ⊎ ((t : Sys S F) × (f ≡ on t))

  poweroff_lem : (s : Sys S F) → Powers (poweroff m s)
  unfolding poweroff become
  poweroff_lem s = if_elim Powers _ (inl refl) (inr (_, refl))

  read_power :
      (o : Option ℤ) (s : Sys S F) → Powers (elim o [ some (pos zero) ↦ poweroff m s | _ ↦ on s ])
  read_power none s = inr (s, refl)
  read_power (some (pos zero)) s = poweroff_lem s
  read_power (some (pos (suc n))) s = inr (s, refl)
  read_power (some (negsuc n)) s = inr (s, refl)

  power_button_lem : (s : Sys S F) → Powers (power_button m s)
  unfolding power_button
  power_button_lem s = if_elim Powers (has_power_button s.board) (read_power _ s) (inr (s, refl))

  -- With a device that gives only finitely many key events and read errors, and does not go on giving
  -- nothing, `debounce` comes back with a value, or the box is switched off by its own power button:
  -- neither the loop that waits for 50 quiet readings, which every key event and every read error
  -- starts anew, nor the one behind each key event uses up its fuel.
  pub debounce_ends :
      (s : Sys S F)
      → (debounce m s ≡ left powered_off) ⊎ ((r : ℤ × Sys S F) × (debounce m s ≡ on r))
  unfolding debounce
  debounce_ends s = elim (power_button_lem s) [
    | inl e ↦ inl (ap (λ f. f >>= λ t. button m t >>= settled m) e)
    | inr (t, e) ↦
        let (r, q) = first_lem t in inr (r, ap (λ f. f >>= λ t. button m t >>= settled m) e ∙ q)
  ]
