-- ===== src/Sysctrl/Disks/Rest.antt =====
-- When a disk is told to rest: `hdd_powercheck` of
-- package/alt-f-utils/alt-f-utils-0.1.11/sysctrl.c.
use alt_f.Prelude.{ℕ, ◌<◌, ◌≤◌, ◌≡◌, ◌≢◌, Bool, List, [], ◌∷◌, ◌++◌}
use alt_f.Prelude.Int.{ℤ, pos}
use alt_f.Sysctrl.Globals.{Slot, Sys, Machine, spindown}
use alt_f.Sysctrl.Disks.Idle.{Untold, IsLong}
use alt_f.Sysctrl.Disks.{dstat, show_change, store_mode}

module _ {S F : Type 0} (m : Machine S) where
  -- The time at which a round looks at the clock.
  abbrev pub clock_at : Sys S F → List ℕ → ℕ
  clock_at s dev = (m.time (m.drive s.world dev).1).0

  -- The disk does not tell its mode, is not marked as asleep, was neither read nor written since the
  -- last look, and has a time of rest that has passed since its last use.
  abbrev pub MustRest : Sys S F → Slot → List ℕ → Type 0
  MustRest s i dev =
      Untold (m.drive s.world dev).0
      × (dstat s dev ≤ (s.disks i).rdwr_cnt)
      × ((s.disks i).power_state ≢ pos 0)
      × IsLong (s.disks i).spindow_time (s.disks i).last_access (clock_at s dev)

  -- It does not tell its mode, has a time of rest, and was read or written since the last look.
  abbrev pub WasUsed : Sys S F → Slot → List ℕ → Type 0
  WasUsed s i dev =
      Untold (m.drive s.world dev).0
      × ((s.disks i).rdwr_cnt < dstat s dev)
      × ((k : ℕ) × ((s.disks i).spindow_time ≡ pos k) × (0 < k))

  -- What a round has done about a disk's rest.
  pub data Rests (s t : Sys S F) (i : Slot) (dev : List ℕ) : Type 0 where
    sent :
        MustRest s i dev
        → t.calls ≡ s.calls ++ spindown dev ∷ []
        → (t.disks i).power_state ≡ pos 0
        → Rests s t i dev
    used :
        WasUsed s i dev
        → t.calls ≡ s.calls
        → (t.disks i).last_access ≡ clock_at s dev
        → (t.disks i).rdwr_cnt ≡ dstat s dev
        → Rests s t i dev
    let_be :
        ¬ MustRest s i dev
        → ¬ WasUsed s i dev
        → t.calls ≡ s.calls
        → (t.disks i).last_access ≡ (s.disks i).last_access
        → (t.disks i).rdwr_cnt ≡ (s.disks i).rdwr_cnt
        → Rests s t i dev

  -- A mode that was found, and the state in which it is stored.
  stored : Sys S F → Slot → ℤ → Bool → Sys S F
  stored t i dpm noleds = store_mode m (show_change m t i dpm noleds) i dpm

  module _ (s : Sys S F) (i : Slot) (dev : List ℕ) where
    -- The state after the question for the mode.
    abbrev asked : Sys S F
    asked = record s { world = (m.drive s.world dev).1 }

    abbrev timed : Sys S F
    timed = record asked { world = (m.time asked.world).1 }

    abbrev now : ℕ
    now = clock_at s dev

    -- What the search for the mode has done.
    data Told (r : ℤ × Sys S F) : Type 0 where
      told_sent : MustRest s i dev → r.1.calls ≡ s.calls ++ spindown dev ∷ [] → r.0 ≡ pos 0 → Told r
      told_used :
          WasUsed s i dev
          → r.1.calls ≡ s.calls
          → (r.1.disks i).last_access ≡ clock_at s dev
          → (r.1.disks i).rdwr_cnt ≡ dstat s dev
          → Told r
      told_idle :
          ¬ MustRest s i dev
          → ¬ WasUsed s i dev
          → r.1.calls ≡ s.calls
          → r.1.disks i ≡ s.disks i
          → Told r
