-- ===== src/Daemon/Handle/Dispatch.antt =====
-- Which row of `cmds` a line of a client is for: `HandleCommand` of
-- package/alt-f-utils/alt-f-utils-0.1.11/dns320l-daemon.c.
use alt_f.Prelude.{ℕ, zero, suc, ◌≡◌, refl, subst, ◌∙◌, some, List, [], ◌∷◌, ◌++◌, map, get_elem?}
use alt_f.Daemon.Serial.{Wire}
use alt_f.Daemon.State.{Daemon, Host}
use alt_f.Daemon.Alarm.{Tm, Clock, to_lower}
use alt_f.Daemon.Handle.Names.{Lacks, split_name-some}
use alt_f.Daemon.Handle.{Cmd, cmds, same_name, find, call, dispatch, HandleCommand}

-- The letters of two names are the same, in any case.
abbrev pub SameLetters : List ℕ → List ℕ → Type 0
SameLetters a b = map to_lower a ≡ map to_lower b

find-SameLetters : (rows : List Cmd) (a b : List ℕ) → SameLetters a b → find rows a ≡ find rows b
unfolding find same_name
find-SameLetters [] a b h = refl
find-SameLetters (c ∷ cs) a b h = rw (h, find-SameLetters cs a b h)

AllFound : List Cmd → Type 0
AllFound [] = Unit
AllFound (c ∷ cs) = (find cmds c.ucmd ≡ some c) × AllFound cs

-- No row has the name of one in front of it.
all_found : AllFound cmds
unfolding AllFound find same_name to_lower
all_found = assumption (refl, tt)

found_at :
    (rows : List Cmd) (i : ℕ) (c : Cmd)
    → AllFound rows
    → get_elem? rows i ≡ some c
    → find cmds c.ucmd ≡ some c
unfolding AllFound
found_at [] i c all e = cc
found_at (x ∷ xs) zero c all e =
    let same : x ≡ c = cc in subst (λ r. find cmds r.ucmd ≡ some r) same all.0
found_at (x ∷ xs) (suc i) c all e = found_at xs i c all.1 e

module _ {S : Type 0} (w : Wire S) (retries : ℕ) (host : Host) (clock : Clock) (utc : Tm) where
  -- A line that begins with the name of a row of `cmds`, in any case, and has options behind a
  -- blank, is handled by the function of this row, with its packet and these options.
  pub HandleCommand-row :
      (d : Daemon S) (i : ℕ) (c : Cmd) (name opts text : List ℕ) (size : ℕ)
      → get_elem? cmds i ≡ some c
      → SameLetters name c.ucmd
      → Lacks 32 name
      → HandleCommand w retries host clock utc d (name ++ 32 ∷ opts) text size
        ≡ call w retries host clock utc c.func d c.mcmd opts size
  unfolding HandleCommand dispatch
  HandleCommand-row d i c name opts text size at same no_blank = rw (
    split_name-some name opts no_blank,
    find-SameLetters cmds name c.ucmd same ∙ found_at cmds i c all_found at,
  )
