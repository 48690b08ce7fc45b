-- ===== src/Sysctrl/Start.antt =====
-- The start of the daemon and what signals make it read again: `main`, `check_other_daemon`,
-- `sighup_handler` and `inotify_handler` of package/alt-f-utils/alt-f-utils-0.1.11/sysctrl.c. Signals come between two
-- rounds of the loop only, as they are blocked within one.
use alt_f.Prelude.{ℕ, ◌++◌, Option, none, some, Bool, true, false, List, [], ◌∷◌, if◌then◌else◌}
use alt_f.Prelude.Int.{ℤ, pos, equal_ℤ}
use alt_f.Prelude.Text.{codes}
use alt_f.Prelude.Scan.{show_ℤ, strtol}
use alt_f.Sysctrl.Globals.{left, fault, exited, with_text, without, Sys, Machine, Flow, on, ◌>>=◌}
use alt_f.Sysctrl.Disks.{slots}
use alt_f.Sysctrl.Temp.{Floats}
use alt_f.Sysctrl.Board.{check_board}
use alt_f.Sysctrl.Bay.{for_disks, read_bay, read_misc}
use alt_f.Sysctrl.Config.{read_config}
use alt_f.Sysctrl.Loop.{Loop, mainloop_start}

-- What `inotify_add_watch` has returned for the three files.
pub record Watches : Type 0 where
  pub wd_bay : ℤ
  pub wd_misc : ℤ
  pub wd_conf : ℤ

-- `ev->wd`, and whether `ev->mask` is IN_IGNORED.
pub record Notice : Type 0 where
  pub wd : ℤ
  pub ignored : Bool

-- Which of the files have changed.
pub record Changed : Type 0 where
  pub bayf : Bool
  pub miscf : Bool
  pub conff : Bool

-- `fresh` is what the next `inotify_add_watch` returns.
renewed : Notice → ℤ → ℤ → ℤ
renewed e fresh old = if e.ignored then fresh else old

-- One event of the loop.
take_notice : ℤ → Notice → Watches × Changed → Watches × Changed
unfolding renewed
take_notice fresh e (w, c) =
    if equal_ℤ e.wd w.wd_misc
    then (record w { wd_misc = renewed e fresh w.wd_misc }, record c { miscf = true })
    else if equal_ℤ e.wd w.wd_bay
    then (record w { wd_bay = renewed e fresh w.wd_bay }, record c { bayf = true })
    else if equal_ℤ e.wd w.wd_conf
    then (record w { wd_conf = renewed e fresh w.wd_conf }, record c { conff = true })
    else (w, c)

-- The events with what a call of `inotify_add_watch` would return at each.
pub take_notices : List (Notice × ℤ) → Watches × Changed → Watches × Changed
unfolding take_notice
take_notices [] r = r
take_notices ((e, fresh) ∷ es) r = take_notices es (take_notice fresh e r)

abbrev pub unchanged : Changed
unchanged = record { bayf = false; miscf = false; conff = false }

abbrev pid_file : List ℕ
pid_file = codes "/var/run/sysctrl.pid"

module _ {S F : Type 0} (m : Machine S) (fl : Floats F) where
  pub read_again : Changed → Sys S F → Flow (Sys S F)
  read_again c s =
      let t = if c.bayf then read_bay m s else s in
      let u = if c.miscf then read_misc m t else t in if c.conff then read_config m fl u else on u

  pub inotify_handler : List (Notice × ℤ) → Watches × Sys S F → Flow (Watches × Sys S F)
  inotify_handler es (w, s) =
      let (w', c) = take_notices es (w, unchanged) in read_again c s >>= λ t. on (w', t)

  pub sighup_handler : Sys S F → Flow (Sys S F)
  sighup_handler s = read_config m fl s >>= λ t. on (read_misc m (read_bay m t))

  -- The file of the process, written anew; `fdopen` of -1 is NULL, to which `fprintf` does not write
  -- without a fault.
  own_pid : Sys S F → Flow (Sys S F)
  own_pid s =
      if m.writable pid_file
      then on (record s { files = with_text pid_file (show_ℤ m.pid ++ 10 ∷ []) s.files })
      else left fault

  other_pid : Sys S F → Option (ℤ × List ℕ) → Flow (Sys S F)
  unfolding own_pid
  other_pid s none = left exited
  other_pid s (some (opid, rest)) =
      if m.alive opid then left exited else own_pid (record s { files = without pid_file s.files })

  pub check_other_daemon : Sys S F → Flow (Sys S F)
  unfolding own_pid other_pid
  check_other_daemon s = elim (s.files pid_file) [
    | none ↦ own_pid s
    | some text ↦ other_pid s (strtol text)
  ]

  awake : Sys S F → Sys S F
  unfolding for_disks
  awake s = for_disks (λ d. record d { power_state = pos 1 }) (slots s.nslots) s

  -- `main` up to its loop, without the signals and the texts it logs.
  pub start : Sys S F → Flow (Loop S F)
  unfolding awake
  start s = do
    b ← check_board s
    t ← check_other_daemon b
    u ← read_config m fl (read_misc m (read_bay m (awake t)))
    on (mainloop_start m u)
