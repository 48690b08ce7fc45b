-- ===== src/Sysctrl/Log.antt =====
-- The log of the fan: `fanlog` of package/alt-f-utils/alt-f-utils-0.1.11/sysctrl.c.
use alt_f.Prelude.{
  ℕ, ◌+◌, Option, none, some, List, [], ◌∷◌, ◌++◌, length, take, drop, ltb, if◌then◌else◌,
}
use alt_f.Prelude.Int.{ℤ}
use alt_f.Prelude.Text.{codes}
use alt_f.Prelude.Scan.{show_ℤ}
use alt_f.Sysctrl.Globals.{Sys, Machine, with_text, without}

abbrev pub fantemplog : List ℕ
fantemplog = codes "/var/log/fantemp.log"

abbrev text_or_empty : Option (List ℕ) → List ℕ
text_or_empty none = []
text_or_empty (some text) = text

-- `write` at a position of a file.
abbrev overwrite : List ℕ → ℕ → List ℕ → List ℕ
overwrite old at text = take at old ++ text ++ drop (at + length text) old

log_line : List ℕ → ℤ → ℤ → ℤ → ℤ → List ℕ
log_line date stemp dtemp pwm fan =
    date
    ++ 9 ∷ codes "sys_temp="
    ++ show_ℤ stemp
    ++ 9 ∷ codes "disk_temp="
    ++ show_ℤ dtemp
    ++ 9 ∷ codes "pwm="
    ++ show_ℤ pwm
    ++ 9 ∷ codes "fan="
    ++ show_ℤ fan
    ++ 10 ∷ []

module _ {S F : Type 0} (m : Machine S) where
  with_log : Sys S F → (List ℕ → Option (List ℕ)) → Option ℕ → Sys S F
  with_log s files pos = record s { files = files; fan = record (s.fan) { log_pos = pos } }

  -- `log_pos` is where the open file stands, and `none` a `fd` of -1. It is opened at its end.
  open_log : Sys S F → Sys S F
  unfolding with_log
  open_log s = elim s.fan.log_pos [
    | some at ↦ s
    | none ↦
        let text = text_or_empty (s.files fantemplog) in
        if m.writable fantemplog
        then with_log s (with_text fantemplog text s.files) (some (length text))
        else s
  ]

  -- A log of more than 32768 bytes gives way to a new one.
  rotate : Sys S F → ℕ → Sys S F
  unfolding with_log
  rotate s at =
      let old =
        with_text (fantemplog ++ codes ".old") (text_or_empty (s.files fantemplog)) s.files in
      if ltb 32768 at
      then if m.writable fantemplog
        then with_log s (with_text fantemplog [] old) (some 0)
        else with_log s (without fantemplog old) none
      else s

  rotate_log : Sys S F → Sys S F
  unfolding rotate
  rotate_log s = elim s.fan.log_pos [ none ↦ s | some at ↦ rotate s at ]

  write_log : List ℕ → Sys S F → Sys S F
  unfolding with_log
  write_log line s = elim s.fan.log_pos [
    | none ↦ s
    | some at ↦
        with_log s
          (with_text fantemplog (overwrite (text_or_empty (s.files fantemplog)) at line) s.files)
          (some (at + length line))
  ]

  pub fanlog : Sys S F → ℤ → ℤ → ℤ → ℤ → Sys S F
  unfolding log_line open_log rotate_log write_log
  fanlog s stemp dtemp pwm fan =
      write_log (log_line (m.date s.world) stemp dtemp pwm fan) (rotate_log (open_log s))
