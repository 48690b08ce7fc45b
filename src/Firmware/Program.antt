-- ===== src/Firmware/Program.antt =====
-- `main` of package/alt-f-utils/alt-f-utils-0.1.11/dns323-fw.c.
use alt_f.Prelude.{ℕ, none, some, List, [], ◌∷◌}
use alt_f.Prelude.Result.{Result, exit}
use alt_f.Firmware.File.{Os}
use alt_f.Firmware.Header.{MyControlHeader}
use alt_f.Firmware.Options.{
  Config, Opt, Oper, none_given, split_given, merge_given, info_given, Files, default_config,
  set_options,
}
use alt_f.Firmware.Merge.{merge}
use alt_f.Firmware.Split.{info, split}

abbrev run_oper : Os → Oper → Config → MyControlHeader → Result Files
run_oper os split_given cfg myhd = split os cfg myhd
run_oper os merge_given cfg myhd = merge os cfg
run_oper os info_given cfg myhd = info os cfg myhd
run_oper os none_given cfg myhd = exit 1

-- `main`: the options, then the first operand as the firmware file.
unfoldable pub main : Os → List Opt → List (List ℕ) → MyControlHeader → Result Files
main os opts operands myhd = elim (set_options opts (none_given, default_config)) [
  | none ↦ exit 1
  | some (op, cfg) ↦ elim operands [
    | [] ↦ exit 1
    | fw ∷ _ ↦ run_oper os op (record cfg { fw = some fw }) myhd
  ]
]
