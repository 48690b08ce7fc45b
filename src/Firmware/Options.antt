-- ===== src/Firmware/Options.antt =====
-- The global variables of package/alt-f-utils/alt-f-utils-0.1.11/dns323-fw.c,
-- and the `switch` of `main` that sets them.
use alt_f.Prelude.{ℕ, Bool, true, false, Option, none, some, List, [], ◌∷◌, String}
use alt_f.Prelude.Result.{Result, ok, exit}
use alt_f.Prelude.Text.{codes, atoi}
use alt_f.Prelude.Word.{u8_of_ℤ}

-- The global variables that the options set. The five ids and `kind`, the variable `type`, are
-- of type `uchar`.
pub record Config : Type 0 where
  pub kernel : Option (List ℕ)
  pub initramfs : Option (List ℕ)
  pub sqimage : Option (List ℕ)
  pub defaults : Option (List ℕ)
  pub fw : Option (List ℕ)
  pub product : ℕ
  pub custom : ℕ
  pub model : ℕ
  pub sub : ℕ
  pub version : ℕ
  pub kind : ℕ
  pub quiet : Bool

abbrev pub default_config : Config
default_config = record {
  kernel = none;
  initramfs = none;
  sqimage = none;
  defaults = none;
  fw = none;
  product = 1;
  custom = 2;
  model = 3;
  sub = 4;
  version = 5;
  kind = 0;
  quiet = false;
}

abbrev pub Files : Type 0
Files = List (List ℕ × List ℕ)

-- `if (p == NULL) usage();`
abbrev pub given : Option (List ℕ) → Result (List ℕ)
given none = exit 1
given (some name) = ok name

abbrev pub name_or : Option (List ℕ) → String → List ℕ
name_or none text = codes text
name_or (some name) text = name

-- The options that `getopt` finds for "smfqk:i:d:p:c:a:l:u:v:t:", with their arguments; `unknown`
-- stands for its '?'.
pub data Opt : Type 0 where
  -- s m f q ?
  split_mode merge_mode info_mode quiet_mode unknown : Opt
  -- k i a d
  kernel_file initramfs_file sqimage_file defaults_file : List ℕ → Opt
  -- p c l u v t
  product_arg custom_arg model_arg sub_arg version_arg type_arg : List ℕ → Opt

pub data Oper : Type 0 where
  none_given split_given merge_given info_given : Oper

-- The `switch (opt)`; `none` is the call of `usage`.
unfoldable pub set_option : Opt → Oper × Config → Option (Oper × Config)
set_option split_mode (op, cfg) = some (split_given, cfg)
set_option merge_mode (op, cfg) = some (merge_given, cfg)
set_option info_mode (op, cfg) = some (info_given, cfg)
set_option quiet_mode (op, cfg) = some (op, record cfg { quiet = true })
set_option (kernel_file arg) (op, cfg) = some (op, record cfg { kernel = some arg })
set_option (initramfs_file arg) (op, cfg) = some (op, record cfg { initramfs = some arg })
set_option (sqimage_file arg) (op, cfg) = some (op, record cfg { sqimage = some arg })
set_option (defaults_file arg) (op, cfg) = some (op, record cfg { defaults = some arg })
set_option (product_arg arg) (op, cfg) = some (op, record cfg { product = u8_of_ℤ (atoi arg) })
set_option (custom_arg arg) (op, cfg) = some (op, record cfg { custom = u8_of_ℤ (atoi arg) })
set_option (model_arg arg) (op, cfg) = some (op, record cfg { model = u8_of_ℤ (atoi arg) })
set_option (sub_arg arg) (op, cfg) = some (op, record cfg { sub = u8_of_ℤ (atoi arg) })
set_option (version_arg arg) (op, cfg) = some (op, record cfg { version = u8_of_ℤ (atoi arg) })
set_option (type_arg arg) (op, cfg) = some (op, record cfg { kind = u8_of_ℤ (atoi arg) })
set_option unknown (op, cfg) = none

unfoldable pub set_options : List Opt → Oper × Config → Option (Oper × Config)
set_options [] st = some st
set_options (o ∷ opts) st = elim (set_option o st) [ none ↦ none | some st' ↦ set_options opts st' ]
