-- ===== src/Firmware/Save/Refusals.antt =====
-- When a component is not accepted.
use alt_f.Prelude.{
  ℕ, ◌≤◌, ◌<◌, ◌≡◌, ◌≢◌, refl, Bool, true, false, not, none, some, List, length, take, arith,
  lt→ltb,
}
use alt_f.Prelude.Result.{exit, ◌>>=◌, exit_if}
use alt_f.Prelude.Word.{u32}
use alt_f.Firmware.File.{Os, File, at_start, seek_end}
use alt_f.Firmware.File.Laws.{IsReliable}
use alt_f.Firmware.Copy.{uboot_sig, is_uboot}
use alt_f.Firmware.Copy.Uboot.{is_uboot-bytes, is_uboot-false}
use alt_f.Firmware.Save.{Component, savecomp}

-- A component that `savecomp` must refuse: no such file, one larger than the product allows, or
-- one of 4 bytes or more without the magic number where it is asked for.
pub data Unfit (os : Os) (name : List ℕ) (uboot : Bool) (size_max : ℕ) : Type 0 where
  missing : os.lookup name ≡ none → Unfit os name uboot size_max
  too_large :
      (bytes : List ℕ)
      → os.lookup name ≡ some bytes
      → length bytes < 4294967296
      → size_max < length bytes
      → Unfit os name uboot size_max
  no_magic :
      (bytes : List ℕ)
      → os.lookup name ≡ some bytes
      → uboot ≡ true
      → 4 ≤ length bytes
      → take 4 bytes ≢ uboot_sig
      → Unfit os name uboot size_max

either_exit : (b : Bool) → ◌>>=◌ {B = File × Component} (exit_if (not b)) (λ _. exit 1) ≡ exit 1
either_exit true = refl
either_exit false = refl

-- A component that is missing, too large for the product (and below 4 GiB), or, where the u-boot magic
-- number is asked for, has at least 4 bytes that do not begin with it, makes the program exit with
-- status 1, provided that `malloc` and `read` do not fail.
pub savecomp-Unfit :
    (os : Os) (name : List ℕ) (fdo : File) (uboot : Bool) (size_max : ℕ)
    → IsReliable os
    → Unfit os name uboot size_max
    → savecomp os name fdo uboot size_max ≡ exit 1
unfolding savecomp seek_end
savecomp-Unfit os name fdo uboot size_max r (missing e) = rw e
savecomp-Unfit os name fdo false size_max r (too_large bytes e word large) =
    let same : u32 (length bytes) ≡ length bytes = omega arith in
    rw (e, same, lt→ltb size_max (length bytes) large)
savecomp-Unfit os name fdo true size_max r (too_large bytes e word large) =
    let same : u32 (length bytes) ≡ length bytes = omega arith in
    rw e (
      rw (is_uboot-bytes os (at_start bytes) 0, same, lt→ltb size_max (length bytes) large)
        (either_exit (is_uboot os (at_start bytes) 0).0))
savecomp-Unfit os name fdo false size_max r (no_magic bytes e asked long other) = cc
savecomp-Unfit os name fdo true size_max r (no_magic bytes e asked long other) =
    rw (e, is_uboot-false os bytes r long other)
