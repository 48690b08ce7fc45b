-- ===== src/Firmware/Save.antt =====
-- `savefile`, `savecomp`, `save_header` and `size_ok` of
-- package/alt-f-utils/alt-f-utils-0.1.11/dns323-fw.c. What only prints is left out.
pub mod Laws
pub mod Refusals
pub mod Verdict
use alt_f.Prelude.{
  ℕ, ◌+◌, Bool, true, false, not, ◌&&◌, Option, none, some, List, [], ◌∷◌, length, ltb, ◌==◌,
}
use alt_f.Prelude.Result.{Result, ok, exit, ◌>>=◌, ◌>>◌, exit_if}
use alt_f.Prelude.Word.{u32}
use alt_f.Firmware.File.{Os, File, at_start, seek_set, seek_end, write, read}
use alt_f.Firmware.Copy.{Copied, failed, diverged, copied, readwrite, is_uboot}
use alt_f.Firmware.Header.{MyControlHeader}
use alt_f.Firmware.Layout.{encode64, encode128, set_header64, set_header128}

-- `if (readwrite(...) != 0) exit(1)`.
abbrev pub require : Copied → Result (File × File × ℕ)
require failed = exit 1
require diverged = exit 1
require (copied fdo fdi chk) = ok (fdo, fdi, chk)

-- The descriptor of a component in the header: *offset, *length, *checksum.
pub record Component : Type 0 where
  pub offset : ℕ
  pub len : ℕ
  pub checksum : ℕ

module _ (os : Os) where
  -- The bytes of the file saved, the firmware's descriptor, and `*checksum`.
  pub savefile : List ℕ → File → ℕ → ℕ → ℕ → Result (List ℕ × File × ℕ)
  savefile filename fdi offset len checksum = do
    exit_if (not (os.can_create filename))
    (fdo, fdi', chk) ← require (readwrite os (at_start []) fdi offset len checksum)
    ok (fdo.bytes, fdi', chk)

  abbrev open_read_only : Option (List ℕ) → Result File
  open_read_only none = exit 1
  open_read_only (some bytes) = ok (at_start bytes)

  -- `uboot == 1 && is_uboot(fdi, 0) == 0`, and the descriptor that it leaves.
  abbrev uboot_missing : Bool → File → Bool × File
  uboot_missing false fdi = (false, fdi)
  uboot_missing true fdi = let (yes_uboot, fdi') = is_uboot os fdi 0 in (not yes_uboot, fdi')

  pub savecomp : List ℕ → File → Bool → ℕ → Result (File × Component)
  savecomp filename fdo uboot size_max = do
    fdi ← open_read_only (os.lookup filename)
    let (missing, fdi₁) = uboot_missing uboot fdi
    exit_if missing
    let fdo₁ = seek_end fdo
    let fdi₂ = seek_end fdi₁
    let offset = u32 fdo₁.pos
    let len = u32 fdi₂.pos
    exit_if (ltb size_max len)
    (fdo₂, fdi₃, chk) ← require (readwrite os fdo₁ fdi₂ 0 len 0)
    ok (fdo₂, record { offset = offset; len = len; checksum = chk })

  -- A call whose -1 nobody looks at.
  abbrev pub unchecked : File → Option File → File
  unchecked f none = f
  unchecked f (some f') = f'

  unfoldable pub save_header : File → MyControlHeader → Result File
  save_header fdo myhd =
      let fdo₁ = unchecked fdo (seek_set os fdo 0) in
      elim (myhd.kind == 64) [
        | true ↦ ok (unchecked fdo₁ (write os fdo₁ (encode64 (set_header64 myhd))))
        | false ↦ elim (myhd.kind == 128) [
          | true ↦ ok (unchecked fdo₁ (write os fdo₁ (encode128 (set_header128 myhd))))
          | false ↦ exit 1
        ]
      ]

-- Everything behind the first `return 1` is dead code.
unfoldable pub size_ok : File → MyControlHeader → Bool × File
size_ok fd hd = (true, seek_end fd)
