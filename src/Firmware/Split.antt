-- ===== src/Firmware/Split.antt =====
-- `print_info`, `open_read`, `info` and `split` of
-- package/alt-f-utils/alt-f-utils-0.1.11/dns323-fw.c. The files that a run creates
-- are its result, in the order of their creation; their names are taken to be of different files.
use alt_f.Prelude.{
  ℕ, Bool, true, false, not, Option, none, some, List, [], ◌∷◌, ◌++◌, length, ◌==◌, if◌then◌else◌,
}
use alt_f.Prelude.Result.{Result, ok, exit, ◌>>=◌, ◌>>◌, exit_if}
use alt_f.Firmware.File.{Os, File, at_start, seek_set, seek_end, read}
use alt_f.Firmware.Copy.{is_uboot}
use alt_f.Firmware.Header.{MyControlHeader}
use alt_f.Firmware.Layout.{check_sig}
use alt_f.Firmware.Options.{Config, Files, given, name_or}
use alt_f.Firmware.Save.{savefile, unchecked, size_ok}

-- The descriptor behind a `read` whose result nobody looks at.
abbrev skip : Option (List ℕ × File) → File → File
skip none fd = fd
skip (some (_, fd')) fd = fd'

module _ (os : Os) where
  -- `print_info` only prints, but moves the descriptor: to the end for the file's size, and
  -- over the extended header of 96 bytes if there is one.
  unfoldable pub print_info : File → MyControlHeader → Bool → File
  print_info fd hd true = fd
  print_info fd hd false =
      let fd₁ = seek_end fd in
      let fd₂ = unchecked os fd₁ (seek_set os fd₁ hd.next_offset) in
      if hd.next_offset == 0 then fd₁ else skip (read os fd₂ 96) fd₂

  -- `check_sig` returns -1 into a `uchar`, which is then compared with 255.
  abbrev known_sig : Option (ℕ × MyControlHeader) → Result (ℕ × MyControlHeader)
  known_sig none = exit 1
  known_sig (some r) = ok r

  -- `read(...) != 128` bytes leaves the program.
  unfoldable pub whole_header : Option (List ℕ × File) → Result (List ℕ × File)
  whole_header none = exit 1
  whole_header (some (hd, fd)) = elim (length hd == 128) [ true ↦ ok (hd, fd) | false ↦ exit 1 ]

  abbrev opened : Option (List ℕ) → Result File
  opened none = exit 1
  opened (some bytes) = ok (at_start bytes)

  -- The descriptor and the header read through it, over what the struct held before.
  unfoldable pub open_read : List ℕ → Bool → MyControlHeader → Result (File × MyControlHeader)
  open_read fw quiet myhd = do
    fd ← opened (os.lookup fw)
    (hd, fd₁) ← whole_header (read os fd 128)
    (t, found) ← known_sig (check_sig hd myhd)
    ok (print_info fd₁ found quiet, found)

  unfoldable pub info : Config → MyControlHeader → Result Files
  info cfg myhd = do fw ← given cfg.fw; (fd, found) ← open_read fw cfg.quiet myhd; ok []

  -- The component that only a header of 128 bytes has.
  unfoldable pub split_sqimage : List ℕ → File → MyControlHeader → Result (Files × File)
  split_sqimage name fd hd = elim (hd.kind == 128) [
    | true ↦ do
      (bytes, fd', chk) ← savefile os name fd hd.sqimage_off hd.sqimage_len hd.sqimage_checksum
      ok ((name, bytes) ∷ [], fd')
    | false ↦ ok ([], fd)
  ]

  -- `is_uboot(kernel) == 0 || is_uboot(initramfs) == 0`.
  unfoldable pub both_uboot : File → MyControlHeader → Result File
  both_uboot fd hd = do
    let (k, fd₁) = is_uboot os fd hd.kernel_off
    exit_if (not k)
    let (i, fd₂) = is_uboot os fd₁ hd.initramfs_off
    exit_if (not i)
    ok fd₂

  -- The body of `split` once the firmware is open.
  unfoldable pub split_files : Config → File → MyControlHeader → Result Files
  split_files cfg fd hd = do
    let kernel = name_or cfg.kernel "kernel"
    let initramfs = name_or cfg.initramfs "initramfs"
    let sqimage = name_or cfg.sqimage "sqimage"
    let defaults = name_or cfg.defaults "defaults"
    let (fits, fd₁) = size_ok fd hd
    exit_if (not fits)
    fd₂ ← both_uboot fd₁ hd
    (k, fd₃, _) ← savefile os kernel fd₂ hd.kernel_off hd.kernel_len hd.kernel_checksum
    (i, fd₄, _) ← savefile os initramfs fd₃ hd.initramfs_off hd.initramfs_len hd.initramfs_checksum
    (q, fd₅) ← split_sqimage sqimage fd₄ hd
    (d, fd₆, _) ← savefile os defaults fd₅ hd.defaults_off hd.defaults_len hd.defaults_checksum
    ok ((kernel, k) ∷ (initramfs, i) ∷ (q ++ ((defaults, d) ∷ [])))

  unfoldable pub split : Config → MyControlHeader → Result Files
  split cfg myhd = do
    fw ← given cfg.fw
    (fd, hd) ← open_read fw cfg.quiet myhd
    split_files cfg fd hd
