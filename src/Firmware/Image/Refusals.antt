-- ===== src/Firmware/Image/Refusals.antt =====
-- Firmware files that `split` and `info` of dns323-fw.c refuse.
use alt_f.Prelude.{ℕ, ◌<◌, ◌≡◌, ◌≢◌, Bool, none, some, List, length, length-take, take, arith}
use alt_f.Prelude.Result.{Result, exit, ◌>>=◌}
use alt_f.Firmware.File.{Os, File, at_start}
use alt_f.Firmware.File.Laws.{IsReliable, read_lem}
use alt_f.Firmware.Header.{MyControlHeader, cmp_sig}
use alt_f.Firmware.Layout.{decode64, decode128, check_sig}
use alt_f.Firmware.Options.{Config}
use alt_f.Firmware.Split.{whole_header, open_read, info, split}

-- A file that is not a firmware: it cannot be opened, has less than 128 bytes, or has a known
-- signature at neither place.
pub data NoFirmware (os : Os) (fw : List ℕ) : Type 0 where
  missing : os.lookup fw ≡ none → NoFirmware os fw
  short : (bytes : List ℕ) → os.lookup fw ≡ some bytes → length bytes < 128 → NoFirmware os fw
  unknown_sig :
      (bytes : List ℕ)
      → os.lookup fw ≡ some bytes
      → cmp_sig (decode64 (take 128 bytes)).magic_num ≡ none
      → cmp_sig (decode128 (take 128 bytes)).magic_num ≡ none
      → NoFirmware os fw

whole_header_short :
    (os : Os) (hd : List ℕ) (fd : File) → length hd ≢ 128 → whole_header os (some (hd, fd)) ≡ exit 1
unfolding whole_header
whole_header_short os hd fd h = ground arith

whole_header_cases :
    (os : Os) (hd : List ℕ) (fd : File) (k : List ℕ × File → Result (File × MyControlHeader))
    → k (hd, fd) ≡ exit 1
    → (whole_header os (some (hd, fd)) >>= k) ≡ exit 1
unfolding whole_header
whole_header_cases os hd fd k e = ground arith

check_sig-none :
    (hd : List ℕ) (myhd : MyControlHeader)
    → cmp_sig (decode64 hd).magic_num ≡ none
    → cmp_sig (decode128 hd).magic_num ≡ none
    → check_sig hd myhd ≡ none
unfolding check_sig
check_sig-none hd myhd a b = rw (a, b, check_sig)

module _ (os : Os) (fw : List ℕ) (quiet : Bool) (myhd : MyControlHeader) (r : IsReliable os) where
  open_read-exit : NoFirmware os fw → open_read os fw quiet myhd ≡ exit 1
  unfolding open_read
  open_read-exit (missing e) = rw e
  open_read-exit (short bytes e h) =
      rw (e, read_lem os (at_start bytes) 128 r)
        (rw (whole_header_short os (take 128 bytes) _ (omega (arith, length-take 128 bytes))))
  open_read-exit (unknown_sig bytes e a b) =
      rw (e, read_lem os (at_start bytes) 128 r)
        (whole_header_cases os (take 128 bytes) _ _ (rw (check_sig-none (take 128 bytes) myhd a b)))

-- When the file is not a firmware, both commands that read one, `split` and `info`, leave with
-- status 1, provided that `malloc` and `read` do not fail.
pub split-NoFirmware :
    (os : Os) (cfg : Config) (fw : List ℕ) (myhd : MyControlHeader)
    → IsReliable os
    → cfg.fw ≡ some fw
    → NoFirmware os fw
    → (split os cfg myhd ≡ exit 1) × (info os cfg myhd ≡ exit 1)
unfolding split info
split-NoFirmware os cfg fw myhd r given h =
    let e = open_read-exit os fw cfg.quiet myhd r h in (rw (given, e), rw (given, e))
