-- ===== src/Firmware/Copy/Uboot.antt =====
-- `is_uboot` on a file that begins with the magic number at the offset.
use alt_f.Prelude.{
  ℕ, ◌+◌, ◌≤◌, ◌≡◌, ◌≢◌, sym, ap, ◌∙◌, Bool-cases, inl, inr, true, false, List, ◌++◌, length,
  length-take, take, drop, arith,
}
use alt_f.Prelude.Text.{bytes_eq, bytes_eq_sound}
use alt_f.Prelude.Slices.{drop-all, take-append}
use alt_f.Firmware.File.{Os, File, at_start, seek_set, read}
use alt_f.Firmware.File.Laws.{IsReliable, seek_lem, read_lem}
use alt_f.Firmware.Copy.{uboot_sig, is_uboot}

-- The buffer is filled by the four bytes of the magic number.
pub is_uboot_lem :
    (os : Os) (fd : File) (off : ℕ)
    → IsReliable os
    → length os.stale_sig ≡ 4
    → off ≤ os.off_max
    → take 4 (drop off fd.bytes) ≡ uboot_sig
    → is_uboot os fd off ≡ (true, record fd { pos = off + 4 })
unfolding is_uboot
is_uboot_lem os fd off r buffer low e =
    let moved : File = record fd { pos = off } in
    rw (seek_lem os fd off low, is_uboot)
      (rw (read_lem os moved 4 r, e, drop-all 4 os.stale_sig (omega arith)))

-- Looking for the magic number changes nothing but the offset.
pub is_uboot-bytes : (os : Os) (fd : File) (off : ℕ) → (is_uboot os fd off).1.bytes ≡ fd.bytes
unfolding is_uboot seek_set read
is_uboot-bytes os fd off = ground arith

differs :
    (four rest : List ℕ)
    → length four ≡ 4
    → four ≢ uboot_sig
    → bytes_eq (four ++ rest) uboot_sig ≡ false
differs four rest len other = elim (Bool-cases (bytes_eq (four ++ rest) uboot_sig)) [
  | inl same ↦ absurd (
      other (
        sym (take-append 4 four rest len)
        ∙ ap (λ t. take 4 t) (bytes_eq_sound (four ++ rest) uboot_sig same)))
  | inr e ↦ e
]

-- Four other bytes are not taken for it.
pub is_uboot-false :
    (os : Os) (bytes : List ℕ)
    → IsReliable os
    → 4 ≤ length bytes
    → take 4 bytes ≢ uboot_sig
    → (is_uboot os (at_start bytes) 0).0 ≡ false
unfolding is_uboot
is_uboot-false os bytes r long other =
    rw (seek_lem os (at_start bytes) 0 (omega arith), is_uboot)
      (rw (read_lem os (at_start bytes) 4 r) (
        differs (take 4 bytes) (drop (length (take 4 bytes)) os.stale_sig)
          (omega (arith, length-take 4 bytes)) other))
