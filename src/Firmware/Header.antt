-- ===== src/Firmware/Header.antt =====
-- The firmware headers of dns323-fw.c: the two packed layouts, the common MY_CONTROL_HEADER, and
-- the table of signatures (package/alt-f-utils/alt-f-utils-0.1.11/dns323-fw.c).
use alt_f.Prelude.{
  ℕ, zero, suc, Option, none, some, List, [], ◌∷◌, ◌++◌, length, if◌then◌else◌, String,
}
use alt_f.Prelude.Text.{codes, bytes_eq}

abbrev pub sig_len : ℕ
sig_len = 12

abbrev pub reserved64 : ℕ
reserved64 = 7

abbrev pub reserved128 : ℕ
reserved128 = 59

-- CONTROL_HEADER_64. Numbers are `uint32_t`, the five ids and the arrays are bytes.
pub record ControlHeader64 : Type 0 where
  pub kernel_off : ℕ
  pub kernel_len : ℕ
  pub initramfs_off : ℕ
  pub initramfs_len : ℕ
  pub defaults_off : ℕ
  pub defaults_len : ℕ
  pub kernel_checksum : ℕ
  pub initramfs_checksum : ℕ
  pub defaults_checksum : ℕ
  pub magic_num : List ℕ
  pub product_id : ℕ
  pub custom_id : ℕ
  pub model_id : ℕ
  pub sub_id : ℕ
  pub new_version : ℕ
  pub reserved : List ℕ
  pub next_offset : ℕ

-- CONTROL_HEADER_128.
pub record ControlHeader128 : Type 0 where
  pub kernel_off : ℕ
  pub kernel_len : ℕ
  pub initramfs_off : ℕ
  pub initramfs_len : ℕ
  pub sqimage_off : ℕ
  pub sqimage_len : ℕ
  pub defaults_off : ℕ
  pub defaults_len : ℕ
  pub kernel_checksum : ℕ
  pub initramfs_checksum : ℕ
  pub sqimage_checksum : ℕ
  pub defaults_checksum : ℕ
  pub magic_num : List ℕ
  pub product_id : ℕ
  pub custom_id : ℕ
  pub model_id : ℕ
  pub sub_id : ℕ
  pub new_version : ℕ
  pub reserved : List ℕ
  pub next_offset : ℕ

-- MY_CONTROL_HEADER. `kind` is its field `type`: 64 or 128, the size of the header.
pub record MyControlHeader : Type 0 where
  pub kernel_off : ℕ
  pub kernel_len : ℕ
  pub kernel_checksum : ℕ
  pub initramfs_off : ℕ
  pub initramfs_len : ℕ
  pub initramfs_checksum : ℕ
  pub sqimage_off : ℕ
  pub sqimage_len : ℕ
  pub sqimage_checksum : ℕ
  pub defaults_off : ℕ
  pub defaults_len : ℕ
  pub defaults_checksum : ℕ
  pub next_offset : ℕ
  pub product_id : ℕ
  pub custom_id : ℕ
  pub model_id : ℕ
  pub sub_id : ℕ
  pub new_version : ℕ
  pub kind : ℕ
  pub sig_num : ℕ

-- sig_t.
pub record Sig : Type 0 where
  pub idx : ℕ
  pub size : ℕ
  pub kernel_max : ℕ
  pub initramfs_max : ℕ
  pub sqimage_max : ℕ
  pub defaults_max : ℕ
  pub signature : List ℕ

abbrev sig_of : ℕ → ℕ → ℕ → ℕ → ℕ → ℕ → List ℕ → Sig
sig_of i s k r q d g = record {
  idx = i;
  size = s;
  kernel_max = k;
  initramfs_max = r;
  sqimage_max = q;
  defaults_max = d;
  signature = g;
}

-- "\x55\xAA" name "\x00\x55\xAA", for a name of seven letters.
abbrev framed : String → List ℕ
framed name = 0x55 ∷ 0xAA ∷ (codes name ++ (0x00 ∷ 0x55 ∷ 0xAA ∷ []))

abbrev pub signatures : List Sig
signatures =
    sig_of 0 64 1572864 6488064 0 65536 (framed "FrodoII")
    ∷ sig_of 1 64 1572864 10485760 0 131072 (framed "Chopper")
    ∷ sig_of 2 64 1572864 14417920 0 131072 (framed "Gandolf")
    ∷ sig_of 3 128 5242880 5242880 106954752 5242880 (framed "DNS-325")
    ∷ sig_of 4 128 5242880 5242880 106954752 5242880
        (0x55 ∷ 0xAA ∷ (codes "DNS323D1" ++ (0x55 ∷ 0xAA ∷ [])))
    ∷ sig_of 5 128 5242880 5242880 104857600 5242880 (framed "DNS320B")
    ∷ sig_of 6 128 5242880 5242880 104857600 5242880 (framed "DNS320L")
    ∷ sig_of 7 128 5242880 5242880 81788928 10485760 (framed "DNS327L")
    ∷ sig_of 8 128 5242880 5242880 73400320 5242880 (framed "DNR-322")
    ∷ []

abbrev pub nsig : ℕ
nsig = length signatures

-- `signatures[i]`. Every use is behind a check of `i`; the last row stands in beyond the end.
abbrev sig_from : List Sig → ℕ → Sig → Sig
sig_from [] i last = last
sig_from (s ∷ ss) zero last = s
sig_from (s ∷ ss) (suc i) last = sig_from ss i s

unfoldable pub signature_at : ℕ → Sig
signature_at i = sig_from signatures i (sig_of 0 64 1572864 6488064 0 65536 (framed "FrodoII"))

cmp_sig_from : List Sig → List ℕ → Option ℕ
cmp_sig_from [] t = none
cmp_sig_from (s ∷ ss) t =
    let rest = cmp_sig_from ss t in if bytes_eq s.signature t then some s.idx else rest

-- `cmp_sig`: the index of the row with these twelve bytes; `none` is -1.
unfoldable pub cmp_sig : List ℕ → Option ℕ
unfolding cmp_sig_from
cmp_sig t = cmp_sig_from signatures t
