-- ===== src/Firmware/Layout.antt =====
-- The headers as the bytes of a firmware file: `set_header64`, `set_header128`, `get_info64`,
-- `get_info128` and `check_sig` of package/alt-f-utils/alt-f-utils-0.1.11/dns323-fw.c. The casts
-- and the raw `write` of a packed struct are `encode` and `decode`.
pub mod Laws
use alt_f.Prelude.{
  ℕ, zero, suc, Bool, true, false, Option, none, some, List, [], ◌∷◌, ◌++◌, take, drop, replicate,
}
use alt_f.Prelude.Word.{le32, of_le32}
use alt_f.Firmware.Header.{
  sig_len, reserved64, reserved128, ControlHeader64, ControlHeader128, MyControlHeader,
  signature_at, cmp_sig,
}

-- A `uint32_t` and a byte at an offset; bytes beyond the end, which no caller asks for, are 0.
abbrev word_of : List ℕ → ℕ
word_of (a ∷ b ∷ c ∷ d ∷ _) = of_le32 a b c d
word_of _ = 0

abbrev byte_of : List ℕ → ℕ
byte_of (a ∷ _) = a
byte_of _ = 0

-- `sizeof(CONTROL_HEADER_64)` bytes.
pub encode64 : ControlHeader64 → List ℕ
encode64 h =
    le32 h.kernel_off
    ++ le32 h.kernel_len
    ++ le32 h.initramfs_off
    ++ le32 h.initramfs_len
    ++ le32 h.defaults_off
    ++ le32 h.defaults_len
    ++ le32 h.kernel_checksum
    ++ le32 h.initramfs_checksum
    ++ le32 h.defaults_checksum
    ++ (h.magic_num
        ++ (h.product_id
            ∷ h.custom_id
            ∷ h.model_id
            ∷ h.sub_id
            ∷ h.new_version
            ∷ (h.reserved ++ le32 h.next_offset)))

pub decode64 : List ℕ → ControlHeader64
decode64 bs = record {
  kernel_off = word_of bs;
  kernel_len = word_of (drop 4 bs);
  initramfs_off = word_of (drop 8 bs);
  initramfs_len = word_of (drop 12 bs);
  defaults_off = word_of (drop 16 bs);
  defaults_len = word_of (drop 20 bs);
  kernel_checksum = word_of (drop 24 bs);
  initramfs_checksum = word_of (drop 28 bs);
  defaults_checksum = word_of (drop 32 bs);
  magic_num = take sig_len (drop 36 bs);
  product_id = byte_of (drop 48 bs);
  custom_id = byte_of (drop 49 bs);
  model_id = byte_of (drop 50 bs);
  sub_id = byte_of (drop 51 bs);
  new_version = byte_of (drop 52 bs);
  reserved = take reserved64 (drop 53 bs);
  next_offset = word_of (drop 60 bs);
}

-- `sizeof(CONTROL_HEADER_128)` bytes.
pub encode128 : ControlHeader128 → List ℕ
encode128 h =
    le32 h.kernel_off
    ++ le32 h.kernel_len
    ++ le32 h.initramfs_off
    ++ le32 h.initramfs_len
    ++ le32 h.sqimage_off
    ++ le32 h.sqimage_len
    ++ le32 h.defaults_off
    ++ le32 h.defaults_len
    ++ le32 h.kernel_checksum
    ++ le32 h.initramfs_checksum
    ++ le32 h.sqimage_checksum
    ++ le32 h.defaults_checksum
    ++ (h.magic_num
        ++ (h.product_id
            ∷ h.custom_id
            ∷ h.model_id
            ∷ h.sub_id
            ∷ h.new_version
            ∷ (h.reserved ++ le32 h.next_offset)))

pub decode128 : List ℕ → ControlHeader128
decode128 bs = record {
  kernel_off = word_of bs;
  kernel_len = word_of (drop 4 bs);
  initramfs_off = word_of (drop 8 bs);
  initramfs_len = word_of (drop 12 bs);
  sqimage_off = word_of (drop 16 bs);
  sqimage_len = word_of (drop 20 bs);
  defaults_off = word_of (drop 24 bs);
  defaults_len = word_of (drop 28 bs);
  kernel_checksum = word_of (drop 32 bs);
  initramfs_checksum = word_of (drop 36 bs);
  sqimage_checksum = word_of (drop 40 bs);
  defaults_checksum = word_of (drop 44 bs);
  magic_num = take sig_len (drop 48 bs);
  product_id = byte_of (drop 60 bs);
  custom_id = byte_of (drop 61 bs);
  model_id = byte_of (drop 62 bs);
  sub_id = byte_of (drop 63 bs);
  new_version = byte_of (drop 64 bs);
  reserved = take reserved128 (drop 65 bs);
  next_offset = word_of (drop 124 bs);
}

pub set_header64 : MyControlHeader → ControlHeader64
set_header64 myhd = record {
  kernel_off = myhd.kernel_off;
  kernel_len = myhd.kernel_len;
  initramfs_off = myhd.initramfs_off;
  initramfs_len = myhd.initramfs_len;
  defaults_off = myhd.defaults_off;
  defaults_len = myhd.defaults_len;
  kernel_checksum = myhd.kernel_checksum;
  initramfs_checksum = myhd.initramfs_checksum;
  defaults_checksum = myhd.defaults_checksum;
  magic_num = (signature_at myhd.sig_num).signature;
  product_id = myhd.product_id;
  custom_id = myhd.custom_id;
  model_id = myhd.model_id;
  sub_id = myhd.sub_id;
  new_version = myhd.new_version;
  reserved = replicate reserved64 0;
  next_offset = myhd.next_offset;
}

pub set_header128 : MyControlHeader → ControlHeader128
set_header128 myhd = record {
  kernel_off = myhd.kernel_off;
  kernel_len = myhd.kernel_len;
  initramfs_off = myhd.initramfs_off;
  initramfs_len = myhd.initramfs_len;
  sqimage_off = myhd.sqimage_off;
  sqimage_len = myhd.sqimage_len;
  defaults_off = myhd.defaults_off;
  defaults_len = myhd.defaults_len;
  kernel_checksum = myhd.kernel_checksum;
  initramfs_checksum = myhd.initramfs_checksum;
  sqimage_checksum = myhd.sqimage_checksum;
  defaults_checksum = myhd.defaults_checksum;
  magic_num = (signature_at myhd.sig_num).signature;
  product_id = myhd.product_id;
  custom_id = myhd.custom_id;
  model_id = myhd.model_id;
  sub_id = myhd.sub_id;
  new_version = myhd.new_version;
  reserved = replicate reserved128 0;
  next_offset = myhd.next_offset;
}

-- The struct is passed in as it stands: a 64-byte header leaves the three sqimage fields alone.
pub get_info64 : ControlHeader64 → MyControlHeader → MyControlHeader
get_info64 hd myhd = record myhd {
  product_id = hd.product_id;
  custom_id = hd.custom_id;
  model_id = hd.model_id;
  sub_id = hd.sub_id;
  new_version = hd.new_version;
  kind = 64;
  kernel_off = hd.kernel_off;
  kernel_len = hd.kernel_len;
  kernel_checksum = hd.kernel_checksum;
  initramfs_off = hd.initramfs_off;
  initramfs_len = hd.initramfs_len;
  initramfs_checksum = hd.initramfs_checksum;
  defaults_off = hd.defaults_off;
  defaults_len = hd.defaults_len;
  defaults_checksum = hd.defaults_checksum;
  next_offset = hd.next_offset;
}

pub get_info128 : ControlHeader128 → MyControlHeader → MyControlHeader
get_info128 hd myhd = record myhd {
  product_id = hd.product_id;
  custom_id = hd.custom_id;
  model_id = hd.model_id;
  sub_id = hd.sub_id;
  new_version = hd.new_version;
  kind = 128;
  kernel_off = hd.kernel_off;
  kernel_len = hd.kernel_len;
  kernel_checksum = hd.kernel_checksum;
  initramfs_off = hd.initramfs_off;
  initramfs_len = hd.initramfs_len;
  initramfs_checksum = hd.initramfs_checksum;
  sqimage_off = hd.sqimage_off;
  sqimage_len = hd.sqimage_len;
  sqimage_checksum = hd.sqimage_checksum;
  defaults_off = hd.defaults_off;
  defaults_len = hd.defaults_len;
  defaults_checksum = hd.defaults_checksum;
  next_offset = hd.next_offset;
}

-- `check_sig`: the row of the signature and the header, read as 64 bytes if a signature stands
-- at the place of a 64-byte header, else as 128; `none` is -1.
unfoldable pub check_sig : List ℕ → MyControlHeader → Option (ℕ × MyControlHeader)
check_sig hd myhd = elim (cmp_sig (decode64 hd).magic_num) [
  | some t ↦ some (t, record (get_info64 (decode64 hd) myhd) { sig_num = t })
  | none ↦ elim (cmp_sig (decode128 hd).magic_num) [
    | some t ↦ some (t, record (get_info128 (decode128 hd) myhd) { sig_num = t })
    | none ↦ none
  ]
]
