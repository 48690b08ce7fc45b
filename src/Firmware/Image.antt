-- ===== src/Firmware/Image.antt =====
-- What a firmware image is, independently of the code: a header, then the components one after
-- another. `merge` is compared with it in `Image.Build`, `split` in `Image.Restore`.
pub mod Build
pub mod Found
pub mod Restore
pub mod RoundTrip
pub mod Refusals
use alt_f.Prelude.{
  ℕ, ◌+◌, ◌≤◌, ◌<◌, ◌≡◌, ◌⊎◌, Bool, true, false, Option, none, some, List, [], ◌∷◌, ◌++◌, length,
  take, ◌==◌, if◌then◌else◌,
}
use alt_f.Firmware.File.{Os}
use alt_f.Firmware.Copy.{uboot_sig}
use alt_f.Firmware.Header.{MyControlHeader, Sig, nsig, signature_at}
use alt_f.Firmware.Layout.{encode64, encode128, set_header64, set_header128}
use alt_f.Firmware.Options.{Config}
use alt_f.Firmware.Save.{Component}
use alt_f.Firmware.Save.Laws.{IsRoomy, placed}

-- The bytes of the components; a component that is left out has none.
pub record Parts : Type 0 where
  pub kernel : List ℕ
  pub initramfs : List ℕ
  pub sqimage : List ℕ
  pub defaults : List ℕ

-- The size of the header of the product that `cfg` names.
abbrev pub header_size : Config → ℕ
header_size cfg = (signature_at cfg.kind).size

-- A header of 64 bytes says nothing of a sqimage.
abbrev pub sqimage_placed : ℕ → ℕ → List ℕ → Component
sqimage_placed size at bytes =
    if size == 128 then placed at bytes else record { offset = 0; len = 0; checksum = 0 }

abbrev pub header_with : Config → Component → Component → Component → Component → MyControlHeader
header_with cfg k i q d = record {
  kernel_off = k.offset;
  kernel_len = k.len;
  kernel_checksum = k.checksum;
  initramfs_off = i.offset;
  initramfs_len = i.len;
  initramfs_checksum = i.checksum;
  sqimage_off = q.offset;
  sqimage_len = q.len;
  sqimage_checksum = q.checksum;
  defaults_off = d.offset;
  defaults_len = d.len;
  defaults_checksum = d.checksum;
  next_offset = 0;
  product_id = cfg.product;
  custom_id = cfg.custom;
  model_id = cfg.model;
  sub_id = cfg.sub;
  new_version = cfg.version;
  kind = header_size cfg;
  sig_num = cfg.kind;
}

-- The header that describes the parts, laid out without gaps behind it.
abbrev pub header_of : Config → Parts → MyControlHeader
header_of cfg p =
    let n = header_size cfg in
    header_with cfg (placed n p.kernel) (placed (n + length p.kernel) p.initramfs)
      (sqimage_placed n (n + length p.kernel + length p.initramfs) p.sqimage)
      (placed (n + length p.kernel + length p.initramfs + length p.sqimage) p.defaults)

abbrev pub header_bytes : MyControlHeader → List ℕ
header_bytes h = if h.kind == 128 then encode128 (set_header128 h) else encode64 (set_header64 h)

abbrev pub body : Parts → List ℕ
body p = p.kernel ++ (p.initramfs ++ (p.sqimage ++ p.defaults))

abbrev pub image : Config → Parts → List ℕ
image cfg p = header_bytes (header_of cfg p) ++ body p

abbrev pub image_size : Config → Parts → ℕ
image_size cfg p =
    header_size cfg + length p.kernel + length p.initramfs + length p.sqimage + length p.defaults

-- A component that may be left out.
abbrev pub Holds : Os → Option (List ℕ) → List ℕ → Type 0
Holds os none bytes = bytes ≡ []
Holds os (some name) bytes = os.lookup name ≡ some bytes

-- The options name the files of the parts, which have the sizes and the format that the product
-- wants, and nothing fails for a file as large as the image.
pub record IsMergeable (os : Os) (cfg : Config) (fw : List ℕ) (p : Parts) : Type 0 where
  pub kernel_name : List ℕ
  pub initramfs_name : List ℕ
  pub kernel_given : cfg.kernel ≡ some kernel_name
  pub initramfs_given : cfg.initramfs ≡ some initramfs_name
  pub fw_given : cfg.fw ≡ some fw
  pub kernel_held : os.lookup kernel_name ≡ some p.kernel
  pub initramfs_held : os.lookup initramfs_name ≡ some p.initramfs
  pub sqimage_held : header_size cfg ≡ 128 → Holds os cfg.sqimage p.sqimage
  pub no_sqimage : header_size cfg ≡ 64 → p.sqimage ≡ []
  pub defaults_held : Holds os cfg.defaults p.defaults
  pub kind_known : cfg.kind < nsig
  pub creates : os.can_create fw ≡ true
  pub stale : length (os.stale_header (header_size cfg)) ≡ header_size cfg
  pub kernel_magic : take 4 p.kernel ≡ uboot_sig
  pub initramfs_magic : take 4 p.initramfs ≡ uboot_sig
  pub kernel_small : length p.kernel ≤ (signature_at cfg.kind).kernel_max
  pub initramfs_small : length p.initramfs ≤ (signature_at cfg.kind).initramfs_max
  pub sqimage_small : length p.sqimage ≤ (signature_at cfg.kind).sqimage_max
  pub defaults_small : length p.defaults ≤ (signature_at cfg.kind).defaults_max
  pub roomy : IsRoomy os (image_size cfg p)
