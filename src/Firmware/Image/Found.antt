-- ===== src/Firmware/Image/Found.antt =====
-- The header that is found in an image.
use alt_f.Prelude.{
  ℕ, ◌+◌, ◌≤◌, ◌<◌, ◌≡◌, refl, sym, ap, subst, ◌∙◌, inl, inr, none, some, [], ◌++◌, length, take,
  arith, ◌==◌, if◌then◌else◌,
}
use alt_f.Prelude.Slices.{take_past}
use alt_f.Prelude.Word.{le32}
use alt_f.Firmware.Copy.{uboot_sig}
use alt_f.Firmware.Copy.Sums.{AllBytes, sum_of-lt}
use alt_f.Firmware.Copy.Total.{sum_of}
use alt_f.Firmware.Header.{MyControlHeader, nsig, cmp_sig}
use alt_f.Firmware.Layout.{check_sig}
use alt_f.Firmware.Layout.Laws.{IsWordy, check_sig-encode64, check_sig-encode128}
use alt_f.Firmware.Options.{Config}
use alt_f.Firmware.Save.{Component}
use alt_f.Firmware.Save.Laws.{placed}
use alt_f.Firmware.Image.{
  Parts, header_size, sqimage_placed, header_of, header_bytes, body, image, image_size,
}
use alt_f.Firmware.Image.Build.{size_cases, header_bytes-64, header_bytes-128, length-header_bytes}

-- The bytes of the parts are bytes, and the parts have the format that the product wants.
pub record IsImage (cfg : Config) (p : Parts) : Type 0 where
  pub kernel_bytes : AllBytes p.kernel
  pub initramfs_bytes : AllBytes p.initramfs
  pub sqimage_bytes : AllBytes p.sqimage
  pub defaults_bytes : AllBytes p.defaults
  pub kind_known : cfg.kind < nsig
  pub kernel_magic : take 4 p.kernel ≡ uboot_sig
  pub initramfs_magic : take 4 p.initramfs ≡ uboot_sig
  pub no_sqimage : header_size cfg ≡ 64 → p.sqimage ≡ []
  pub word : image_size cfg p < 4294967296
  -- `open_read` wants 128 bytes
  pub long : 128 ≤ image_size cfg p
  -- the checksums do not spell a signature where a 64-byte header has it
  pub clear :
      header_size cfg ≡ 128
      → cmp_sig (le32 (sum_of p.initramfs) ++ le32 (sum_of p.sqimage) ++ le32 (sum_of p.defaults))
        ≡ none

-- The header that `open_read` finds: of the sqimage a 64-byte header says nothing.
abbrev pub header_found : Config → Parts → MyControlHeader → MyControlHeader
header_found cfg p myhd =
    if header_size cfg == 128 then header_of cfg p else record (header_of cfg p) {
      sqimage_off = myhd.sqimage_off;
      sqimage_len = myhd.sqimage_len;
      sqimage_checksum = myhd.sqimage_checksum;
    }

pub if_128 {ℓ} : {A : Type ℓ} (size : ℕ) (x y : A) → size ≡ 128 → (if size == 128 then x else y) ≡ x
if_128 size x y e = ground arith

pub if_64 {ℓ} : {A : Type ℓ} (size : ℕ) (x y : A) → size ≡ 64 → (if size == 128 then x else y) ≡ y
if_64 size x y e = ground arith

module _ (cfg : Config) (p : Parts) (m : IsImage cfg p) where
  header_of-IsWordy : IsWordy (header_of cfg p)
  header_of-IsWordy = record {
    kernel_off = omega (arith, m.word);
    kernel_len = omega (arith, m.word);
    kernel_checksum = sum_of-lt p.kernel m.kernel_bytes;
    initramfs_off = omega (arith, m.word);
    initramfs_len = omega (arith, m.word);
    initramfs_checksum = sum_of-lt p.initramfs m.initramfs_bytes;
    sqimage_off = ground (arith, m.word);
    sqimage_len = ground (arith, m.word);
    sqimage_checksum = ground (arith, sum_of-lt p.sqimage m.sqimage_bytes);
    defaults_off = omega (arith, m.word);
    defaults_len = omega (arith, m.word);
    defaults_checksum = sum_of-lt p.defaults m.defaults_bytes;
    next_offset = omega arith;
    sig_num = m.kind_known;
  }

  -- The first 128 bytes: the header, and what of the body follows a short one.
  head-image :
      (j : ℕ)
      → header_size cfg + j ≡ 128
      → take 128 (image cfg p) ≡ header_bytes (header_of cfg p) ++ take j (body p)
  head-image j e =
      ap (λ n. take n (image cfg p)) {x = 128} {y = header_size cfg + j} (omega arith)
      ∙ take_past (header_size cfg) j (header_bytes (header_of cfg p)) (body p)
          (length-header_bytes (header_of cfg p) m.kind_known (size_cases cfg.kind m.kind_known))

  check_sig-64 :
      (myhd : MyControlHeader)
      → header_size cfg ≡ 64
      → check_sig (take 128 (image cfg p)) myhd ≡ some (cfg.kind, header_found cfg p myhd)
  check_sig-64 myhd e =
      let h = header_of cfg p in
      ap (λ t. check_sig t myhd) (head-image 64 (omega arith))
      ∙ ap (λ t. check_sig (t ++ take 64 (body p)) myhd) (header_bytes-64 h e)
      ∙ check_sig-encode64 h (take 64 (body p)) myhd header_of-IsWordy
      ∙ (λ i. some (
        cfg.kind,
        record h {
          sqimage_off = myhd.sqimage_off;
          sqimage_len = myhd.sqimage_len;
          sqimage_checksum = myhd.sqimage_checksum;
          kind = sym e i;
        },
      ))
      ∙ ap (λ t. some (cfg.kind, t)) (sym (if_64 (header_size cfg) h _ e))

  check_sig-128 :
      (myhd : MyControlHeader)
      → header_size cfg ≡ 128
      → check_sig (take 128 (image cfg p)) myhd ≡ some (cfg.kind, header_found cfg p myhd)
  check_sig-128 myhd e =
      let h = header_of cfg p in
      let sum_eq : h.sqimage_checksum ≡ sum_of p.sqimage =
        ap (λ (c : Component). c.checksum) (if_128 (header_size cfg) _ _ e) in
      ap (λ t. check_sig t myhd) (head-image 0 (omega arith))
      ∙ ap (λ t. check_sig (t ++ []) myhd) (header_bytes-128 h e)
      ∙ check_sig-encode128 h [] myhd header_of-IsWordy (
          ap (λ c. cmp_sig (le32 (sum_of p.initramfs) ++ le32 c ++ le32 (sum_of p.defaults))) sum_eq
          ∙ m.clear e)
      ∙ (λ i. some (cfg.kind, record h { kind = sym e i }))
      ∙ ap (λ t. some (cfg.kind, t)) (sym (if_128 (header_size cfg) h _ e))

  pub check_sig-image :
      (myhd : MyControlHeader)
      → check_sig (take 128 (image cfg p)) myhd ≡ some (cfg.kind, header_found cfg p myhd)
  check_sig-image myhd = elim (size_cases cfg.kind m.kind_known) [
    | inl e ↦ check_sig-64 myhd e
    | inr e ↦ check_sig-128 myhd e
  ]

-- What the fields of a header say of the parts.
pub record Describes (cfg : Config) (p : Parts) (hd : MyControlHeader) : Type 0 where
  pub kernel_off : hd.kernel_off ≡ header_size cfg
  pub kernel_len : hd.kernel_len ≡ length p.kernel
  pub kernel_checksum : hd.kernel_checksum ≡ sum_of p.kernel
  pub initramfs_off : hd.initramfs_off ≡ header_size cfg + length p.kernel
  pub initramfs_len : hd.initramfs_len ≡ length p.initramfs
  pub initramfs_checksum : hd.initramfs_checksum ≡ sum_of p.initramfs
  pub sqimage_off :
      hd.kind ≡ 128 → hd.sqimage_off ≡ header_size cfg + length p.kernel + length p.initramfs
  pub sqimage_len : hd.kind ≡ 128 → hd.sqimage_len ≡ length p.sqimage
  pub sqimage_checksum : hd.kind ≡ 128 → hd.sqimage_checksum ≡ sum_of p.sqimage
  pub defaults_off :
      hd.defaults_off ≡ header_size cfg + length p.kernel + length p.initramfs + length p.sqimage
  pub defaults_len : hd.defaults_len ≡ length p.defaults
  pub defaults_checksum : hd.defaults_checksum ≡ sum_of p.defaults
  pub next_offset : hd.next_offset ≡ 0
  pub kind : hd.kind ≡ header_size cfg

header_found-Describes-64 :
    (cfg : Config) (p : Parts) (myhd : MyControlHeader)
    → header_size cfg ≡ 64
    → Describes cfg p (header_found cfg p myhd)
header_found-Describes-64 cfg p myhd e =
    let not_128 : header_size cfg ≡ 128 → ⊥ = omega arith in
    subst (λ h. Describes cfg p h) (sym (if_64 (header_size cfg) (header_of cfg p) _ e))
      (record {
        kernel_off = refl;
        kernel_len = refl;
        kernel_checksum = refl;
        initramfs_off = refl;
        initramfs_len = refl;
        initramfs_checksum = refl;
        sqimage_off = λ k. absurd (not_128 k);
        sqimage_len = λ k. absurd (not_128 k);
        sqimage_checksum = λ k. absurd (not_128 k);
        defaults_off = refl;
        defaults_len = refl;
        defaults_checksum = refl;
        next_offset = refl;
        kind = refl;
      })

header_found-Describes-128 :
    (cfg : Config) (p : Parts) (myhd : MyControlHeader)
    → header_size cfg ≡ 128
    → Describes cfg p (header_found cfg p myhd)
header_found-Describes-128 cfg p myhd e =
    let q : sqimage_placed (header_size cfg)
          (header_size cfg + length p.kernel + length p.initramfs) p.sqimage
        ≡ placed (header_size cfg + length p.kernel + length p.initramfs) p.sqimage =
      if_128 (header_size cfg) _ _ e in
    subst (λ h. Describes cfg p h) (sym (if_128 (header_size cfg) (header_of cfg p) _ e))
      (record {
        kernel_off = refl;
        kernel_len = refl;
        kernel_checksum = refl;
        initramfs_off = refl;
        initramfs_len = refl;
        initramfs_checksum = refl;
        sqimage_off = λ k. ap (λ (c : Component). c.offset) q;
        sqimage_len = λ k. ap (λ (c : Component). c.len) q;
        sqimage_checksum = λ k. ap (λ (c : Component). c.checksum) q;
        defaults_off = refl;
        defaults_len = refl;
        defaults_checksum = refl;
        next_offset = refl;
        kind = refl;
      })

pub header_found-Describes :
    (cfg : Config) (p : Parts) (myhd : MyControlHeader)
    → cfg.kind < nsig
    → Describes cfg p (header_found cfg p myhd)
header_found-Describes cfg p myhd known = elim (size_cases cfg.kind known) [
  | inl e ↦ header_found-Describes-64 cfg p myhd e
  | inr e ↦ header_found-Describes-128 cfg p myhd e
]
