-- ===== src/Firmware/Image/Restore.antt =====
-- `split` takes an image apart again.
use alt_f.Prelude.{
  ℕ, ◌+◌, ◌≤◌, ◌≡◌, refl, sym, ap, ◌∙◌, inl, inr, true, List, [], ◌∷◌, ◌++◌, append-nil,
  append_assoc, length, length-append, take, drop, arith, ◌==◌, if◌then◌else◌,
}
use alt_f.Prelude.Result.{ok}
use alt_f.Prelude.Slices.{drop-append, take-drop_middle}
use alt_f.Firmware.Copy.{uboot_sig, is_uboot}
use alt_f.Firmware.Copy.Total.{sum_of}
use alt_f.Firmware.Copy.Uboot.{is_uboot_lem}
use alt_f.Firmware.File.{Os, File, seek_end}
use alt_f.Firmware.Header.{MyControlHeader}
use alt_f.Firmware.Options.{Config, Files, name_or}
use alt_f.Firmware.Save.{savefile, size_ok}
use alt_f.Firmware.Save.Laws.{IsRoomy, savefile_lem}
use alt_f.Firmware.Split.{split_sqimage, both_uboot, split_files}
use alt_f.Firmware.Image.{Parts, header_size, header_of, header_bytes, body, image, image_size}
use alt_f.Firmware.Image.Build.{size_cases, length-header_bytes, length-body}
use alt_f.Firmware.Image.Found.{IsImage, Describes, if_64, if_128}

-- The files that come out of an image, in their order.
abbrev pub restored : Config → Config → Parts → Files
restored cfg out p =
    (name_or out.kernel "kernel", p.kernel)
    ∷ (name_or out.initramfs "initramfs", p.initramfs)
    ∷ ((if header_size cfg == 128 then (name_or out.sqimage "sqimage", p.sqimage) ∷ [] else [])
        ++ ((name_or out.defaults "defaults", p.defaults) ∷ []))

-- One part, wherever it stands.
savefile_part :
    (os : Os) (name : List ℕ) (fd : File) (pre part post : List ℕ) (off n chk total : ℕ)
    → IsRoomy os total
    → os.can_create name ≡ true
    → fd.bytes ≡ pre ++ (part ++ post)
    → length fd.bytes ≤ total
    → length pre ≡ off
    → n ≡ length part
    → chk ≡ sum_of part
    → savefile os name fd off n chk
      ≡ ok (part, record { bytes = fd.bytes; pos = off + n }, sum_of part)
savefile_part os name fd pre part post off n chk total r creates e small at len sum =
    let mine : take n (drop off fd.bytes) ≡ part =
      ap (λ t. take n (drop off t)) e ∙ take-drop_middle pre part post off n at (sym len) in
    let inside : length fd.bytes ≡ length pre + (length part + length post) = omega (
      arith,
      ap (λ (t : List ℕ). length t) e,
      length-append pre (part ++ post),
      length-append part post,
    ) in
    savefile_lem os name fd off n chk total r creates (omega (arith, inside)) small
      (inr (sum ∙ ap sum_of (sym mine)))
    ∙ λ i. ok (mine i, record { bytes = fd.bytes; pos = off + n }, sum_of (mine i))

take_four : (part post : List ℕ) → take 4 part ≡ uboot_sig → take 4 (part ++ post) ≡ uboot_sig
take_four [] post h = absurd (omega (arith, ap (λ (t : List ℕ). length t) h))
take_four (a ∷ []) post h = absurd (omega (arith, ap (λ (t : List ℕ). length t) h))
take_four (a ∷ b ∷ []) post h = absurd (omega (arith, ap (λ (t : List ℕ). length t) h))
take_four (a ∷ b ∷ c ∷ []) post h = absurd (omega (arith, ap (λ (t : List ℕ). length t) h))
take_four (a ∷ b ∷ c ∷ d ∷ part) post h = h

-- The magic number of a part, wherever it stands.
uboot_part :
    (os : Os) (fd : File) (pre part post : List ℕ) (off total : ℕ)
    → IsRoomy os total
    → fd.bytes ≡ pre ++ (part ++ post)
    → off ≤ total
    → length pre ≡ off
    → take 4 part ≡ uboot_sig
    → is_uboot os fd off ≡ (true, record { bytes = fd.bytes; pos = off + 4 })
uboot_part os fd pre part post off total r e low at magic =
    is_uboot_lem os fd off r.reliable r.buffer (omega (arith, r.seekable)) (
      ap (λ t. take 4 (drop off t)) e
      ∙ ap (λ t. take 4 t) (drop-append off pre (part ++ post) at)
      ∙ take_four part post magic)

module _ (os : Os) (cfg out : Config) (p : Parts) (hd : MyControlHeader)
    (r : IsRoomy os (image_size cfg p)) (creates : (name : List ℕ) → os.can_create name ≡ true)
    (m : IsImage cfg p) (d : Describes cfg p hd) where
  abbrev at_pos : ℕ → File
  at_pos n = record { bytes = image cfg p; pos = n }

  abbrev front : List ℕ
  front = header_bytes (header_of cfg p)

  length-front : length front ≡ header_size cfg
  length-front =
      length-header_bytes (header_of cfg p) m.kind_known (size_cases cfg.kind m.kind_known)

  length-image : length (image cfg p) ≡ image_size cfg p
  length-image = omega (arith, length-append front (body p), length-front, length-body p)

  initramfs_split : image cfg p ≡ (front ++ p.kernel) ++ (p.initramfs ++ (p.sqimage ++ p.defaults))
  initramfs_split = sym (append_assoc front p.kernel (p.initramfs ++ (p.sqimage ++ p.defaults)))

  sqimage_split : image cfg p ≡ ((front ++ p.kernel) ++ p.initramfs) ++ (p.sqimage ++ p.defaults)
  sqimage_split =
      initramfs_split ∙ sym (append_assoc (front ++ p.kernel) p.initramfs (p.sqimage ++ p.defaults))

  defaults_split :
      image cfg p ≡ (((front ++ p.kernel) ++ p.initramfs) ++ p.sqimage) ++ (p.defaults ++ [])
  defaults_split =
      sqimage_split
      ∙ sym (append_assoc ((front ++ p.kernel) ++ p.initramfs) p.sqimage p.defaults)
      ∙ ap (λ t. (((front ++ p.kernel) ++ p.initramfs) ++ p.sqimage) ++ t)
          (sym (append-nil p.defaults))

  length-initramfs_front : length (front ++ p.kernel) ≡ header_size cfg + length p.kernel
  length-initramfs_front = omega (arith, length-append front p.kernel, length-front)

  length-sqimage_front :
      length ((front ++ p.kernel) ++ p.initramfs)
      ≡ header_size cfg + length p.kernel + length p.initramfs
  length-sqimage_front =
      omega (arith, length-append (front ++ p.kernel) p.initramfs, length-initramfs_front)

  length-defaults_front :
      length (((front ++ p.kernel) ++ p.initramfs) ++ p.sqimage)
      ≡ header_size cfg + length p.kernel + length p.initramfs + length p.sqimage
  length-defaults_front =
      omega
        (arith, length-append ((front ++ p.kernel) ++ p.initramfs) p.sqimage, length-sqimage_front)

  both_uboot-image : (n : ℕ) → both_uboot os (at_pos n) hd ≡ ok (at_pos (hd.initramfs_off + 4))
  unfolding both_uboot
  both_uboot-image n = rw (
    uboot_part os (at_pos n) front p.kernel (p.initramfs ++ (p.sqimage ++ p.defaults)) hd.kernel_off
        (image_size cfg p) r refl (omega (arith, d.kernel_off)) (length-front ∙ sym d.kernel_off)
        m.kernel_magic,
    uboot_part os (at_pos (hd.kernel_off + 4)) (front ++ p.kernel) p.initramfs
        (p.sqimage ++ p.defaults) hd.initramfs_off (image_size cfg p) r initramfs_split
        (omega (arith, d.initramfs_off)) (length-initramfs_front ∙ sym d.initramfs_off)
        m.initramfs_magic,
  )

  abbrev sqimage_files : List ℕ → Files
  sqimage_files name = if header_size cfg == 128 then (name, p.sqimage) ∷ [] else []

  split_sqimage-64 :
      (name : List ℕ) (n : ℕ)
      → header_size cfg ≡ 64
      → split_sqimage os name (at_pos n) hd ≡ ok (sqimage_files name, at_pos n)
  unfolding split_sqimage
  split_sqimage-64 name n e =
      rw (d.kind ∙ e, split_sqimage)
        (ap (λ t. ok (t, at_pos n)) (sym (if_64 (header_size cfg) ((name, p.sqimage) ∷ []) [] e)))

  split_sqimage-128 :
      (name : List ℕ) (n : ℕ)
      → header_size cfg ≡ 128
      → split_sqimage os name (at_pos n) hd
        ≡ ok (sqimage_files name, at_pos (hd.sqimage_off + hd.sqimage_len))
  unfolding split_sqimage
  split_sqimage-128 name n e =
      let k : hd.kind ≡ 128 = d.kind ∙ e in
      rw (ne_kind k, split_sqimage)
        (rw
          (savefile_part os name (at_pos n) ((front ++ p.kernel) ++ p.initramfs) p.sqimage
            p.defaults hd.sqimage_off hd.sqimage_len hd.sqimage_checksum (image_size cfg p) r
            (creates name) sqimage_split (omega (arith, length-image))
            (length-sqimage_front ∙ sym (d.sqimage_off k)) (d.sqimage_len k) (d.sqimage_checksum k))
          (ap (λ t. ok (t, at_pos (hd.sqimage_off + hd.sqimage_len)))
            (sym (if_128 (header_size cfg) ((name, p.sqimage) ∷ []) [] e))))
    where
      ne_kind : hd.kind ≡ 128 → (hd.kind == 128) ≡ true
      ne_kind k = ground arith

  -- The sqimage is saved if the header knows of it; the descriptor stands somewhere in the image.
  split_sqimage-image :
      (name : List ℕ) (n : ℕ)
      → (n' : ℕ) × (split_sqimage os name (at_pos n) hd ≡ ok (sqimage_files name, at_pos n'))
  split_sqimage-image name n = elim (size_cases cfg.kind m.kind_known) [
    | inl e ↦ (n, split_sqimage-64 name n e)
    | inr e ↦ (hd.sqimage_off + hd.sqimage_len, split_sqimage-128 name n e)
  ]

  pub split_files-image : (pos : ℕ) → split_files os out (at_pos pos) hd ≡ ok (restored cfg out p)
  unfolding split_files size_ok seek_end
  split_files-image pos =
      let small : length (image cfg p) ≤ image_size cfg p = omega (arith, length-image) in
      let kernel = name_or out.kernel "kernel" in
      let initramfs = name_or out.initramfs "initramfs" in
      let sqimage = name_or out.sqimage "sqimage" in
      let defaults = name_or out.defaults "defaults" in
      let (n', saved) = split_sqimage-image sqimage (hd.initramfs_off + hd.initramfs_len) in
      rw (
        both_uboot-image (length (image cfg p)),
        savefile_part os kernel (at_pos (hd.initramfs_off + 4)) front p.kernel
            (p.initramfs ++ (p.sqimage ++ p.defaults)) hd.kernel_off hd.kernel_len
            hd.kernel_checksum (image_size cfg p) r (creates kernel) refl small
            (length-front ∙ sym d.kernel_off) d.kernel_len d.kernel_checksum,
        savefile_part os initramfs (at_pos (hd.kernel_off + hd.kernel_len)) (front ++ p.kernel)
            p.initramfs (p.sqimage ++ p.defaults) hd.initramfs_off hd.initramfs_len
            hd.initramfs_checksum (image_size cfg p) r (creates initramfs) initramfs_split small
            (length-initramfs_front ∙ sym d.initramfs_off) d.initramfs_len d.initramfs_checksum,
        saved,
        savefile_part os defaults (at_pos n') (((front ++ p.kernel) ++ p.initramfs) ++ p.sqimage)
            p.defaults [] hd.defaults_off hd.defaults_len hd.defaults_checksum (image_size cfg p) r
            (creates defaults) defaults_split small (length-defaults_front ∙ sym d.defaults_off)
            d.defaults_len d.defaults_checksum,
      )
