-- ===== src/Firmware/Image/Build.antt =====
-- `merge` builds the image of its parts.
use alt_f.Prelude.{
  ℕ, zero, suc, ◌+◌, ◌≤◌, ◌<◌, ◌≡◌, refl, sym, ap, ◌∙◌, ◌⊎◌, inl, inr, Bool, true, false, Option,
  none, some, List, [], ◌∷◌, ◌++◌, append-nil, append_assoc, length, length-append, arith, gt→leb,
}
use alt_f.Prelude.Result.{ok}
use alt_f.Prelude.Slices.{drop-append}
use alt_f.Prelude.Word.{u32}
use alt_f.Firmware.File.{Os, File, at_start, seek_set, seek_end, write}
use alt_f.Firmware.File.Laws.{write_end, write_start, seek_lem}
use alt_f.Firmware.Header.{MyControlHeader, nsig, signature_at}
use alt_f.Firmware.Layout.{encode64, encode128, set_header64, set_header128}
use alt_f.Firmware.Layout.Laws.{length-encode64, length-encode128}
use alt_f.Firmware.Merge.{merge_header, save_optional, save_sqimage, merge_files, merge}
use alt_f.Firmware.Copy.Laws.{xor_words-nil}
use alt_f.Firmware.Copy.Total.{sum_of}
use alt_f.Firmware.Options.{Config}
use alt_f.Firmware.Save.{savecomp, save_header, unchecked}
use alt_f.Firmware.Save.Laws.{IsRoomy, HasMagic, placed, ended, savecomp_lem}
use alt_f.Firmware.Image.{
  Parts, header_size, sqimage_placed, header_of, header_bytes, body, image, image_size, Holds,
  IsMergeable,
}

pub size_cases : (i : ℕ) → i < nsig → ((signature_at i).size ≡ 64) ⊎ ((signature_at i).size ≡ 128)
unfolding signature_at
size_cases zero h = inl refl
size_cases (suc zero) h = inl refl
size_cases (suc (suc zero)) h = inl refl
size_cases (suc (suc (suc zero))) h = inr refl
size_cases (suc (suc (suc (suc zero)))) h = inr refl
size_cases (suc (suc (suc (suc (suc zero))))) h = inr refl
size_cases (suc (suc (suc (suc (suc (suc zero)))))) h = inr refl
size_cases (suc (suc (suc (suc (suc (suc (suc zero))))))) h = inr refl
size_cases (suc (suc (suc (suc (suc (suc (suc (suc zero)))))))) h = inr refl
size_cases (suc (suc (suc (suc (suc (suc (suc (suc (suc i))))))))) h = absurd (omega arith)

pub header_bytes-64 :
    (h : MyControlHeader) → h.kind ≡ 64 → header_bytes h ≡ encode64 (set_header64 h)
header_bytes-64 h e = ground arith

pub header_bytes-128 :
    (h : MyControlHeader) → h.kind ≡ 128 → header_bytes h ≡ encode128 (set_header128 h)
header_bytes-128 h e = ground arith

pub length-header_bytes :
    (h : MyControlHeader)
    → h.sig_num < nsig
    → (h.kind ≡ 64) ⊎ (h.kind ≡ 128)
    → length (header_bytes h) ≡ h.kind
length-header_bytes h known (inl e) =
    ap (λ t. length t) (header_bytes-64 h e) ∙ length-encode64 h known ∙ sym e
length-header_bytes h known (inr e) =
    ap (λ t. length t) (header_bytes-128 h e) ∙ length-encode128 h known ∙ sym e

save_header_kind :
    (os : Os) (fdo : File) (h : MyControlHeader)
    → (h.kind ≡ 64) ⊎ (h.kind ≡ 128)
    → save_header os fdo h ≡ (
        let fdo₁ = unchecked os fdo (seek_set os fdo 0) in
        ok (unchecked os fdo₁ (write os fdo₁ (header_bytes h))))
unfolding save_header
save_header_kind os fdo h known = ground arith

-- Each component goes to the end of what is there.
module _ (os : Os) (total : ℕ) (r : IsRoomy os total) where
  savecomp_at :
      (name : List ℕ) (before : List ℕ) (at : ℕ) (uboot : Bool) (size_max : ℕ) (bytes : List ℕ)
      → os.lookup name ≡ some bytes
      → HasMagic uboot bytes
      → length bytes ≤ size_max
      → length before ≡ at
      → at + length bytes ≤ total
      → savecomp os name (ended before) uboot size_max
        ≡ ok (ended (before ++ bytes), placed at bytes)
  savecomp_at name before at uboot size_max bytes found magic small e fits =
      savecomp_lem os name (ended before) uboot size_max bytes total r found magic small
        (omega arith)
      ∙ λ i. ok (ended (before ++ bytes), placed (e i) bytes)

  save_optional_at :
      (name : Option (List ℕ)) (before : List ℕ) (at : ℕ) (size_max : ℕ) (bytes : List ℕ)
      → Holds os name bytes
      → length bytes ≤ size_max
      → length before ≡ at
      → at + length bytes ≤ total
      → save_optional os name (ended before) size_max
        ≡ ok (ended (before ++ bytes), placed at bytes)
  unfolding save_optional seek_end
  save_optional_at none before at size_max bytes held small e fits = λ i. ok (
    ended (sym (ap (λ t. before ++ t) held ∙ append-nil before) i),
    record {
      offset = at_word i;
      len = sym (ap (λ (t : List ℕ). length t) held) i;
      checksum = sym (ap sum_of held ∙ xor_words-nil 0) i;
    },
  )
    where
      at_word : u32 (length before) ≡ at
      at_word = omega (arith, r.word)
  save_optional_at (some name) before at size_max bytes held small e fits =
      savecomp_at name before at false size_max bytes held (λ h. cc) small e fits

  save_sqimage_at :
      (size : ℕ) (name : Option (List ℕ)) (before : List ℕ) (at : ℕ) (size_max : ℕ) (bytes : List ℕ)
      → (size ≡ 64) ⊎ (size ≡ 128)
      → (size ≡ 128 → Holds os name bytes)
      → (size ≡ 64 → bytes ≡ [])
      → length bytes ≤ size_max
      → length before ≡ at
      → at + length bytes ≤ total
      → save_sqimage os size name (ended before) size_max
        ≡ ok (ended (before ++ bytes), sqimage_placed size at bytes)
  unfolding save_sqimage
  save_sqimage_at size name before at size_max bytes (inl e) held none_here small at_end fits =
      rw e (λ i. ok (
        ended (sym (ap (λ t. before ++ t) (none_here e) ∙ append-nil before) i),
        record { offset = 0; len = 0; checksum = 0 },
      ))
  save_sqimage_at size name before at size_max bytes (inr e) held none_here small at_end fits =
      rw e (save_optional_at name before at size_max bytes (held e) small at_end fits)

  save_header_at :
      (h : MyControlHeader) (stale rest : List ℕ)
      → h.sig_num < nsig
      → (h.kind ≡ 64) ⊎ (h.kind ≡ 128)
      → length stale ≡ h.kind
      → length stale + length rest ≤ total
      → save_header os (ended (stale ++ rest)) h
        ≡ ok (record { bytes = header_bytes h ++ rest; pos = h.kind })
  save_header_at h stale rest known kinds e fits =
      let hd = header_bytes h in
      let len : length hd ≡ h.kind = length-header_bytes h known kinds in
      save_header_kind os (ended (stale ++ rest)) h kinds
      ∙ ap
          (λ o. ok (
            unchecked os (unchecked os (ended (stale ++ rest)) o)
              (write os (unchecked os (ended (stale ++ rest)) o) hd)))
          (seek_lem os (ended (stale ++ rest)) 0 (omega arith))
      ∙ ap (λ o. ok (unchecked os (record (ended (stale ++ rest)) { pos = 0 }) o))
          (write_start os (record (ended (stale ++ rest)) { pos = 0 }) hd refl
            (omega (arith, r.room)) (ground (arith, kinds)))
      ∙ λ i.
          ok (record {
            bytes = hd ++ drop-append (length hd) stale rest (e ∙ sym len) i;
            pos = len i;
          })

pub length-body :
    (p : Parts)
    → length (body p)
      ≡ length p.kernel + (length p.initramfs + (length p.sqimage + length p.defaults))
length-body p = omega (
  arith,
  length-append p.kernel (p.initramfs ++ (p.sqimage ++ p.defaults)),
  length-append p.initramfs (p.sqimage ++ p.defaults),
  length-append p.sqimage p.defaults,
)

module _ (os : Os) (cfg : Config) (fw : List ℕ) (p : Parts) (m : IsMergeable os cfg fw p) where
  merge_names : merge os cfg ≡ merge_files os cfg m.kernel_name m.initramfs_name fw
  unfolding merge
  merge_names = ground (arith, m.kernel_given, m.initramfs_given, m.fw_given)

  stale_written :
      unchecked os (at_start []) (write os (at_start []) (os.stale_header (header_size cfg)))
      ≡ ended (os.stale_header (header_size cfg))
  stale_written =
      let stale = os.stale_header (header_size cfg) in
      let some_bytes : 0 < length stale =
        omega (arith, m.stale, size_cases cfg.kind m.kind_known) in
      ap (λ o. unchecked os (at_start []) o)
        (write_end os (at_start []) stale refl (omega (arith, m.stale, m.roomy.room)) some_bytes)
      ∙ λ i. record { bytes = stale; pos = zero_add (length stale) i }
    where
      zero_add : (k : ℕ) → 0 + k ≡ k
      zero_add k = omega arith

  files_merged : merge_files os cfg m.kernel_name m.initramfs_name fw ≡ ok ((fw, image cfg p) ∷ [])
  unfolding merge_files merge_header
  files_merged =
      let total = image_size cfg p in
      let n = header_size cfg in
      let r = m.roomy in
      let s₀ = os.stale_header n in
      let s₁ = s₀ ++ p.kernel in
      let s₂ = s₁ ++ p.initramfs in
      let s₃ = s₂ ++ p.sqimage in
      let e₁ : length s₁ ≡ n + length p.kernel =
        omega (arith, m.stale, length-append s₀ p.kernel) in
      let e₂ : length s₂ ≡ n + length p.kernel + length p.initramfs =
        omega (arith, e₁, length-append s₁ p.initramfs) in
      let e₃ : length s₃ ≡ n + length p.kernel + length p.initramfs + length p.sqimage =
        omega (arith, e₂, length-append s₂ p.sqimage) in
      let whole : s₃ ++ p.defaults ≡ s₀ ++ body p =
        append_assoc s₂ p.sqimage p.defaults
        ∙ append_assoc s₁ p.initramfs (p.sqimage ++ p.defaults)
        ∙ append_assoc s₀ p.kernel (p.initramfs ++ (p.sqimage ++ p.defaults)) in
      rw (
        gt→leb nsig cfg.kind m.kind_known,
        m.creates,
        stale_written,
        savecomp_at os total r m.kernel_name s₀ n true (signature_at cfg.kind).kernel_max p.kernel
            m.kernel_held (λ _. m.kernel_magic) m.kernel_small m.stale (omega arith),
        savecomp_at os total r m.initramfs_name s₁ _ true (signature_at cfg.kind).initramfs_max
            p.initramfs m.initramfs_held (λ _. m.initramfs_magic) m.initramfs_small e₁
            (omega arith),
        save_sqimage_at os total r n cfg.sqimage s₂ _ (signature_at cfg.kind).sqimage_max p.sqimage
            (size_cases cfg.kind m.kind_known) m.sqimage_held m.no_sqimage m.sqimage_small e₂
            (omega arith),
        save_optional_at os total r cfg.defaults s₃ _ (signature_at cfg.kind).defaults_max
            p.defaults m.defaults_held m.defaults_small e₃ (omega arith),
        whole,
        save_header_at os total r (header_of cfg p) s₀ (body p) m.kind_known
            (size_cases cfg.kind m.kind_known) m.stale (omega (arith, m.stale, length-body p)),
      )

-- `merge` ends normally and creates one file: the image of the parts, with the header that describes
-- them and no gap between them. This is for a known product, with the kernel, the initramfs and the
-- result named, the inputs that are named there (the sqimage where the header has 128 bytes, none
-- where it has 64), the u-boot magic number at the start of the kernel and of the initramfs, no part
-- above the product's limit, a result that can be created, is below 4 GiB and has room, and with
-- `malloc` and `read` not failing.
pub merge-image :
    (os : Os) (cfg : Config) (fw : List ℕ) (p : Parts)
    → IsMergeable os cfg fw p
    → merge os cfg ≡ ok ((fw, image cfg p) ∷ [])
merge-image os cfg fw p m = merge_names os cfg fw p m ∙ files_merged os cfg fw p m
