-- ===== src/Firmware/Layout/Laws.antt =====
-- Reading back a header that was written: `check_sig` after `set_header64` and `set_header128`.
use alt_f.Prelude.{
  ℕ, zero, suc, ◌<◌, ◌≡◌, refl, ap, ◌∙◌, none, some, List, [], ◌∷◌, ◌++◌, append_assoc, length,
  length-append, replicate, arith,
}
use alt_f.Prelude.Slices.{take-append, drop_past}
use alt_f.Prelude.Word.{le32, of_le32_le32}
use alt_f.Firmware.Header.{MyControlHeader, signature_at, cmp_sig, nsig}
use alt_f.Firmware.Layout.{
  encode64, decode64, encode128, decode128, set_header64, set_header128, get_info64, get_info128,
  check_sig, word_of, byte_of,
}

-- Every number of the header fits its field.
pub record IsWordy (h : MyControlHeader) : Type 0 where
  pub kernel_off : h.kernel_off < 4294967296
  pub kernel_len : h.kernel_len < 4294967296
  pub kernel_checksum : h.kernel_checksum < 4294967296
  pub initramfs_off : h.initramfs_off < 4294967296
  pub initramfs_len : h.initramfs_len < 4294967296
  pub initramfs_checksum : h.initramfs_checksum < 4294967296
  pub sqimage_off : h.sqimage_off < 4294967296
  pub sqimage_len : h.sqimage_len < 4294967296
  pub sqimage_checksum : h.sqimage_checksum < 4294967296
  pub defaults_off : h.defaults_off < 4294967296
  pub defaults_len : h.defaults_len < 4294967296
  pub defaults_checksum : h.defaults_checksum < 4294967296
  pub next_offset : h.next_offset < 4294967296
  pub sig_num : h.sig_num < nsig

-- The table is consistent: row `i` has index `i`, twelve bytes, and no row in front has the same.
cmp_sig-signature_at : (i : ℕ) → i < nsig → cmp_sig (signature_at i).signature ≡ some i
unfolding cmp_sig signature_at
cmp_sig-signature_at zero h = refl
cmp_sig-signature_at (suc zero) h = refl
cmp_sig-signature_at (suc (suc zero)) h = refl
cmp_sig-signature_at (suc (suc (suc zero))) h = refl
cmp_sig-signature_at (suc (suc (suc (suc zero)))) h = refl
cmp_sig-signature_at (suc (suc (suc (suc (suc zero))))) h = refl
cmp_sig-signature_at (suc (suc (suc (suc (suc (suc zero)))))) h = refl
cmp_sig-signature_at (suc (suc (suc (suc (suc (suc (suc zero))))))) h = refl
cmp_sig-signature_at (suc (suc (suc (suc (suc (suc (suc (suc zero)))))))) h = refl
cmp_sig-signature_at (suc (suc (suc (suc (suc (suc (suc (suc (suc i))))))))) h =
    absurd (omega arith)

length-signature_at : (i : ℕ) → i < nsig → length (signature_at i).signature ≡ 12
unfolding signature_at
length-signature_at zero h = refl
length-signature_at (suc zero) h = refl
length-signature_at (suc (suc zero)) h = refl
length-signature_at (suc (suc (suc zero))) h = refl
length-signature_at (suc (suc (suc (suc zero)))) h = refl
length-signature_at (suc (suc (suc (suc (suc zero))))) h = refl
length-signature_at (suc (suc (suc (suc (suc (suc zero)))))) h = refl
length-signature_at (suc (suc (suc (suc (suc (suc (suc zero))))))) h = refl
length-signature_at (suc (suc (suc (suc (suc (suc (suc (suc zero)))))))) h = refl
length-signature_at (suc (suc (suc (suc (suc (suc (suc (suc (suc i))))))))) h = absurd (omega arith)

-- Behind the twelve bytes of a signature.
abbrev tail_bytes : MyControlHeader → ℕ → List ℕ → List ℕ
tail_bytes h n rest =
    h.product_id
    ∷ h.custom_id
    ∷ h.model_id
    ∷ h.sub_id
    ∷ h.new_version
    ∷ (replicate n 0 ++ le32 h.next_offset ++ rest)

-- The numbers in front of the signature.
abbrev prefix64 : MyControlHeader → List ℕ
prefix64 h =
    le32 h.kernel_off
    ++ le32 h.kernel_len
    ++ le32 h.initramfs_off
    ++ le32 h.initramfs_len
    ++ le32 h.defaults_off
    ++ le32 h.defaults_len
    ++ le32 h.kernel_checksum
    ++ le32 h.initramfs_checksum
    ++ le32 h.defaults_checksum

abbrev prefix128 : MyControlHeader → List ℕ
prefix128 h =
    le32 h.kernel_off
    ++ le32 h.kernel_len
    ++ le32 h.initramfs_off
    ++ le32 h.initramfs_len
    ++ le32 h.sqimage_off
    ++ le32 h.sqimage_len
    ++ le32 h.defaults_off
    ++ le32 h.defaults_len
    ++ le32 h.kernel_checksum
    ++ le32 h.initramfs_checksum
    ++ le32 h.sqimage_checksum
    ++ le32 h.defaults_checksum

abbrev bytes64 : MyControlHeader → List ℕ → List ℕ
bytes64 h rest = prefix64 h ++ ((signature_at h.sig_num).signature ++ tail_bytes h 7 rest)

abbrev bytes128 : MyControlHeader → List ℕ → List ℕ
bytes128 h rest = prefix128 h ++ ((signature_at h.sig_num).signature ++ tail_bytes h 59 rest)

encode64_bytes :
    (h : MyControlHeader) (rest : List ℕ) → encode64 (set_header64 h) ++ rest ≡ bytes64 h rest
unfolding encode64 set_header64
encode64_bytes h rest =
    ap (λ t. prefix64 h ++ t)
      (append_assoc (signature_at h.sig_num).signature (tail_bytes h 7 []) rest)

encode128_bytes :
    (h : MyControlHeader) (rest : List ℕ) → encode128 (set_header128 h) ++ rest ≡ bytes128 h rest
unfolding encode128 set_header128
encode128_bytes h rest =
    ap (λ t. prefix128 h ++ t)
      (append_assoc (signature_at h.sig_num).signature (tail_bytes h 59 []) rest)

magic_of_checksums :
    (h : MyControlHeader) (rest : List ℕ)
    → (decode64 (bytes128 h rest)).magic_num
      ≡ le32 h.initramfs_checksum ++ le32 h.sqimage_checksum ++ le32 h.defaults_checksum
unfolding decode64
magic_of_checksums h rest = refl

-- The header that a 64-byte layout keeps: all but the fields of the sqimage.
abbrev pub over64 : MyControlHeader → MyControlHeader → MyControlHeader
over64 h myhd = record h {
  sqimage_off = myhd.sqimage_off;
  sqimage_len = myhd.sqimage_len;
  sqimage_checksum = myhd.sqimage_checksum;
  kind = 64;
  sig_num = myhd.sig_num;
}

module _ (h : MyControlHeader) (rest : List ℕ) (fits : IsWordy h) where
  magic64 : (decode64 (bytes64 h rest)).magic_num ≡ (signature_at h.sig_num).signature
  unfolding decode64
  magic64 =
      take-append 12 (signature_at h.sig_num).signature (tail_bytes h 7 rest)
        (length-signature_at h.sig_num fits.sig_num)

  get_info64_lem :
      (myhd : MyControlHeader) → get_info64 (decode64 (bytes64 h rest)) myhd ≡ over64 h myhd
  unfolding get_info64 decode64
  get_info64_lem myhd =
      let magic = (signature_at h.sig_num).signature in
      let tail : List ℕ = tail_bytes h 7 rest in
      λ i. record {
        kernel_off = of_le32_le32 h.kernel_off fits.kernel_off i;
        kernel_len = of_le32_le32 h.kernel_len fits.kernel_len i;
        kernel_checksum = of_le32_le32 h.kernel_checksum fits.kernel_checksum i;
        initramfs_off = of_le32_le32 h.initramfs_off fits.initramfs_off i;
        initramfs_len = of_le32_le32 h.initramfs_len fits.initramfs_len i;
        initramfs_checksum = of_le32_le32 h.initramfs_checksum fits.initramfs_checksum i;
        defaults_off = of_le32_le32 h.defaults_off fits.defaults_off i;
        defaults_len = of_le32_le32 h.defaults_len fits.defaults_len i;
        defaults_checksum = of_le32_le32 h.defaults_checksum fits.defaults_checksum i;
        product_id =
            byte_of (drop_past 12 0 magic tail (length-signature_at h.sig_num fits.sig_num) i);
        custom_id =
            byte_of (drop_past 12 1 magic tail (length-signature_at h.sig_num fits.sig_num) i);
        model_id =
            byte_of (drop_past 12 2 magic tail (length-signature_at h.sig_num fits.sig_num) i);
        sub_id = byte_of (drop_past 12 3 magic tail (length-signature_at h.sig_num fits.sig_num) i);
        new_version =
            byte_of (drop_past 12 4 magic tail (length-signature_at h.sig_num fits.sig_num) i);
        sqimage_off = myhd.sqimage_off;
        sqimage_len = myhd.sqimage_len;
        sqimage_checksum = myhd.sqimage_checksum;
        kind = 64;
        sig_num = myhd.sig_num;
        next_offset =
            (ap (λ t. word_of t)
                  (drop_past 12 12 magic tail (length-signature_at h.sig_num fits.sig_num))
                ∙ of_le32_le32 h.next_offset fits.next_offset)
              i;
      }

module _ (h : MyControlHeader) (rest : List ℕ) (fits : IsWordy h) where
  magic128 : (decode128 (bytes128 h rest)).magic_num ≡ (signature_at h.sig_num).signature
  unfolding decode128
  magic128 =
      take-append 12 (signature_at h.sig_num).signature (tail_bytes h 59 rest)
        (length-signature_at h.sig_num fits.sig_num)

  get_info128_lem :
      (myhd : MyControlHeader)
      → get_info128 (decode128 (bytes128 h rest)) myhd
        ≡ record h { kind = 128; sig_num = myhd.sig_num }
  unfolding get_info128 decode128
  get_info128_lem myhd =
      let magic = (signature_at h.sig_num).signature in
      let tail : List ℕ = tail_bytes h 59 rest in
      λ i. record {
        kernel_off = of_le32_le32 h.kernel_off fits.kernel_off i;
        kernel_len = of_le32_le32 h.kernel_len fits.kernel_len i;
        kernel_checksum = of_le32_le32 h.kernel_checksum fits.kernel_checksum i;
        initramfs_off = of_le32_le32 h.initramfs_off fits.initramfs_off i;
        initramfs_len = of_le32_le32 h.initramfs_len fits.initramfs_len i;
        initramfs_checksum = of_le32_le32 h.initramfs_checksum fits.initramfs_checksum i;
        sqimage_off = of_le32_le32 h.sqimage_off fits.sqimage_off i;
        sqimage_len = of_le32_le32 h.sqimage_len fits.sqimage_len i;
        sqimage_checksum = of_le32_le32 h.sqimage_checksum fits.sqimage_checksum i;
        defaults_off = of_le32_le32 h.defaults_off fits.defaults_off i;
        defaults_len = of_le32_le32 h.defaults_len fits.defaults_len i;
        defaults_checksum = of_le32_le32 h.defaults_checksum fits.defaults_checksum i;
        product_id =
            byte_of (drop_past 12 0 magic tail (length-signature_at h.sig_num fits.sig_num) i);
        custom_id =
            byte_of (drop_past 12 1 magic tail (length-signature_at h.sig_num fits.sig_num) i);
        model_id =
            byte_of (drop_past 12 2 magic tail (length-signature_at h.sig_num fits.sig_num) i);
        sub_id = byte_of (drop_past 12 3 magic tail (length-signature_at h.sig_num fits.sig_num) i);
        new_version =
            byte_of (drop_past 12 4 magic tail (length-signature_at h.sig_num fits.sig_num) i);
        kind = 128;
        sig_num = myhd.sig_num;
        next_offset =
            (ap (λ t. word_of t)
                  (drop_past 12 64 magic tail (length-signature_at h.sig_num fits.sig_num))
                ∙ of_le32_le32 h.next_offset fits.next_offset)
              i;
      }

check_sig_first :
    (hd : List ℕ) (myhd : MyControlHeader) {t : ℕ}
    → cmp_sig (decode64 hd).magic_num ≡ some t
    → check_sig hd myhd ≡ some (t, record (get_info64 (decode64 hd) myhd) { sig_num = t })
unfolding check_sig
check_sig_first hd myhd e = rw (e, check_sig)

check_sig_second :
    (hd : List ℕ) (myhd : MyControlHeader) {t : ℕ}
    → cmp_sig (decode64 hd).magic_num ≡ none
    → cmp_sig (decode128 hd).magic_num ≡ some t
    → check_sig hd myhd ≡ some (t, record (get_info128 (decode128 hd) myhd) { sig_num = t })
unfolding check_sig
check_sig_second hd myhd none_first e = rw (none_first, e, check_sig)

-- A 64-byte header with a known signature and fields of 32 bits reads back as it was written,
-- whatever follows it. Its kind is 64, and the fields of the sqimage, which it does not hold, stay
-- as they were.
pub check_sig-encode64 :
    (h : MyControlHeader) (rest : List ℕ) (myhd : MyControlHeader)
    → IsWordy h
    → check_sig (encode64 (set_header64 h) ++ rest) myhd
      ≡ some (
        h.sig_num,
        record h {
          sqimage_off = myhd.sqimage_off;
          sqimage_len = myhd.sqimage_len;
          sqimage_checksum = myhd.sqimage_checksum;
          kind = 64;
        },
      )
check_sig-encode64 h rest myhd fits =
    ap (λ t. check_sig t myhd) (encode64_bytes h rest)
    ∙ check_sig_first (bytes64 h rest) myhd
        (ap cmp_sig (magic64 h rest fits) ∙ cmp_sig-signature_at h.sig_num fits.sig_num)
    ∙ ap (λ t. some (h.sig_num, record t { sig_num = h.sig_num })) (get_info64_lem h rest fits myhd)

-- A 128-byte header with a known signature and fields of 32 bits reads back as it was written,
-- unless the checksums in it, which stand where a 64-byte header has its signature, happen to spell
-- a signature.
pub check_sig-encode128 :
    (h : MyControlHeader) (rest : List ℕ) (myhd : MyControlHeader)
    → IsWordy h
    → cmp_sig (le32 h.initramfs_checksum ++ le32 h.sqimage_checksum ++ le32 h.defaults_checksum)
      ≡ none
    → check_sig (encode128 (set_header128 h) ++ rest) myhd
      ≡ some (h.sig_num, record h { kind = 128 })
check_sig-encode128 h rest myhd fits clear =
    ap (λ t. check_sig t myhd) (encode128_bytes h rest)
    ∙ check_sig_second (bytes128 h rest) myhd (ap cmp_sig (magic_of_checksums h rest) ∙ clear)
        (ap cmp_sig (magic128 h rest fits) ∙ cmp_sig-signature_at h.sig_num fits.sig_num)
    ∙ ap (λ t. some (h.sig_num, record t { sig_num = h.sig_num }))
        (get_info128_lem h rest fits myhd)

pub length-encode64 :
    (h : MyControlHeader) → h.sig_num < nsig → length (encode64 (set_header64 h)) ≡ 64
unfolding encode64 set_header64
length-encode64 h fits = omega (
  arith,
  length-append (signature_at h.sig_num).signature (tail_bytes h 7 []),
  length-signature_at h.sig_num fits,
)

pub length-encode128 :
    (h : MyControlHeader) → h.sig_num < nsig → length (encode128 (set_header128 h)) ≡ 128
unfolding encode128 set_header128
length-encode128 h fits = omega (
  arith,
  length-append (signature_at h.sig_num).signature (tail_bytes h 59 []),
  length-signature_at h.sig_num fits,
)
