-- ===== src/Firmware/Copy/Loop.antt =====
-- The loop of `readwrite`, block by block.
use alt_f.Prelude.{
  ℕ, zero, suc, ◌+◌, ◌-◌, ◌/◌, ◌≤◌, ◌<◌, ◌≡◌, refl, sym, ap, ap₂, ◌∙◌, inl, inr, some, List, [],
  ◌∷◌, ◌++◌, append-nil, append_assoc, length, take, drop, replicate, length-append, length-take,
  length-drop, length-replicate, arith, lt→ltb, le_or_lt,
}
use alt_f.Prelude.Slices.{drop-drop, take-nil, drop-length-take, nil_of_length}
use alt_f.Firmware.File.{Os, File, write}
use alt_f.Firmware.File.Laws.{IsReliable, write_end, read_lem}
use alt_f.Firmware.Copy.{
  xor_words, block_len, store_block, fill_block, copy_block, copy_loop, wrote, eof, copied,
}
use alt_f.Firmware.Copy.Laws.{
  block_of, block_len_cases, padded, padded-nil, padded_step, length-block_of, xor_words_block,
  xor_words-nil, padded-zero,
}

abbrev pub left_of : File → List ℕ
left_of f = drop f.pos f.bytes

abbrev pub appended : File → List ℕ → File
appended f bs = record { bytes = f.bytes ++ bs; pos = f.pos + length bs }

abbrev pub advanced : File → ℕ → File
advanced f n = record f { pos = f.pos + n }

copied_eq :
    {a a' b b' : File} {c c' : ℕ} → a ≡ a' → b ≡ b' → c ≡ c' → copied a b c ≡ copied a' b' c'
copied_eq p q r = λ i. copied (p i) (q i) (r i)

file_eq :
    {a a' : List ℕ} {n n' : ℕ}
    → a ≡ a'
    → n ≡ n'
    → ◌≡◌ {A = File} (record { bytes = a; pos = n }) (record { bytes = a'; pos = n' })
file_eq p q = λ i. record { bytes = p i; pos = q i }

copied_none :
    (fdo fdi : File) (lchk : ℕ) (p : List ℕ) (n : ℕ)
    → p ≡ []
    → n ≡ 0
    → copied fdo fdi lchk ≡ copied (appended fdo p) (advanced fdi n) (xor_words lchk p)
copied_none fdo fdi lchk p n e z =
    copied_eq
      (file_eq (sym (ap (λ t. fdo.bytes ++ t) e ∙ append-nil fdo.bytes))
        (omega (arith, ap (λ (t : List ℕ). length t) e)))
      (file_eq refl (omega arith)) (sym (ap (λ t. xor_words lchk t) e ∙ xor_words-nil lchk))

module _ (os : Os) (reliable : IsReliable os) where
  copy_loop_end :
      (fuel : ℕ) (fdo fdi : File) (i sz lchk : ℕ)
      → sz ≤ i
      → copy_loop os (suc fuel) fdo fdi i sz lchk ≡ copied fdo fdi lchk
  unfolding copy_loop
  copy_loop_end fuel fdo fdi i sz lchk h = ground arith

  copy_block_eof :
      (fdo fdi : File) (k : ℕ) → left_of fdi ≡ [] → copy_block os fdo fdi k ≡ eof (advanced fdi 0)
  unfolding copy_block
  copy_block_eof fdo fdi k e = rw (read_lem os fdi k reliable, e, take-nil ℕ k)

  store_block_lem :
      (fdo fdi : File) (block : List ℕ) {fdo' : File}
      → write os fdo block ≡ some fdo'
      → store_block os fdo fdi block ≡ wrote fdo' fdi block
  unfolding store_block
  store_block_lem fdo fdi block h = ground arith

  fill_block_lem :
      (fdo fdi : File) (k : ℕ) (got : List ℕ)
      → 0 < length got
      → length got ≤ k
      → fdo.pos ≡ length fdo.bytes
      → fdo.pos + k ≤ os.file_max
      → let block = got ++ replicate (k - length got) 0 in
        fill_block os fdo k (some (got, fdi)) ≡ wrote (appended fdo block) fdi block
  unfolding copy_block
  fill_block_lem fdo fdi k [] h fits e room = absurd (omega arith)
  fill_block_lem fdo fdi k (b ∷ buf) h fits e room =
      let block : List ℕ = (b ∷ buf) ++ replicate (k - length (b ∷ buf)) 0 in
      let len : length block ≡ k = omega (
        arith,
        length-append (b ∷ buf) (replicate (k - length (b ∷ buf)) 0),
        length-replicate {0} {A = ℕ} (k - length (b ∷ buf)) 0,
      ) in
      store_block_lem fdo fdi block (write_end os fdo block e (omega arith) (omega arith))

  copy_block_wrote :
      (fdo fdi : File) (k : ℕ)
      → 0 < k
      → 0 < length (left_of fdi)
      → fdo.pos ≡ length fdo.bytes
      → fdo.pos + k ≤ os.file_max
      → copy_block os fdo fdi k
        ≡ wrote
            (appended fdo (block_of (left_of fdi) k))
            (advanced fdi (length (take k (left_of fdi))))
            (block_of (left_of fdi) k)
  unfolding copy_block
  copy_block_wrote fdo fdi k pos some_left e room = rw (read_lem os fdi k reliable) (
      fill_block_lem fdo (advanced fdi (length (take k (left_of fdi)))) k (take k (left_of fdi))
        (omega (arith, length-take k (left_of fdi))) (omega (arith, length-take k (left_of fdi))) e
        room)

  copy_loop_step :
      (fuel : ℕ) (fdo fdi : File) (i sz lchk : ℕ)
      → i < sz
      → 0 < length (left_of fdi)
      → fdo.pos ≡ length fdo.bytes
      → fdo.pos + block_len (sz - i) ≤ os.file_max
      → let k = block_len (sz - i) in
        let block = block_of (left_of fdi) k in
        copy_loop os (suc fuel) fdo fdi i sz lchk
        ≡ copy_loop os fuel
            (appended fdo block)
            (advanced fdi (length (take k (left_of fdi))))
            (i + length block)
            sz
            (xor_words lchk block)
  unfolding copy_loop
  copy_loop_step fuel fdo fdi i sz lchk h some_left e room = rw (
    lt→ltb i sz h,
    copy_block_wrote fdo fdi (block_len (sz - i)) (block_len_cases (sz - i) (omega arith)).1
        some_left e room,
    copy_loop,
  )

  copy_loop_eof :
      (fuel : ℕ) (fdo fdi : File) (i sz lchk : ℕ)
      → i < sz
      → left_of fdi ≡ []
      → copy_loop os (suc fuel) fdo fdi i sz lchk ≡ copied fdo (advanced fdi 0) lchk
  unfolding copy_loop
  copy_loop_eof fuel fdo fdi i sz lchk h none_left =
      rw (lt→ltb i sz h, copy_block_eof fdo fdi (block_len (sz - i)) none_left, copy_loop)

  -- All of `sz - i` bytes are copied, with the fuel that the blocks need.
  pub copy_loop_lem :
      (fuel : ℕ) (fdo fdi : File) (i sz lchk : ℕ)
      → (sz - i + 65535) / 65536 < fuel
      → fdo.pos ≡ length fdo.bytes
      → fdo.pos + length (padded (left_of fdi) (sz - i)) ≤ os.file_max
      → copy_loop os fuel fdo fdi i sz lchk
        ≡ copied
            (appended fdo (padded (left_of fdi) (sz - i)))
            (advanced fdi (length (take (sz - i) (left_of fdi))))
            (xor_words lchk (padded (left_of fdi) (sz - i)))
  copy_loop_lem zero fdo fdi i sz lchk enough e room = absurd (omega arith)
  copy_loop_lem (suc fuel) fdo fdi i sz lchk enough e room = elim (le_or_lt sz i) [
    | inl over ↦
        copy_loop_end fuel fdo fdi i sz lchk over
        ∙ copied_none fdo fdi lchk (padded (left_of fdi) (sz - i))
            (length (take (sz - i) (left_of fdi)))
            (padded-zero (left_of fdi) (sz - i) (omega arith))
            (omega (arith, length-take (sz - i) (left_of fdi)))
    | inr more ↦ elim (le_or_lt (length (left_of fdi)) 0) [
      | inl none_left ↦
          let empty : left_of fdi ≡ [] = nil_of_length (left_of fdi) none_left in
          copy_loop_eof fuel fdo fdi i sz lchk more empty
          ∙ copied_eq refl (file_eq refl (omega arith)) refl
          ∙ copied_none fdo fdi lchk (padded (left_of fdi) (sz - i))
              (length (take (sz - i) (left_of fdi)))
              (ap (λ t. padded t (sz - i)) empty ∙ padded-nil (sz - i))
              (omega (arith, length-take (sz - i) (left_of fdi)))
      | inr some_left ↦
          let src = left_of fdi in
          let m = sz - i in
          let k = block_len m in
          let block = block_of src k in
          let fdi' = advanced fdi (length (take k src)) in
          let c = block_len_cases m (omega arith) in
          let len : length block ≡ k = length-block_of src k in
          let split = padded_step src m (omega arith) some_left in
          let src_eq : left_of fdi' ≡ drop k src =
            sym (drop-drop fdi.pos (length (take k src)) fdi.bytes) ∙ drop-length-take k src in
          let rest_eq : padded (left_of fdi') (sz - (i + length block))
              ≡ padded (drop k src) (m - k) =
            ap₂ padded src_eq (omega arith) in
          let lens : length (padded src m) ≡ k + length (padded (drop k src) (m - k)) = omega (
            arith,
            ap (λ (t : List ℕ). length t) split,
            length-append block (padded (drop k src) (m - k)),
          ) in
          copy_loop_step fuel fdo fdi i sz lchk more some_left e (omega arith)
          ∙ copy_loop_lem fuel (appended fdo block) fdi' (i + length block) sz
              (xor_words lchk block) (omega arith) (omega (arith, length-append fdo.bytes block))
              (omega (arith, ap (λ (t : List ℕ). length t) rest_eq))
          ∙ copied_eq
              (file_eq
                (append_assoc fdo.bytes block _
                  ∙ ap (λ t. fdo.bytes ++ (block ++ t)) rest_eq
                  ∙ ap (λ t. fdo.bytes ++ t) (sym split))
                (omega (arith, ap (λ (t : List ℕ). length t) rest_eq)))
              (file_eq refl (
                omega (
                  arith,
                  length-take k src,
                  length-take m src,
                  length-drop k src,
                  length-take (sz - (i + length block)) (left_of fdi'),
                  ap (λ (t : List ℕ). length t) src_eq,
                )))
              (ap (λ t. xor_words (xor_words lchk block) t) rest_eq
                ∙ xor_words_block lchk src (drop k src) m (omega arith)
                ∙ ap (λ t. xor_words lchk t) (sym split))
    ]
  ]
