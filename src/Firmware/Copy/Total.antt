-- ===== src/Firmware/Copy/Total.antt =====
-- `readwrite` as a whole: it always ends, and what it does where nothing fails.
use alt_f.Prelude.{
  ℕ, zero, suc, ◌+◌, ◌-◌, ◌/◌, ◌≤◌, ◌<◌, ◌≡◌, ◌≢◌, refl, sym, ap, subst, ◌∙◌, inl, inr, not, ◌||◌,
  Option, none, some, List, [], ◌∷◌, ◌++◌, length, take, drop, replicate, ◌==◌, if◌then◌else◌,
  arith, lt→ltb, le_or_lt, length-append, length-replicate,
}
use alt_f.Firmware.File.{Os, File, seek_set, read}
use alt_f.Firmware.File.Laws.{IsReliable, seek_lem}
use alt_f.Firmware.Copy.{
  block_size, block_len, xor_words, Round, bad, eof, wrote, fill_block, store_block, copy_block,
  copy_loop, check_sum, readwrite, Copied, failed, diverged, copied,
}
use alt_f.Firmware.Copy.Laws.{padded, block_len_cases}
use alt_f.Firmware.Copy.Loop.{copy_loop_lem, left_of, appended, advanced}

-- The sum that `readwrite` computes over some bytes.
abbrev pub sum_of : List ℕ → ℕ
sum_of bs = xor_words 0 bs

copy_whole :
    (os : Os) (fdo fdi : File) (sz fuel : ℕ)
    → IsReliable os
    → (sz + 65535) / 65536 < fuel
    → fdo.pos ≡ length fdo.bytes
    → fdo.pos + length (padded (left_of fdi) sz) ≤ os.file_max
    → copy_loop os fuel fdo fdi 0 sz 0
      ≡ copied
          (appended fdo (padded (left_of fdi) sz))
          (advanced fdi (length (take sz (left_of fdi))))
          (sum_of (padded (left_of fdi) sz))
copy_whole os fdo fdi sz fuel r enough e room =
    let same : sz - 0 ≡ sz = omega arith in
    subst
      (λ n.
        copy_loop os fuel fdo fdi 0 sz 0
        ≡ copied (appended fdo (padded (left_of fdi) n))
            (advanced fdi (length (take n (left_of fdi)))) (sum_of (padded (left_of fdi) n)))
      same
      (copy_loop_lem os r fuel fdo fdi 0 sz 0 (omega arith) e
        (subst (λ n. fdo.pos + length (padded (left_of fdi) n) ≤ os.file_max) (sym same) room))

check_sum_lem :
    (chk l : ℕ) (a b : File)
    → check_sum chk (copied a b l) ≡ (if chk == 0 || l == chk then copied a b l else failed)
unfolding check_sum
check_sum_lem chk l a b = ground arith

readwrite_good :
    (os : Os) (fdo fdi : File) (off sz chk : ℕ)
    → IsReliable os
    → off ≤ os.off_max
    → readwrite os fdo fdi off sz chk
      ≡ check_sum chk (copy_loop os (sz / block_size + 2) fdo (record fdi { pos = off }) 0 sz 0)
unfolding readwrite
readwrite_good os fdo fdi off sz chk r low = ground (arith, r.malloc, seek_lem os fdi off low)

-- Where nothing fails and there is room, `readwrite` copies `sz` bytes from `off` to the end of its
-- target. Of a source that ends earlier it copies all that there is, and fills the last block of 64
-- KiB in which the source has bytes, counted from `off`, up with zeros, but never beyond `sz` bytes;
-- no block is made of zeros only. It leaves the sum of what it wrote, zeros included, and a `*chk`
-- that is neither 0 nor this sum makes it fail.
pub readwrite_lem :
    (os : Os) (fdo fdi : File) (off sz chk : ℕ)
    → IsReliable os
    → off ≤ os.off_max
    → fdo.pos ≡ length fdo.bytes
    → fdo.pos + length (padded (drop off fdi.bytes) sz) ≤ os.file_max
    → let block = padded (drop off fdi.bytes) sz in
      readwrite os fdo fdi off sz chk ≡ (
        if chk == 0 || sum_of block == chk
        then copied
            (record { bytes = fdo.bytes ++ block; pos = fdo.pos + length block })
            (record { bytes = fdi.bytes; pos = off + length (take sz (drop off fdi.bytes)) })
            (sum_of block)
        else failed)
readwrite_lem os fdo fdi off sz chk r low e room =
    readwrite_good os fdo fdi off sz chk r low
    ∙ ap (λ t. check_sum chk t)
        (copy_whole os fdo (record fdi { pos = off }) sz (sz / block_size + 2) r (omega arith) e
          room)
    ∙ check_sum_lem chk (sum_of (padded (drop off fdi.bytes) sz)) _ _

-- The fuel of the loop is enough, whatever fails.
module _ (os : Os) where
  store_block_len :
      (fdo fdi : File) (block : List ℕ) {fdo' fdi' : File} {block' : List ℕ}
      → store_block os fdo fdi block ≡ wrote fdo' fdi' block'
      → length block' ≡ length block
  unfolding store_block
  store_block_len fdo fdi block h = ground arith

  fill_block_len :
      (fdo : File) (k : ℕ) (o : Option (List ℕ × File)) {fdo' fdi' : File} {block : List ℕ}
      → fill_block os fdo k o ≡ wrote fdo' fdi' block
      → (0 < length block) × (k ≤ length block)
  unfolding fill_block
  fill_block_len fdo k none h = cc
  fill_block_len fdo k (some ([], fdi)) h = cc
  fill_block_len fdo k (some (b ∷ buf, fdi)) h =
      let zeros : List ℕ = replicate (k - length (b ∷ buf)) 0 in
      omega (
        arith,
        store_block_len fdo fdi ((b ∷ buf) ++ zeros) h,
        length-append (b ∷ buf) zeros,
        length-replicate {0} {A = ℕ} (k - length (b ∷ buf)) 0,
      )

  copy_block_len :
      (fdo fdi : File) (k : ℕ) {fdo' fdi' : File} {block : List ℕ}
      → copy_block os fdo fdi k ≡ wrote fdo' fdi' block
      → (0 < length block) × (k ≤ length block)
  unfolding copy_block
  copy_block_len fdo fdi k h = fill_block_len fdo k (read os fdi k) h

  done-ne-diverged :
      (fuel : ℕ) (fdo fdi : File) (i sz lchk : ℕ)
      → sz ≤ i
      → copy_loop os (suc fuel) fdo fdi i sz lchk ≢ diverged
  unfolding copy_loop
  done-ne-diverged fuel fdo fdi i sz lchk over h = ground arith

  -- One round: the fuel that is left covers what is left.
  round-ne-diverged :
      (fuel : ℕ) (fdo fdi : File) (i sz lchk : ℕ) (r : Round)
      → copy_block os fdo fdi (block_len (sz - i)) ≡ r
      → (sz - i + 65535) / 65536 < suc fuel
      → i < sz
      → ((fdo' fdi' : File) (i' lchk' : ℕ)
          → (sz - i' + 65535) / 65536 < fuel
          → copy_loop os fuel fdo' fdi' i' sz lchk' ≢ diverged)
      → copy_loop os (suc fuel) fdo fdi i sz lchk ≢ diverged
  unfolding copy_loop
  round-ne-diverged fuel fdo fdi i sz lchk bad e enough more ih =
      rw (lt→ltb i sz more, e, copy_loop) (λ h. cc)
  round-ne-diverged fuel fdo fdi i sz lchk (eof fdi') e enough more ih =
      rw (lt→ltb i sz more, e, copy_loop) (λ h. cc)
  round-ne-diverged fuel fdo fdi i sz lchk (wrote fdo' fdi' block) e enough more ih =
      rw (lt→ltb i sz more, e, copy_loop)
        (ih fdo' fdi' (i + length block) (xor_words lchk block) (
          omega (
            arith,
            block_len_cases (sz - i) (omega arith),
            copy_block_len fdo fdi (block_len (sz - i)) e,
          )))

  copy_loop-ne-diverged :
      (fuel : ℕ) (fdo fdi : File) (i sz lchk : ℕ)
      → (sz - i + 65535) / 65536 < fuel
      → copy_loop os fuel fdo fdi i sz lchk ≢ diverged
  copy_loop-ne-diverged zero fdo fdi i sz lchk enough = absurd (omega arith)
  copy_loop-ne-diverged (suc fuel) fdo fdi i sz lchk enough = elim (le_or_lt sz i) [
    | inl over ↦ done-ne-diverged fuel fdo fdi i sz lchk over
    | inr more ↦
        round-ne-diverged fuel fdo fdi i sz lchk _ refl enough more
          λ fdo' fdi' i' lchk' enough'. copy_loop-ne-diverged fuel fdo' fdi' i' sz lchk' enough'
  ]

check_sum-ne-diverged : (chk : ℕ) (c : Copied) → c ≢ diverged → check_sum chk c ≢ diverged
unfolding check_sum
check_sum-ne-diverged chk failed h e = cc
check_sum-ne-diverged chk diverged h e = h refl
check_sum-ne-diverged chk (copied a b l) h e = ground arith

-- Whatever fails, `readwrite` comes back: its loop ends within the fuel of one round for each
-- block and two more.
pub readwrite-ne-diverged :
    (os : Os) (fdo fdi : File) (off sz chk : ℕ) → readwrite os fdo fdi off sz chk ≢ diverged
unfolding readwrite
readwrite-ne-diverged os fdo fdi off sz chk = ends (seek_set os fdi off)
  where
    ends :
        (o : Option File)
        → (if not os.malloc_ok then failed else elim o [
          | none ↦ failed
          | some fdi' ↦ check_sum chk (copy_loop os (sz / block_size + 2) fdo fdi' 0 sz 0)
        ])
          ≢ diverged
    ends none e = ground arith
    ends (some fdi') e = ground (
      arith,
      check_sum-ne-diverged chk (copy_loop os (sz / block_size + 2) fdo fdi' 0 sz 0)
          (copy_loop-ne-diverged os (sz / block_size + 2) fdo fdi' 0 sz 0 (omega arith)),
    )
