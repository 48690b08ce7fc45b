-- ===== src/Firmware/File/Laws.antt =====
-- Writing at the end of a file, and reading inside it.
use alt_f.Prelude.{
  ℕ, ◌+◌, ◌-◌, ◌≤◌, ◌<◌, ◌≡◌, ap, ◌∙◌, true, some, List, [], ◌∷◌, ◌++◌, append-nil, length, take,
  drop, replicate, gt→leb, arith,
}
use alt_f.Prelude.Slices.{take-all, drop-all}
use alt_f.Firmware.File.{Os, File, splice, seek_set, write, read}

-- Nothing fails: memory, seeking, and every read.
pub record IsReliable (os : Os) : Type 0 where
  pub malloc : os.malloc_ok ≡ true
  pub reads : (off : ℕ) → os.readable off ≡ true

splice_end : (old new : List ℕ) → splice old (length old) new ≡ old ++ new
splice_end old new =
    ap
      (λ t.
        (t ++ replicate (length old - length old) 0) ++ (new ++ drop (length old + length new) old))
      (take-all (length old) old (omega arith))
    ∙ ap (λ n. (old ++ replicate n 0) ++ (new ++ drop (length old + length new) old))
        {x = length old - length old} {y = 0} (omega arith)
    ∙ ap (λ t. (old ++ []) ++ (new ++ t)) (drop-all (length old + length new) old (omega arith))
    ∙ ap (λ t. t ++ (new ++ [])) (append-nil old)
    ∙ ap (λ t. old ++ t) (append-nil new)

module _ (os : Os) where
  -- A write of what fits, at the end.
  pub write_end :
      (f : File) (bs : List ℕ)
      → f.pos ≡ length f.bytes
      → f.pos + length bs ≤ os.file_max
      → 0 < length bs
      → write os f bs ≡ some (record { bytes = f.bytes ++ bs; pos = f.pos + length bs })
  unfolding write
  write_end f [] e h n = absurd (omega arith)
  write_end f (b ∷ bs) e h n =
      rw
        (
          gt→leb os.file_max f.pos (omega arith),
          take-all (os.file_max - f.pos) (b ∷ bs) (omega arith),
          e,
        )
        (rw (splice_end f.bytes (b ∷ bs)))

  -- A write of what fits, at the start.
  pub write_start :
      (f : File) (bs : List ℕ)
      → f.pos ≡ 0
      → length bs ≤ os.file_max
      → 0 < length bs
      → write os f bs ≡ some (record { bytes = bs ++ drop (length bs) f.bytes; pos = length bs })
  unfolding write
  write_start f [] e h n = absurd (omega arith)
  write_start f (b ∷ bs) e h n =
      let gap : 0 - length f.bytes ≡ 0 = omega arith in
      rw
        (
          gt→leb os.file_max f.pos (omega arith),
          take-all (os.file_max - f.pos) (b ∷ bs) (omega arith),
          e,
          gap,
        )
        (λ i. some (record {
          bytes = (b ∷ bs) ++ drop (zero_add (length (b ∷ bs)) i) f.bytes;
          pos = zero_add (length (b ∷ bs)) i;
        }))
    where
      zero_add : (k : ℕ) → 0 + k ≡ k
      zero_add k = omega arith

  -- A read of what lies inside.
  pub read_lem :
      (f : File) (n : ℕ)
      → IsReliable os
      → read os f n
        ≡ some (
          take n (drop f.pos f.bytes),
          record f { pos = f.pos + length (take n (drop f.pos f.bytes)) },
        )
  unfolding read
  read_lem f n r = rw (r.reads f.pos)

  pub seek_lem :
      (f : File) (off : ℕ) → off ≤ os.off_max → seek_set os f off ≡ some (record f { pos = off })
  unfolding seek_set
  seek_lem f off h = ground arith
