-- ===== src/Firmware/Copy/Laws.antt =====
-- What `readwrite` leaves behind: the bytes asked for, filled up with zeros to the end of the last
-- block that the source begins, and the exclusive or of their words.
use alt_f.Prelude.{
  ℕ, zero, suc, ◌+◌, ◌-◌, ◌*◌, ◌/◌, ◌%◌, ◌≤◌, ◌<◌, min, ◌≡◌, refl, sym, ap, ap₂, ◌∙◌, ◌⊎◌, inl, inr,
  List, [], ◌∷◌, ◌++◌, append-nil, append_assoc, length, take, drop, replicate, length-append,
  length-take, length-drop, length-replicate, leb, le_or_lt, gt→leb, take-append-drop,
  if◌then◌else◌, arith, bit_xor,
}
use alt_f.Prelude.Word.{of_le32}
use alt_f.Prelude.Slices.{take-all, drop-all, take-split}
use alt_f.Firmware.Copy.{xor_words, block_len}

xor_words-append :
    (l : ℕ) (a b : List ℕ) → length a % 4 ≡ 0 → xor_words l (a ++ b) ≡ xor_words (xor_words l a) b
unfolding xor_words
xor_words-append l [] b h = refl
xor_words-append l (p ∷ []) b h = absurd (omega arith)
xor_words-append l (p ∷ q ∷ []) b h = absurd (omega arith)
xor_words-append l (p ∷ q ∷ r ∷ []) b h = absurd (omega arith)
xor_words-append l (p ∷ q ∷ r ∷ s ∷ a) b h =
    xor_words-append (bit_xor l (of_le32 p q r s)) a b (omega arith)

pub xor_words-nil : (l : ℕ) → xor_words l [] ≡ l
unfolding xor_words
xor_words-nil l = refl

-- A length rounded up to whole blocks.
abbrev pub round_up : ℕ → ℕ
round_up n = (n + 65535) / 65536 * 65536

-- `m` bytes of a source, short sources filled up as `readwrite` does.
abbrev pub padded : List ℕ → ℕ → List ℕ
padded src m =
    if leb m (length src)
    then take m src
    else src ++ replicate (min m (round_up (length src)) - length src) 0

abbrev pub block_of : List ℕ → ℕ → List ℕ
block_of src k = take k src ++ replicate (k - length (take k src)) 0

pub block_len_cases :
    (m : ℕ)
    → 0 < m
    → (block_len m ≤ m)
      × (0 < block_len m)
      × (block_len m ≤ 65536)
      × ((block_len m ≡ m) ⊎ (block_len m ≡ 65536))
unfolding block_len
block_len_cases m h = ground arith

pub padded_enough : (src : List ℕ) (m : ℕ) → m ≤ length src → padded src m ≡ take m src
padded_enough src m h = ground arith

padded_short :
    (src : List ℕ) (m z : ℕ)
    → length src < m
    → length src + z ≡ min m (round_up (length src))
    → padded src m ≡ src ++ replicate z 0
padded_short src m z h e = rw (gt→leb m (length src) h) (
    ap (λ n. src ++ replicate n 0) {x = min m (round_up (length src)) - length src} {y = z}
      (omega arith))

pub padded-nil : (m : ℕ) → padded [] m ≡ []
padded-nil zero = refl
padded-nil (suc m) = padded_short [] (suc m) 0 (omega arith) (omega arith)

pub padded-zero : (src : List ℕ) (m : ℕ) → m ≡ 0 → padded src m ≡ []
padded-zero src m e = rw e (padded_enough src 0 (omega arith))

block_full : (src : List ℕ) (k : ℕ) → k ≤ length src → block_of src k ≡ take k src
block_full src k h =
    ap (λ n. take k src ++ replicate n 0) {x = k - length (take k src)} {y = 0}
      (omega (arith, length-take k src))
    ∙ append-nil (take k src)

block_short :
    (src : List ℕ) (k : ℕ) → length src < k → block_of src k ≡ src ++ replicate (k - length src) 0
block_short src k h = ap (λ t. t ++ replicate (k - length t) 0) (take-all k src (omega arith))

-- One block, then what is left.
module _ (src : List ℕ) (m k : ℕ) (k_le : k ≤ m) (k_pos : 0 < k) where
  -- The source has more than the block.
  step_full :
      k ≤ length src
      → (k ≡ m) ⊎ (k ≡ 65536)
      → padded src m ≡ block_of src k ++ padded (drop k src) (m - k)
  step_full full which = elim (le_or_lt m (length src)) [
    | inl enough ↦
        padded_enough src m enough
        ∙ take-split k m src k_le
        ∙ ap₂ ◌++◌ (sym (block_full src k full))
            (sym (padded_enough (drop k src) (m - k) (omega (arith, length-drop k src))))
    | inr short ↦
        padded_short src m (min m (round_up (length src)) - length src) short (omega arith)
        ∙ ap (λ t. t ++ replicate (min m (round_up (length src)) - length src) 0)
            (sym (take-append-drop k src))
        ∙ append_assoc (take k src) (drop k src) _
        ∙ ap₂ ◌++◌ (sym (block_full src k full)) (
            sym (
              padded_short (drop k src) (m - k) (min m (round_up (length src)) - length src)
                (omega (arith, length-drop k src)) (omega (arith, length-drop k src))))
  ]

  -- The source ends inside the block.
  step_last :
      length src < k
      → 0 < length src
      → k ≤ 65536
      → (k ≡ m) ⊎ (k ≡ 65536)
      → padded src m ≡ block_of src k ++ padded (drop k src) (m - k)
  step_last short some_left small which =
      padded_short src m (k - length src) (omega arith) (omega arith)
      ∙ sym (block_short src k short)
      ∙ sym (append-nil (block_of src k))
      ∙ ap (λ t. block_of src k ++ t) (sym (padded-nil (m - k)))
      ∙ ap (λ t. block_of src k ++ padded t (m - k)) (sym (drop-all k src (omega arith)))

pub padded_step :
    (src : List ℕ) (m : ℕ)
    → 0 < m
    → 0 < length src
    → padded src m ≡ block_of src (block_len m) ++ padded (drop (block_len m) src) (m - block_len m)
padded_step src m pos some_left = elim (le_or_lt (block_len m) (length src)) [
  | inl full ↦ let c = block_len_cases m pos in step_full src m (block_len m) c.0 c.1 full c.3
  | inr short ↦
      let c = block_len_cases m pos in step_last src m (block_len m) c.0 c.1 short some_left c.2 c.3
]

pub length-block_of : (src : List ℕ) (k : ℕ) → length (block_of src k) ≡ k
length-block_of src k = omega (
  arith,
  length-append (take k src) (replicate (k - length (take k src)) 0),
  length-replicate {0} {A = ℕ} (k - length (take k src)) 0,
  length-take k src,
)

-- The sum over a block and what follows it: only the last block can have a rest that does not count.
pub xor_words_block :
    (l : ℕ) (src rest : List ℕ) (m : ℕ)
    → 0 < m
    → let k = block_len m in
      xor_words (xor_words l (block_of src k)) (padded rest (m - k))
      ≡ xor_words l (block_of src k ++ padded rest (m - k))
xor_words_block l src rest m pos = elim (block_len_cases m pos).3 [
  | inl last ↦
      let none_left : padded rest (m - block_len m) ≡ [] = padded-zero rest _ (omega arith) in
      rw (none_left, append-nil (block_of src (block_len m))) (xor_words-nil _)
  | inr whole ↦ sym (
      xor_words-append l (block_of src (block_len m)) (padded rest (m - block_len m))
        (omega (arith, length-block_of src (block_len m))))
]
