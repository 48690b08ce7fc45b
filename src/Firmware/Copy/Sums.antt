-- ===== src/Firmware/Copy/Sums.antt =====
-- A checksum is a word.
use alt_f.Prelude.{ℕ, ◌<◌, List, [], ◌∷◌, arith, bit_xor}
use alt_f.Prelude.Word.{of_le32}
use alt_f.Prelude.Xor.{bit_xor_word}
use alt_f.Firmware.Copy.{xor_words}
use alt_f.Firmware.Copy.Total.{sum_of}

abbrev pub AllBytes : List ℕ → Type 0
AllBytes [] = Unit {0}
AllBytes (b ∷ bs) = (b < 256) × AllBytes bs

xor_words-lt : (l : ℕ) (bs : List ℕ) → l < 4294967296 → AllBytes bs → xor_words l bs < 4294967296
unfolding xor_words
xor_words-lt l [] p h = p
xor_words-lt l (a ∷ []) p h = p
xor_words-lt l (a ∷ b ∷ []) p h = p
xor_words-lt l (a ∷ b ∷ c ∷ []) p h = p
xor_words-lt l (a ∷ b ∷ c ∷ d ∷ bs) p h =
    xor_words-lt (bit_xor l (of_le32 a b c d)) bs
      (bit_xor_word l (of_le32 a b c d) p (omega (arith, h.0, h.1.0, h.1.1.0, h.1.1.1.0))) h.1.1.1.1

pub sum_of-lt : (bs : List ℕ) → AllBytes bs → sum_of bs < 4294967296
sum_of-lt bs h = xor_words-lt 0 bs (omega arith) h
