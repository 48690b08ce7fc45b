-- ===== src/Sysctrl/Lines.antt =====
-- Reading text files: `fgets`, `strtok` and the `trim` of
-- package/alt-f-utils/alt-f-utils-0.1.11/sysctrl.c.
use alt_f.Prelude.{
  ℕ, zero, suc, ◌-◌, true, false, Option, none, some, List, [], ◌∷◌, ◌++◌, ◌==◌, if◌then◌else◌,
}
use alt_f.Prelude.Text.{skip_spaces, is_space}
use alt_f.Prelude.Scan.{c_string}

-- The texts that `fgets` gives in turn, `room` bytes at most: up to a newline, which it keeps.
-- `acc` is what stands of the present one.
lines_from : ℕ → ℕ → List ℕ → List ℕ → List (List ℕ)
lines_from room free [] [] = []
lines_from room free (a ∷ acc) [] = c_string (a ∷ acc) ∷ []
lines_from room free acc (c ∷ cs) = elim (c == 10) [
  | true ↦ c_string (acc ++ c ∷ []) ∷ lines_from room room [] cs
  | false ↦ elim free [
    | zero ↦ c_string (acc ++ c ∷ []) ∷ lines_from room room [] cs
    | suc k ↦ lines_from room k (acc ++ c ∷ []) cs
  ]
]

-- `while (fgets(buf, size, fp) != NULL)`: a text has `size - 1` bytes at most.
pub lines : ℕ → List ℕ → List (List ℕ)
unfolding lines_from
lines size text = lines_from (size - 2) (size - 2) [] text

-- The text up to a byte and, if the byte is there, what is behind it.
pub split_at : ℕ → List ℕ → List ℕ × Option (List ℕ)
split_at d [] = ([], none)
split_at d (c ∷ cs) = elim (c == d) [
  | true ↦ ([], some cs)
  | false ↦ let (word, rest) = split_at d cs in (c ∷ word, rest)
]

pub skip_byte : ℕ → List ℕ → List ℕ
skip_byte d [] = []
skip_byte d (c ∷ cs) = let rest = skip_byte d cs in if c == d then rest else c ∷ cs

rest_of : Option (List ℕ) → List ℕ
rest_of none = []
rest_of (some rest) = rest

token : List ℕ → List ℕ × Option (List ℕ) → Option (List ℕ × List ℕ)
unfolding rest_of
token [] split = none
token (c ∷ cs) split = some (split.0, rest_of split.1)

-- `strtok` with one delimiter, on a text or on what the call before has left.
pub strtok : ℕ → List ℕ → Option (List ℕ × List ℕ)
unfolding token
strtok d text = let start = skip_byte d text in token start (split_at d start)

-- Trailing spaces off.
pub drop_last_spaces : List ℕ → List ℕ
drop_last_spaces [] = []
drop_last_spaces (c ∷ cs) = elim (drop_last_spaces cs) [
  | [] ↦ if is_space c then [] else c ∷ []
  | d ∷ ds ↦ c ∷ d ∷ ds
]

-- The text without its last byte, and whether this is a quote.
last_quote : List ℕ → Option (List ℕ)
last_quote [] = none
last_quote (c ∷ []) = if c == 34 then some [] else none
last_quote (c ∷ d ∷ ds) = elim (last_quote (d ∷ ds)) [ none ↦ none | some front ↦ some (c ∷ front) ]

-- One quote alone is the first byte and the last: it is overwritten, and the text is empty.
unquote : List ℕ → List ℕ
unfolding last_quote
unquote [] = []
unquote (c ∷ cs) =
    if c == 34
    then elim (last_quote (c ∷ cs)) [ none ↦ c ∷ cs | some [] ↦ [] | some (d ∷ ds) ↦ ds ]
    else c ∷ cs

pub trim : List ℕ → List ℕ
unfolding unquote
trim text = unquote (drop_last_spaces (skip_spaces text))
