-- ===== src/Prelude/Slices.antt =====
-- Laws of `take`, `drop` and `replicate` that the file and header models share.
use Prim.Native.Nat.{ℕ, zero, suc, ◌+◌, ◌-◌, ◌≤◌}
use mathlib.Core.Path.{◌≡◌, refl, sym, ap, ◌∙◌}
use mathlib.Core.List.{List, [], ◌∷◌, ◌++◌}
use native.Mathlib.Omega.{arith}
use alt_f.Prelude.Lists.{length, take, drop}

pub take-nil {ℓ} : (A : Type ℓ) (n : ℕ) → take {A = A} n [] ≡ []
take-nil A zero = refl
take-nil A (suc n) = refl

pub drop-nil {ℓ} : (A : Type ℓ) (n : ℕ) → drop {A = A} n [] ≡ []
drop-nil A zero = refl
drop-nil A (suc n) = refl

module _ {ℓ} {A : Type ℓ} where
  pub take-all : (n : ℕ) (xs : List A) → length xs ≤ n → take n xs ≡ xs
  take-all zero [] h = refl
  take-all zero (x ∷ xs) h = absurd (omega arith)
  take-all (suc n) [] h = refl
  take-all (suc n) (x ∷ xs) h = ap (λ t. x ∷ t) (take-all n xs (omega arith))

  pub drop-all : (n : ℕ) (xs : List A) → length xs ≤ n → drop n xs ≡ []
  drop-all zero [] h = refl
  drop-all zero (x ∷ xs) h = absurd (omega arith)
  drop-all (suc n) [] h = refl
  drop-all (suc n) (x ∷ xs) h = drop-all n xs (omega arith)

  pub take-append : (n : ℕ) (xs ys : List A) → length xs ≡ n → take n (xs ++ ys) ≡ xs
  take-append zero [] ys h = refl
  take-append zero (x ∷ xs) ys h = absurd (omega arith)
  take-append (suc n) [] ys h = absurd (omega arith)
  take-append (suc n) (x ∷ xs) ys h = ap (λ t. x ∷ t) (take-append n xs ys (omega arith))

  pub drop-append : (n : ℕ) (xs ys : List A) → length xs ≡ n → drop n (xs ++ ys) ≡ ys
  drop-append zero [] ys h = refl
  drop-append zero (x ∷ xs) ys h = absurd (omega arith)
  drop-append (suc n) [] ys h = absurd (omega arith)
  drop-append (suc n) (x ∷ xs) ys h = drop-append n xs ys (omega arith)

  -- A longer prefix is a prefix and then a prefix of the rest.
  pub take-split :
      (k m : ℕ) (xs : List A) → k ≤ m → take m xs ≡ take k xs ++ take (m - k) (drop k xs)
  take-split zero m xs h = ap (λ n. take n xs) (omega arith)
  take-split (suc k) zero xs h = absurd (omega arith)
  take-split (suc k) (suc m) [] h = sym (take-nil A (suc m - suc k))
  take-split (suc k) (suc m) (x ∷ xs) h =
      ap (λ t. x ∷ t)
        (take-split k m xs (omega arith)
          ∙ ap (λ n. take k xs ++ take n (drop k xs)) {x = m - k} {y = suc m - suc k} (omega arith))

  pub drop-drop : (i k : ℕ) (xs : List A) → drop k (drop i xs) ≡ drop (i + k) xs
  drop-drop zero k xs = ap (λ n. drop n xs) {y = zero + k} (omega arith)
  drop-drop (suc i) k [] = drop-nil A k ∙ sym (drop-nil A (suc i + k))
  drop-drop (suc i) k (x ∷ xs) =
      drop-drop i k xs ∙ ap (λ n. drop n (x ∷ xs)) {x = suc (i + k)} {y = suc i + k} (omega arith)

  -- What lies behind a list that is longer than the offset.
  pub drop-append_lt :
      (n : ℕ) (xs ys : List A) → n ≤ length xs → drop n (xs ++ ys) ≡ drop n xs ++ ys
  drop-append_lt zero xs ys h = refl
  drop-append_lt (suc n) [] ys h = absurd (omega arith)
  drop-append_lt (suc n) (x ∷ xs) ys h = drop-append_lt n xs ys (omega arith)

  pub drop-append_add : (n : ℕ) (xs ys : List A) → drop (length xs + n) (xs ++ ys) ≡ drop n ys
  drop-append_add n [] ys = ap (λ k. drop k ys) {x = 0 + n} {y = n} (omega arith)
  drop-append_add n (x ∷ xs) ys =
      ap (λ k. drop k (x ∷ xs ++ ys)) {x = suc (length xs) + n} {y = suc (length xs + n)}
        (omega arith)
      ∙ drop-append_add n xs ys

module _ {ℓ} {A : Type ℓ} where
  pub drop-length-take : (k : ℕ) (xs : List A) → drop (length (take k xs)) xs ≡ drop k xs
  drop-length-take zero xs = refl
  drop-length-take (suc k) [] = refl
  drop-length-take (suc k) (x ∷ xs) = drop-length-take k xs

  pub nil_of_length : (xs : List A) → length xs ≤ 0 → xs ≡ []
  nil_of_length [] h = refl
  nil_of_length (x ∷ xs) h = absurd (omega arith)

  -- An offset behind a first part of known length.
  pub drop_past : (n j : ℕ) (xs ys : List A) → length xs ≡ n → drop (n + j) (xs ++ ys) ≡ drop j ys
  drop_past n j xs ys e =
      ap (λ k. drop k (xs ++ ys)) {x = n + j} {y = length xs + j} (omega arith)
      ∙ drop-append_add j xs ys

  pub take_past :
      (n j : ℕ) (xs ys : List A) → length xs ≡ n → take (n + j) (xs ++ ys) ≡ xs ++ take j ys
  take_past n j [] ys e = ap (λ k. take k ys) {x = n + j} {y = j} (omega arith)
  take_past n j (x ∷ xs) ys e =
      ap (λ k. take k (x ∷ (xs ++ ys))) {x = n + j} {y = suc (length xs + j)} (omega arith)
      ∙ ap (λ t. x ∷ t) (take_past (length xs) j xs ys refl)

  -- The middle of three parts.
  pub take-drop_middle :
      (pre part post : List A) (off n : ℕ)
      → length pre ≡ off
      → length part ≡ n
      → take n (drop off (pre ++ (part ++ post))) ≡ part
  take-drop_middle pre part post off n e f =
      ap (λ t. take n t) (drop-append off pre (part ++ post) e) ∙ take-append n part post f
