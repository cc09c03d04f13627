-- ===== src/Base/Slices.antt =====
-- Slices of a list, and the laws of `take` and `drop` that they rest on.
use mathlib.Core.List.{append-nil}
use sqlx.Base.{
  ℕ, zero, suc, ◌+◌, ◌-◌, ◌≤◌, ◌≡◌, refl, sym, ap, ◌∙◌, List, [], ◌∷◌, ◌++◌, arith, length, take,
  drop, length-take, length-drop, length-append,
}

module _ {ℓ} {A : Type ℓ} where
  -- `&xs[a..b]`, within bounds.
  abbrev pub slice : List A → ℕ → ℕ → List A
  slice xs a b = drop a (take b xs)

  pub take-append_length :
      (xs ys : List A) (n k : ℕ) → length xs ≡ n → take (n + k) (xs ++ ys) ≡ xs ++ take k ys
  take-append_length [] ys zero k h = ap (λ n. take n ys) (omega arith)
  take-append_length [] ys (suc n) k h = absurd (omega arith)
  take-append_length (x ∷ xs) ys zero k h = absurd (omega arith)
  take-append_length (x ∷ xs) ys (suc n) k h =
      ap (λ m. take m (x ∷ xs ++ ys)) {x = suc n + k} {y = suc (n + k)} (omega arith)
      ∙ ap (◌∷◌ x) (take-append_length xs ys n k (omega arith))

  pub take-append : (xs ys : List A) (n : ℕ) → length xs ≡ n → take n (xs ++ ys) ≡ xs
  take-append xs ys n h =
      ap (λ m. take m (xs ++ ys)) (omega arith) ∙ take-append_length xs ys n 0 h ∙ append-nil xs

  pub drop-append : (xs ys : List A) (n : ℕ) → length xs ≡ n → drop n (xs ++ ys) ≡ ys
  drop-append [] ys zero h = refl
  drop-append [] ys (suc n) h = absurd (omega arith)
  drop-append (x ∷ xs) ys zero h = absurd (omega arith)
  drop-append (x ∷ xs) ys (suc n) h = drop-append xs ys n (omega arith)

  pub drop-append_le :
      (xs ys : List A) (n : ℕ) → n ≤ length xs → drop n (xs ++ ys) ≡ drop n xs ++ ys
  drop-append_le xs ys zero h = refl
  drop-append_le [] ys (suc n) h = absurd (omega arith)
  drop-append_le (x ∷ xs) ys (suc n) h = drop-append_le xs ys n (omega arith)

  pub take-take : (m n : ℕ) (xs : List A) → m ≤ n → take m (take n xs) ≡ take m xs
  take-take zero n xs h = refl
  take-take (suc m) zero xs h = absurd (omega arith)
  take-take (suc m) (suc n) [] h = refl
  take-take (suc m) (suc n) (x ∷ xs) h = ap (◌∷◌ x) (take-take m n xs (omega arith))

  pub take-all : (n : ℕ) (xs : List A) → length xs ≤ n → take n xs ≡ xs
  take-all zero [] h = refl
  take-all (suc n) [] h = refl
  take-all zero (x ∷ xs) h = absurd (omega arith)
  take-all (suc n) (x ∷ xs) h = ap (◌∷◌ x) (take-all n xs (omega arith))

  pub drop-all : (n : ℕ) (xs : List A) → length xs ≤ n → drop n xs ≡ []
  drop-all zero [] h = refl
  drop-all (suc n) [] h = refl
  drop-all zero (x ∷ xs) h = absurd (omega arith)
  drop-all (suc n) (x ∷ xs) h = drop-all n xs (omega arith)

  pub drop-drop : (m n : ℕ) (xs : List A) → drop m (drop n xs) ≡ drop (n + m) xs
  drop-drop m zero xs = ap (λ k. drop k xs) (omega arith)
  drop-drop zero (suc n) [] = sym (drop-all (suc n + 0) [] (omega arith))
  drop-drop (suc m) (suc n) [] = sym (drop-all (suc n + suc m) [] (omega arith))
  drop-drop m (suc n) (x ∷ xs) =
      drop-drop m n xs ∙ ap (λ k. drop k (x ∷ xs)) {x = suc (n + m)} (omega arith)

  pub length-slice : (xs : List A) (a b : ℕ) → b ≤ length xs → length (slice xs a b) ≡ b - a
  length-slice xs a b h = omega (arith, length-drop a (take b xs), length-take b xs)

  pub length-slice_le : (xs : List A) (a b : ℕ) → length (slice xs a b) ≤ b - a
  length-slice_le xs a b = omega (arith, length-drop a (take b xs), length-take b xs)

  pub slice-middle :
      (a m c : List A) (i j : ℕ) → length a ≡ i → i + length m ≡ j → slice ((a ++ m) ++ c) i j ≡ m
  slice-middle a m c i j hi hj =
      ap (drop i) (take-append (a ++ m) c j (omega (arith, length-append a m)))
      ∙ drop-append a m i hi
