-- ===== src/Core/BufExt.antt =====
-- sqlx-core/src/io/buf.rs: strings that end in a zero byte or have a known length. The crate `memchr` and the check for
-- UTF-8 are parameters, and `advance` is that of the crate `bytes`.
use sqlx.Base.{
  ◌<◌, Yields, Option-cases, Bool-cases, inl, inr, ℕ, ◌+◌, ◌≡◌, ◌≢◌, refl, sym, ◌∙◌, ap, Bool, true,
  Option, some, List, [], ◌∷◌, ◌++◌, leb, le→leb, if◌then◌else◌, Outcome, ok, err, panic, ◌>>=◌,
  lift, ok_or, length, length-append, take, arith,
}
use mathlib.Core.List.{append_assoc}
use sqlx.Base.Slices.{take-append}
use sqlx.Base.Bytes.{Buf, advance-append}

pub data BufError : Type 0 where
  expected_nul not_utf8 : BufError

abbrev pub AllDiffer : ℕ → List ℕ → Type 0
AllDiffer c [] = Unit
AllDiffer c (x ∷ xs) = (x ≢ c) × AllDiffer c xs

-- What is assumed of the crate `memchr`: it finds a byte that comes after bytes that differ, and the
-- index that it finds is one of the slice.
abbrev pub FindsFirst : (ℕ → List ℕ → Option ℕ) → Type 0
FindsFirst memchr =
    (c : ℕ) (xs rest : List ℕ) → AllDiffer c xs → memchr c (xs ++ c ∷ rest) ≡ some (length xs)

abbrev pub FindsWithin : (ℕ → List ℕ → Option ℕ) → Type 0
FindsWithin memchr = (c : ℕ) (xs : List ℕ) (i : ℕ) → memchr c xs ≡ some i → i < length xs

-- `self.slice(..n)` and `&self[..n]` panic out of bounds.
abbrev slice_to {ℓ} : {E : Type ℓ} → ℕ → List ℕ → Outcome E (List ℕ)
slice_to n xs = if leb n (length xs) then ok (take n xs) else panic

abbrev checked_str : (List ℕ → Bool) → List ℕ → Outcome BufError (List ℕ)
checked_str is_utf8 v = if is_utf8 v then ok v else err not_utf8

-- Of a known length.
module _ (cursor : Buf) where
  open cursor use {advance}

  get_bytes : ℕ → List ℕ → Outcome ⊥ (List ℕ × List ℕ)
  get_bytes len xs = do v ← slice_to len xs; rest ← advance len xs; ok (v, rest)

  pub get_str : (List ℕ → Bool) → ℕ → List ℕ → Outcome BufError (List ℕ × List ℕ)
  get_str is_utf8 len xs = slice_to len xs >>= λ s.
      checked_str is_utf8 s >>= λ v. lift (advance len xs) >>= λ rest. ok (v, rest)

  get_bytes-append : (xs rest : List ℕ) → get_bytes (length xs) (xs ++ rest) ≡ ok (xs, rest)
  unfolding get_bytes
  get_bytes-append xs rest =
      rw
        (
          le→leb (length xs) (length (xs ++ rest)) (omega (arith, length-append xs rest)),
          take-append xs rest (length xs) refl,
          advance-append cursor xs rest,
        )
        refl

  pub get_str-append :
      (is_utf8 : List ℕ → Bool) (xs rest : List ℕ)
      → get_str is_utf8 (length xs) (xs ++ rest)
        ≡ (if is_utf8 xs then ok (xs, rest) else err not_utf8)
  unfolding get_str
  get_str-append is_utf8 xs rest =
      rw
        (
          le→leb (length xs) (length (xs ++ rest)) (omega (arith, length-append xs rest)),
          take-append xs rest (length xs) refl,
          advance-append cursor xs rest,
        )
        (elim (Bool-cases (is_utf8 xs)) [ inl e ↦ rw e refl | inr e ↦ rw e refl ])

-- That end in a zero byte.
module _ (cursor : Buf) (memchr : ℕ → List ℕ → Option ℕ) (is_utf8 : List ℕ → Bool) where
  open cursor use {advance, advance_read}

  unfoldable pub get_bytes_nul : List ℕ → Outcome BufError (List ℕ × List ℕ)
  get_bytes_nul xs = ok_or (memchr 0 xs) expected_nul >>= λ nul.
      slice_to nul xs >>= λ v. lift (advance (nul + 1) xs) >>= λ rest. ok (v, rest)

  unfoldable pub get_str_nul : List ℕ → Outcome BufError (List ℕ × List ℕ)
  unfolding get_bytes_nul
  get_str_nul xs =
      get_bytes_nul xs >>= λ (v, rest). if is_utf8 v then ok (v, rest) else err not_utf8

  pub get_str_nul-append :
      FindsFirst memchr
      → (xs rest : List ℕ) → AllDiffer 0 xs
      → is_utf8 xs ≡ true
      → get_str_nul (xs ++ 0 ∷ rest) ≡ ok (xs, rest)
  unfolding get_str_nul get_bytes_nul
  get_str_nul-append first xs rest differ text =
      let last = advance-append cursor (xs ++ 0 ∷ []) rest in
      let grouped : xs ++ 0 ∷ rest ≡ (xs ++ 0 ∷ []) ++ rest = sym (append_assoc xs (0 ∷ []) rest) in
      let size : length (xs ++ 0 ∷ []) ≡ length xs + 1 = length-append xs (0 ∷ []) in
      let moved : advance (length xs + 1) (xs ++ 0 ∷ rest) ≡ ok rest =
        ap (λ n. advance n (xs ++ 0 ∷ rest)) (sym size)
        ∙ ap (advance (length (xs ++ 0 ∷ []))) grouped
        ∙ last in
      rw
        (
          first 0 xs rest differ,
          le→leb (length xs) (length (xs ++ 0 ∷ rest)) (omega (arith, length-append xs (0 ∷ rest))),
          take-append xs (0 ∷ rest) (length xs) refl,
          moved,
          text,
        )
        refl

  pub get_str_nul-Yields :
      FindsWithin memchr → (xs : List ℕ) → Yields (λ _. Unit {0}) (get_str_nul xs)
  unfolding get_str_nul get_bytes_nul
  get_str_nul-Yields within xs = elim (Option-cases (memchr 0 xs)) [
    | inl e ↦ rw e tt
    | inr (nul, e) ↦
        let bound = within 0 xs nul e in
        elim (Bool-cases (is_utf8 (take nul xs))) [
          | inl text ↦
              rw
                (
                  e,
                  le→leb nul (length xs) (omega (arith, bound)),
                  advance_read (nul + 1) xs (omega (arith, bound)),
                  text,
                )
                tt
          | inr other ↦
              rw
                (
                  e,
                  le→leb nul (length xs) (omega (arith, bound)),
                  advance_read (nul + 1) xs (omega (arith, bound)),
                  other,
                )
                tt
        ]
  ]
