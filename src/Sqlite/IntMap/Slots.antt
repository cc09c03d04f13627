-- ===== src/Sqlite/IntMap/Slots.antt =====
-- The vector of slots: growing it, and reading behind a write.
use sqlx.Base.{
  ℕ, zero, suc, ◌+◌, ◌<◌, ◌≡◌, refl, ap, ◌∙◌, max, inl, inr, Option, none, List, [], ◌∷◌, ◌++◌,
  arith, leb, ◌==◌, if◌then◌else◌, Bool-cases, length, length-append, set, replicate,
}
use sqlx.Sqlite.IntMap.{grow, at}

module _ {ℓ} {V : Type ℓ} where
  pub at-append_none : (xs : List (Option V)) (j : ℕ) → at (xs ++ none ∷ []) j ≡ at xs j
  at-append_none [] zero = refl
  at-append_none [] (suc j) = refl
  at-append_none (x ∷ xs) zero = refl
  at-append_none (x ∷ xs) (suc j) = at-append_none xs j

  pub at-append_replicate :
      (xs : List (Option V)) (n j : ℕ) → at (xs ++ replicate n none) j ≡ at xs j
  at-append_replicate [] zero j = refl
  at-append_replicate [] (suc n) zero = refl
  at-append_replicate [] (suc n) (suc j) = at-append_replicate [] n j
  at-append_replicate (x ∷ xs) n zero = refl
  at-append_replicate (x ∷ xs) n (suc j) = at-append_replicate xs n j

  -- Growing adds no value and loses none.
  pub at-grow : (f idx : ℕ) (xs : List (Option V)) (j : ℕ) → at (grow f idx xs) j ≡ at xs j
  unfolding grow
  at-grow zero idx xs j = refl
  at-grow (suc f) idx xs j = elim (Bool-cases (leb (length xs) idx)) [
    | inl more ↦ rw more (at-grow f idx (xs ++ none ∷ []) j ∙ at-append_none xs j)
    | inr done ↦ rw done
  ]

  -- With a round for each slot up to `idx` the loop ends by its test.
  pub length-grow :
      (f idx : ℕ) (xs : List (Option V))
      → idx < length xs + f
      → length (grow f idx xs) ≡ max (length xs) (suc idx)
  unfolding grow
  length-grow zero idx xs h = omega arith
  length-grow (suc f) idx xs h = ground (
    arith,
    length-append xs (none ∷ []),
    length-grow f idx (xs ++ none ∷ []) (omega (arith, length-append xs (none ∷ []))),
  )

  pub at-set :
      (xs : List (Option V)) (i j : ℕ) (o : Option V)
      → i < length xs
      → at (set xs i o) j ≡ (if i == j then o else at xs j)
  at-set [] i j o h = elim h [ ]
  at-set (x ∷ xs) zero zero o h = refl
  at-set (x ∷ xs) zero (suc j) o h = ground arith
  at-set (x ∷ xs) (suc i) zero o h = ground arith
  at-set (x ∷ xs) (suc i) (suc j) o h = ground (arith, at-set xs i j o (omega arith))

  -- Clearing a slot beyond the end does nothing, and there is nothing there.
  pub at-set-none :
      (xs : List (Option V)) (i j : ℕ) → at (set xs i none) j ≡ (if i == j then none else at xs j)
  at-set-none [] i j = ground arith
  at-set-none (x ∷ xs) zero zero = refl
  at-set-none (x ∷ xs) zero (suc j) = ground arith
  at-set-none (x ∷ xs) (suc i) zero = ground arith
  at-set-none (x ∷ xs) (suc i) (suc j) = ground (arith, at-set-none xs i j)

  -- The slots after `expand`, written to at the index that it returns.
  pub at-set-grow :
      (idx j : ℕ) (xs : List (Option V)) (o : Option V)
      → at (set (grow (suc idx) idx xs) idx o) j ≡ (if idx == j then o else at xs j)
  at-set-grow idx j xs o =
      at-set (grow (suc idx) idx xs) idx j o
        (omega (arith, length-grow (suc idx) idx xs (omega arith)))
      ∙ ap (λ r. if idx == j then o else r) (at-grow (suc idx) idx xs j)
