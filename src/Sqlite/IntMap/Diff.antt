-- ===== src/Sqlite/IntMap/Diff.antt =====
-- What `diff` reports.
use sqlx.Base.{
  ℕ, zero, suc, ◌+◌, ◌-◌, ◌<◌, ◌≤◌, ◌≡◌, refl, Option, none, some, List, [], ◌∷◌, ◌++◌, arith, ltb,
  ◌==◌, if◌then◌else◌, length, length-append, replicate, length-replicate,
}
use sqlx.Base.Eq.{Eq, option_eq}
use sqlx.Sqlite.IntMap.{IntMap, at, changes_from, diff}
use sqlx.Sqlite.IntMap.Slots.{at-append_replicate}

-- The entry for an index in a list of changes.
abbrev pub change_at {ℓ} : {V : Type ℓ} → ℕ → List (ℕ × Option V) → Option (Option V)
change_at j [] = none
change_at j ((i, o) ∷ cs) = if i == j then some o else change_at j cs

-- The indices rise strictly, from `n` on.
abbrev pub Ascending {ℓ} : {V : Type ℓ} → ℕ → List (ℕ × Option V) → Type 0
Ascending n [] = Unit
Ascending n ((i, o) ∷ cs) = (n ≤ i) × Ascending (suc i) cs

Ascending-weaken {ℓ} :
    {V : Type ℓ} (m n : ℕ) (cs : List (ℕ × Option V)) → m ≤ n → Ascending n cs → Ascending m cs
Ascending-weaken m n [] h a = tt
Ascending-weaken m n ((i, o) ∷ cs) h a = (omega arith, a.1)

change_at-below {ℓ} :
    {V : Type ℓ} (j n : ℕ) (cs : List (ℕ × Option V))
    → j < n
    → Ascending n cs
    → change_at j cs ≡ none
change_at-below j n [] h a = refl
change_at-below j n ((i, o) ∷ cs) h a =
    ground (arith, change_at-below j (suc i) cs (omega arith) a.1)

module _ {ℓ} {V : Type ℓ} ⦃e : Eq V⦄ where
  changes_from-Ascending : (i : ℕ) (xs ps : List (Option V)) → Ascending i (changes_from i xs ps)
  unfolding changes_from
  changes_from-Ascending i [] ps = tt
  changes_from-Ascending i (x ∷ xs) [] = ground (
    arith,
    changes_from-Ascending (suc i) xs [],
    Ascending-weaken i (suc i) (changes_from (suc i) xs []),
  )
  changes_from-Ascending i (x ∷ xs) (p ∷ ps) = ground (
    arith,
    changes_from-Ascending (suc i) xs ps,
    Ascending-weaken i (suc i) (changes_from (suc i) xs ps),
  )

  -- The entry that a slot should have.
  abbrev expected : Option V → Option V → Option (Option V)
  expected n p = if option_eq n p then none else some n

  change_at-changes_from :
      (i j : ℕ) (xs ps : List (Option V))
      → length ps ≤ length xs
      → change_at (i + j) (changes_from i xs ps) ≡ expected (at xs j) (at ps j)
  unfolding changes_from
  change_at-changes_from i j [] [] h = refl
  change_at-changes_from i j [] (p ∷ ps) h = elim h [ ]
  change_at-changes_from i zero (x ∷ xs) [] h = ground (
    arith,
    change_at-below i (suc i) (changes_from (suc i) xs []) (omega arith)
        (changes_from-Ascending (suc i) xs []),
  )
  change_at-changes_from i (suc j) (x ∷ xs) [] h =
      ground (arith, change_at-changes_from (suc i) j xs [] (omega arith))
  change_at-changes_from i zero (x ∷ xs) (p ∷ ps) h = ground (
    arith,
    change_at-below i (suc i) (changes_from (suc i) xs ps) (omega arith)
        (changes_from-Ascending (suc i) xs ps),
  )
  change_at-changes_from i (suc j) (x ∷ xs) (p ∷ ps) h =
      ground (arith, change_at-changes_from (suc i) j xs ps (omega arith))

  padded : List (Option V) → List (Option V) → List (Option V)
  padded xs ps =
      xs ++ replicate (if ltb (length xs) (length ps) then length ps - length xs else 0) none

  padded_covers : (xs ps : List (Option V)) → length ps ≤ length (padded xs ps)
  unfolding padded
  padded_covers xs ps =
      let empty : Option V = none in
      let pad : ℕ = if ltb (length xs) (length ps) then length ps - length xs else 0 in
      ground (arith, length-append xs (replicate pad none), length-replicate pad empty)

  -- `diff` lists exactly the indices at which the two maps differ, each once and in rising order,
  -- with what a lookup in the newer map finds there; an index beyond either vector counts as empty.
  pub diff_lem :
      (m prev : IntMap V)
      → Ascending 0 (diff m prev)
        × ((j : ℕ)
            → change_at j (diff m prev)
              ≡ (if option_eq (at m.slots j) (at prev.slots j) then none else some (at m.slots j)))
  unfolding diff padded
  diff_lem m prev = (
    changes_from-Ascending 0 (padded m.slots prev.slots) prev.slots,
    λ j. ground (
      arith,
      change_at-changes_from 0 j (padded m.slots prev.slots) prev.slots
          (padded_covers m.slots prev.slots),
      at-append_replicate m.slots
          (if ltb (length m.slots) (length prev.slots)
            then length prev.slots - length m.slots
            else 0)
          j,
    ),
  )
