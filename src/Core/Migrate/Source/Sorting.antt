-- ===== src/Core/Migrate/Source/Sorting.antt =====
-- sqlx-core/src/migrate/source.rs: the migrations that are returned are sorted by version.
use sqlx.Base.{◌≡◌, refl, ap, ◌∙◌, Bool-cases, inl, inr, List, [], ◌∷◌, arith, if◌then◌else◌}
use sqlx.Base.Int.{ℤ, ◌≤ℤ◌, ltb_ℤ}
use sqlx.Base.Eq.{int_eq, int_beq, int_beq_iff}
use sqlx.Core.Migrate.{Migration}
use sqlx.Core.Migrate.Source.{insert, sort_by_version}

-- Every version is at most that of the migrations behind it.
abbrev pub AllFrom : ℤ → List Migration → Type 0
AllFrom v [] = Unit
AllFrom v (m ∷ ms) = (v ≤ℤ m.version) × AllFrom v ms

abbrev pub IsSorted : List Migration → Type 0
IsSorted [] = Unit
IsSorted (m ∷ ms) = AllFrom m.version ms × IsSorted ms

-- The migrations of one version, in order.
pub with_version : ℤ → List Migration → List Migration
with_version v [] = []
with_version v (m ∷ ms) =
    let rest = with_version v ms in if int_beq m.version v then m ∷ rest else rest

AllFrom-insert :
    (v : ℤ) (m : Migration) (ms : List Migration)
    → v ≤ℤ m.version
    → AllFrom v ms
    → AllFrom v (insert m ms)
unfolding insert
AllFrom-insert v m [] le h = (le, tt)
AllFrom-insert v m (x ∷ xs) le (at_x, h) = elim (Bool-cases (ltb_ℤ x.version m.version)) [
  | inl lt ↦ rw lt (at_x, AllFrom-insert v m xs le h)
  | inr ge ↦ rw ge (le, (at_x, h))
]

AllFrom-below : (v w : ℤ) (ms : List Migration) → v ≤ℤ w → AllFrom w ms → AllFrom v ms
AllFrom-below v w [] le h = tt
AllFrom-below v w (m ∷ ms) le (at_m, h) = (omega (arith, le, at_m), AllFrom-below v w ms le h)

insert-IsSorted : (m : Migration) (ms : List Migration) → IsSorted ms → IsSorted (insert m ms)
unfolding insert
insert-IsSorted m [] h = (tt, tt)
insert-IsSorted m (x ∷ xs) (from, h) = elim (Bool-cases (ltb_ℤ x.version m.version)) [
  | inl lt ↦ rw lt (AllFrom-insert x.version m xs (ground (arith, lt)) from, insert-IsSorted m xs h)
  | inr ge ↦
      let le : m.version ≤ℤ x.version = ground (arith, ge) in
      rw ge ((le, AllFrom-below m.version x.version xs le from), (from, h))
]

pub sort_by_version-IsSorted : (ms : List Migration) → IsSorted (sort_by_version ms)
unfolding sort_by_version
sort_by_version-IsSorted [] = tt
sort_by_version-IsSorted (m ∷ ms) =
    insert-IsSorted m (sort_by_version ms) (sort_by_version-IsSorted ms)

with_version-insert :
    (v : ℤ) (m : Migration) (ms : List Migration)
    → with_version v (insert m ms) ≡ with_version v (m ∷ ms)
unfolding insert with_version
with_version-insert v m [] = refl
with_version-insert v m (x ∷ xs) = elim (Bool-cases (ltb_ℤ x.version m.version)) [
  | inl lt ↦
      rw (lt, with_version-insert v m xs)
        (ground (arith, int_beq_iff x.version v, int_beq_iff m.version v))
  | inr ge ↦ rw ge refl
]

pub with_version-sort_by_version :
    (v : ℤ) (ms : List Migration) → with_version v (sort_by_version ms) ≡ with_version v ms
unfolding sort_by_version with_version
with_version-sort_by_version v [] = refl
with_version-sort_by_version v (m ∷ ms) =
    with_version-insert v m (sort_by_version ms)
    ∙ ap (λ rest. if int_beq m.version v then m ∷ rest else rest)
        (with_version-sort_by_version v ms)
