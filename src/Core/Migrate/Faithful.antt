-- ===== src/Core/Migrate/Faithful.antt =====
-- What the documentation of the trait Migrate promises of a driver, and what follows for the part
-- of `run_direct` and `undo` before their loops.
use sqlx.Base.{
  ℕ, ◌≡◌, refl, sym, ap, ◌∙◌, Bool, true, false, Option, none, some, List, if◌then◌else◌, ◌⊎◌, inl,
  inr, Outcome, ok, err, panic,
}
use sqlx.Base.Int.{ℤ}
use sqlx.Base.Eq.{◌==◌, int_eq}
use sqlx.Core.Migrate.{
  Migration, AppliedMigration, MigrateError, Migrator, Run, continue, ◌>>=◌, ◌>>◌, return, Migrate,
  validate_applied_migrations, validate, get, when, not_dirty, prepare,
}

-- `recorded c v` is the checksum in the row for version `v`, where the table has one. Each field
-- speaks of a call that succeeds; one that fails may leave any rows.
pub record IsFaithful {C : Type 0} (db : Migrate C) (recorded : C → ℤ → Option (List ℕ))
    : Type 0 where
  pub ensure_keeps :
      (c c' : C) (v : ℤ) → db.ensure_migrations_table c ≡ (ok tt, c') → recorded c' v ≡ recorded c v
  pub dirty_keeps :
      (c c' : C) (r : Option ℤ) (v : ℤ)
      → db.dirty_version c ≡ (ok r, c')
      → recorded c' v ≡ recorded c v
  pub lock_keeps : (c c' : C) (v : ℤ) → db.lock c ≡ (ok tt, c') → recorded c' v ≡ recorded c v
  pub unlock_keeps : (c c' : C) (v : ℤ) → db.unlock c ≡ (ok tt, c') → recorded c' v ≡ recorded c v
  pub list_keeps :
      (c c' : C) (rows : List AppliedMigration) (v : ℤ)
      → db.list_applied_migrations c ≡ (ok rows, c')
      → recorded c' v ≡ recorded c v
  pub list_reads :
      (c c' : C) (rows : List AppliedMigration) (v : ℤ)
      → db.list_applied_migrations c ≡ (ok rows, c')
      → get v rows ≡ recorded c v
  pub apply_records :
      (c c' : C) (m : Migration) (v : ℤ)
      → db.apply m c ≡ (ok tt, c')
      → recorded c' v ≡ (if m.version == v then some m.checksum else recorded c v)
  pub revert_forgets :
      (c c' : C) (m : Migration) (v : ℤ)
      → db.revert m c ≡ (ok tt, c')
      → recorded c' v ≡ (if m.version == v then none else recorded c v)

-- A sequence that succeeds is made of two that do.
continue_split :
    {C A B : Type 0} (f : A → Run C B) (r : Outcome MigrateError A) (c : C) {b : B} {c' : C}
    → continue f r c ≡ (ok b, c')
    → (a : A) × (r ≡ ok a) × (f a c ≡ (ok b, c'))
continue_split f (ok a) c h = (a, refl, h)
continue_split f (err e) c h = cc (ap (λ p. p.0) h)
continue_split f panic c h = cc (ap (λ p. p.0) h)

pub >>=-split :
    {C A B : Type 0} (m : Run C A) (f : A → Run C B) (c : C) {b : B} {c' : C}
    → (m >>= f) c ≡ (ok b, c')
    → (a : A) × (c1 : C) × (m c ≡ (ok a, c1)) × (f a c1 ≡ (ok b, c'))
>>=-split m f c h =
    let (a, e, rest) = continue_split f (m c).0 (m c).1 h in
    (a, (m c).1, ap (λ r. (r, (m c).1)) e, rest)

when_cases :
    {C : Type 0} (b : Bool) (action : Run C (Unit {0})) (c : C) {c' : C}
    → when b action c ≡ (ok tt, c')
    → (action c ≡ (ok tt, c')) ⊎ (c' ≡ c)
unfolding when
when_cases true action c h = inl h
when_cases false action c h = inr (ap (λ p. p.1) (sym h))

not_dirty-split :
    {C : Type 0} (r : Option ℤ) (c : C) {c' : C} → not_dirty r c ≡ (ok tt, c') → c' ≡ c
unfolding not_dirty
not_dirty-split none c h = ap (λ p. p.1) (sym h)
not_dirty-split (some v) c h = cc (ap (λ p. p.0) h)

module _ {C : Type 0} {db : Migrate C} {recorded : C → ℤ → Option (List ℕ)}
    (faithful : IsFaithful db recorded) where
  pub unlocked_keeps :
      (b : Bool) (c c' : C) (v : ℤ)
      → when b db.unlock c ≡ (ok tt, c')
      → recorded c' v ≡ recorded c v
  unlocked_keeps b c c' v h = elim (when_cases b db.unlock c h) [
    | inl e ↦ faithful.unlock_keeps c c' v e
    | inr e ↦ ap (λ d. recorded d v) e
  ]

  locked_keeps :
      (b : Bool) (c c' : C) (v : ℤ) → when b db.lock c ≡ (ok tt, c') → recorded c' v ≡ recorded c v
  locked_keeps b c c' v h = elim (when_cases b db.lock c h) [
    | inl e ↦ faithful.lock_keeps c c' v e
    | inr e ↦ ap (λ d. recorded d v) e
  ]

  -- What is known when the preparation succeeds: its result agrees with the rows, which it leaves
  -- alone, and no row is missing from the source unless missing rows are ignored.
  abbrev pub Prepared : Migrator → C → List AppliedMigration → C → Type 0
  Prepared m c applied c' =
      ((v : ℤ) → get v applied ≡ recorded c v)
      × ((v : ℤ) → recorded c' v ≡ recorded c v)
      × (validate_applied_migrations applied m ≡ ok tt)

  prepared_end :
      (m : Migrator) (c c' : C) (rows applied : List AppliedMigration)
      → (validate rows m >> return rows) c ≡ (ok applied, c')
      → (rows ≡ applied) × (c ≡ c') × (validate_applied_migrations applied m ≡ ok tt)
  unfolding validate
  prepared_end m c c' rows applied h =
      let (_, c1, valid, h1) = >>=-split (validate rows m) _ c h in
      let same : rows ≡ applied = cc (ap (λ p. p.0) h1) in
      (
        same,
        ap (λ p. p.1) valid ∙ ap (λ p. p.1) h1,
        ap (λ xs. validate_applied_migrations xs m) (sym same) ∙ ap (λ p. p.0) valid,
      )

  Prepared-rows :
      (m : Migrator) (c c' : C) (applied : List AppliedMigration)
      → (db.list_applied_migrations >>= (λ rows. validate rows m >> return rows)) c
        ≡ (ok applied, c')
      → Prepared m c applied c'
  Prepared-rows m c c' applied h =
      let (rows, c1, listed, h1) = >>=-split db.list_applied_migrations _ c h in
      let (same, here, valid) = prepared_end m c1 c' rows applied h1 in
      (
        λ v. ap (get v) (sym same) ∙ faithful.list_reads c c1 rows v listed,
        λ v. ap (λ d. recorded d v) (sym here) ∙ faithful.list_keeps c c1 rows v listed,
        valid,
      )

  Prepared-moved :
      (m : Migrator) (c d c' : C) (applied : List AppliedMigration)
      → ((v : ℤ) → recorded d v ≡ recorded c v)
      → Prepared m d applied c'
      → Prepared m c applied c'
  Prepared-moved m c d c' applied same (reads, keeps, valid) =
      (λ v. reads v ∙ same v, λ v. keeps v ∙ same v, valid)

  Prepared-clean :
      (m : Migrator) (r : Option ℤ) (c c' : C) (applied : List AppliedMigration)
      → (not_dirty r >> (db.list_applied_migrations >>= (λ rows. validate rows m >> return rows))) c
        ≡ (ok applied, c')
      → Prepared m c applied c'
  Prepared-clean m r c c' applied h =
      let (_, d, clean, h1) = >>=-split (not_dirty r) _ c h in
      Prepared-moved m c d c' applied (λ v. ap (λ x. recorded x v) (not_dirty-split r c clean))
        (Prepared-rows m d c' applied h1)

  pub prepare-Prepared :
      (m : Migrator) (c c' : C) (applied : List AppliedMigration)
      → prepare db m c ≡ (ok applied, c')
      → Prepared m c applied c'
  unfolding prepare
  prepare-Prepared m c c' applied h =
      let (_, c1, locked, h1) = >>=-split (when m.locking db.lock) _ c h in
      let (_, c2, ensured, h2) = >>=-split db.ensure_migrations_table _ c1 h1 in
      let (r, c3, asked, h3) = >>=-split db.dirty_version _ c2 h2 in
      Prepared-moved m c c3 c' applied
        (λ v.
          faithful.dirty_keeps c2 c3 r v asked
          ∙ faithful.ensure_keeps c1 c2 v ensured
          ∙ locked_keeps m.locking c c1 v locked)
        (Prepared-clean m r c3 c' applied h3)
