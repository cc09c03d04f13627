-- ===== src/Core/Migrate.antt =====
-- sqlx-core/src/migrate: the migrations of a source, the operations that a driver offers the
-- migrator (the trait Migrate), and Migrator's `run_direct` and `undo`.
pub mod Faithful
pub mod Apply
pub mod Again
pub mod Undo
pub mod Source
pub mod Add
mod Tests
use mathlib.Core.List.{reverse}
use sqlx.Base.{
  ℕ, ◌≡◌, Bool, true, false, Option, none, some, List, [], ◌∷◌, ◌&&◌, if◌then◌else◌, Outcome, ok,
  err, panic,
}
use sqlx.Base.Int.{ℤ, ltb_ℤ}
use sqlx.Base.Eq.{Eq, ◌==◌, int_eq, nat_eq, list_eq}

pub data MigrationType : Type 0 where
  simple reversible_up reversible_down : MigrationType

abbrev pub is_up_migration : MigrationType → Bool
is_up_migration simple = true
is_up_migration reversible_up = true
is_up_migration reversible_down = false

unfoldable pub is_down_migration : MigrationType → Bool
is_down_migration simple = false
is_down_migration reversible_up = false
is_down_migration reversible_down = true

-- Texts are lists of code points.
pub record Migration : Type 0 where
  pub version : ℤ
  pub description : List ℕ
  pub migration_type : MigrationType
  pub sql : List ℕ
  pub checksum : List ℕ
  pub no_tx : Bool

pub record AppliedMigration : Type 0 where
  pub version : ℤ
  pub checksum : List ℕ

-- The errors of the driver (`execute`, `execute_migration`) and of a source are not looked into.
pub data MigrateError : Type 0 where
  execute source force_not_supported invalid_mix_reversible_and_simple : MigrateError
  execute_migration version_missing version_mismatch version_not_present dirty : ℤ → MigrateError
  version_too_old version_too_new : ℤ → ℤ → MigrateError

pub record Migrator : Type 0 where
  pub migrations : List Migration
  pub ignore_missing : Bool
  pub locking : Bool
  pub no_tx : Bool

-- A computation on a connection: the outcome, and the connection after.
abbrev pub Run : Type 0 → Type 0 → Type 0
Run C A = C → Outcome MigrateError A × C

abbrev pub continue :
    {C A B : Type 0} → (A → Run C B) → Outcome MigrateError A → C → Outcome MigrateError B × C
continue f (ok a) c = f a c
continue f (err e) c = (err e, c)
continue f panic c = (panic, c)

infixl 5 ◌>>=◌ ◌>>◌
abbrev pub ◌>>=◌ : {C A B : Type 0} → Run C A → (A → Run C B) → Run C B
◌>>=◌ m f c = continue f (m c).0 (m c).1

abbrev pub ◌>>◌ : {C A B : Type 0} → Run C A → Run C B → Run C B
m >> k = m >>= λ _. k

abbrev pub return : {C A : Type 0} → A → Run C A
return a c = (ok a, c)

abbrev pub fail : {C A : Type 0} → MigrateError → Run C A
fail e c = (err e, c)

-- The trait Migrate, for a connection of type `C`.
pub record Migrate (C : Type 0) : Type 0 where
  pub ensure_migrations_table : Run C (Unit {0})
  pub dirty_version : Run C (Option ℤ)
  pub list_applied_migrations : Run C (List AppliedMigration)
  pub lock : Run C (Unit {0})
  pub unlock : Run C (Unit {0})
  pub apply : Migration → Run C (Unit {0})
  pub revert : Migration → Run C (Unit {0})

pub has_version : ℤ → List Migration → Bool
has_version v [] = false
has_version v (m ∷ ms) = let rest = has_version v ms in if m.version == v then true else rest

-- The loop of `validate_applied_migrations`.
pub missing_version : List AppliedMigration → List Migration → Option ℤ
missing_version [] ms = none
missing_version (a ∷ rest) ms =
    let later = missing_version rest ms in
    if has_version a.version ms then later else some a.version

valid : Option ℤ → Outcome MigrateError (Unit {0})
valid none = ok tt
valid (some v) = err (version_missing v)

pub validate_applied_migrations : List AppliedMigration → Migrator → Outcome MigrateError (Unit {0})
validate_applied_migrations applied m =
    if m.ignore_missing then ok tt else valid (missing_version applied m.migrations)

or_else : Option (List ℕ) → Option (List ℕ) → Option (List ℕ)
or_else none o = o
or_else (some k) o = some k

-- The map collected from the applied migrations: a later row for a version replaces an earlier.
pub get : ℤ → List AppliedMigration → Option (List ℕ)
get v [] = none
get v (a ∷ rest) = or_else (get v rest) (if a.version == v then some a.checksum else none)

pub contains_key : ℤ → List AppliedMigration → Bool
contains_key v applied = elim (get v applied) [ none ↦ false | some k ↦ true ]

-- What `undo` reverts, from the migrations in reverse order.
pub to_revert : List AppliedMigration → ℤ → List Migration → List Migration
to_revert applied target [] = []
to_revert applied target (m ∷ ms) =
    let rest = to_revert applied target ms in
    if is_down_migration m.migration_type
      && contains_key m.version applied
      && ltb_ℤ target m.version
    then m ∷ rest
    else rest

pub when : {C : Type 0} → Bool → Run C (Unit {0}) → Run C (Unit {0})
when true action = action
when false action = return tt

pub not_dirty : {C : Type 0} → Option ℤ → Run C (Unit {0})
not_dirty none = return tt
not_dirty (some v) = fail (dirty v)

pub validate : {C : Type 0} → List AppliedMigration → Migrator → Run C (Unit {0})
validate applied m c = (validate_applied_migrations applied m, c)

module _ {C : Type 0} (db : Migrate C) where
  open db use {
    ensure_migrations_table, dirty_version, list_applied_migrations, lock, unlock, apply, revert,
  }

  -- One round of the loop of `run_direct`, for a migration with this entry among the applied ones.
  pub run_one : Migration → Option (List ℕ) → Run C (Unit {0})
  run_one m (some checksum) =
      if list_eq m.checksum checksum then return tt else fail (version_mismatch m.version)
  run_one m none = apply m

  pub run_all : List AppliedMigration → List Migration → Run C (Unit {0})
  run_all applied [] = return tt
  run_all applied (m ∷ ms) =
      let rest = run_all applied ms in
      if is_down_migration m.migration_type
      then rest
      else (run_one m (get m.version applied) >> rest)

  -- What `run_direct` and `undo` do before their loops; the result is the list of applied rows.
  pub prepare : Migrator → Run C (List AppliedMigration)
  prepare m = do
    when m.locking lock
    ensure_migrations_table
    version ← dirty_version
    not_dirty version
    applied ← list_applied_migrations
    validate applied m
    return applied

  pub run_direct : Migrator → Run C (Unit {0})
  run_direct m = do applied ← prepare m; run_all applied m.migrations; when m.locking unlock

  pub revert_all : List Migration → Run C (Unit {0})
  revert_all [] = return tt
  revert_all (m ∷ ms) = revert m >> revert_all ms

  -- `undo`, on a connection already acquired.
  pub undo : Migrator → ℤ → Run C (Unit {0})
  undo m target = do
    applied ← prepare m
    revert_all (to_revert applied target (reverse m.migrations))
    when m.locking unlock
