-- ===== src/Core/Migrate/Tests.antt =====
-- A driver over a list of rows, and the migrator's theorems at a run on it.
use sqlx.Base.{
  ℕ, ◌≡◌, refl, sym, ap, ◌∙◌, true, false, Option, none, some, List, [], ◌∷◌, ◌++◌, ◌&&◌,
  if◌then◌else◌, inl, inr, arith, ok, err, Bool-cases,
}
use sqlx.Base.Int.{ℤ, pos, ltb_ℤ}
use sqlx.Base.Eq.{◌==◌, int_eq, int_beq_iff}
use sqlx.Core.Migrate.{
  Migration, AppliedMigration, Migrator, MigrationType, reversible_up, reversible_down,
  version_mismatch, Migrate, get, or_else, run_all, prepare, run_direct, undo, run_one, when,
  not_dirty, validate, validate_applied_migrations, missing_version, has_version, valid,
  is_down_migration, revert_all, to_revert, contains_key,
}
use sqlx.Core.Migrate.Faithful.{IsFaithful}
use sqlx.Core.Migrate.Apply.{AllRecorded, AreDistinct, IsFresh, run_direct_records}
use sqlx.Core.Migrate.Undo.{has_down, undo_lem}

abbrev row_of : Migration → AppliedMigration
row_of m = record { version = m.version; checksum = m.checksum }

without : ℤ → List AppliedMigration → List AppliedMigration
without v [] = []
without v (a ∷ rows) = let rest = without v rows in if v == a.version then rest else a ∷ rest

-- The connection is its table of rows, and no call fails.
abbrev table : Migrate (List AppliedMigration)
table = record {
  ensure_migrations_table = λ c. (ok tt, c);
  dirty_version = λ c. (ok none, c);
  list_applied_migrations = λ c. (ok c, c);
  lock = λ c. (ok tt, c);
  unlock = λ c. (ok tt, c);
  apply = λ m c. (ok tt, c ++ row_of m ∷ []);
  revert = λ m c. (ok tt, without m.version c);
}

abbrev rows_of : List AppliedMigration → ℤ → Option (List ℕ)
rows_of c v = get v c

get-append :
    (v : ℤ) (xs : List AppliedMigration) (a : AppliedMigration)
    → get v (xs ++ a ∷ []) ≡ (if a.version == v then some a.checksum else get v xs)
unfolding get or_else
get-append v [] a = ground arith
get-append v (x ∷ xs) a = ground (arith, get-append v xs a)

get-without :
    (v w : ℤ) (xs : List AppliedMigration)
    → get v (without w xs) ≡ (if w == v then none else get v xs)
unfolding get or_else without
get-without v w [] = ground arith
get-without v w (x ∷ xs) = elim (Bool-cases (w == x.version)) [
  | inl same ↦
      ground (arith, get-without v w xs, ap (λ u. u == v) ((int_beq_iff w x.version).0 same))
  | inr other ↦ elim (Bool-cases (w == v)) [
    | inl here ↦ ground (
      arith,
      get-without v w xs,
      (int_beq_iff x.version v).0,
      (int_beq_iff w v).0 here,
      (int_beq_iff w x.version).1,
    )
    | inr there ↦ ground (arith, get-without v w xs)
  ]
]

table-IsFaithful : IsFaithful table rows_of
table-IsFaithful = record {
  ensure_keeps = λ c c' v h. ap (λ p. get v p.1) (sym h);
  dirty_keeps = λ c c' r v h. ap (λ p. get v p.1) (sym h);
  lock_keeps = λ c c' v h. ap (λ p. get v p.1) (sym h);
  unlock_keeps = λ c c' v h. ap (λ p. get v p.1) (sym h);
  list_keeps = λ c c' rows v h. ap (λ p. get v p.1) (sym h);
  list_reads = λ c c' rows v h. ap (get v) (cc (ap (λ p. p.0) h));
  apply_records = λ c c' m v h. ap (λ p. get v p.1) (sym h) ∙ get-append v c (row_of m);
  revert_forgets = λ c c' m v h. ap (λ p. get v p.1) (sym h) ∙ get-without v m.version c;
}

abbrev migration : ℕ → MigrationType → List ℕ → Migration
migration v t sum = record {
  version = pos v;
  description = [];
  migration_type = t;
  sql = [];
  checksum = sum;
  no_tx = false;
}

-- Two reversible migrations, of which the first is applied.
abbrev source : Migrator
source = record {
  migrations =
      migration 1 reversible_up (11 ∷ [])
      ∷ migration 1 reversible_down (12 ∷ [])
      ∷ migration 2 reversible_up (21 ∷ [])
      ∷ migration 2 reversible_down (22 ∷ [])
      ∷ [];
  ignore_missing = false;
  locking = true;
  no_tx = false;
}

abbrev one_row : List AppliedMigration
one_row = record { version = pos 1; checksum = 11 ∷ [] } ∷ []

abbrev two_rows : List AppliedMigration
two_rows =
    record { version = pos 1; checksum = 11 ∷ [] }
    ∷ record { version = pos 2; checksum = 21 ∷ [] }
    ∷ []

run_once : run_direct table source one_row ≡ (ok tt, two_rows)
unfolding run_direct prepare when not_dirty validate validate_applied_migrations missing_version
    has_version valid run_all run_one get or_else is_down_migration
run_once = refl

-- A row whose checksum is not that of the source stops the run.
run_changed :
    run_direct table source (record { version = pos 1; checksum = 99 ∷ [] } ∷ [])
    ≡ (err (version_mismatch (pos 1)), record { version = pos 1; checksum = 99 ∷ [] } ∷ [])
unfolding run_direct prepare when not_dirty validate validate_applied_migrations missing_version
    has_version valid run_all run_one get or_else is_down_migration
run_changed = refl

undo_to_one : undo table source (pos 1) two_rows ≡ (ok tt, one_row)
unfolding undo prepare when not_dirty validate validate_applied_migrations missing_version
    has_version valid revert_all to_revert contains_key get or_else is_down_migration without
undo_to_one = refl

prepare_again : prepare table source two_rows ≡ (ok two_rows, two_rows)
unfolding prepare when not_dirty validate validate_applied_migrations missing_version has_version
    valid
prepare_again = refl

source-AreDistinct : AreDistinct source.migrations
unfolding is_down_migration
source-AreDistinct = (
  (λ up. ((λ down. down), ((λ up'. refl), ((λ down. refl), tt)))),
  (
    (λ down. ((λ up. refl), ((λ down'. refl), tt))),
    ((λ up. ((λ down. down), tt)), ((λ down. tt), tt)),
  ),
)

run_direct_records_example :
    AllRecorded table-IsFaithful two_rows source.migrations
    × ((v : ℤ) (k : List ℕ) → get v one_row ≡ some k → get v two_rows ≡ some k)
    × ((v : ℤ) → IsFresh v source.migrations → get v two_rows ≡ get v one_row)
run_direct_records_example =
    run_direct_records table-IsFaithful source one_row two_rows source-AreDistinct run_once

undo_lem_example : get (pos 2) one_row ≡ (
    if has_down (pos 2) source.migrations && ltb_ℤ (pos 1) (pos 2)
    then none
    else get (pos 2) two_rows)
undo_lem_example = undo_lem table-IsFaithful source (pos 1) two_rows one_row undo_to_one (pos 2)
