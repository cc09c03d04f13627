-- ===== src/Core/Migrate/Again.antt =====
-- Another run of a migrator that has run.
use sqlx.Base.{
  ℕ, ◌≡◌, refl, ap, ◌∙◌, inl, inr, Option, some, List, [], ◌∷◌, Outcome, ok, Bool-cases,
}
use sqlx.Base.Int.{ℤ}
use sqlx.Base.Eq.{int_eq, nat_eq, list_eq_iff}
use sqlx.Core.Migrate.{
  Migration, AppliedMigration, MigrateError, Migrator, continue, Migrate, is_down_migration, get,
  run_one, run_all, prepare, run_direct,
}
use sqlx.Core.Migrate.Faithful.{IsFaithful, prepare-Prepared}
use sqlx.Core.Migrate.Apply.{AreDistinct, AllRecorded, run_direct_records}

module _ {C : Type 0} {db : Migrate C} {recorded : C → ℤ → Option (List ℕ)}
    (faithful : IsFaithful db recorded) where
  run_one_again :
      (m : Migration) (rows : List AppliedMigration) (c : C)
      → get m.version rows ≡ some m.checksum
      → run_one db m (get m.version rows) c ≡ (ok tt, c)
  unfolding run_one
  run_one_again m rows c g = rw (g, run_one) (rw ((list_eq_iff m.checksum m.checksum).1 refl))

  run_all_again :
      (rows : List AppliedMigration) (ms : List Migration) (c c' : C)
      → ((v : ℤ) → get v rows ≡ recorded c v)
      → AllRecorded faithful c ms
      → run_all db rows ms c' ≡ (ok tt, c')
  unfolding run_all
  run_all_again rows [] c c' reads all = refl
  run_all_again rows (m ∷ ms) c c' reads all =
      elim (Bool-cases (is_down_migration m.migration_type)) [
        | inl down ↦ rw (down, run_all) (run_all_again rows ms c c' reads all.1)
        | inr up ↦
            rw (up, run_all)
              (ap
                  (λ (p : Outcome MigrateError (Unit {0}) × C).
                    continue (λ _. run_all db rows ms) p.0 p.1)
                  (run_one_again m rows c' (reads m.version ∙ all.0 up))
                ∙ run_all_again rows ms c c' reads all.1)
      ]

  -- After a run that succeeds, the loop of another run of the same source, over the rows that the
  -- driver then lists, calls nothing: it succeeds and leaves the connection as it is.
  run_direct_again :
      (m : Migrator) (c c' d : C) (rows : List AppliedMigration)
      → AreDistinct m.migrations
      → run_direct db m c ≡ (ok tt, c')
      → prepare db m c' ≡ (ok rows, d)
      → run_all db rows m.migrations d ≡ (ok tt, d)
  run_direct_again m c c' d rows distinct first second =
      run_all_again rows m.migrations c' d (prepare-Prepared faithful m c' d rows second).0
        (run_direct_records faithful m c c' distinct first).0
