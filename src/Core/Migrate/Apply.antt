-- ===== src/Core/Migrate/Apply.antt =====
-- What a run of the migrator leaves in the table of applied migrations.
use sqlx.Base.{
  ℕ, ◌≡◌, refl, sym, ap, ◌∙◌, ◌⊎◌, inl, inr, true, false, Option, none, some, List, [], ◌∷◌,
  if◌then◌else◌, ok, Bool-cases,
}
use sqlx.Base.Int.{ℤ}
use sqlx.Base.Eq.{◌==◌, int_eq, int_beq_iff, nat_eq, list_eq, list_eq_iff}
use sqlx.Core.Migrate.{
  Migration, AppliedMigration, Migrator, ◌>>◌, Migrate, is_down_migration, get, run_one, run_all,
  prepare, run_direct,
}
use sqlx.Core.Migrate.Faithful.{IsFaithful, >>=-split, prepare-Prepared, unlocked_keeps}

abbrev pub IsUp : Migration → Type 0
IsUp m = is_down_migration m.migration_type ≡ false

-- No up migration of the list has this version.
abbrev pub IsFresh : ℤ → List Migration → Type 0
IsFresh v [] = Unit
IsFresh v (m ∷ ms) = (IsUp m → (m.version == v) ≡ false) × IsFresh v ms

-- No two up migrations have the same version.
abbrev pub AreDistinct : List Migration → Type 0
AreDistinct [] = Unit
AreDistinct (m ∷ ms) = (IsUp m → IsFresh m.version ms) × AreDistinct ms

module _ {C : Type 0} {db : Migrate C} {recorded : C → ℤ → Option (List ℕ)}
    (faithful : IsFaithful db recorded) where
  -- One round that succeeds: the row was there with the right checksum, or it is made.
  run_one_cases :
      (m : Migration) (o : Option (List ℕ)) (c c' : C)
      → run_one db m o c ≡ (ok tt, c')
      → ((o ≡ some m.checksum) × (c' ≡ c)) ⊎ ((o ≡ none) × (db.apply m c ≡ (ok tt, c')))
  unfolding run_one
  run_one_cases m none c c' h = inr (refl, h)
  run_one_cases m (some k) c c' h = elim (Bool-cases (list_eq m.checksum k)) [
    | inl e ↦ inl (ap some (sym ((list_eq_iff m.checksum k).0 e)), sym (ap (λ p. p.1) (rw e at h)))
    | inr e ↦ cc (ap (λ p. p.0) (rw e at h))
  ]

  -- A round leaves the row of any other version, and any row that was there before the loop.
  run_one_other :
      (m : Migration) (o : Option (List ℕ)) (c c' : C) (v : ℤ)
      → run_one db m o c ≡ (ok tt, c')
      → (m.version == v) ≡ false
      → recorded c' v ≡ recorded c v
  run_one_other m o c c' v h ne = elim (run_one_cases m o c c' h) [
    | inl (_, e) ↦ ap (λ d. recorded d v) e
    | inr (_, e) ↦
        faithful.apply_records c c' m v e ∙ ap (λ b. if b then some m.checksum else recorded c v) ne
  ]

  run_all_step :
      (applied : List AppliedMigration) (m : Migration) (ms : List Migration) (c c' : C)
      → run_all db applied (m ∷ ms) c ≡ (ok tt, c')
      → ((is_down_migration m.migration_type ≡ true) × (run_all db applied ms c ≡ (ok tt, c')))
        ⊎ (IsUp m
            × ((d : C) × (run_one db m (get m.version applied) c ≡ (ok tt, d))
                × (run_all db applied ms d ≡ (ok tt, c'))))
  unfolding run_all
  run_all_step applied m ms c c' h = elim (Bool-cases (is_down_migration m.migration_type)) [
    | inl e ↦ inl (e, rw (e, ◌>>◌) at h)
    | inr e ↦
        let (_, d, one, rest) =
          >>=-split (run_one db m (get m.version applied)) (λ _. run_all db applied ms) c
            (rw e at h) in
        inr (e, (d, one, rest))
  ]

  run_all_fresh :
      (applied : List AppliedMigration) (ms : List Migration) (c c' : C) (v : ℤ)
      → run_all db applied ms c ≡ (ok tt, c')
      → IsFresh v ms
      → recorded c' v ≡ recorded c v
  run_all_fresh applied [] c c' v h f = unfold run_all in ap (λ p. recorded p.1 v) (sym h)
  run_all_fresh applied (m ∷ ms) c c' v h f = elim (run_all_step applied m ms c c' h) [
    | inl (_, rest) ↦ run_all_fresh applied ms c c' v rest f.1
    | inr (up, (d, one, rest)) ↦
        run_all_fresh applied ms d c' v rest f.1
        ∙ run_one_other m (get m.version applied) c d v one (f.0 up)
  ]

  -- A round does not change a row that the loop was told of.
  run_one_known :
      (applied : List AppliedMigration) (m : Migration) (c d : C) (v : ℤ) (k : List ℕ)
      → run_one db m (get m.version applied) c ≡ (ok tt, d)
      → get v applied ≡ some k
      → recorded d v ≡ recorded c v
  run_one_known applied m c d v k one g = elim (Bool-cases (m.version == v)) [
    | inl same ↦ elim (run_one_cases m (get m.version applied) c d one) [
      | inl (_, e) ↦ ap (λ x. recorded x v) e
      | inr (none_there, _) ↦
          cc (sym none_there ∙ ap (λ x. get x applied) ((int_beq_iff m.version v).0 same) ∙ g)
    ]
    | inr other ↦ run_one_other m (get m.version applied) c d v one other
  ]

  run_all_known :
      (applied : List AppliedMigration) (ms : List Migration) (c c' : C) (v : ℤ) (k : List ℕ)
      → run_all db applied ms c ≡ (ok tt, c')
      → get v applied ≡ some k
      → recorded c' v ≡ recorded c v
  run_all_known applied [] c c' v k h g = unfold run_all in ap (λ p. recorded p.1 v) (sym h)
  run_all_known applied (m ∷ ms) c c' v k h g = elim (run_all_step applied m ms c c' h) [
    | inl (_, rest) ↦ run_all_known applied ms c c' v k rest g
    | inr (up, (d, one, rest)) ↦
        run_all_known applied ms d c' v k rest g ∙ run_one_known applied m c d v k one g
  ]

  -- Every up migration of the list has a row with its own checksum.
  abbrev pub AllRecorded : C → List Migration → Type 0
  AllRecorded c [] = Unit
  AllRecorded c (m ∷ ms) = (IsUp m → recorded c m.version ≡ some m.checksum) × AllRecorded c ms

  -- The rows that the loop was told of are there.
  abbrev Agrees : List AppliedMigration → C → Type 0
  Agrees applied c = (v : ℤ) (k : List ℕ) → get v applied ≡ some k → recorded c v ≡ some k

  AllRecorded-moved :
      (c d : C) (ms : List Migration)
      → ((v : ℤ) → recorded d v ≡ recorded c v)
      → AllRecorded c ms
      → AllRecorded d ms
  AllRecorded-moved c d [] same r = tt
  AllRecorded-moved c d (m ∷ ms) same r =
      (λ up. same m.version ∙ r.0 up, AllRecorded-moved c d ms same r.1)

  run_one_records :
      (applied : List AppliedMigration) (m : Migration) (c d : C)
      → run_one db m (get m.version applied) c ≡ (ok tt, d)
      → Agrees applied c
      → recorded d m.version ≡ some m.checksum
  run_one_records applied m c d one agree = elim (run_one_cases m (get m.version applied) c d one) [
    | inl (there, e) ↦ ap (λ x. recorded x m.version) e ∙ agree m.version m.checksum there
    | inr (_, e) ↦
        faithful.apply_records c d m m.version e
        ∙ ap (λ b. if b then some m.checksum else recorded c m.version)
            ((int_beq_iff m.version m.version).1 refl)
  ]

  run_all-AllRecorded :
      (applied : List AppliedMigration) (ms : List Migration) (c c' : C)
      → run_all db applied ms c ≡ (ok tt, c')
      → AreDistinct ms
      → Agrees applied c
      → AllRecorded c' ms
  run_all-AllRecorded applied [] c c' h distinct agree = tt
  run_all-AllRecorded applied (m ∷ ms) c c' h distinct agree =
      elim (run_all_step applied m ms c c' h) [
        | inl (down, rest) ↦
            (λ up. cc (sym down ∙ up), run_all-AllRecorded applied ms c c' rest distinct.1 agree)
        | inr (up, (d, one, rest)) ↦ (
          λ _.
              run_all_fresh applied ms d c' m.version rest (distinct.0 up)
              ∙ run_one_records applied m c d one agree,
          run_all-AllRecorded applied ms d c' rest distinct.1
              (λ v k g. run_one_known applied m c d v k one g ∙ agree v k g),
        )
      ]

  -- A run that succeeds, with a driver that does what the trait documents and a source whose up
  -- migrations have distinct versions, leaves a row with its own checksum for every up migration,
  -- keeps every row that was there as it was, and adds none for any other version.
  pub run_direct_records :
      (m : Migrator) (c c' : C)
      → AreDistinct m.migrations
      → run_direct db m c ≡ (ok tt, c')
      → AllRecorded c' m.migrations
        × ((v : ℤ) (k : List ℕ) → recorded c v ≡ some k → recorded c' v ≡ some k)
        × ((v : ℤ) → IsFresh v m.migrations → recorded c' v ≡ recorded c v)
  unfolding run_direct
  run_direct_records m c c' distinct h =
      let (applied, c1, prepared, h1) = >>=-split (prepare db m) _ c h in
      let (_, c2, ran, h2) = >>=-split (run_all db applied m.migrations) _ c1 h1 in
      let (reads, keeps, _) = prepare-Prepared faithful m c c1 applied prepared in
      let last : ((v : ℤ) → recorded c' v ≡ recorded c2 v) =
        λ v. unlocked_keeps faithful m.locking c2 c' v h2 in
      (
        AllRecorded-moved c2 c' m.migrations last (
            run_all-AllRecorded applied m.migrations c1 c2 ran distinct
              (λ v k g. keeps v ∙ sym (reads v) ∙ g)),
        λ v k there.
            last v
            ∙ run_all_known applied m.migrations c1 c2 v k ran (reads v ∙ there)
            ∙ keeps v
            ∙ there,
        λ v fresh. last v ∙ run_all_fresh applied m.migrations c1 c2 v ran fresh ∙ keeps v,
      )
