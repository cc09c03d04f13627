-- ===== src/Core/Migrate/Undo.antt =====
-- What `undo` leaves in the table of applied migrations.
use mathlib.Core.List.{reverse, reverse-cons}
use sqlx.Base.{
  ℕ, ◌≡◌, refl, sym, ap, ◌∙◌, Bool, true, false, Option, none, some, List, [], ◌∷◌, ◌++◌, ◌&&◌,
  ◌||◌, if◌then◌else◌, arith, ok,
}
use sqlx.Base.Int.{ℤ, ltb_ℤ}
use sqlx.Base.Eq.{◌==◌, int_eq, int_beq_iff, nat_eq}
use sqlx.Core.Migrate.{
  Migration, AppliedMigration, Migrator, Migrate, is_down_migration, get, contains_key, has_version,
  to_revert, revert_all, prepare, undo,
}
use sqlx.Core.Migrate.Faithful.{IsFaithful, >>=-split, prepare-Prepared, unlocked_keeps}

-- Some down migration of the list has this version.
unfoldable pub has_down : ℤ → List Migration → Bool
has_down v [] = false
has_down v (m ∷ ms) = is_down_migration m.migration_type && m.version == v || has_down v ms

has_down-append :
    (v : ℤ) (xs ys : List Migration) → has_down v (xs ++ ys) ≡ (has_down v xs || has_down v ys)
unfolding has_down
has_down-append v [] ys = refl
has_down-append v (x ∷ xs) ys = ground (arith, has_down-append v xs ys)

has_down-one :
    (v : ℤ) (x : Migration) (xs : List Migration) (b : Bool)
    → b ≡ has_down v xs
    → (b || has_down v (x ∷ [])) ≡ has_down v (x ∷ xs)
unfolding has_down
has_down-one v x xs b h = ground arith

has_down-reverse : (v : ℤ) (xs : List Migration) → has_down v (reverse xs) ≡ has_down v xs
has_down-reverse v [] = refl
has_down-reverse v (x ∷ xs) =
    ap (has_down v) (reverse-cons x xs)
    ∙ has_down-append v (reverse xs) (x ∷ [])
    ∙ has_down-one v x xs (has_down v (reverse xs)) (has_down-reverse v xs)

-- `undo` reverts an applied version beyond its target.
is_beyond : List AppliedMigration → ℤ → ℤ → Bool
is_beyond applied target v = contains_key v applied && ltb_ℤ target v

has_version-kept :
    (b : Bool) (v : ℤ) (m : Migration) (ms : List Migration)
    → has_version v (if b then m ∷ ms else ms) ≡ (b && m.version == v || has_version v ms)
unfolding has_version
has_version-kept b v m ms = ground arith

chosen :
    (down same held beyond : Bool)
    → (same ≡ true → held ≡ beyond)
    → (rest : Bool) → (down && held && same || rest && beyond) ≡ ((down && same || rest) && beyond)
chosen down same held beyond h rest = ground arith

to_revert_cons :
    (applied : List AppliedMigration) (target : ℤ) (m : Migration) (ms : List Migration)
    → to_revert applied target (m ∷ ms) ≡ (
        if is_down_migration m.migration_type && is_beyond applied target m.version
        then m ∷ to_revert applied target ms
        else to_revert applied target ms)
unfolding to_revert is_beyond
to_revert_cons applied target m ms = ground arith

chosen_here :
    (applied : List AppliedMigration) (target v : ℤ) (m : Migration) (ms : List Migration)
    → (is_down_migration m.migration_type && is_beyond applied target m.version && m.version == v
        || has_down v ms && is_beyond applied target v)
      ≡ (has_down v (m ∷ ms) && is_beyond applied target v)
unfolding has_down
chosen_here applied target v m ms =
    chosen (is_down_migration m.migration_type) (m.version == v)
      (is_beyond applied target m.version) (is_beyond applied target v)
      (λ e. ap (is_beyond applied target) ((int_beq_iff m.version v).0 e)) (has_down v ms)

has_version-to_revert :
    (applied : List AppliedMigration) (target v : ℤ) (ms : List Migration)
    → has_version v (to_revert applied target ms) ≡ (has_down v ms && is_beyond applied target v)
has_version-to_revert applied target v [] = unfold has_version to_revert has_down in refl
has_version-to_revert applied target v (m ∷ ms) =
    ap (has_version v) (to_revert_cons applied target m ms)
    ∙ has_version-kept (is_down_migration m.migration_type && is_beyond applied target m.version) v
        m (to_revert applied target ms)
    ∙ ap
        (λ r.
          is_down_migration m.migration_type && is_beyond applied target m.version && m.version == v
          || r)
        (has_version-to_revert applied target v ms)
    ∙ chosen_here applied target v m ms

seen :
    (applied : List AppliedMigration) (v : ℤ) {k : List ℕ}
    → get v applied ≡ some k
    → contains_key v applied ≡ true
unfolding contains_key
seen applied v h = ground arith

-- Where no row is there, it makes no difference whether it is removed.
unseen_row :
    (applied : List AppliedMigration) (target v : ℤ) (down : Bool) (row : Option (List ℕ))
    → get v applied ≡ row
    → (if down && is_beyond applied target v then none else row)
      ≡ (if down && ltb_ℤ target v then none else row)
unfolding is_beyond
unseen_row applied target v down none h = ground arith
unseen_row applied target v down (some k) h = ground (arith, seen applied v h)

module _ {C : Type 0} {db : Migrate C} {recorded : C → ℤ → Option (List ℕ)}
    (faithful : IsFaithful db recorded) where
  revert_all_lem :
      (ms : List Migration) (c c' : C) (v : ℤ)
      → revert_all db ms c ≡ (ok tt, c')
      → recorded c' v ≡ (if has_version v ms then none else recorded c v)
  unfolding revert_all has_version
  revert_all_lem [] c c' v h = ap (λ p. recorded p.1 v) (sym h)
  revert_all_lem (m ∷ ms) c c' v h =
      let (_, d, one, rest) = >>=-split (db.revert m) (λ _. revert_all db ms) c h in
      ground (arith, revert_all_lem ms d c' v rest, faithful.revert_forgets c d m v one)

  -- An `undo` that succeeds, with a driver that does what the trait documents, removes exactly the
  -- rows of versions above the target for which the source has a down migration.
  pub undo_lem :
      (m : Migrator) (target : ℤ) (c c' : C)
      → undo db m target c ≡ (ok tt, c')
      → (v : ℤ)
      → recorded c' v ≡ (if has_down v m.migrations && ltb_ℤ target v then none else recorded c v)
  unfolding undo
  undo_lem m target c c' h v =
      let (applied, c1, prepared, h1) = >>=-split (prepare db m) _ c h in
      let reverted : List Migration = to_revert applied target (reverse m.migrations) in
      let (_, c2, ran, h2) = >>=-split (revert_all db reverted) _ c1 h1 in
      let (reads, keeps, _) = prepare-Prepared faithful m c c1 applied prepared in
      unlocked_keeps faithful m.locking c2 c' v h2
      ∙ revert_all_lem reverted c1 c2 v ran
      ∙ ap (λ b. if b then none else recorded c1 v)
          (has_version-to_revert applied target v (reverse m.migrations)
            ∙ ap (λ b. b && is_beyond applied target v) (has_down-reverse v m.migrations))
      ∙ ap (λ r. if has_down v m.migrations && is_beyond applied target v then none else r)
          (keeps v)
      ∙ unseen_row applied target v (has_down v m.migrations) (recorded c v) (reads v)
