-- ===== src/Core/Migrate/Add/Next.antt =====
-- sqlx-cli/src/migrate.rs: the number of a new migration, with `--sequential`.
use sqlx.Base.{ℕ, ◌≡◌, some, List, [], ◌∷◌, ok}
use sqlx.Base.Int.{ℤ, pos, ◌+ℤ◌, ◌≤ℤ◌}
use sqlx.Core.Migrate.{MigrationType, Migration}
use sqlx.Core.Migrate.Source.{Str, parse_name}
use sqlx.Core.Migrate.Add.{last_of}

-- The number behind the last version; 1 in an empty directory.
abbrev pub IsNext : List Migration → ℕ → Type 0
IsNext [] v = v ≡ 1
IsNext (m ∷ ms) v = (last_of m ms).version +ℤ pos 1 ≡ pos v

abbrev pub AllBelow : ℕ → List Migration → Type 0
AllBelow v [] = Unit
AllBelow v (m ∷ ms) = (m.version +ℤ pos 1 ≤ℤ pos v) × AllBelow v ms

-- The names of files are read back as that version, their types and the description.
abbrev pub ReadBack : ℤ → Str → List MigrationType → List (Str × Str) → Type 0
ReadBack v d [] [] = Unit
ReadBack v d [] (f ∷ fs) = ⊥
ReadBack v d (t ∷ ts) [] = ⊥
ReadBack v d (t ∷ ts) ((name, contents) ∷ fs) =
    (parse_name name ≡ ok (some (v, t, d))) × ReadBack v d ts fs
