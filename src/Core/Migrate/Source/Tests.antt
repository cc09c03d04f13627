-- ===== src/Core/Migrate/Source/Tests.antt =====
-- Names of files, a directory that is resolved, and a new migration in it.
use sqlx.Base.{ℕ, ◌≡◌, refl, true, false, Option, some, List, [], ◌∷◌, ok, err}
use sqlx.Base.Int.{ℤ, pos, negsuc}
use sqlx.Base.Text.{codes, decimal}
use sqlx.Core.Migrate.{simple, reversible_down, Migration}
use sqlx.Core.Migrate.Source.{
  Str, DirEntry, parsing_name, parse_name, splitn2, ends_with, parse_i64, digits, from_filename,
  suffix, trim_end_matches, trim_rounds, replace, new_migration, resolve_blocking, collect,
  migration_of, starts_with, sort_by_version, insert,
}
use sqlx.Core.Migrate.Source.Sorting.{IsSorted, with_version}
use sqlx.Core.Migrate.Source.Resolved.{Found, resolve_blocking_lem}
use sqlx.Core.Migrate.Add.{sequential}

sequential_padded : sequential (pos 7) ≡ codes "0007"
unfolding sequential decimal
sequential_padded = refl

sequential_negative : sequential (negsuc 4) ≡ codes "-005"
unfolding sequential decimal
sequential_negative = refl

-- A name that starts with no number is not ignored.
parse_name_refused : parse_name (codes "a_b.sql") ≡ err (parsing_name (codes "a_b.sql"))
unfolding parse_name splitn2 ends_with parse_i64 digits
parse_name_refused = refl

-- A version need not be positive.
parse_name_negative :
    parse_name (codes "-1_a_b.down.sql") ≡ ok (some (negsuc 0, reversible_down, codes "a b"))
unfolding parse_name splitn2 ends_with parse_i64 digits from_filename suffix trim_end_matches
    trim_rounds replace
parse_name_negative = refl

-- The suffix is taken off as often as it stands there.
parse_name_twice : parse_name (codes "1_a.sql.sql") ≡ ok (some (pos 1, simple, codes "a"))
unfolding parse_name splitn2 ends_with parse_i64 digits from_filename suffix trim_end_matches
    trim_rounds replace
parse_name_twice = refl

abbrev file : Str → DirEntry
file name = record { file_name = name; is_file = some true; contents = some (codes "select 1") }

abbrev directory : Option (List (Option DirEntry))
directory = some (
    some (file (codes "0010_b.sql"))
    ∷ some (file (codes "readme.md"))
    ∷ some (file (codes "2_a.sql"))
    ∷ [])

abbrev no_digest : Str → List ℕ
no_digest sql = []

abbrev in_order : List Migration
in_order =
    new_migration no_digest (pos 2) (codes "a") simple (codes "select 1") false
    ∷ new_migration no_digest (pos 10) (codes "b") simple (codes "select 1") false
    ∷ []

resolved : resolve_blocking no_digest directory ≡ ok in_order
unfolding resolve_blocking collect migration_of starts_with sort_by_version insert parse_name
    splitn2 ends_with parse_i64 digits from_filename suffix trim_end_matches trim_rounds replace
resolved = refl

resolve_blocking_lem_example :
    (es : List (Option DirEntry)) × (directory ≡ some es)
    × (found : List Migration) × Found no_digest es found
    × IsSorted in_order
    × ((v : ℤ) → with_version v in_order ≡ with_version v found)
resolve_blocking_lem_example = resolve_blocking_lem no_digest directory in_order resolved
