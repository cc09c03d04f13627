-- ===== src/Core/Migrate/Add.antt =====
-- sqlx-cli/src/migrate.rs: the files of a new migration, and the number in front of their names. The
-- time in the form `%Y%m%d%H%M%S` is a parameter.
pub mod Next
use mathlib.Core.List.{reverse}
use sqlx.Base.{
  ℕ, zero, suc, ◌-◌, ◌^◌, ◌%◌, Bool, true, false, Option, none, some, List, [], ◌∷◌, ◌++◌, ltb,
  if◌then◌else◌, Outcome, ok, panic, ◌>>=◌, length, replicate,
}
use sqlx.Base.Int.{ℤ, pos, negsuc, ◌+ℤ◌, ◌-ℤ◌, wrap_i64}
use sqlx.Base.Eq.{int_beq}
use sqlx.Base.Text.{decimal}
use sqlx.Core.Migrate.{
  MigrationType, simple, reversible_up, reversible_down, is_up_migration, Migration,
}
use sqlx.Core.Migrate.Source.{Str, suffix, replace, is_reversible, file_content, infer}

-- `{:04}`: zeros behind the sign.
unfoldable pub sequential : ℤ → Str
sequential (pos n) = let digits = decimal 20 n [] in replicate (4 - length digits) 48 ++ digits
sequential (negsuc n) =
    let digits = decimal 20 (suc n) [] in 45 ∷ (replicate (3 - length digits) 48 ++ digits)

abbrev pub last_of : Migration → List Migration → Migration
last_of m [] = m
last_of m (x ∷ xs) = last_of x xs

abbrev pub next_version : List Migration → ℤ
next_version [] = pos 1
next_version (m ∷ ms) = wrap_i64 ((last_of m ms).version +ℤ pos 1)

pub up_migrations : List Migration → List Migration
up_migrations [] = []
up_migrations (m ∷ ms) =
    let rest = up_migrations ms in if is_up_migration m.migration_type then m ∷ rest else rest

-- The scheme of the last two up migrations, the last one first.
abbrev pub inferred : Str → List Migration → Str
inferred now [] = now
inferred now (last ∷ []) =
    if int_beq last.version (pos 0)
    then sequential (wrap_i64 (last.version +ℤ pos 1))
    else if int_beq last.version (pos 1)
    then sequential (wrap_i64 (last.version +ℤ pos 1))
    else now
inferred now (last ∷ pre_last ∷ rest) =
    if int_beq (wrap_i64 (last.version -ℤ pre_last.version)) (pos 1)
    then sequential (wrap_i64 (last.version +ℤ pos 1))
    else now

-- `MigrationOrdering::infer` and `file_prefix`, for the flags `--sequential` and `--timestamp`.
pub file_prefix : Str → Bool → Bool → List Migration → Outcome ⊥ Str
file_prefix now true true ms = panic
file_prefix now false true ms = ok now
file_prefix now true false ms = ok (sequential (next_version ms))
file_prefix now false false ms = ok (inferred now (reverse (up_migrations ms)))

unfoldable pub new_file_name : Str → Str → MigrationType → Str
new_file_name prefix description t = prefix ++ 95 ∷ (replace 32 95 description ++ suffix t)

-- `create_file`: the name and the contents.
abbrev pub create_file : Str → Str → MigrationType → Str × Str
create_file prefix description t = (new_file_name prefix description t, file_content t)

abbrev pub new_types : Bool → List MigrationType
new_types true = reversible_up ∷ reversible_down ∷ []
new_types false = simple ∷ []

abbrev pub create_all : Str → Str → List MigrationType → List (Str × Str)
create_all prefix description [] = []
create_all prefix description (t ∷ ts) =
    create_file prefix description t ∷ create_all prefix description ts

-- The files that `add` creates in a directory with these migrations.
pub add : Str → Str → Bool → Bool → Bool → List Migration → Outcome ⊥ (List (Str × Str))
add now description reversible sequential timestamp ms =
    file_prefix now sequential timestamp ms >>= λ prefix.
    ok (create_all prefix description (new_types (is_reversible (infer ms reversible))))
