-- ===== src/Core/Migrate/Source.antt =====
-- sqlx-core/src/migrate/source.rs and migration_type.rs: the files of a directory of migrations, and
-- their names. The directory is a parameter, and so is the digest of the crate `sha2`.
pub mod Names
pub mod Sorting
pub mod Resolved
mod Tests
use sqlx.Base.{
  ℕ, zero, suc, ◌+◌, ◌-◌, ◌*◌, ◌^◌, Bool, true, false, not, ◌&&◌, Option, none, some, List, [], ◌∷◌,
  ◌++◌, map, ltb, leb, if◌then◌else◌, Outcome, ok, err, ok_or, ◌>>=◌, length, take, drop,
}
use sqlx.Base.{◌==◌ as nat_beq}
use sqlx.Base.Int.{ℤ, pos, negsuc, ltb_ℤ}
use sqlx.Base.Eq.{list_eq, nat_eq}
use sqlx.Base.Text.{codes}
use sqlx.Core.Migrate.{MigrationType, simple, reversible_up, reversible_down, Migration, Migrator}

abbrev pub Str : Type 0
Str = List ℕ

-- `str::ends_with`, `str::starts_with`, `str::replace` of a character, `splitn(2, c)`, and
-- `str::trim_end_matches`, which takes off a text that is not empty as often as it stands there.
pub ends_with : Str → Str → Bool
ends_with s suffix =
    leb (length suffix) (length s) && list_eq (drop (length s - length suffix) s) suffix

pub starts_with : Str → Str → Bool
starts_with s prefix = list_eq (take (length prefix) s) prefix

pub replace : ℕ → ℕ → Str → Str
replace from to s = map (λ c. if nat_beq c from then to else c) s

abbrev pub led_by : ℕ → Option (Str × Str) → Option (Str × Str)
led_by c none = none
led_by c (some (a, b)) = some (c ∷ a, b)

pub splitn2 : ℕ → Str → Option (Str × Str)
splitn2 sep [] = none
splitn2 sep (c ∷ s) =
    let later = led_by c (splitn2 sep s) in if nat_beq c sep then some ([], s) else later

pub trim_rounds : ℕ → Str → Str → Str
trim_rounds zero s suffix = s
trim_rounds (suc fuel) s suffix =
    let more = trim_rounds fuel (take (length s - length suffix) s) suffix in
    if ends_with s suffix then more else s

pub trim_end_matches : Str → Str → Str
trim_end_matches s suffix = trim_rounds (length s) s suffix

-- `parse` of an i64.
pub digits : ℕ → Str → Option ℕ
digits n [] = some n
digits n (c ∷ s) =
    let rest = digits (n * 10 + (c - 48)) s in if leb 48 c && leb c 57 then rest else none

abbrev at_least_one : Str → Option ℕ
at_least_one [] = none
at_least_one (c ∷ s) = digits 0 (c ∷ s)

abbrev pub positive : Option ℕ → Option ℤ
positive none = none
positive (some n) = if ltb n (2 ^ 63) then some (pos n) else none

abbrev negative : Option ℕ → Option ℤ
negative none = none
negative (some zero) = some (pos 0)
negative (some (suc n)) = if ltb n (2 ^ 63) then some (negsuc n) else none

pub parse_i64 : Str → Option ℤ
parse_i64 [] = none
parse_i64 (c ∷ s) =
    if nat_beq c 45
    then negative (at_least_one s)
    else if nat_beq c 43
    then positive (at_least_one s)
    else positive (digits 0 (c ∷ s))

-- The methods of `MigrationType`.
pub suffix : MigrationType → Str
suffix simple = codes ".sql"
suffix reversible_up = codes ".up.sql"
suffix reversible_down = codes ".down.sql"

pub from_filename : Str → MigrationType
from_filename filename =
    if ends_with filename (suffix reversible_up)
    then reversible_up
    else if ends_with filename (suffix reversible_down)
    then reversible_down
    else simple

abbrev pub is_reversible : MigrationType → Bool
is_reversible simple = false
is_reversible reversible_up = true
is_reversible reversible_down = true

abbrev pub file_content : MigrationType → Str
file_content simple = codes "-- Add migration script here\n"
file_content reversible_up = codes "-- Add up migration script here\n"
file_content reversible_down = codes "-- Add down migration script here\n"

abbrev pub infer : List Migration → Bool → MigrationType
infer (first ∷ rest) reversible = first.migration_type
infer [] true = reversible_up
infer [] false = simple

-- An entry of the directory: its name, whether it is a file, and its text. What cannot be read is
-- none.
pub record DirEntry : Type 0 where
  pub file_name : Str
  pub is_file : Option Bool
  pub contents : Option Str

pub data ResolveError : Type 0 where
  reading_directory reading_entry : ResolveError
  getting_metadata parsing_name reading_contents : Str → ResolveError

-- What a file name says: the version, the type and the description, or none if it is ignored.
abbrev pub said : Str → Option (Str × Str) → Outcome ResolveError (Option (ℤ × MigrationType × Str))
said file_name none = ok none
said file_name (some (first, second)) =
    if not (ends_with second (codes ".sql"))
    then ok none
    else (ok_or (parse_i64 first) (parsing_name file_name) >>= λ version.
        let t = from_filename second in
        ok (some (version, t, replace 95 32 (trim_end_matches second (suffix t)))))

pub parse_name : Str → Outcome ResolveError (Option (ℤ × MigrationType × Str))
parse_name file_name = said file_name (splitn2 95 file_name)

module _ (digest : Str → List ℕ) where
  -- `Migration::new`.
  abbrev pub new_migration : ℤ → Str → MigrationType → Str → Bool → Migration
  new_migration version description t sql no_tx = record {
    version = version;
    description = description;
    migration_type = t;
    sql = sql;
    checksum = digest sql;
    no_tx = no_tx;
  }

  abbrev pub read_file :
      DirEntry → Option (ℤ × MigrationType × Str) → Outcome ResolveError (Option Migration)
  read_file e none = ok none
  read_file e (some (version, t, description)) =
      ok_or e.contents (reading_contents e.file_name) >>= λ sql.
      ok (
        some
          (new_migration version description t sql (starts_with sql (codes "-- no-transaction"))))

  pub migration_of : DirEntry → Outcome ResolveError (Option Migration)
  migration_of e = ok_or e.is_file (getting_metadata e.file_name) >>= λ is_file.
      if is_file then (parse_name e.file_name >>= read_file e) else ok none

  abbrev pub push_read : Option Migration → List Migration → List Migration
  push_read none ms = ms
  push_read (some m) ms = m ∷ ms

  -- The loop; an entry of the directory that cannot be read is none.
  pub collect : List (Option DirEntry) → Outcome ResolveError (List Migration)
  collect [] = ok []
  collect (res ∷ entries) = ok_or res reading_entry >>= λ e.
      migration_of e >>= λ o. collect entries >>= λ ms. ok (push_read o ms)

-- `sort_by_key`, which is stable.
pub insert : Migration → List Migration → List Migration
insert m [] = m ∷ []
insert m (x ∷ xs) = if ltb_ℤ x.version m.version then x ∷ insert m xs else m ∷ x ∷ xs

pub sort_by_version : List Migration → List Migration
sort_by_version [] = []
sort_by_version (m ∷ ms) = insert m (sort_by_version ms)

pub resolve_blocking :
    (Str → List ℕ) → Option (List (Option DirEntry)) → Outcome ResolveError (List Migration)
resolve_blocking digest entries =
    ok_or entries reading_directory >>= λ es. collect digest es >>= λ ms. ok (sort_by_version ms)
