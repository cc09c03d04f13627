-- ===== src/Core/Migrate/Source/Resolved.antt =====
-- sqlx-core/src/migrate/source.rs: the migrations that are read from a directory.
use sqlx.Base.{
  ℕ, ◌≡◌, refl, sym, ap, subst, ◌∙◌, ◌⊎◌, inl, inr, Bool, true, false, Option, none, some, List, [],
  ◌∷◌, ok, ok_or, ◌>>=◌, ok_or-returned, >>=-returned, if◌then◌else◌,
}
use sqlx.Base.Int.{ℤ}
use sqlx.Base.Text.{codes}
use sqlx.Core.Migrate.{MigrationType, Migration}
use sqlx.Core.Migrate.Source.{
  Str, DirEntry, getting_metadata, reading_contents, new_migration, starts_with, parse_name,
  read_file, migration_of, push_read, collect, sort_by_version, resolve_blocking,
}
use sqlx.Core.Migrate.Source.Sorting.{
  IsSorted, with_version, sort_by_version-IsSorted, with_version-sort_by_version,
}

module _ (digest : Str → List ℕ) where
  -- What is not a file or has another name is ignored.
  abbrev pub IsIgnored : DirEntry → Type 0
  IsIgnored e = (e.is_file ≡ some false) ⊎ (parse_name e.file_name ≡ ok none)

  abbrev pub IsRead : DirEntry → Migration → Type 0
  IsRead e m =
      (e.is_file ≡ some true)
      × (parse_name e.file_name ≡ ok (some (m.version, m.migration_type, m.description)))
      × (e.contents ≡ some m.sql)
      × (m.checksum ≡ digest m.sql)
      × (m.no_tx ≡ starts_with m.sql (codes "-- no-transaction"))

  -- The migrations that the entries of a directory stand for, one by one.
  pub data Found : List (Option DirEntry) → List Migration → Type 0 where
    nothing : Found [] []
    ignored :
        (e : DirEntry) {es : List (Option DirEntry)} {ms : List Migration}
        → IsIgnored e
        → Found es ms
        → Found (some e ∷ es) ms
    read :
        (e : DirEntry) (m : Migration) {es : List (Option DirEntry)} {ms : List Migration}
        → IsRead e m
        → Found es ms
        → Found (some e ∷ es) (m ∷ ms)

  -- What a success of one round says.
  abbrev Round : DirEntry → Option Migration → Type 0
  Round e none = IsIgnored e
  Round e (some m) = IsRead e m

  read_file-Round :
      (e : DirEntry) (n : Option (ℤ × MigrationType × Str)) (o : Option Migration)
      → e.is_file ≡ some true
      → parse_name e.file_name ≡ ok n
      → read_file digest e n ≡ ok o
      → Round e o
  read_file-Round e none none file name h = inr name
  read_file-Round e none (some m) file name h = cc
  read_file-Round e (some (version, t, description)) o file name h =
      let (sql, made, got) = >>=-returned _ (ok_or e.contents (reading_contents e.file_name)) h in
      let m =
        new_migration digest version description t sql
          (starts_with sql (codes "-- no-transaction")) in
      let same : some m ≡ o = cc in
      subst (Round e) same
        (file, name, ok_or-returned e.contents (reading_contents e.file_name) got, refl, refl)

  of_file :
      (e : DirEntry) (o : Option Migration) (is_file : Bool)
      → e.is_file ≡ some is_file
      → (if is_file then (parse_name e.file_name >>= read_file digest e) else ok none) ≡ ok o
      → Round e o
  of_file e o true file h =
      let (n, rest, name) = >>=-returned (read_file digest e) (parse_name e.file_name) h in
      read_file-Round e n o file name rest
  of_file e none false file h = inl file
  of_file e (some m) false file h = cc

  migration_of-Round :
      (e : DirEntry) (o : Option Migration) → migration_of digest e ≡ ok o → Round e o
  unfolding migration_of
  migration_of-Round e o h =
      let (is_file, rest, got) =
        >>=-returned _ (ok_or e.is_file (getting_metadata e.file_name)) h in
      let file = ok_or-returned e.is_file (getting_metadata e.file_name) got in
      of_file e o is_file file rest

  Found-push_read :
      (e : DirEntry) (o : Option Migration) (es : List (Option DirEntry)) (ms : List Migration)
      → Round e o
      → Found es ms
      → Found (some e ∷ es) (push_read digest o ms)
  Found-push_read e none es ms h rest = ignored e h rest
  Found-push_read e (some m) es ms h rest = read e m h rest

  collect-Found :
      (es : List (Option DirEntry)) (ms : List Migration) → collect digest es ≡ ok ms → Found es ms
  unfolding collect
  collect-Found [] ms h = let same : [] ≡ ms = cc in subst (Found []) same nothing
  collect-Found (none ∷ es) ms h = cc
  collect-Found (some e ∷ es) ms h =
      let (o, others, one) = >>=-returned _ (migration_of digest e) h in
      let (rest, pushed, all) = >>=-returned _ (collect digest es) others in
      let same : push_read digest o rest ≡ ms = cc in
      subst (Found (some e ∷ es)) same
        (Found-push_read e o es rest (migration_of-Round e o one) (collect-Found es rest all))

-- A directory that is resolved gives its migrations: those that its entries stand for, one by one,
-- sorted by version, and those of one version in the order of the directory.
pub resolve_blocking_lem :
    (digest : Str → List ℕ) (entries : Option (List (Option DirEntry))) (ms : List Migration)
    → resolve_blocking digest entries ≡ ok ms
    → (es : List (Option DirEntry)) × (entries ≡ some es)
      × (found : List Migration) × Found digest es found
      × IsSorted ms
      × ((v : ℤ) → with_version v ms ≡ with_version v found)
unfolding resolve_blocking
resolve_blocking_lem digest none ms h = cc
resolve_blocking_lem digest (some es) ms h =
    let (found, sorted, all) = >>=-returned _ (collect digest es) h in
    let same : sort_by_version found ≡ ms = cc in
    (
      es,
      refl,
      found,
      collect-Found digest es found all,
      subst IsSorted same (sort_by_version-IsSorted found),
      λ v. ap (with_version v) (sym same) ∙ with_version-sort_by_version v found,
    )
