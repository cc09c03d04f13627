-- ===== src/Postgres/Pgpass/Lines.antt =====
-- Which password a line of a pgpass file gives.
use sqlx.Base.{
  ℕ, ◌≡◌, ◌≢◌, refl, inl, inr, Bool, false, ◌&&◌, ◌||◌, Option, none, some, [], ◌∷◌, ◌++◌, arith,
  ◌==◌, if◌then◌else◌, Bool-cases,
}
use sqlx.Base.Eq.{list_eq, nat_eq}
use sqlx.Base.Text.{decimal}
use sqlx.Postgres.Pgpass.{
  Str, colon, text_of, matches_next_field, match_fields, first_of_trimmed, load_password_from_line,
}
use sqlx.Postgres.Pgpass.Fields.{escape, find_next_field-escape}

-- A field accepts a value that it names, and a star accepts any.
abbrev pub accepts : Str → Str → Bool
accepts f value = list_eq f (42 ∷ []) || list_eq f value

abbrev pub then_colon : Str → Str → Str
then_colon f rest = escape f ++ colon ∷ rest

matches_next_field_lem :
    (f rest value : Str)
    → matches_next_field (then_colon f rest) value ≡ (if accepts f value then some rest else none)
unfolding matches_next_field
matches_next_field_lem f rest value = rw (find_next_field-escape f rest) refl

abbrev pub line_for : Str → Str → Str → Str → Str → Str
line_for host port database username password =
    then_colon host (then_colon port (then_colon database (then_colon username password)))

-- A line with four escaped fields that is no comment gives its password, unchanged, exactly if each
-- of host, port, database and user is named by its field or the field is a star.
pub load_password_from_line_lem :
    (f1 f2 f3 f4 password host username : Str) (port : ℕ) (database : Option Str) (c : ℕ)
    → first_of_trimmed (line_for f1 f2 f3 f4 password) ≡ some c
    → c ≢ 35
    → load_password_from_line (line_for f1 f2 f3 f4 password) host port username database ≡ (
        if accepts f1 host
          && accepts f2 (decimal 5 port [])
          && accepts f3 (text_of database)
          && accepts f4 username
        then some password
        else none)
unfolding load_password_from_line match_fields
load_password_from_line_lem f1 f2 f3 f4 password host username port database c first h =
    let fine : (c == 35) ≡ false = ground (arith, h) in
    let at_username = then_colon f4 password in
    let at_database = then_colon f3 at_username in
    rw (first, fine, matches_next_field_lem f1 (then_colon f2 at_database) host)
      (elim (Bool-cases (accepts f1 host)) [
        | inr a ↦ rw a refl
        | inl a ↦
            rw (a, matches_next_field_lem f2 at_database (decimal 5 port []))
              (elim (Bool-cases (accepts f2 (decimal 5 port []))) [
                | inr b ↦ rw b refl
                | inl b ↦
                    rw (b, matches_next_field_lem f3 at_username (text_of database))
                      (elim (Bool-cases (accepts f3 (text_of database))) [
                        | inr d ↦ rw d refl
                        | inl d ↦ rw d (matches_next_field_lem f4 password username)
                      ])
              ])
      ])
