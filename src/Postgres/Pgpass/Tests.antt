-- ===== src/Postgres/Pgpass/Tests.antt =====
-- Runs of the pgpass parser.
use sqlx.Base.{◌≡◌, refl, false, [], ◌∷◌, ◌&&◌, none, some, if◌then◌else◌, arith}
use sqlx.Base.Text.{decimal}
use sqlx.Postgres.Pgpass.{
  Str, find_next_field, first_of_trimmed, is_whitespace, load_password_from_line,
}
use sqlx.Postgres.Pgpass.Fields.{find_next_field_lem}
use sqlx.Postgres.Pgpass.Reading.{field_of}
use sqlx.Postgres.Pgpass.Lines.{accepts, line_for, load_password_from_line_lem}

port_text : decimal 5 5432 [] ≡ 53 ∷ 52 ∷ 51 ∷ 50 ∷ []
unfolding decimal
port_text = refl

-- "a\:b:c"
abbrev escaped_line : Str
escaped_line = 97 ∷ 92 ∷ 58 ∷ 98 ∷ 58 ∷ 99 ∷ []

find_next_field_lem_example : find_next_field escaped_line ≡ field_of false escaped_line
find_next_field_lem_example = find_next_field_lem escaped_line

-- "h:*:d:u:pw"
abbrev entry : Str
entry = line_for (104 ∷ []) (42 ∷ []) (100 ∷ []) (117 ∷ []) (112 ∷ 119 ∷ [])

entry_first : first_of_trimmed entry ≡ some 104
unfolding first_of_trimmed is_whitespace
entry_first = refl

load_password_from_line_lem_example :
    load_password_from_line entry (104 ∷ []) 5432 (117 ∷ []) (some (100 ∷ [])) ≡ (
      if accepts (104 ∷ []) (104 ∷ [])
        && accepts (42 ∷ []) (decimal 5 5432 [])
        && accepts (100 ∷ []) (100 ∷ [])
        && accepts (117 ∷ []) (117 ∷ [])
      then some (112 ∷ 119 ∷ [])
      else none)
load_password_from_line_lem_example =
    load_password_from_line_lem (104 ∷ []) (42 ∷ []) (100 ∷ []) (117 ∷ []) (112 ∷ 119 ∷ [])
      (104 ∷ []) (117 ∷ []) 5432 (some (100 ∷ [])) 104 entry_first (omega arith)
