-- ===== src/Postgres/Pgpass.antt =====
-- sqlx-postgres/src/options/pgpass.rs: looking up a password in a pgpass file. Strings are lists of
-- code points; the source slices them at the positions of characters of one byte, so that an index
-- here counts characters. The reader is the list of the lines that `read_line` gives.
pub mod Reading
pub mod Fields
pub mod Lines
mod Tests
use sqlx.Base.{
  ℕ, zero, suc, ◌+◌, ◌/◌, ◌%◌, Bool, true, false, ◌&&◌, ◌||◌, not, Option, none, some, List, [],
  ◌∷◌, ◌++◌, leb, ltb, ◌==◌, if◌then◌else◌, take, drop,
}
use sqlx.Base.Text.{decimal}
use sqlx.Base.Slices.{slice}
use sqlx.Base.Eq.{list_eq, nat_eq}

abbrev pub Str : Type 0
Str = List ℕ

abbrev pub colon : ℕ
colon = 58

abbrev pub backslash : ℕ
backslash = 92

abbrev pub text_of : Option Str → Str
text_of none = []
text_of (some s) = s

-- What the loop of `find_next_field` returns at the delimiter.
abbrev pub finish : Option Str → Str → ℕ → Str
finish none field last_added = field
finish (some s) field last_added = s ++ drop last_added field

abbrev pub pushed : Bool → Option Str → Str → Str
pushed true escaped part = text_of escaped ++ backslash ∷ []
pushed false escaped part = text_of escaped ++ part

-- The loop, at index `idx` of `line`.
pub find_from : Str → ℕ → Bool → Option Str → ℕ → Str → Option (Str × Str)
find_from line idx escaping escaped last_added [] = none
find_from line idx escaping escaped last_added (c ∷ cs) =
    let after =
      find_from line (idx + 1) (not escaping)
        (some (pushed escaping escaped (slice line last_added idx))) (idx + 1) cs in
    let next = find_from line (idx + 1) false escaped last_added cs in
    if c == colon && not escaping
    then some (finish escaped (take idx line) last_added, drop (idx + 1) line)
    else if c == backslash
    then after
    else next

-- The field, and the line behind it.
pub find_next_field : Str → Option (Str × Str)
find_next_field line = find_from line 0 false none 0 line

abbrev matching : Str → Option (Str × Str) → Option Str
matching value none = none
matching value (some (field, rest)) =
    if list_eq field (42 ∷ []) || list_eq field value then some rest else none

-- What is left of the line behind a field that matches.
pub matches_next_field : Str → Str → Option Str
matches_next_field line value = matching value (find_next_field line)

pub is_whitespace : ℕ → Bool
is_whitespace c =
    (leb 9 c && leb c 13)
    || c == 32
    || c == 133
    || c == 160
    || c == 5760
    || (leb 8192 c && leb c 8202)
    || c == 8232
    || c == 8233
    || c == 8239
    || c == 8287
    || c == 12288

-- The first character that is no white space.
pub first_of_trimmed : Str → Option ℕ
first_of_trimmed [] = none
first_of_trimmed (c ∷ cs) =
    let rest = first_of_trimmed cs in if is_whitespace c then rest else some c

infixl 5 ◌>>=◌
abbrev ◌>>=◌ : {A B : Type 0} → Option A → (A → Option B) → Option B
none >>= f = none
some a >>= f = f a

pub match_fields : Str → Str → ℕ → Str → Option Str → Option Str
match_fields line host port username database = do
  at_port ← matches_next_field line host
  at_database ← matches_next_field at_port (decimal 5 port [])
  at_username ← matches_next_field at_database (text_of database)
  matches_next_field at_username username

abbrev unless_comment : Option ℕ → Option Str → Option Str
unless_comment none password = none
unless_comment (some c) password = if c == 35 then none else password

pub load_password_from_line : Str → Str → ℕ → Str → Option Str → Option Str
load_password_from_line line host port username database =
    unless_comment (first_of_trimmed line) (match_fields line host port username database)

-- `trim_newline`: a line feed at the end, and a carriage return before it.
pub trim_newline : Str → Str
trim_newline [] = []
trim_newline (c ∷ []) = if c == 10 then [] else c ∷ []
trim_newline (c ∷ d ∷ cs) =
    let rest = trim_newline (d ∷ cs) in
    if c == 13 && list_eq (d ∷ cs) (10 ∷ []) then [] else c ∷ rest

abbrev starts_with_hash : Str → Bool
starts_with_hash [] = false
starts_with_hash (c ∷ cs) = c == 35

abbrev or_else : Option Str → Option Str → Option Str
or_else none o = o
or_else (some s) o = some s

pub load_password_from_reader : List Str → Str → ℕ → Str → Option Str → Option Str
load_password_from_reader [] host port username database = none
load_password_from_reader (line ∷ lines) host port username database =
    let rest = load_password_from_reader lines host port username database in
    let here = load_password_from_line (trim_newline line) host port username database in
    if starts_with_hash line then rest else or_else here rest
