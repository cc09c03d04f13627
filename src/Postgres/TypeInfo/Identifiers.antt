-- ===== src/Postgres/TypeInfo/Identifiers.antt =====
-- sqlx-postgres/src/type_info.rs: `name_eq`, and the characters of an identifier that count.
pub mod Laws
use sqlx.Base.{ℕ, ◌+◌, Bool, true, false, not, ◌&&◌, ◌||◌, List, [], ◌∷◌, ◌==◌, leb, if◌then◌else◌}
use sqlx.Base.Eq.{list_eq, nat_eq}
use sqlx.Postgres.TypeInfo.{Str}

pub record IdentifierChar : Type 0 where
  pub ch : ℕ
  pub case_sensitive : Bool

abbrev pub to_ascii_lowercase : ℕ → ℕ
to_ascii_lowercase c = if leb 65 c && leb c 90 then c + 32 else c

abbrev pub eq_ignore_ascii_case : ℕ → ℕ → Bool
eq_ignore_ascii_case a b = to_ascii_lowercase a == to_ascii_lowercase b

-- `IdentifierChar::eq`.
abbrev pub char_eq : IdentifierChar → IdentifierChar → Bool
char_eq a b =
    if a.case_sensitive || b.case_sensitive then a.ch == b.ch else eq_ignore_ascii_case a.ch b.ch

-- The closure of `identifier_chars`, on its variables `case_sensitive` and `last_char_quote`. A
-- quotation mark is 34.
unfoldable pub scan : Bool → Bool → Str → List IdentifierChar
scan case_sensitive last_char_quote [] = []
scan case_sensitive true (c ∷ s) =
    let now = if c == 34 then case_sensitive else not case_sensitive in
    record { ch = c; case_sensitive = now } ∷ scan now false s
scan case_sensitive false (c ∷ s) =
    let rest = scan case_sensitive (c == 34) s in
    if c == 34 then rest else record { ch = c; case_sensitive = case_sensitive } ∷ rest

unfoldable pub identifier_chars : Str → List IdentifierChar
unfolding scan
identifier_chars ident = scan false false ident

abbrev pub no_more : List IdentifierChar → Bool
no_more [] = true
no_more (c ∷ cs) = false

-- The loop, and the test behind it. The round that ends the loop takes a character from each
-- iterator that still has one.
unfoldable pub same_chars : List IdentifierChar → List IdentifierChar → Bool
same_chars (a ∷ chars1) (b ∷ chars2) = char_eq a b && same_chars chars1 chars2
same_chars (a ∷ chars1) [] = no_more chars1
same_chars [] (b ∷ chars2) = no_more chars2
same_chars [] [] = true

-- `starts_with("U&")`.
unfoldable pub has_unicode_escapes : Str → Bool
has_unicode_escapes (a ∷ b ∷ s) = a == 85 && b == 38
has_unicode_escapes _ = false

unfoldable pub name_eq : Str → Str → Bool
unfolding has_unicode_escapes identifier_chars same_chars
name_eq name1 name2 =
    if has_unicode_escapes name1
    then list_eq name1 name2
    else same_chars (identifier_chars name1) (identifier_chars name2)
