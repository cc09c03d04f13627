-- ===== src/Postgres/TypeInfo/Tests.antt =====
-- Runs of the equality of types, and the theorems at concrete types.
use sqlx.Base.{◌≡◌, refl, ◌↔◌, true, false, some, length, ◌+◌, ◌≤◌}
use sqlx.Base.Text.{codes}
use sqlx.Postgres.TypeInfo.{PgType, IsBuiltin}
use sqlx.Postgres.TypeInfo.Oids.{try_from_oid, try_oid}
use sqlx.Postgres.TypeInfo.Names.{name}
use sqlx.Postgres.TypeInfo.Elements.{try_array_element}
use sqlx.Postgres.TypeInfo.Tables.{try_from_oid-try_oid}
use sqlx.Postgres.TypeInfo.Identifiers.{
  name_eq, identifier_chars, same_chars, has_unicode_escapes, scan,
}
use sqlx.Postgres.TypeInfo.Identifiers.Laws.{name_eq-IsPlain, SamePrefix}
use sqlx.Postgres.TypeInfo.Equality.{eq_impl}
use sqlx.Postgres.TypeInfo.Equality.Builtin.{eq_impl-IsBuiltin, eq_impl-declared}

name_eq_quoted : name_eq (codes "foo.foo") (codes "foo.\"Foo\"") ≡ false
unfolding name_eq identifier_chars same_chars has_unicode_escapes scan
name_eq_quoted = refl

name_eq_one_more : name_eq (codes "foo") (codes "foos") ≡ true
unfolding name_eq identifier_chars same_chars has_unicode_escapes scan
name_eq_one_more = refl

-- PostgreSQL folds the second name to "foo".
name_eq_folded : name_eq (codes "\"FOO\"") (codes "FOO") ≡ true
unfolding name_eq identifier_chars same_chars has_unicode_escapes scan
name_eq_folded = refl

try_from_oid-try_oid_example :
    (try_from_oid 1007 ≡ some PgType.int4_array)
    ↔ (IsBuiltin PgType.int4_array × (try_oid PgType.int4_array ≡ some 1007))
try_from_oid-try_oid_example = try_from_oid-try_oid 1007 PgType.int4_array

name_eq-IsPlain_example : (name_eq (codes "foo") (codes "FOOS") ≡ true) ↔ (
    SamePrefix (codes "foo") (codes "FOOS")
    × (length (codes "foo") ≤ length (codes "FOOS") + 1)
    × (length (codes "FOOS") ≤ length (codes "foo") + 1))
unfolding has_unicode_escapes
name_eq-IsPlain_example =
    name_eq-IsPlain (codes "foo") (codes "FOOS") (refl, (refl, (refl, tt)))
      (refl, (refl, (refl, (refl, tt)))) refl

eq_impl-IsBuiltin_example :
    (eq_impl PgType.text PgType.varchar true ≡ true) ↔ (PgType.text ≡ PgType.varchar)
eq_impl-IsBuiltin_example = eq_impl-IsBuiltin PgType.text PgType.varchar true tt tt

eq_impl-declared_example :
    eq_impl PgType.int4_array (PgType.declare_array_of (name PgType.int4)) true ≡ true
unfolding try_array_element
eq_impl-declared_example = (eq_impl-declared PgType.int4_array true tt).1 PgType.int4 refl
