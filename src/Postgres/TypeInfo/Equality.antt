-- ===== src/Postgres/TypeInfo/Equality.antt =====
-- sqlx-postgres/src/type_info.rs: the equality of types. The code compares the elements of arrays
-- by a call of itself, which the model bounds by the sizes of the two types.
pub mod Fuel
pub mod Builtin
use sqlx.Base.{
  ℕ, zero, suc, ◌+◌, Bool, true, false, ◌&&◌, ◌||◌, Option, none, some, List, [], ◌∷◌, ◌==◌,
  if◌then◌else◌, length, ◌≡◌, refl, ap, ◌∙◌,
}
use sqlx.Base.Eq.{nat_eq}
use sqlx.Postgres.TypeInfo.{Str, PgType, PgTypeKind}
use sqlx.Postgres.TypeInfo.Oids.{try_oid}
use sqlx.Postgres.TypeInfo.Names.{name}
use sqlx.Postgres.TypeInfo.Elements.{try_array_element}
use sqlx.Postgres.TypeInfo.Identifiers.{name_eq}

pub is_declare_with_oid : PgType → Bool
is_declare_with_oid (PgType.declare_with_oid o) = true
is_declare_with_oid _ = false

-- Where both options have a value, the test of the two, and what follows otherwise.
abbrev pub both_or {ℓ} : {A : Type ℓ} → (A → A → Bool) → Option A → Option A → Bool → Bool
both_or test (some a) (some b) rest = test a b
both_or test (some a) none rest = rest
both_or test none b rest = rest

-- The body of `eq_impl`, given the equality that it calls.
abbrev pub eq_body : (PgType → PgType → Bool) → PgType → PgType → Bool → Bool
eq_body eq self other soft_eq = both_or ◌==◌ (try_oid self) (try_oid other) (
    if soft_eq && (is_declare_with_oid self || is_declare_with_oid other)
    then true
    else both_or eq (try_array_element self) (try_array_element other)
        (name_eq (name self) (name other)))

-- How often the element of a type can be taken.
mutual
  pub depth : PgType → ℕ
  depth (PgType.custom o n k) = kind_depth k
  depth (PgType.declare_with_name n) = suc (length n)
  depth (PgType.declare_array_of n) = suc (suc (length n))
  depth _ = 0

  pub kind_depth : PgTypeKind → ℕ
  kind_depth (PgTypeKind.array t) = suc (depth t)
  kind_depth _ = 0

pub eq_within : ℕ → PgType → PgType → Bool → Bool
eq_within zero self other soft_eq = false
eq_within (suc fuel) self other soft_eq =
    eq_body (λ a b. eq_within fuel a b true) self other soft_eq

pub eq_impl : PgType → PgType → Bool → Bool
unfolding eq_within depth
eq_impl self other soft_eq = eq_within (suc (depth self + depth other)) self other soft_eq

-- `PartialEq`.
pub eq : PgType → PgType → Bool
unfolding eq_impl
eq self other = eq_impl self other true

-- `type_eq`, and `type_compatible`.
pub type_eq : PgType → PgType → Bool
unfolding eq_impl
type_eq self other = eq_impl self other false

pub type_compatible : PgType → PgType → Bool
unfolding eq
type_compatible self other = eq self other
