-- ===== src/Postgres/TypeInfo.antt =====
-- sqlx-postgres/src/type_info.rs: the types of PostgreSQL as the driver knows them. `PgTypeInfo` is
-- a wrapper around `PgType`, and is not told apart from it; the fields of `PgCustomType` and of
-- `PgArrayOf` are arguments of their variants, and the name in a `PgArrayOf`, which its only
-- constructor computes from that of the element, is computed where it is read.
pub mod Oids
pub mod Names
pub mod Kinds
pub mod Elements
pub mod Tables
pub mod Identifiers
pub mod Equality
mod Tests
use sqlx.Base.{ℕ, List, ◌++◌}
use sqlx.Base.Text.{codes}

-- Text, by its code points.
abbrev pub Str : Type 0
Str = List ℕ

mutual
  pub data PgType : Type 0 where
    bool bytea char name int8 int2 int4 text oid json json_array point lseg path box : PgType
    polygon line line_array cidr cidr_array float4 float8 unknown circle circle_array : PgType
    macaddr8 macaddr8_array macaddr inet bool_array bytea_array char_array name_array : PgType
    int2_array int4_array text_array bpchar_array varchar_array int8_array point_array : PgType
    lseg_array path_array box_array float4_array float8_array polygon_array oid_array : PgType
    macaddr_array inet_array bpchar varchar date time timestamp timestamp_array : PgType
    date_array time_array timestamptz timestamptz_array interval interval_array : PgType
    numeric_array timetz timetz_array bit bit_array varbit varbit_array numeric : PgType
    record_type record_array uuid uuid_array jsonb jsonb_array int4_range : PgType
    int4_range_array num_range num_range_array ts_range ts_range_array tstz_range : PgType
    tstz_range_array date_range date_range_array int8_range int8_range_array jsonpath : PgType
    jsonpath_array money money_array void : PgType
    -- Its OID, its name and its kind.
    custom : ℕ → Str → PgTypeKind → PgType
    declare_with_name : Str → PgType
    declare_with_oid : ℕ → PgType
    -- The name of the element.
    declare_array_of : Str → PgType

  pub data PgTypeKind : Type 0 where
    simple pseudo : PgTypeKind
    domain array range : PgType → PgTypeKind
    composite : Fields → PgTypeKind
    enum : List Str → PgTypeKind

  pub data Fields : Type 0 where
    no_fields : Fields
    field : Str → PgType → Fields → Fields

-- The types that are variants of their own.
abbrev pub IsBuiltin : PgType → Type 0
IsBuiltin (PgType.custom id n k) = ⊥
IsBuiltin (PgType.declare_with_name n) = ⊥
IsBuiltin (PgType.declare_with_oid id) = ⊥
IsBuiltin (PgType.declare_array_of n) = ⊥
IsBuiltin _ = Unit

-- The types that a connection has looked up.
abbrev pub IsResolved : PgType → Type 0
IsResolved (PgType.declare_with_name n) = ⊥
IsResolved (PgType.declare_with_oid id) = ⊥
IsResolved (PgType.declare_array_of n) = ⊥
IsResolved _ = Unit

abbrev pub array_name : Str → Str
array_name elem_name = elem_name ++ codes "[]"
