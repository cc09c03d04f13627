-- ===== src/Postgres/TypeInfo/Elements.antt =====
-- sqlx-postgres/src/type_info.rs: the type of the elements of an array type.
use sqlx.Base.{Option, none, some, [], ◌∷◌, ◌==◌, if◌then◌else◌}
use sqlx.Postgres.TypeInfo.{Str, PgType, PgTypeKind}

-- `strip_prefix` of "_", which is 95.
unfoldable pub strip_underscore : Str → Option Str
strip_underscore [] = none
strip_underscore (c ∷ s) = if c == 95 then some s else none

unfoldable pub kind_element : PgTypeKind → Option PgType
kind_element PgTypeKind.simple = none
kind_element PgTypeKind.pseudo = none
kind_element (PgTypeKind.domain t) = none
kind_element (PgTypeKind.composite fs) = none
kind_element (PgTypeKind.array t) = some t
kind_element (PgTypeKind.enum labels) = none
kind_element (PgTypeKind.range t) = none

unfoldable pub declare_element : Option Str → Option PgType
declare_element none = none
declare_element (some n) = some (PgType.declare_with_name n)

unfoldable pub try_array_element : PgType → Option PgType
try_array_element PgType.bool = none
try_array_element PgType.bool_array = some PgType.bool
try_array_element PgType.bytea = none
try_array_element PgType.bytea_array = some PgType.bytea
try_array_element PgType.char = none
try_array_element PgType.char_array = some PgType.char
try_array_element PgType.name = none
try_array_element PgType.name_array = some PgType.name
try_array_element PgType.int8 = none
try_array_element PgType.int8_array = some PgType.int8
try_array_element PgType.int2 = none
try_array_element PgType.int2_array = some PgType.int2
try_array_element PgType.int4 = none
try_array_element PgType.int4_array = some PgType.int4
try_array_element PgType.text = none
try_array_element PgType.text_array = some PgType.text
try_array_element PgType.oid = none
try_array_element PgType.oid_array = some PgType.oid
try_array_element PgType.json = none
try_array_element PgType.json_array = some PgType.json
try_array_element PgType.point = none
try_array_element PgType.point_array = some PgType.point
try_array_element PgType.lseg = none
try_array_element PgType.lseg_array = some PgType.lseg
try_array_element PgType.path = none
try_array_element PgType.path_array = some PgType.path
try_array_element PgType.box = none
try_array_element PgType.box_array = some PgType.box
try_array_element PgType.polygon = none
try_array_element PgType.polygon_array = some PgType.polygon
try_array_element PgType.line = none
try_array_element PgType.line_array = some PgType.line
try_array_element PgType.cidr = none
try_array_element PgType.cidr_array = some PgType.cidr
try_array_element PgType.float4 = none
try_array_element PgType.float4_array = some PgType.float4
try_array_element PgType.float8 = none
try_array_element PgType.float8_array = some PgType.float8
try_array_element PgType.circle = none
try_array_element PgType.circle_array = some PgType.circle
try_array_element PgType.macaddr8 = none
try_array_element PgType.macaddr8_array = some PgType.macaddr8
try_array_element PgType.money = none
try_array_element PgType.money_array = some PgType.money
try_array_element PgType.macaddr = none
try_array_element PgType.macaddr_array = some PgType.macaddr
try_array_element PgType.inet = none
try_array_element PgType.inet_array = some PgType.inet
try_array_element PgType.bpchar = none
try_array_element PgType.bpchar_array = some PgType.bpchar
try_array_element PgType.varchar = none
try_array_element PgType.varchar_array = some PgType.varchar
try_array_element PgType.date = none
try_array_element PgType.date_array = some PgType.date
try_array_element PgType.time = none
try_array_element PgType.time_array = some PgType.time
try_array_element PgType.timestamp = none
try_array_element PgType.timestamp_array = some PgType.timestamp
try_array_element PgType.timestamptz = none
try_array_element PgType.timestamptz_array = some PgType.timestamptz
try_array_element PgType.interval = none
try_array_element PgType.interval_array = some PgType.interval
try_array_element PgType.timetz = none
try_array_element PgType.timetz_array = some PgType.timetz
try_array_element PgType.bit = none
try_array_element PgType.bit_array = some PgType.bit
try_array_element PgType.varbit = none
try_array_element PgType.varbit_array = some PgType.varbit
try_array_element PgType.numeric = none
try_array_element PgType.numeric_array = some PgType.numeric
try_array_element PgType.record_type = none
try_array_element PgType.record_array = some PgType.record_type
try_array_element PgType.uuid = none
try_array_element PgType.uuid_array = some PgType.uuid
try_array_element PgType.jsonb = none
try_array_element PgType.jsonb_array = some PgType.jsonb
try_array_element PgType.int4_range = none
try_array_element PgType.int4_range_array = some PgType.int4_range
try_array_element PgType.num_range = none
try_array_element PgType.num_range_array = some PgType.num_range
try_array_element PgType.ts_range = none
try_array_element PgType.ts_range_array = some PgType.ts_range
try_array_element PgType.tstz_range = none
try_array_element PgType.tstz_range_array = some PgType.tstz_range
try_array_element PgType.date_range = none
try_array_element PgType.date_range_array = some PgType.date_range
try_array_element PgType.int8_range = none
try_array_element PgType.int8_range_array = some PgType.int8_range
try_array_element PgType.jsonpath = none
try_array_element PgType.jsonpath_array = some PgType.jsonpath
try_array_element PgType.unknown = none
try_array_element PgType.void = none
try_array_element (PgType.custom oid n k) = kind_element k
try_array_element (PgType.declare_with_oid oid) = none
try_array_element (PgType.declare_with_name n) = declare_element (strip_underscore n)
try_array_element (PgType.declare_array_of n) = some (PgType.declare_with_name n)
