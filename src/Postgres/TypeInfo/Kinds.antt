-- ===== src/Postgres/TypeInfo/Kinds.antt =====
-- sqlx-postgres/src/type_info.rs: the kind of a type.
use sqlx.Base.{Outcome, ok, panic}
use sqlx.Postgres.TypeInfo.{PgType, PgTypeKind}

-- It panics on a declared type.
unfoldable pub kind : PgType → Outcome ⊥ PgTypeKind
kind PgType.bool = ok PgTypeKind.simple
kind PgType.bytea = ok PgTypeKind.simple
kind PgType.char = ok PgTypeKind.simple
kind PgType.name = ok PgTypeKind.simple
kind PgType.int8 = ok PgTypeKind.simple
kind PgType.int2 = ok PgTypeKind.simple
kind PgType.int4 = ok PgTypeKind.simple
kind PgType.text = ok PgTypeKind.simple
kind PgType.oid = ok PgTypeKind.simple
kind PgType.json = ok PgTypeKind.simple
kind PgType.json_array = ok (PgTypeKind.array PgType.json)
kind PgType.point = ok PgTypeKind.simple
kind PgType.lseg = ok PgTypeKind.simple
kind PgType.path = ok PgTypeKind.simple
kind PgType.box = ok PgTypeKind.simple
kind PgType.polygon = ok PgTypeKind.simple
kind PgType.line = ok PgTypeKind.simple
kind PgType.line_array = ok (PgTypeKind.array PgType.line)
kind PgType.cidr = ok PgTypeKind.simple
kind PgType.cidr_array = ok (PgTypeKind.array PgType.cidr)
kind PgType.float4 = ok PgTypeKind.simple
kind PgType.float8 = ok PgTypeKind.simple
kind PgType.unknown = ok PgTypeKind.simple
kind PgType.circle = ok PgTypeKind.simple
kind PgType.circle_array = ok (PgTypeKind.array PgType.circle)
kind PgType.macaddr8 = ok PgTypeKind.simple
kind PgType.macaddr8_array = ok (PgTypeKind.array PgType.macaddr8)
kind PgType.macaddr = ok PgTypeKind.simple
kind PgType.inet = ok PgTypeKind.simple
kind PgType.bool_array = ok (PgTypeKind.array PgType.bool)
kind PgType.bytea_array = ok (PgTypeKind.array PgType.bytea)
kind PgType.char_array = ok (PgTypeKind.array PgType.char)
kind PgType.name_array = ok (PgTypeKind.array PgType.name)
kind PgType.int2_array = ok (PgTypeKind.array PgType.int2)
kind PgType.int4_array = ok (PgTypeKind.array PgType.int4)
kind PgType.text_array = ok (PgTypeKind.array PgType.text)
kind PgType.bpchar_array = ok (PgTypeKind.array PgType.bpchar)
kind PgType.varchar_array = ok (PgTypeKind.array PgType.varchar)
kind PgType.int8_array = ok (PgTypeKind.array PgType.int8)
kind PgType.point_array = ok (PgTypeKind.array PgType.point)
kind PgType.lseg_array = ok (PgTypeKind.array PgType.lseg)
kind PgType.path_array = ok (PgTypeKind.array PgType.path)
kind PgType.box_array = ok (PgTypeKind.array PgType.box)
kind PgType.float4_array = ok (PgTypeKind.array PgType.float4)
kind PgType.float8_array = ok (PgTypeKind.array PgType.float8)
kind PgType.polygon_array = ok (PgTypeKind.array PgType.polygon)
kind PgType.oid_array = ok (PgTypeKind.array PgType.oid)
kind PgType.macaddr_array = ok (PgTypeKind.array PgType.macaddr)
kind PgType.inet_array = ok (PgTypeKind.array PgType.inet)
kind PgType.bpchar = ok PgTypeKind.simple
kind PgType.varchar = ok PgTypeKind.simple
kind PgType.date = ok PgTypeKind.simple
kind PgType.time = ok PgTypeKind.simple
kind PgType.timestamp = ok PgTypeKind.simple
kind PgType.timestamp_array = ok (PgTypeKind.array PgType.timestamp)
kind PgType.date_array = ok (PgTypeKind.array PgType.date)
kind PgType.time_array = ok (PgTypeKind.array PgType.time)
kind PgType.timestamptz = ok PgTypeKind.simple
kind PgType.timestamptz_array = ok (PgTypeKind.array PgType.timestamptz)
kind PgType.interval = ok PgTypeKind.simple
kind PgType.interval_array = ok (PgTypeKind.array PgType.interval)
kind PgType.numeric_array = ok (PgTypeKind.array PgType.numeric)
kind PgType.timetz = ok PgTypeKind.simple
kind PgType.timetz_array = ok (PgTypeKind.array PgType.timetz)
kind PgType.bit = ok PgTypeKind.simple
kind PgType.bit_array = ok (PgTypeKind.array PgType.bit)
kind PgType.varbit = ok PgTypeKind.simple
kind PgType.varbit_array = ok (PgTypeKind.array PgType.varbit)
kind PgType.numeric = ok PgTypeKind.simple
kind PgType.record_type = ok PgTypeKind.simple
kind PgType.record_array = ok (PgTypeKind.array PgType.record_type)
kind PgType.uuid = ok PgTypeKind.simple
kind PgType.uuid_array = ok (PgTypeKind.array PgType.uuid)
kind PgType.jsonb = ok PgTypeKind.simple
kind PgType.jsonb_array = ok (PgTypeKind.array PgType.jsonb)
kind PgType.int4_range = ok (PgTypeKind.range PgType.int4)
kind PgType.int4_range_array = ok (PgTypeKind.array PgType.int4_range)
kind PgType.num_range = ok (PgTypeKind.range PgType.numeric)
kind PgType.num_range_array = ok (PgTypeKind.array PgType.num_range)
kind PgType.ts_range = ok (PgTypeKind.range PgType.timestamp)
kind PgType.ts_range_array = ok (PgTypeKind.array PgType.ts_range)
kind PgType.tstz_range = ok (PgTypeKind.range PgType.timestamptz)
kind PgType.tstz_range_array = ok (PgTypeKind.array PgType.tstz_range)
kind PgType.date_range = ok (PgTypeKind.range PgType.date)
kind PgType.date_range_array = ok (PgTypeKind.array PgType.date_range)
kind PgType.int8_range = ok (PgTypeKind.range PgType.int8)
kind PgType.int8_range_array = ok (PgTypeKind.array PgType.int8_range)
kind PgType.jsonpath = ok PgTypeKind.simple
kind PgType.jsonpath_array = ok (PgTypeKind.array PgType.jsonpath)
kind PgType.money = ok PgTypeKind.simple
kind PgType.money_array = ok (PgTypeKind.array PgType.money)
kind PgType.void = ok PgTypeKind.pseudo
kind (PgType.custom oid n k) = ok k
kind (PgType.declare_with_oid oid) = panic
kind (PgType.declare_with_name n) = panic
kind (PgType.declare_array_of n) = panic
