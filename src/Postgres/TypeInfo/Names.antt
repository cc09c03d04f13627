-- ===== src/Postgres/TypeInfo/Names.antt =====
-- sqlx-postgres/src/type_info.rs: the names of a type, for the user and in `pg_type`.
use sqlx.Base.Text.{codes}
use sqlx.Postgres.TypeInfo.{Str, PgType, array_name}

unfoldable pub display_name : PgType → Str
display_name PgType.bool = codes "BOOL"
display_name PgType.bytea = codes "BYTEA"
display_name PgType.char = codes "\"CHAR\""
display_name PgType.name = codes "NAME"
display_name PgType.int8 = codes "INT8"
display_name PgType.int2 = codes "INT2"
display_name PgType.int4 = codes "INT4"
display_name PgType.text = codes "TEXT"
display_name PgType.oid = codes "OID"
display_name PgType.json = codes "JSON"
display_name PgType.json_array = codes "JSON[]"
display_name PgType.point = codes "POINT"
display_name PgType.lseg = codes "LSEG"
display_name PgType.path = codes "PATH"
display_name PgType.box = codes "BOX"
display_name PgType.polygon = codes "POLYGON"
display_name PgType.line = codes "LINE"
display_name PgType.line_array = codes "LINE[]"
display_name PgType.cidr = codes "CIDR"
display_name PgType.cidr_array = codes "CIDR[]"
display_name PgType.float4 = codes "FLOAT4"
display_name PgType.float8 = codes "FLOAT8"
display_name PgType.unknown = codes "UNKNOWN"
display_name PgType.circle = codes "CIRCLE"
display_name PgType.circle_array = codes "CIRCLE[]"
display_name PgType.macaddr8 = codes "MACADDR8"
display_name PgType.macaddr8_array = codes "MACADDR8[]"
display_name PgType.macaddr = codes "MACADDR"
display_name PgType.inet = codes "INET"
display_name PgType.bool_array = codes "BOOL[]"
display_name PgType.bytea_array = codes "BYTEA[]"
display_name PgType.char_array = codes "\"CHAR\"[]"
display_name PgType.name_array = codes "NAME[]"
display_name PgType.int2_array = codes "INT2[]"
display_name PgType.int4_array = codes "INT4[]"
display_name PgType.text_array = codes "TEXT[]"
display_name PgType.bpchar_array = codes "CHAR[]"
display_name PgType.varchar_array = codes "VARCHAR[]"
display_name PgType.int8_array = codes "INT8[]"
display_name PgType.point_array = codes "POINT[]"
display_name PgType.lseg_array = codes "LSEG[]"
display_name PgType.path_array = codes "PATH[]"
display_name PgType.box_array = codes "BOX[]"
display_name PgType.float4_array = codes "FLOAT4[]"
display_name PgType.float8_array = codes "FLOAT8[]"
display_name PgType.polygon_array = codes "POLYGON[]"
display_name PgType.oid_array = codes "OID[]"
display_name PgType.macaddr_array = codes "MACADDR[]"
display_name PgType.inet_array = codes "INET[]"
display_name PgType.bpchar = codes "CHAR"
display_name PgType.varchar = codes "VARCHAR"
display_name PgType.date = codes "DATE"
display_name PgType.time = codes "TIME"
display_name PgType.timestamp = codes "TIMESTAMP"
display_name PgType.timestamp_array = codes "TIMESTAMP[]"
display_name PgType.date_array = codes "DATE[]"
display_name PgType.time_array = codes "TIME[]"
display_name PgType.timestamptz = codes "TIMESTAMPTZ"
display_name PgType.timestamptz_array = codes "TIMESTAMPTZ[]"
display_name PgType.interval = codes "INTERVAL"
display_name PgType.interval_array = codes "INTERVAL[]"
display_name PgType.numeric_array = codes "NUMERIC[]"
display_name PgType.timetz = codes "TIMETZ"
display_name PgType.timetz_array = codes "TIMETZ[]"
display_name PgType.bit = codes "BIT"
display_name PgType.bit_array = codes "BIT[]"
display_name PgType.varbit = codes "VARBIT"
display_name PgType.varbit_array = codes "VARBIT[]"
display_name PgType.numeric = codes "NUMERIC"
display_name PgType.record_type = codes "RECORD"
display_name PgType.record_array = codes "RECORD[]"
display_name PgType.uuid = codes "UUID"
display_name PgType.uuid_array = codes "UUID[]"
display_name PgType.jsonb = codes "JSONB"
display_name PgType.jsonb_array = codes "JSONB[]"
display_name PgType.int4_range = codes "INT4RANGE"
display_name PgType.int4_range_array = codes "INT4RANGE[]"
display_name PgType.num_range = codes "NUMRANGE"
display_name PgType.num_range_array = codes "NUMRANGE[]"
display_name PgType.ts_range = codes "TSRANGE"
display_name PgType.ts_range_array = codes "TSRANGE[]"
display_name PgType.tstz_range = codes "TSTZRANGE"
display_name PgType.tstz_range_array = codes "TSTZRANGE[]"
display_name PgType.date_range = codes "DATERANGE"
display_name PgType.date_range_array = codes "DATERANGE[]"
display_name PgType.int8_range = codes "INT8RANGE"
display_name PgType.int8_range_array = codes "INT8RANGE[]"
display_name PgType.jsonpath = codes "JSONPATH"
display_name PgType.jsonpath_array = codes "JSONPATH[]"
display_name PgType.money = codes "MONEY"
display_name PgType.money_array = codes "MONEY[]"
display_name PgType.void = codes "VOID"
display_name (PgType.custom oid n k) = n
display_name (PgType.declare_with_oid oid) = codes "?"
display_name (PgType.declare_with_name n) = n
display_name (PgType.declare_array_of n) = array_name n

unfoldable pub name : PgType → Str
name PgType.bool = codes "bool"
name PgType.bytea = codes "bytea"
name PgType.char = codes "char"
name PgType.name = codes "name"
name PgType.int8 = codes "int8"
name PgType.int2 = codes "int2"
name PgType.int4 = codes "int4"
name PgType.text = codes "text"
name PgType.oid = codes "oid"
name PgType.json = codes "json"
name PgType.json_array = codes "_json"
name PgType.point = codes "point"
name PgType.lseg = codes "lseg"
name PgType.path = codes "path"
name PgType.box = codes "box"
name PgType.polygon = codes "polygon"
name PgType.line = codes "line"
name PgType.line_array = codes "_line"
name PgType.cidr = codes "cidr"
name PgType.cidr_array = codes "_cidr"
name PgType.float4 = codes "float4"
name PgType.float8 = codes "float8"
name PgType.unknown = codes "unknown"
name PgType.circle = codes "circle"
name PgType.circle_array = codes "_circle"
name PgType.macaddr8 = codes "macaddr8"
name PgType.macaddr8_array = codes "_macaddr8"
name PgType.macaddr = codes "macaddr"
name PgType.inet = codes "inet"
name PgType.bool_array = codes "_bool"
name PgType.bytea_array = codes "_bytea"
name PgType.char_array = codes "_char"
name PgType.name_array = codes "_name"
name PgType.int2_array = codes "_int2"
name PgType.int4_array = codes "_int4"
name PgType.text_array = codes "_text"
name PgType.bpchar_array = codes "_bpchar"
name PgType.varchar_array = codes "_varchar"
name PgType.int8_array = codes "_int8"
name PgType.point_array = codes "_point"
name PgType.lseg_array = codes "_lseg"
name PgType.path_array = codes "_path"
name PgType.box_array = codes "_box"
name PgType.float4_array = codes "_float4"
name PgType.float8_array = codes "_float8"
name PgType.polygon_array = codes "_polygon"
name PgType.oid_array = codes "_oid"
name PgType.macaddr_array = codes "_macaddr"
name PgType.inet_array = codes "_inet"
name PgType.bpchar = codes "bpchar"
name PgType.varchar = codes "varchar"
name PgType.date = codes "date"
name PgType.time = codes "time"
name PgType.timestamp = codes "timestamp"
name PgType.timestamp_array = codes "_timestamp"
name PgType.date_array = codes "_date"
name PgType.time_array = codes "_time"
name PgType.timestamptz = codes "timestamptz"
name PgType.timestamptz_array = codes "_timestamptz"
name PgType.interval = codes "interval"
name PgType.interval_array = codes "_interval"
name PgType.numeric_array = codes "_numeric"
name PgType.timetz = codes "timetz"
name PgType.timetz_array = codes "_timetz"
name PgType.bit = codes "bit"
name PgType.bit_array = codes "_bit"
name PgType.varbit = codes "varbit"
name PgType.varbit_array = codes "_varbit"
name PgType.numeric = codes "numeric"
name PgType.record_type = codes "record"
name PgType.record_array = codes "_record"
name PgType.uuid = codes "uuid"
name PgType.uuid_array = codes "_uuid"
name PgType.jsonb = codes "jsonb"
name PgType.jsonb_array = codes "_jsonb"
name PgType.int4_range = codes "int4range"
name PgType.int4_range_array = codes "_int4range"
name PgType.num_range = codes "numrange"
name PgType.num_range_array = codes "_numrange"
name PgType.ts_range = codes "tsrange"
name PgType.ts_range_array = codes "_tsrange"
name PgType.tstz_range = codes "tstzrange"
name PgType.tstz_range_array = codes "_tstzrange"
name PgType.date_range = codes "daterange"
name PgType.date_range_array = codes "_daterange"
name PgType.int8_range = codes "int8range"
name PgType.int8_range_array = codes "_int8range"
name PgType.jsonpath = codes "jsonpath"
name PgType.jsonpath_array = codes "_jsonpath"
name PgType.money = codes "money"
name PgType.money_array = codes "_money"
name PgType.void = codes "void"
name (PgType.custom oid n k) = n
name (PgType.declare_with_oid oid) = codes "?"
name (PgType.declare_with_name n) = n
name (PgType.declare_array_of n) = array_name n
