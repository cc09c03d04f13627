-- ===== src/Postgres/TypeInfo/Oids.antt =====
-- sqlx-postgres/src/type_info.rs: the OIDs of the built-in types.
use sqlx.Base.{ℕ, Option, none, some, List, [], ◌∷◌, ◌==◌, if◌then◌else◌, Outcome, expect}
use sqlx.Postgres.TypeInfo.{PgType}

-- The arms of the match in `try_from_oid`.
abbrev pub oid_arms : List (ℕ × PgType)
oid_arms =
    (16, PgType.bool)
    ∷ (17, PgType.bytea)
    ∷ (18, PgType.char)
    ∷ (19, PgType.name)
    ∷ (20, PgType.int8)
    ∷ (21, PgType.int2)
    ∷ (23, PgType.int4)
    ∷ (25, PgType.text)
    ∷ (26, PgType.oid)
    ∷ (114, PgType.json)
    ∷ (199, PgType.json_array)
    ∷ (600, PgType.point)
    ∷ (601, PgType.lseg)
    ∷ (602, PgType.path)
    ∷ (603, PgType.box)
    ∷ (604, PgType.polygon)
    ∷ (628, PgType.line)
    ∷ (629, PgType.line_array)
    ∷ (650, PgType.cidr)
    ∷ (651, PgType.cidr_array)
    ∷ (700, PgType.float4)
    ∷ (701, PgType.float8)
    ∷ (705, PgType.unknown)
    ∷ (718, PgType.circle)
    ∷ (719, PgType.circle_array)
    ∷ (774, PgType.macaddr8)
    ∷ (775, PgType.macaddr8_array)
    ∷ (790, PgType.money)
    ∷ (791, PgType.money_array)
    ∷ (829, PgType.macaddr)
    ∷ (869, PgType.inet)
    ∷ (1000, PgType.bool_array)
    ∷ (1001, PgType.bytea_array)
    ∷ (1002, PgType.char_array)
    ∷ (1003, PgType.name_array)
    ∷ (1005, PgType.int2_array)
    ∷ (1007, PgType.int4_array)
    ∷ (1009, PgType.text_array)
    ∷ (1014, PgType.bpchar_array)
    ∷ (1015, PgType.varchar_array)
    ∷ (1016, PgType.int8_array)
    ∷ (1017, PgType.point_array)
    ∷ (1018, PgType.lseg_array)
    ∷ (1019, PgType.path_array)
    ∷ (1020, PgType.box_array)
    ∷ (1021, PgType.float4_array)
    ∷ (1022, PgType.float8_array)
    ∷ (1027, PgType.polygon_array)
    ∷ (1028, PgType.oid_array)
    ∷ (1040, PgType.macaddr_array)
    ∷ (1041, PgType.inet_array)
    ∷ (1042, PgType.bpchar)
    ∷ (1043, PgType.varchar)
    ∷ (1082, PgType.date)
    ∷ (1083, PgType.time)
    ∷ (1114, PgType.timestamp)
    ∷ (1115, PgType.timestamp_array)
    ∷ (1182, PgType.date_array)
    ∷ (1183, PgType.time_array)
    ∷ (1184, PgType.timestamptz)
    ∷ (1185, PgType.timestamptz_array)
    ∷ (1186, PgType.interval)
    ∷ (1187, PgType.interval_array)
    ∷ (1231, PgType.numeric_array)
    ∷ (1266, PgType.timetz)
    ∷ (1270, PgType.timetz_array)
    ∷ (1560, PgType.bit)
    ∷ (1561, PgType.bit_array)
    ∷ (1562, PgType.varbit)
    ∷ (1563, PgType.varbit_array)
    ∷ (1700, PgType.numeric)
    ∷ (2278, PgType.void)
    ∷ (2249, PgType.record_type)
    ∷ (2287, PgType.record_array)
    ∷ (2950, PgType.uuid)
    ∷ (2951, PgType.uuid_array)
    ∷ (3802, PgType.jsonb)
    ∷ (3807, PgType.jsonb_array)
    ∷ (3904, PgType.int4_range)
    ∷ (3905, PgType.int4_range_array)
    ∷ (3906, PgType.num_range)
    ∷ (3907, PgType.num_range_array)
    ∷ (3908, PgType.ts_range)
    ∷ (3909, PgType.ts_range_array)
    ∷ (3910, PgType.tstz_range)
    ∷ (3911, PgType.tstz_range_array)
    ∷ (3912, PgType.date_range)
    ∷ (3913, PgType.date_range_array)
    ∷ (3926, PgType.int8_range)
    ∷ (3927, PgType.int8_range_array)
    ∷ (4072, PgType.jsonpath)
    ∷ (4073, PgType.jsonpath_array)
    ∷ []

unfoldable pub first_arm : ℕ → List (ℕ × PgType) → Option PgType
first_arm oid [] = none
first_arm oid ((o, t) ∷ arms) = if oid == o then some t else first_arm oid arms

unfoldable pub try_from_oid : ℕ → Option PgType
try_from_oid oid = first_arm oid oid_arms

unfoldable pub try_oid : PgType → Option ℕ
try_oid PgType.bool = some 16
try_oid PgType.bytea = some 17
try_oid PgType.char = some 18
try_oid PgType.name = some 19
try_oid PgType.int8 = some 20
try_oid PgType.int2 = some 21
try_oid PgType.int4 = some 23
try_oid PgType.text = some 25
try_oid PgType.oid = some 26
try_oid PgType.json = some 114
try_oid PgType.json_array = some 199
try_oid PgType.point = some 600
try_oid PgType.lseg = some 601
try_oid PgType.path = some 602
try_oid PgType.box = some 603
try_oid PgType.polygon = some 604
try_oid PgType.line = some 628
try_oid PgType.line_array = some 629
try_oid PgType.cidr = some 650
try_oid PgType.cidr_array = some 651
try_oid PgType.float4 = some 700
try_oid PgType.float8 = some 701
try_oid PgType.unknown = some 705
try_oid PgType.circle = some 718
try_oid PgType.circle_array = some 719
try_oid PgType.macaddr8 = some 774
try_oid PgType.macaddr8_array = some 775
try_oid PgType.money = some 790
try_oid PgType.money_array = some 791
try_oid PgType.macaddr = some 829
try_oid PgType.inet = some 869
try_oid PgType.bool_array = some 1000
try_oid PgType.bytea_array = some 1001
try_oid PgType.char_array = some 1002
try_oid PgType.name_array = some 1003
try_oid PgType.int2_array = some 1005
try_oid PgType.int4_array = some 1007
try_oid PgType.text_array = some 1009
try_oid PgType.bpchar_array = some 1014
try_oid PgType.varchar_array = some 1015
try_oid PgType.int8_array = some 1016
try_oid PgType.point_array = some 1017
try_oid PgType.lseg_array = some 1018
try_oid PgType.path_array = some 1019
try_oid PgType.box_array = some 1020
try_oid PgType.float4_array = some 1021
try_oid PgType.float8_array = some 1022
try_oid PgType.polygon_array = some 1027
try_oid PgType.oid_array = some 1028
try_oid PgType.macaddr_array = some 1040
try_oid PgType.inet_array = some 1041
try_oid PgType.bpchar = some 1042
try_oid PgType.varchar = some 1043
try_oid PgType.date = some 1082
try_oid PgType.time = some 1083
try_oid PgType.timestamp = some 1114
try_oid PgType.timestamp_array = some 1115
try_oid PgType.date_array = some 1182
try_oid PgType.time_array = some 1183
try_oid PgType.timestamptz = some 1184
try_oid PgType.timestamptz_array = some 1185
try_oid PgType.interval = some 1186
try_oid PgType.interval_array = some 1187
try_oid PgType.numeric_array = some 1231
try_oid PgType.timetz = some 1266
try_oid PgType.timetz_array = some 1270
try_oid PgType.bit = some 1560
try_oid PgType.bit_array = some 1561
try_oid PgType.varbit = some 1562
try_oid PgType.varbit_array = some 1563
try_oid PgType.numeric = some 1700
try_oid PgType.record_type = some 2249
try_oid PgType.void = some 2278
try_oid PgType.record_array = some 2287
try_oid PgType.uuid = some 2950
try_oid PgType.uuid_array = some 2951
try_oid PgType.jsonb = some 3802
try_oid PgType.jsonb_array = some 3807
try_oid PgType.int4_range = some 3904
try_oid PgType.int4_range_array = some 3905
try_oid PgType.num_range = some 3906
try_oid PgType.num_range_array = some 3907
try_oid PgType.ts_range = some 3908
try_oid PgType.ts_range_array = some 3909
try_oid PgType.tstz_range = some 3910
try_oid PgType.tstz_range_array = some 3911
try_oid PgType.date_range = some 3912
try_oid PgType.date_range_array = some 3913
try_oid PgType.int8_range = some 3926
try_oid PgType.int8_range_array = some 3927
try_oid PgType.jsonpath = some 4072
try_oid PgType.jsonpath_array = some 4073
try_oid (PgType.custom oid n k) = some oid
try_oid (PgType.declare_with_oid oid) = some oid
try_oid (PgType.declare_with_name n) = none
try_oid (PgType.declare_array_of n) = none

-- `oid`, which panics where there is none.
pub oid : PgType → Outcome ⊥ ℕ
unfolding try_oid
oid t = expect (try_oid t)
