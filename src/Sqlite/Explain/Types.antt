-- ===== src/Sqlite/Explain/Types.antt =====
-- sqlx-sqlite/src/connection/explain.rs: what is known of registers, tables and cursors. A record
-- holds a map of columns, so that its slots are a data type of their own.
use sqlx.Base.{Bool, true, false, Option, none, some, List, [], ◌∷◌, Outcome, ok, ◌>>=◌}
use sqlx.Base.Int.{ℤ}
use sqlx.Sqlite.IntMap.{IntMap, get, insert, new}

pub data DataType : Type 0 where
  null integer float text blob numeric bool int4 date time datetime : DataType

mutual
  pub data ColumnType : Type 0 where
    single : DataType → Option Bool → ColumnType
    record_of : Columns → ColumnType

  pub data Columns : Type 0 where
    no_more : Columns
    vacant : Columns → Columns
    occupied : ColumnType → Columns → Columns

abbrev pub slots_of : Columns → List (Option ColumnType)
slots_of no_more = []
slots_of (vacant cs) = none ∷ slots_of cs
slots_of (occupied c cs) = some c ∷ slots_of cs

abbrev pub columns_of : List (Option ColumnType) → Columns
columns_of [] = no_more
columns_of (none ∷ xs) = vacant (columns_of xs)
columns_of (some c ∷ xs) = occupied c (columns_of xs)

-- `ColumnType::Record` of a map, and the map of a record.
abbrev pub record_type : IntMap ColumnType → ColumnType
record_type m = record_of (columns_of m.slots)

abbrev pub map_of : Columns → IntMap ColumnType
map_of cs = record { slots = slots_of cs }

-- `ColumnType::default` and `ColumnType::null`.
abbrev pub default_column : ColumnType
default_column = single null none

abbrev pub null_column : ColumnType
null_column = single null (some true)

pub data RegDataType : Type 0 where
  typed : ColumnType → RegDataType
  int : ℤ → RegDataType

abbrev pub default_reg : RegDataType
default_reg = typed default_column

abbrev pub known : DataType → RegDataType
known d = typed (single d (some false))

-- `map_to_datatype` and `map_to_nullable` of a column and of a register.
abbrev pub column_datatype : ColumnType → DataType
column_datatype (single d n) = d
column_datatype (record_of cs) = null

abbrev pub column_nullable : ColumnType → Option Bool
column_nullable (single d n) = n
column_nullable (record_of cs) = none

abbrev pub map_to_datatype : RegDataType → DataType
map_to_datatype (typed c) = column_datatype c
map_to_datatype (int n) = integer

abbrev pub map_to_nullable : RegDataType → Option Bool
map_to_nullable (typed c) = column_nullable c
map_to_nullable (int n) = some false

abbrev pub map_to_columntype : RegDataType → ColumnType
map_to_columntype (typed c) = c
map_to_columntype (int n) = single integer (some false)

pub record TableDataType : Type 0 where
  pub cols : IntMap ColumnType
  pub is_empty : Option Bool

pub data CursorDataType : Type 0 where
  normal pseudo : ℤ → CursorDataType

abbrev pub Tables : Type 0
Tables = IntMap TableDataType

abbrev pub Registers : Type 0
Registers = IntMap RegDataType

-- What a match on `Some(RegDataType::Single(ColumnType::Record(r)))` finds.
abbrev pub record_in : Option RegDataType → Option (IntMap ColumnType)
record_in (some (typed (record_of cs))) = some (map_of cs)
record_in (some (typed (single d n))) = none
record_in (some (int n)) = none
record_in none = none

abbrev pub cols_of : Option TableDataType → Option (IntMap ColumnType)
cols_of none = none
cols_of (some tab) = some tab.cols

abbrev pub or_new : Option (IntMap ColumnType) → IntMap ColumnType
or_new none = new
or_new (some m) = m

-- `columns_ref` and `columns`.
abbrev pub columns_ref :
    CursorDataType → Tables → Registers → Outcome ⊥ (Option (IntMap ColumnType))
columns_ref (normal i) t r = get t i >>= λ o. ok (cols_of o)
columns_ref (pseudo i) t r = get r i >>= λ o. ok (record_in o)

abbrev pub columns : CursorDataType → Tables → Registers → Outcome ⊥ (IntMap ColumnType)
columns c t r = columns_ref c t r >>= λ o. ok (or_new o)

-- A write through the reference of `table_mut`, where there is one.
abbrev pub set_table :
    (TableDataType → TableDataType) → ℤ → Tables → Option TableDataType → Outcome ⊥ Tables
set_table f i t none = ok t
set_table f i t (some tab) = insert t i (f tab) >>= λ r. ok r.0

unfoldable pub update_table :
    (TableDataType → TableDataType) → CursorDataType → Tables → Outcome ⊥ Tables
update_table f (normal i) t = get t i >>= set_table f i t
update_table f (pseudo i) t = ok t

abbrev pub emptiness : Option TableDataType → Option Bool
emptiness none = some true
emptiness (some tab) = tab.is_empty

-- A pseudo cursor has exactly one row.
unfoldable pub is_empty : CursorDataType → Tables → Outcome ⊥ (Option Bool)
is_empty (normal i) t = get t i >>= λ o. ok (emptiness o)
is_empty (pseudo i) t = ok (some false)
