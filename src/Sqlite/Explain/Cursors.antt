-- ===== src/Sqlite/Explain/Cursors.antt =====
-- sqlx-sqlite/src/connection/explain.rs: the instructions on cursors, tables and records. They go on
-- with the next one.
use sqlx.Base.{
  ℕ, Bool, true, false, ◌||◌, Option, none, some, map, Outcome, ok, panic, ◌>>=◌, lift,
  if◌then◌else◌,
}
use sqlx.Base.Int.{ℤ, pos, negsuc}
use sqlx.Base.Eq.{nat_eq, int_beq}
use sqlx.Sqlite.IntMap
use sqlx.Sqlite.IntMap.{IntMap, get, from_elem, from_dense_record, new}
use sqlx.Sqlite.Explain.Types.{
  null, ColumnType, single, record_of, record_type, map_of, default_column, null_column,
  RegDataType, typed, columns_ref, columns, update_table, CursorDataType, normal, pseudo,
  TableDataType,
}
use sqlx.Sqlite.Explain.Memory.{
  MemoryState, Instruction, Fallible, reg, set_reg, cursor, set_cursor, collect,
}

abbrev pub column_at : Option (IntMap ColumnType) → ℤ → Outcome ⊥ (Option ColumnType)
column_at none k = ok none
column_at (some cc) k = get cc k

abbrev pub or_default : Option ColumnType → ColumnType
or_default none = default_column
or_default (some c) = c

-- `Vec::with_capacity` and `from_elem` of a negative size panic. Memory is taken to suffice for a size
-- that is not negative.
abbrev pub size_of : ℤ → Fallible ℕ
size_of (pos n) = ok n
size_of (negsuc n) = panic

-- NULL in all columns that are no records.
abbrev pub nullify : ColumnType → ColumnType
nullify (single d n) = single d (some true)
nullify (record_of cs) = record_of cs

abbrev pub nullify_slot : Option ColumnType → Option ColumnType
nullify_slot none = none
nullify_slot (some c) = some (nullify c)

abbrev pub nullify_all : IntMap ColumnType → IntMap ColumnType
nullify_all cc = record { slots = map nullify_slot cc.slots }

abbrev pub non_empty : TableDataType → TableDataType
non_empty tab = record tab { is_empty = some false }

module _ (i : Instruction) (m : MemoryState) where
  abbrev pub column_of : Option CursorDataType → Fallible (Option ColumnType)
  column_of none = ok none
  column_of (some c) = lift (columns_ref c m.t m.r) >>= λ cc. lift (column_at cc i.p2)

  unfoldable pub exec_column : Fallible MemoryState
  exec_column = cursor i.p1 m >>= column_of >>= λ value. set_reg i.p3 (typed (or_default value)) m

  abbrev pub row_of : Option CursorDataType → Fallible (IntMap ColumnType)
  row_of none = ok new
  row_of (some c) = lift (columns c m.t m.r)

  unfoldable pub exec_row_data : Fallible MemoryState
  exec_row_data = cursor i.p1 m >>= row_of >>= λ row. set_reg i.p2 (typed (record_type row)) m

  unfoldable pub exec_make_record : Fallible MemoryState
  exec_make_record = size_of i.p2 >>= λ n.
      collect n i.p1 m >>= λ row. set_reg i.p3 (typed (record_type (from_dense_record row))) m

  -- A write to the table of a cursor, where there is one.
  abbrev pub to_table :
      (TableDataType → TableDataType) → Option CursorDataType → Fallible MemoryState
  to_table f none = ok m
  to_table f (some c) = lift (update_table f c m.t) >>= λ t'. ok (record m { t = t' })

  abbrev pub inserted : Option RegDataType → Fallible MemoryState
  inserted (some (typed (record_of cs))) =
      cursor i.p1 m >>= to_table (λ tab. record { cols = map_of cs; is_empty = some false })
  inserted (some (typed (single null n))) = cursor i.p1 m >>= to_table non_empty
  inserted _ = ok m

  unfoldable pub exec_insert : Fallible MemoryState
  exec_insert = reg i.p2 m >>= inserted

  abbrev pub maybe_empty : Option Bool → Option Bool
  maybe_empty (some false) = none
  maybe_empty (some true) = some true
  maybe_empty none = none

  unfoldable pub exec_delete : Fallible MemoryState
  exec_delete =
      cursor i.p1 m >>= to_table (λ tab. record tab { is_empty = maybe_empty tab.is_empty })

  abbrev pub duplicated : Option CursorDataType → Fallible MemoryState
  duplicated none = ok m
  duplicated (some c) = set_cursor i.p1 c m

  unfoldable pub exec_open_dup : Fallible MemoryState
  exec_open_dup = cursor i.p2 m >>= duplicated

  -- A table by the number of the instruction, and a cursor on it.
  unfoldable pub open_table : TableDataType → Fallible MemoryState
  open_table tab = lift (IntMap.insert m.t (pos m.program_i) tab) >>= λ res.
      set_cursor i.p1 (normal (pos m.program_i)) (record m { t = res.0 })

  abbrev pub table_info : Option (IntMap ColumnType) → TableDataType
  table_info none = record { cols = new; is_empty = none }
  table_info (some cols) = record { cols = cols; is_empty = none }

  unfoldable pub exec_open_read : (ℤ → ℤ → Option (IntMap ColumnType)) → Fallible MemoryState
  exec_open_read root_block_cols = open_table (
      table_info
        (if int_beq i.p3 (pos 0) || int_beq i.p3 (pos 1) then root_block_cols i.p3 i.p2 else none))

  unfoldable pub exec_open_ephemeral : Fallible MemoryState
  exec_open_ephemeral = size_of i.p2 >>= λ n.
      open_table (record { cols = from_elem null_column n; is_empty = some true })

  abbrev pub nulled_register : ℤ → Option RegDataType → Fallible MemoryState
  nulled_register k (some (typed (record_of cs))) =
      set_reg k (typed (record_type (nullify_all (map_of cs)))) m
  nulled_register k _ = ok m

  abbrev pub nulled : Option CursorDataType → Fallible MemoryState
  nulled none = ok m
  nulled (some (normal k)) =
      to_table (λ tab. record tab { cols = nullify_all tab.cols }) (some (normal k))
  nulled (some (pseudo k)) = reg k m >>= nulled_register k

  unfoldable pub exec_null_row : Fallible MemoryState
  exec_null_row = cursor i.p1 m >>= nulled
