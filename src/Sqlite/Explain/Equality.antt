-- ===== src/Sqlite/Explain/Equality.antt =====
-- sqlx-sqlite/src/connection/explain.rs: the derived equalities, by which branches with the memory of
-- another are found.
use sqlx.Base.{ℕ, Bool, true, false, not, ◌&&◌, Option, none, some, List, [], ◌∷◌, ◌==◌}
use sqlx.Base.Eq.{int_beq}
use sqlx.Sqlite.IntMap.{IntMap}
use sqlx.Sqlite.Explain.Types.{
  DataType, null, integer, float, text, blob, numeric, bool, int4, date, time, datetime, ColumnType,
  single, record_of, Columns, no_more, vacant, occupied, RegDataType, typed, int, TableDataType,
  CursorDataType, normal, pseudo,
}
use sqlx.Sqlite.Explain.Memory.{MemoryState}

-- The derived equalities. That of a map takes a slot that is missing for one that is empty.
abbrev bool_eq : Bool → Bool → Bool
bool_eq true b = b
bool_eq false b = not b

abbrev nullable_eq : Option Bool → Option Bool → Bool
nullable_eq none none = true
nullable_eq none (some b) = false
nullable_eq (some a) none = false
nullable_eq (some a) (some b) = bool_eq a b

-- The variants are told apart by their numbers.
abbrev number_of : DataType → ℕ
number_of null = 0
number_of integer = 1
number_of float = 2
number_of text = 3
number_of blob = 4
number_of numeric = 5
number_of bool = 6
number_of int4 = 7
number_of date = 8
number_of time = 9
number_of datetime = 10

unfoldable mutual
  pub column_eq : ColumnType → ColumnType → Bool
  column_eq (single d n) (single e k) = number_of d == number_of e && nullable_eq n k
  column_eq (single d n) (record_of ds) = false
  column_eq (record_of cs) (single e k) = false
  column_eq (record_of cs) (record_of ds) = columns_eq cs ds

  pub columns_eq : Columns → Columns → Bool
  columns_eq no_more no_more = true
  columns_eq no_more (vacant ds) = columns_eq no_more ds
  columns_eq no_more (occupied d ds) = false
  columns_eq (vacant cs) no_more = columns_eq cs no_more
  columns_eq (vacant cs) (vacant ds) = columns_eq cs ds
  columns_eq (vacant cs) (occupied d ds) = false
  columns_eq (occupied c cs) no_more = false
  columns_eq (occupied c cs) (vacant ds) = false
  columns_eq (occupied c cs) (occupied d ds) = column_eq c d && columns_eq cs ds

unfoldable pub slots_match :
    {V : Type 0} → (V → V → Bool) → List (Option V) → List (Option V) → Bool
slots_match beq [] [] = true
slots_match beq [] (none ∷ ys) = slots_match beq [] ys
slots_match beq [] (some y ∷ ys) = false
slots_match beq (none ∷ xs) [] = slots_match beq xs []
slots_match beq (some x ∷ xs) [] = false
slots_match beq (none ∷ xs) (none ∷ ys) = slots_match beq xs ys
slots_match beq (none ∷ xs) (some y ∷ ys) = false
slots_match beq (some x ∷ xs) (none ∷ ys) = false
slots_match beq (some x ∷ xs) (some y ∷ ys) = beq x y && slots_match beq xs ys

abbrev maps_eq : {V : Type 0} → (V → V → Bool) → IntMap V → IntMap V → Bool
maps_eq beq m n = slots_match beq m.slots n.slots

unfoldable pub reg_eq : RegDataType → RegDataType → Bool
unfolding column_eq
reg_eq (typed c) (typed d) = column_eq c d
reg_eq (typed c) (int n) = false
reg_eq (int k) (typed d) = false
reg_eq (int k) (int n) = int_beq k n

unfoldable pub cursor_eq : CursorDataType → CursorDataType → Bool
cursor_eq (normal i) (normal j) = int_beq i j
cursor_eq (normal i) (pseudo j) = false
cursor_eq (pseudo i) (normal j) = false
cursor_eq (pseudo i) (pseudo j) = int_beq i j

unfoldable pub table_eq : TableDataType → TableDataType → Bool
unfolding column_eq slots_match
table_eq a b = maps_eq column_eq a.cols b.cols && nullable_eq a.is_empty b.is_empty

unfoldable pub memory_eq : MemoryState → MemoryState → Bool
unfolding slots_match reg_eq cursor_eq table_eq
memory_eq a b =
    a.program_i == b.program_i
    && maps_eq reg_eq a.r b.r
    && maps_eq cursor_eq a.p b.p
    && maps_eq table_eq a.t b.t
