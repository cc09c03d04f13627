-- ===== src/Sqlite/Explain/Output.antt =====
-- sqlx-sqlite/src/connection/explain.rs: the columns of a query from the rows that its branches
-- return, and `explain` as a whole.
use sqlx.Base.{ℕ, ◌+◌, ◌*◌, Bool, ◌||◌, Option, none, some, List, [], ◌∷◌, map, ok, ◌>>=◌}
use sqlx.Base.Int.{ℤ}
use sqlx.Sqlite.IntMap.{IntMap}
use sqlx.Sqlite.Explain.Types.{DataType, null, ColumnType, column_datatype, column_nullable}
use sqlx.Sqlite.Explain.Memory.{Instruction, Fallible}
use sqlx.Sqlite.Explain.Branches.{run, initial, Explorer, max_total_instruction_count}

-- The vectors `output` and `nullable` at a column; they have the same length.
pub record Column : Type 0 where
  pub output : Option DataType
  pub nullable : Option Bool

abbrev pub merge_type : Option DataType → DataType → Option DataType
merge_type none t = some t
merge_type (some null) t = some t
merge_type (some d) t = some d

abbrev pub merge_nullable : Option Bool → Option Bool → Option Bool
merge_nullable none n = n
merge_nullable (some b) none = some b
merge_nullable (some b) (some n) = some (b || n)

-- A row over the columns so far: those that it does not reach stay, those beyond are pushed.
unfoldable pub merge_row : List ColumnType → List Column → List Column
merge_row [] cols = cols
merge_row (c ∷ cs) [] =
    record { output = some (column_datatype c); nullable = column_nullable c } ∷ merge_row cs []
merge_row (c ∷ cs) (col ∷ cols) =
    record {
      output = merge_type col.output (column_datatype c);
      nullable = merge_nullable col.nullable (column_nullable c);
    }
    ∷ merge_row cs cols

-- `while let Some(result) = result_states.pop()`, from the last row to the first.
unfoldable pub merge_all : List (List ColumnType) → List Column → List Column
unfolding merge_row
merge_all [] cols = cols
merge_all (row ∷ rows) cols = merge_all rows (merge_row row cols)

abbrev pub or_null : Option DataType → DataType
or_null none = null
or_null (some d) = d

unfoldable pub finish : Explorer → List (DataType × Option Bool)
unfolding merge_all
finish ex = map (λ (c : Column). (or_null c.output, c.nullable)) (merge_all ex.result_states [])

abbrev pub finished : Option Explorer → Option (List (DataType × Option Bool))
finished none = none
finished (some ex) = some (finish ex)

-- Seven turns for each instruction that the gas allows, and four more, are never used up.
abbrev pub fuel : ℕ
fuel = 7 * max_total_instruction_count + 4

unfoldable pub explain :
    (ℤ → ℤ → Option (IntMap ColumnType))
    → (List ℕ → Bool)
    → List Instruction
    → Fallible (Option (List (DataType × Option Bool)))
unfolding finish run
explain root_block_cols is_utf8 program =
    run root_block_cols is_utf8 program fuel (none, initial root_block_cols is_utf8 program)
    >>= λ o. ok (finished o)
