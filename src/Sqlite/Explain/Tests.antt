-- ===== src/Sqlite/Explain/Tests.antt =====
-- Runs of `explain` on short programs.
use sqlx.Base.{
  ◌+◌, ℕ, ◌≡◌, refl, Bool, true, false, Option, none, some, List, [], ◌∷◌, ok, ◌>>=◌, Yields,
  get_elem?, arith,
}
use sqlx.Base.Int.{ℤ, pos}
use sqlx.Base.Text.{codes}
use sqlx.Sqlite.IntMap.{IntMap, new, insert, get, expand, grow}
use sqlx.Sqlite.Explain.Types.{integer, text, null, ColumnType, single, typed, int, pseudo}
use sqlx.Sqlite.Explain.Opcodes.{arm_of}
use sqlx.Sqlite.Explain.Memory.{MemoryState, Instruction, set_reg, reg, collect, set_cursor}
use sqlx.Sqlite.Explain.Control.{exec_go_sub, exec_result_row, exec_is_null, exec_not_null}
use sqlx.Sqlite.Explain.Cursors.{exec_make_record, exec_column}
use sqlx.Sqlite.Explain.Branches.{QueryState, Explorer, turn}
use sqlx.Sqlite.Explain.Output.{explain, finish}
use sqlx.Sqlite.Explain.Safety.Branches.{AllAddressed, IsStanding, IsTurn}
use sqlx.Sqlite.Explain.Safety.Loops.{HasColumns, explain_lem, turn-IsTurn}
use sqlx.Sqlite.Explain.Merging.{column_values, summary, finish_lem}
use sqlx.Sqlite.Explain.Records.{column_in, exec_column-exec_make_record}
use sqlx.Sqlite.Explain.Nulls.{AreExchanged, exec_is_null-exec_not_null}
use Prim.Native.String.{String}

abbrev op : String → ℕ → ℕ → ℕ → Instruction
op name a b c = record { opcode = codes name; p1 = pos a; p2 = pos b; p3 = pos c; p4 = [] }

abbrev no_tables : ℤ → ℤ → Option (IntMap ColumnType)
no_tables db page = none

abbrev any_text : List ℕ → Bool
any_text s = true

-- SELECT 1
abbrev select_one : List Instruction
select_one =
    op "Init" 0 4 0
    ∷ op "Integer" 1 1 0
    ∷ op "ResultRow" 1 1 0
    ∷ op "Halt" 0 0 0
    ∷ op "Goto" 0 1 0
    ∷ []

select_one_columns : explain no_tables any_text select_one ≡ ok (some ((integer, some false) ∷ []))
unfolding explain set_reg reg collect exec_go_sub exec_result_row insert get expand grow new
select_one_columns = refl

select_one-AllAddressed : AllAddressed select_one
unfolding arm_of
select_one-AllAddressed = (tt, (tt, (tt, (tt, (tt, tt)))))

explain_lem_example :
    Yields (HasColumns no_tables any_text select_one) (explain no_tables any_text select_one)
explain_lem_example = explain_lem no_tables any_text select_one select_one-AllAddressed

-- A branch at the instruction that loads 1.
abbrev loading : QueryState
loading = record {
  visited = 1 ∷ 0 ∷ 0 ∷ 0 ∷ 1 ∷ [];
  branch_id = pos 0;
  instruction_counter = pos 2;
  branch_parent = none;
  mem = record { program_i = 1; r = new; p = new; t = new };
}

abbrev nothing_else : Explorer
nothing_else = record {
  states = [];
  visited_branch_state = [];
  branch_seq = pos 1;
  gas = 99998;
  result_states = [];
}

loading-IsStanding : IsStanding 5 (some loading, nothing_else)
unfolding get new
loading-IsStanding = (
  (
    refl,
    (omega arith, (omega arith, (omega arith, (omega arith, (omega arith, tt))))),
    λ j c e. absurd (cc),
  ),
  tt,
)

turn-IsTurn_example :
    Yields
      (IsTurn 5 (some loading, nothing_else))
      (turn no_tables any_text select_one (some loading, nothing_else))
turn-IsTurn_example =
    turn-IsTurn no_tables any_text select_one select_one-AllAddressed (some loading, nothing_else)
      loading-IsStanding

-- A row of a text that is not NULL, and one of NULL and a number.
abbrev two_rows : Explorer
two_rows = record nothing_else {
  result_states =
      (single null (some true) ∷ single integer (some false) ∷ [])
      ∷ (single text (some false) ∷ [])
      ∷ [];
}

finish_lem_example :
    get_elem? (finish two_rows) 0 ≡ summary (column_values 0 two_rows.result_states)
finish_lem_example = finish_lem two_rows 0

two_rows_finished : finish two_rows ≡ (text, some true) ∷ (integer, some false) ∷ []
unfolding finish
two_rows_finished = refl

abbrev registers : MemoryState
registers = record {
  program_i = 7;
  r = record { slots = none ∷ some (int (pos 5)) ∷ some (typed (single text (some true))) ∷ [] };
  p = new;
  t = new;
}

exec_column-exec_make_record_example :
    (x : MemoryState) × ((exec_make_record (op "MakeRecord" 1 2 4) registers >>= λ y.
    set_cursor (pos 0) (pseudo (pos 4)) y >>= λ z. exec_column (op "Column" 0 1 9) z)
      ≡ ok x)
    × (get x.r (pos 9) ≡ ok (some (typed (column_in registers 2))))
exec_column-exec_make_record_example =
    exec_column-exec_make_record (op "MakeRecord" 1 2 4) (op "Column" 0 1 9) 1 2 4 0 1 9 registers
      refl refl refl refl refl refl (omega arith)

exec_is_null-exec_not_null_example :
    AreExchanged 3
      (registers.program_i + 1)
      (exec_is_null (op "IsNull" 2 3 0) registers)
      (exec_not_null (op "IsNull" 2 3 0) registers)
exec_is_null-exec_not_null_example = exec_is_null-exec_not_null (op "IsNull" 2 3 0) 2 registers refl
