-- ===== src/Sqlite/Explain/Step.antt =====
-- sqlx-sqlite/src/connection/explain.rs: the match of `explain` on the name of an instruction. The
-- columns of the tables by their root pages, and the check for UTF-8, are parameters.
use sqlx.Base.{ℕ, Bool, Option, List, ok, ◌>>=◌}
use sqlx.Base.Int.{ℤ}
use sqlx.Sqlite.IntMap.{IntMap}
use sqlx.Sqlite.Explain.Opcodes.{Arm, arm_of, opcode_to_type}
use sqlx.Sqlite.Explain.Types.{ColumnType, null_column, integer, typed, int, known, pseudo}
use sqlx.Sqlite.Explain.Memory.{
  MemoryState, Instruction, Fallible, to_usize, at, set_reg, set_cursor, mark_not_null, copy_reg,
  halt, next, goto, break, Effect, goes_on,
}
use sqlx.Sqlite.Explain.Control.{
  exec_go_sub, exec_either, exec_is_null, exec_not_null, exec_must_be_int, exec_if, exec_if_pos,
  exec_rewind, exec_init_coroutine, exec_end_coroutine, exec_return, exec_yield, exec_jump,
  exec_result_row,
}
use sqlx.Sqlite.Explain.Cursors.{
  exec_column, exec_row_data, exec_make_record, exec_insert, exec_delete, exec_open_dup,
  exec_open_read, exec_open_ephemeral, exec_null_row,
}
use sqlx.Sqlite.Explain.Values.{
  exec_function, exec_agg_step, exec_agg_final, exec_cast, exec_arithmetic, exec_copy, exec_move,
  exec_null,
}

-- The end of the loop's body, for the handlers that reach it.
abbrev pub then_next : Fallible MemoryState → Fallible Effect
then_next m = m >>= λ x. goes_on (next x)

abbrev pub jump_to : ℤ → MemoryState → Fallible Effect
jump_to j m = goes_on (goto (at (to_usize j) m))

module _ (root_block_cols : ℤ → ℤ → Option (IntMap ColumnType)) (is_utf8 : List ℕ → Bool)
    (program : List Instruction) where
  -- `visits` counts this visit of the instruction too.
  unfoldable pub exec_arm : Arm → Instruction → ℕ → MemoryState → Fallible Effect
  exec_arm Arm.init i visits m = jump_to i.p2 m
  exec_arm Arm.goto i visits m = jump_to i.p2 m
  exec_arm Arm.fk_if_zero i visits m = jump_to i.p2 m
  exec_arm Arm.go_sub i visits m = exec_go_sub i m
  exec_arm Arm.either i visits m = exec_either i m
  exec_arm Arm.is_null i visits m = exec_is_null i m
  exec_arm Arm.not_null i visits m = exec_not_null i m
  exec_arm Arm.must_be_int i visits m = exec_must_be_int i m
  exec_arm Arm.if_true i visits m = exec_if i m
  exec_arm Arm.if_pos i visits m = exec_if_pos i m visits
  exec_arm Arm.rewind i visits m = exec_rewind i m
  exec_arm Arm.init_coroutine i visits m = exec_init_coroutine i m
  exec_arm Arm.end_coroutine i visits m = exec_end_coroutine i m program
  exec_arm Arm.return_ i visits m = exec_return i m
  exec_arm Arm.yield_ i visits m = exec_yield i m program
  exec_arm Arm.jump i visits m = exec_jump i m
  exec_arm Arm.result_row i visits m = exec_result_row i m
  exec_arm Arm.halt i visits m = goes_on (break halt)
  exec_arm Arm.column i visits m = then_next (exec_column i m)
  exec_arm Arm.sequence i visits m = then_next (set_reg i.p2 (known integer) m)
  exec_arm Arm.row_data i visits m = then_next (exec_row_data i m)
  exec_arm Arm.make_record i visits m = then_next (exec_make_record i m)
  exec_arm Arm.insert_row i visits m = then_next (exec_insert i m)
  exec_arm Arm.delete i visits m = then_next (exec_delete i m)
  exec_arm Arm.open_pseudo i visits m = then_next (set_cursor i.p1 (pseudo i.p2) m)
  exec_arm Arm.open_dup i visits m = then_next (exec_open_dup i m)
  exec_arm Arm.open_read i visits m = then_next (exec_open_read i m root_block_cols)
  exec_arm Arm.open_ephemeral i visits m = then_next (exec_open_ephemeral i m)
  exec_arm Arm.variable i visits m = then_next (set_reg i.p2 (typed null_column) m)
  exec_arm Arm.halt_if_null i visits m = then_next (mark_not_null i.p3 m)
  exec_arm Arm.function i visits m = then_next (exec_function i m is_utf8)
  exec_arm Arm.null_row i visits m = then_next (exec_null_row i m)
  exec_arm Arm.agg_step i visits m = then_next (exec_agg_step i m is_utf8)
  exec_arm Arm.agg_final i visits m = then_next (exec_agg_final i m is_utf8)
  exec_arm Arm.cast i visits m = then_next (exec_cast i m)
  exec_arm Arm.scopy i visits m = then_next (copy_reg i.p1 i.p2 m)
  exec_arm Arm.copy i visits m = then_next (exec_copy i m)
  exec_arm Arm.move_ i visits m = then_next (exec_move i m)
  exec_arm Arm.load_integer i visits m = then_next (set_reg i.p2 (int i.p1) m)
  exec_arm Arm.constant i visits m = then_next (set_reg i.p2 (known (opcode_to_type i.opcode)) m)
  exec_arm Arm.not_ i visits m = then_next (copy_reg i.p1 i.p2 m)
  exec_arm Arm.load_null i visits m = then_next (exec_null i m)
  exec_arm Arm.arithmetic i visits m = then_next (exec_arithmetic i m)
  exec_arm Arm.offset_limit i visits m = then_next (set_reg i.p2 (known integer) m)
  exec_arm Arm.unknown i visits m = then_next (ok m)

  unfoldable pub exec : Instruction → ℕ → MemoryState → Fallible Effect
  unfolding exec_arm arm_of
  exec i visits m = exec_arm (arm_of i.opcode) i visits m
