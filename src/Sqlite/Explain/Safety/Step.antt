-- ===== src/Sqlite/Explain/Safety/Step.antt =====
-- sqlx-sqlite/src/connection/explain.rs: no instruction panics whose operands are not negative where
-- they number registers, cursors or columns.
use sqlx.Base.{ℕ, Bool, Option, List, Yields, Yields->>=, arith}
use sqlx.Base.Int.{ℤ}
use sqlx.Sqlite.IntMap.{IntMap}
use sqlx.Sqlite.Explain.Opcodes.{Arm, arm_of, opcode_to_type}
use sqlx.Sqlite.Explain.Types.{ColumnType, null_column, integer, typed, int, known, pseudo}
use sqlx.Sqlite.Explain.Memory.{MemoryState, Instruction, Fallible}
use sqlx.Sqlite.Explain.Step.{then_next, exec_arm, exec}
use sqlx.Sqlite.Explain.Safety.{
  NonNeg, IsSound, set_reg-Yields, set_cursor-Yields, mark_not_null-Yields, copy_reg-Yields,
}
use sqlx.Sqlite.Explain.Safety.Control
use sqlx.Sqlite.Explain.Safety.Control.{IsGood, AreSound, FlowIsSound}
use sqlx.Sqlite.Explain.Safety.Cursors
use sqlx.Sqlite.Explain.Safety.Values
use sqlx.Sqlite.Explain.Safety.Coroutines

-- The operands that number registers, cursors or columns, by the arms.
abbrev pub IsAddressed : Arm → Instruction → Type 0
IsAddressed Arm.init i = Unit
IsAddressed Arm.goto i = Unit
IsAddressed Arm.fk_if_zero i = Unit
IsAddressed Arm.either i = Unit
IsAddressed Arm.must_be_int i = Unit
IsAddressed Arm.jump i = Unit
IsAddressed Arm.halt i = Unit
IsAddressed Arm.unknown i = Unit
IsAddressed Arm.go_sub i = NonNeg i.p1
IsAddressed Arm.is_null i = NonNeg i.p1
IsAddressed Arm.not_null i = NonNeg i.p1
IsAddressed Arm.if_true i = NonNeg i.p1
IsAddressed Arm.if_pos i = NonNeg i.p1
IsAddressed Arm.rewind i = NonNeg i.p1
IsAddressed Arm.init_coroutine i = NonNeg i.p1
IsAddressed Arm.end_coroutine i = NonNeg i.p1
IsAddressed Arm.return_ i = NonNeg i.p1
IsAddressed Arm.yield_ i = NonNeg i.p1
IsAddressed Arm.result_row i = NonNeg i.p1
IsAddressed Arm.delete i = NonNeg i.p1
IsAddressed Arm.open_read i = NonNeg i.p1
IsAddressed Arm.null_row i = NonNeg i.p1
IsAddressed Arm.cast i = NonNeg i.p1
IsAddressed Arm.sequence i = NonNeg i.p2
IsAddressed Arm.variable i = NonNeg i.p2
IsAddressed Arm.load_integer i = NonNeg i.p2
IsAddressed Arm.constant i = NonNeg i.p2
IsAddressed Arm.load_null i = NonNeg i.p2
IsAddressed Arm.offset_limit i = NonNeg i.p2
IsAddressed Arm.halt_if_null i = NonNeg i.p3
IsAddressed Arm.function i = NonNeg i.p3
IsAddressed Arm.row_data i = NonNeg i.p1 × NonNeg i.p2
IsAddressed Arm.insert_row i = NonNeg i.p1 × NonNeg i.p2
IsAddressed Arm.open_pseudo i = NonNeg i.p1 × NonNeg i.p2
IsAddressed Arm.open_dup i = NonNeg i.p1 × NonNeg i.p2
IsAddressed Arm.open_ephemeral i = NonNeg i.p1 × NonNeg i.p2
IsAddressed Arm.scopy i = NonNeg i.p1 × NonNeg i.p2
IsAddressed Arm.copy i = NonNeg i.p1 × NonNeg i.p2
IsAddressed Arm.move_ i = NonNeg i.p1 × NonNeg i.p2
IsAddressed Arm.not_ i = NonNeg i.p1 × NonNeg i.p2
IsAddressed Arm.agg_step i = NonNeg i.p2 × NonNeg i.p3
IsAddressed Arm.column i = NonNeg i.p1 × NonNeg i.p2 × NonNeg i.p3
IsAddressed Arm.make_record i = NonNeg i.p1 × NonNeg i.p2 × NonNeg i.p3
IsAddressed Arm.agg_final i = NonNeg i.p1 × NonNeg i.p2 × NonNeg i.p3
IsAddressed Arm.arithmetic i = NonNeg i.p1 × NonNeg i.p2 × NonNeg i.p3

then_next-Yields : (m : Fallible MemoryState) → Yields IsSound m → Yields IsGood (then_next m)
then_next-Yields m h = Yields->>= IsSound IsGood m _ h (λ x s. (tt, s, omega arith))

module _ (root_block_cols : ℤ → ℤ → Option (IntMap ColumnType)) (is_utf8 : List ℕ → Bool)
    (program : List Instruction) where
  pub exec_arm-Yields :
      (a : Arm) (i : Instruction) (visits : ℕ) (m : MemoryState)
      → IsAddressed a i
      → IsSound m
      → Yields IsGood (exec_arm root_block_cols is_utf8 program a i visits m)
  unfolding exec_arm
  exec_arm-Yields Arm.init i visits m h s = (tt, s, omega arith)
  exec_arm-Yields Arm.goto i visits m h s = (tt, s, omega arith)
  exec_arm-Yields Arm.fk_if_zero i visits m h s = (tt, s, omega arith)
  exec_arm-Yields Arm.go_sub i visits m h s = Control.exec_go_sub-Yields i m s h
  exec_arm-Yields Arm.either i visits m h s = Control.exec_either-Yields i m s
  exec_arm-Yields Arm.is_null i visits m h s = Control.exec_is_null-Yields i m s h
  exec_arm-Yields Arm.not_null i visits m h s = Control.exec_not_null-Yields i m s h
  exec_arm-Yields Arm.must_be_int i visits m h s = Control.exec_must_be_int-Yields i m s
  exec_arm-Yields Arm.if_true i visits m h s = Control.exec_if-Yields i m s h
  exec_arm-Yields Arm.if_pos i visits m h s = Control.exec_if_pos-Yields i m s visits h
  exec_arm-Yields Arm.rewind i visits m h s = Control.exec_rewind-Yields i m s h
  exec_arm-Yields Arm.init_coroutine i visits m h s = Coroutines.exec_init_coroutine-Yields i m s h
  exec_arm-Yields Arm.end_coroutine i visits m h s =
      Coroutines.exec_end_coroutine-Yields i m s program h
  exec_arm-Yields Arm.return_ i visits m h s = Coroutines.exec_return-Yields i m s h
  exec_arm-Yields Arm.yield_ i visits m h s = Coroutines.exec_yield-Yields i m s program h
  exec_arm-Yields Arm.jump i visits m h s = Coroutines.exec_jump-Yields i m s
  exec_arm-Yields Arm.result_row i visits m h s = Coroutines.exec_result_row-Yields i m s h
  exec_arm-Yields Arm.halt i visits m h s = (tt, tt, omega arith)
  exec_arm-Yields Arm.column i visits m h s =
      then_next-Yields _ (Cursors.exec_column-Yields i m s h.0 h.1 h.2)
  exec_arm-Yields Arm.sequence i visits m h s =
      then_next-Yields _ (set_reg-Yields i.p2 (known integer) m h s)
  exec_arm-Yields Arm.row_data i visits m h s =
      then_next-Yields _ (Cursors.exec_row_data-Yields i m s h.0 h.1)
  exec_arm-Yields Arm.make_record i visits m h s =
      then_next-Yields _ (Cursors.exec_make_record-Yields i m s h.0 h.1 h.2)
  exec_arm-Yields Arm.insert_row i visits m h s =
      then_next-Yields _ (Cursors.exec_insert-Yields i m s h.0 h.1)
  exec_arm-Yields Arm.delete i visits m h s =
      then_next-Yields _ (Cursors.exec_delete-Yields i m s h)
  exec_arm-Yields Arm.open_pseudo i visits m h s =
      then_next-Yields _ (set_cursor-Yields i.p1 (pseudo i.p2) m h.0 h.1 s)
  exec_arm-Yields Arm.open_dup i visits m h s =
      then_next-Yields _ (Cursors.exec_open_dup-Yields i m s h.0 h.1)
  exec_arm-Yields Arm.open_read i visits m h s =
      then_next-Yields _ (Cursors.exec_open_read-Yields i m s root_block_cols h)
  exec_arm-Yields Arm.open_ephemeral i visits m h s =
      then_next-Yields _ (Cursors.exec_open_ephemeral-Yields i m s h.0 h.1)
  exec_arm-Yields Arm.variable i visits m h s =
      then_next-Yields _ (set_reg-Yields i.p2 (typed null_column) m h s)
  exec_arm-Yields Arm.halt_if_null i visits m h s =
      then_next-Yields _ (mark_not_null-Yields i.p3 m h s)
  exec_arm-Yields Arm.function i visits m h s =
      then_next-Yields _ (Values.exec_function-Yields i m s is_utf8 h)
  exec_arm-Yields Arm.null_row i visits m h s =
      then_next-Yields _ (Cursors.exec_null_row-Yields i m s h)
  exec_arm-Yields Arm.agg_step i visits m h s =
      then_next-Yields _ (Values.exec_agg_step-Yields i m s is_utf8 h.0 h.1)
  exec_arm-Yields Arm.agg_final i visits m h s =
      then_next-Yields _ (Values.exec_agg_final-Yields i m s is_utf8 h.0 h.1 h.2)
  exec_arm-Yields Arm.cast i visits m h s = then_next-Yields _ (Values.exec_cast-Yields i m s h)
  exec_arm-Yields Arm.scopy i visits m h s =
      then_next-Yields _ (copy_reg-Yields i.p1 i.p2 m h.0 h.1 s)
  exec_arm-Yields Arm.copy i visits m h s =
      then_next-Yields _ (Values.exec_copy-Yields i m s h.0 h.1)
  exec_arm-Yields Arm.move_ i visits m h s =
      then_next-Yields _ (Values.exec_move-Yields i m s h.0 h.1)
  exec_arm-Yields Arm.load_integer i visits m h s =
      then_next-Yields _ (set_reg-Yields i.p2 (int i.p1) m h s)
  exec_arm-Yields Arm.constant i visits m h s =
      then_next-Yields _ (set_reg-Yields i.p2 (known (opcode_to_type i.opcode)) m h s)
  exec_arm-Yields Arm.not_ i visits m h s =
      then_next-Yields _ (copy_reg-Yields i.p1 i.p2 m h.0 h.1 s)
  exec_arm-Yields Arm.load_null i visits m h s =
      then_next-Yields _ (Values.exec_null-Yields i m s h)
  exec_arm-Yields Arm.arithmetic i visits m h s =
      then_next-Yields _ (Values.exec_arithmetic-Yields i m s h.0 h.1 h.2)
  exec_arm-Yields Arm.offset_limit i visits m h s =
      then_next-Yields _ (set_reg-Yields i.p2 (known integer) m h s)
  exec_arm-Yields Arm.unknown i visits m h s = (tt, s, omega arith)

  pub exec-Yields :
      (i : Instruction) (visits : ℕ) (m : MemoryState)
      → IsAddressed (arm_of i.opcode) i
      → IsSound m
      → Yields IsGood (exec root_block_cols is_utf8 program i visits m)
  unfolding exec
  exec-Yields i visits m h s = exec_arm-Yields (arm_of i.opcode) i visits m h s
