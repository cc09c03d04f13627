-- ===== src/Sqlite/Explain/Safety/Coroutines.antt =====
-- sqlx-sqlite/src/connection/explain.rs: coroutines, jumps in three directions and rows of results do
-- not panic, and start three branches at most.
use sqlx.Base.{
  ℕ, Bool-cases, inl, inr, Option, none, some, List, Yields, Yields->>=, arith, get_elem?,
}
use sqlx.Base.Int.{pos, pos_part}
use sqlx.Base.Eq.{int_beq, list_eq, nat_eq}
use sqlx.Base.Text.{codes}
use sqlx.Sqlite.Explain.Types.{RegDataType, typed, int}
use sqlx.Sqlite.Explain.Memory.{MemoryState, Instruction, to_usize, at, reg, set_reg, collect}
use sqlx.Sqlite.Explain.Control.{
  leave_to, ended_at, end_of, no_return, returned, yielded, exec_init_coroutine, exec_end_coroutine,
  exec_return, exec_yield, exec_jump, exec_result_row,
}
use sqlx.Sqlite.Explain.Safety.{
  NonNeg, Any, IsSound, reg-Yields, set_reg-Yields, remove_reg-Yields, collect-Yields,
}
use sqlx.Sqlite.Explain.Safety.Control.{IsGood, then_goto}

module _ (i : Instruction) (m : MemoryState) (sound : IsSound m) where
  pub exec_init_coroutine-Yields : NonNeg i.p1 → Yields IsGood (exec_init_coroutine i m)
  unfolding exec_init_coroutine
  exec_init_coroutine-Yields h =
      Yields->>= IsSound IsGood (set_reg i.p1 (int i.p3) m) _
        (set_reg-Yields i.p1 (int i.p3) m h sound)
        (λ x s. elim (Bool-cases (int_beq i.p2 (pos 0))) [
          | inl e ↦ rw e (tt, s, omega arith)
          | inr e ↦ rw e (tt, s, omega arith)
        ])

  leave_to-Yields : (j : ℕ) → NonNeg i.p1 → Yields IsGood (leave_to i m j)
  leave_to-Yields j h = then_goto _ (remove_reg-Yields i.p1 (at j m) h sound)

  ended_at-Yields : (o : Option Instruction) → NonNeg i.p1 → Yields IsGood (ended_at i m o)
  ended_at-Yields none h = (tt, tt, omega arith)
  ended_at-Yields (some y) h = elim (Bool-cases (list_eq (codes "Yield") y.opcode)) [
    | inl e ↦ rw e (leave_to-Yields (to_usize y.p2) h)
    | inr e ↦ rw e (tt, tt, omega arith)
  ]

  end_of-Yields :
      (program : List Instruction) (o : Option RegDataType)
      → NonNeg i.p1
      → Yields IsGood (end_of i m program o)
  end_of-Yields program (some (int y)) h = ended_at-Yields (get_elem? program (to_usize y)) h
  end_of-Yields program (some (typed c)) h = (tt, tt, omega arith)
  end_of-Yields program none h = (tt, tt, omega arith)

  pub exec_end_coroutine-Yields :
      (program : List Instruction) → NonNeg i.p1 → Yields IsGood (exec_end_coroutine i m program)
  unfolding exec_end_coroutine
  exec_end_coroutine-Yields program h =
      Yields->>= Any IsGood (reg i.p1 m) (end_of i m program) (reg-Yields i.p1 m h)
        (λ o u. end_of-Yields program o h)

  no_return-Yields : Yields IsGood (no_return i m)
  no_return-Yields = elim (Bool-cases (int_beq i.p3 (pos 1))) [
    | inl e ↦ rw e (tt, sound, omega arith)
    | inr e ↦ rw e (tt, tt, omega arith)
  ]

  returned-Yields : (o : Option RegDataType) → NonNeg i.p1 → Yields IsGood (returned i m o)
  returned-Yields (some (int n)) h = leave_to-Yields _ h
  returned-Yields (some (typed c)) h = no_return-Yields
  returned-Yields none h = no_return-Yields

  pub exec_return-Yields : NonNeg i.p1 → Yields IsGood (exec_return i m)
  unfolding exec_return
  exec_return-Yields h =
      Yields->>= Any IsGood (reg i.p1 m) (returned i m) (reg-Yields i.p1 m h)
        (λ o u. returned-Yields o h)

  yielded-Yields :
      (program : List Instruction) (o : Option RegDataType)
      → NonNeg i.p1
      → Yields IsGood (yielded i m program o)
  yielded-Yields program (some (int y)) h = then_goto _ (set_reg-Yields i.p1 _ _ h sound)
  yielded-Yields program (some (typed c)) h = (tt, tt, omega arith)
  yielded-Yields program none h = (tt, tt, omega arith)

  pub exec_yield-Yields :
      (program : List Instruction) → NonNeg i.p1 → Yields IsGood (exec_yield i m program)
  unfolding exec_yield
  exec_yield-Yields program h =
      Yields->>= Any IsGood (reg i.p1 m) (yielded i m program) (reg-Yields i.p1 m h)
        (λ o u. yielded-Yields program o h)

  pub exec_jump-Yields : Yields IsGood (exec_jump i m)
  unfolding exec_jump
  exec_jump-Yields = ((sound, (sound, (sound, tt))), sound, omega arith)

  pub exec_result_row-Yields : NonNeg i.p1 → Yields IsGood (exec_result_row i m)
  unfolding exec_result_row
  exec_result_row-Yields h =
      Yields->>= Any IsGood (collect (pos_part i.p2) i.p1 m) _
        (collect-Yields (pos_part i.p2) i.p1 m h) (λ row u. ((sound, tt), tt, omega arith))
