-- ===== src/Sqlite/Explain/Control.antt =====
-- sqlx-sqlite/src/connection/explain.rs: the instructions that jump, start branches or end them.
use sqlx.Base.{
  ℕ, Bool, true, false, not, ◌||◌, Option, none, some, List, [], ◌∷◌, ok, ◌>>=◌, lift,
  if◌then◌else◌, ltb, get_elem?,
}
use sqlx.Base.Int.{ℤ, pos, pos_part, ◌+ℤ◌, ◌-ℤ◌, ltb_ℤ, wrap_i64}
use sqlx.Base.Eq.{list_eq, nat_eq, int_beq}
use sqlx.Base.Text.{codes}
use sqlx.Sqlite.Explain.Types.{
  DataType, null, integer, RegDataType, typed, int, default_reg, known, map_to_datatype,
  map_to_nullable, is_empty, update_table, CursorDataType, TableDataType,
}
use sqlx.Sqlite.Explain.Memory.{
  MemoryState, Instruction, Fallible, to_usize, at, advance, reg, set_reg, remove_reg, cursor,
  mark_not_null, collect, error, branched, result, next, goto, break, Effect, goes_on, fork_if,
}

abbrev pub is_known_not_null : Option Bool → Bool
is_known_not_null (some false) = true
is_known_not_null (some true) = false
is_known_not_null none = false

abbrev pub is_null_type : DataType → Bool
is_null_type null = true
is_null_type _ = false

abbrev pub might_be_null : Option RegDataType → Bool
might_be_null none = false
might_be_null (some v) = not (is_known_not_null (map_to_nullable v))

abbrev pub might_be_value : Option RegDataType → Bool
might_be_value none = false
might_be_value (some v) = not (is_null_type (map_to_datatype v))

-- An exact integer that passes a test, or anything else.
abbrev pub might_pass : (ℤ → Bool) → Option RegDataType → Bool
might_pass test none = true
might_pass test (some (typed c)) = true
might_pass test (some (int n)) = test n

-- The end of the handlers that go on with the next instruction or end the branch.
abbrev pub go_or_end : List MemoryState → Bool → Fallible MemoryState → Fallible Effect
go_or_end forks true m = m >>= λ x. ok (record { forks = forks; flow = goto x })
go_or_end forks false m = ok (record { forks = forks; flow = break branched })

module _ (i : Instruction) (m : MemoryState) where
  abbrev pub target : MemoryState
  target = at (to_usize i.p2) m

  unfoldable pub exec_go_sub : Fallible Effect
  exec_go_sub = set_reg i.p1 (int (pos m.program_i)) target >>= λ x. goes_on (goto x)

  unfoldable pub exec_either : Fallible Effect
  exec_either = ok (record { forks = target ∷ []; flow = goto (advance m) })

  unfoldable pub exec_is_null : Fallible Effect
  exec_is_null = reg i.p1 m >>= λ o.
      fork_if (might_be_null o) (set_reg i.p1 default_reg target) >>= λ forks.
      go_or_end forks (might_be_value o) (mark_not_null i.p1 (advance m))

  unfoldable pub exec_not_null : Fallible Effect
  exec_not_null = reg i.p1 m >>= λ o.
      fork_if (might_be_value o) (mark_not_null i.p1 target) >>= λ forks.
      go_or_end forks (might_be_null o) (set_reg i.p1 default_reg (advance m))

  unfoldable pub exec_must_be_int : Fallible Effect
  exec_must_be_int =
      ok (record {
        forks = if int_beq i.p2 (pos 0) then [] else target ∷ [];
        flow = goto (advance m);
      })

  -- The register takes the value that was tested, if r[p1] is tested for being null too.
  abbrev pub tested : ℤ → MemoryState → Fallible MemoryState
  tested v x = if int_beq i.p3 (pos 0) then set_reg i.p1 (int v) x else ok x

  unfoldable pub exec_if : Fallible Effect
  exec_if = reg i.p1 m >>= λ o.
      fork_if (might_pass (λ n. not (int_beq n (pos 0))) o) (tested (pos 1) target) >>= λ forks.
      go_or_end forks (might_pass (λ n. int_beq n (pos 0)) o) (tested (pos 0) (advance m))

  abbrev pub decremented : Option RegDataType → MemoryState → Fallible MemoryState
  decremented (some (int n)) x = set_reg i.p1 (int (wrap_i64 (n -ℤ pos 1))) x
  decremented (some (typed c)) x = ok x
  decremented none x = ok x

  abbrev pub forgotten : Option RegDataType → MemoryState → Fallible MemoryState
  forgotten (some (int n)) x = set_reg i.p1 (known integer) x
  forgotten (some (typed c)) x = ok x
  forgotten none x = ok x

  -- `visits` is the number of visits of the instruction, this one included.
  unfoldable pub exec_if_pos : ℕ → Fallible Effect
  exec_if_pos visits =
      let loop_detected = ltb 1 visits in
      reg i.p1 m >>= λ o.
      fork_if (might_pass (λ n. ltb_ℤ (pos 0) n) o || loop_detected) (decremented o target)
      >>= λ forks.
          if might_pass (λ n. ltb_ℤ n (pos 1)) o
          then ok (record { forks = forks; flow = goto (advance m) })
          else go_or_end forks loop_detected (forgotten o (advance m))

  abbrev pub may_be_empty : Option Bool → Bool
  may_be_empty (some false) = false
  may_be_empty (some true) = true
  may_be_empty none = true

  abbrev pub may_have_rows : Option Bool → Bool
  may_have_rows (some true) = false
  may_have_rows (some false) = true
  may_have_rows none = true

  abbrev pub emptied : TableDataType → TableDataType
  emptied tab = record tab { is_empty = some true }

  abbrev pub rewound : Option CursorDataType → Fallible Effect
  rewound none = goes_on (break branched)
  rewound (some c) = lift (is_empty c m.t) >>= λ e.
      fork_if (may_be_empty e)
        (lift (update_table emptied c m.t) >>= λ t'. ok (record target { t = t' }))
      >>= λ forks. go_or_end forks (may_have_rows e) (ok (advance m))

  unfoldable pub exec_rewind : Fallible Effect
  exec_rewind =
      if int_beq i.p2 (pos 0) then goes_on (goto (advance m)) else cursor i.p1 m >>= rewound

  unfoldable pub exec_init_coroutine : Fallible Effect
  exec_init_coroutine = set_reg i.p1 (int i.p3) m >>= λ x.
      goes_on (goto (if int_beq i.p2 (pos 0) then advance x else at (to_usize i.p2) x))

  -- A jump after which the register is gone.
  abbrev pub leave_to : ℕ → Fallible Effect
  leave_to j = remove_reg i.p1 (at j m) >>= λ x. goes_on (goto x)

  abbrev pub ended_at : Option Instruction → Fallible Effect
  ended_at none = goes_on (break error)
  ended_at (some y) =
      if list_eq (codes "Yield") y.opcode then leave_to (to_usize y.p2) else goes_on (break error)

  abbrev pub end_of : List Instruction → Option RegDataType → Fallible Effect
  end_of program (some (int y)) = ended_at (get_elem? program (to_usize y))
  end_of program (some (typed c)) = goes_on (break error)
  end_of program none = goes_on (break error)

  unfoldable pub exec_end_coroutine : List Instruction → Fallible Effect
  exec_end_coroutine program = reg i.p1 m >>= end_of program

  abbrev pub no_return : Fallible Effect
  no_return = if int_beq i.p3 (pos 1) then goes_on (goto (advance m)) else goes_on (break error)

  abbrev pub returned : Option RegDataType → Fallible Effect
  returned (some (int n)) = leave_to (to_usize (wrap_i64 (n +ℤ pos 1)))
  returned (some (typed c)) = no_return
  returned none = no_return

  unfoldable pub exec_return : Fallible Effect
  exec_return = reg i.p1 m >>= returned

  abbrev pub is_yield : Option Instruction → Bool
  is_yield none = false
  is_yield (some y) = list_eq y.opcode (codes "Yield")

  -- Yielding to a yield goes to the instruction behind it.
  abbrev pub yielded : List Instruction → Option RegDataType → Fallible Effect
  yielded program (some (int y)) =
      set_reg i.p1 (int (pos m.program_i)) (
        at
          (if is_yield (get_elem? program (to_usize y))
            then to_usize (wrap_i64 (y +ℤ pos 1))
            else to_usize y)
          m)
      >>= λ x. goes_on (goto x)
  yielded program (some (typed c)) = goes_on (break error)
  yielded program none = goes_on (break error)

  unfoldable pub exec_yield : List Instruction → Fallible Effect
  exec_yield program = reg i.p1 m >>= yielded program

  -- All three targets, and the next instruction as well.
  unfoldable pub exec_jump : Fallible Effect
  exec_jump =
      ok (record {
        forks = at (to_usize i.p1) m ∷ target ∷ at (to_usize i.p3) m ∷ [];
        flow = next m;
      })

  unfoldable pub exec_result_row : Fallible Effect
  exec_result_row = collect (pos_part i.p2) i.p1 m >>= λ row.
      ok (record { forks = advance m ∷ []; flow = break (result row) })
