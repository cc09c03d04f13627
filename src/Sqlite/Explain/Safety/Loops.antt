-- ===== src/Sqlite/Explain/Safety/Loops.antt =====
-- sqlx-sqlite/src/connection/explain.rs: the loops of `explain` keep their invariant and end.
use sqlx.Base.{
  ℕ, zero, suc, ◌+◌, ◌-◌, ◌*◌, ◌≤◌, ◌<◌, ◌≡◌, refl, ap, ◌∙◌, Bool, Bool-cases, inl, inr, Option,
  none, some, Option-cases, List, [], ◌∷◌, ok, err, panic, Yields, Yields->>=, arith, ltb, length,
  length-set, get_elem?, length-replicate,
}
use sqlx.Base.Int.{ℤ}
use sqlx.Sqlite.IntMap.{IntMap, get, new}
use sqlx.Sqlite.Explain.Opcodes.{arm_of}
use sqlx.Sqlite.Explain.Types.{DataType, ColumnType}
use sqlx.Sqlite.Explain.Memory.{Instruction, Fallible}
use sqlx.Sqlite.Explain.Step.{exec}
use sqlx.Sqlite.Explain.Branches.{
  QueryState, Explorer, max_loop_count, Standing, visit, round_at, round, outer, turn, turned, run,
  initial,
}
use sqlx.Sqlite.Explain.Output.{explain, finish, finished, fuel}
use sqlx.Sqlite.Explain.Safety.Control.{IsGood}
use sqlx.Sqlite.Explain.Safety.Branches.{
  AllLe-set, AllLe-replicate, get_elem?-some, get_elem?-lt, AllAddressed, AllAddressed-get,
  IsBranch, AreBranches, IsStanding, measure, IsLater, IsTurn, IsWithin, proceed-IsStanding,
}
use sqlx.Sqlite.Explain.Safety.Step.{IsAddressed, exec-Yields}

module _ (root_block_cols : ℤ → ℤ → Option (IntMap ColumnType)) (is_utf8 : List ℕ → Bool)
    (program : List Instruction) where
  abbrev n : ℕ
  n = length program

  visit-IsBranch :
      (s : QueryState) (k : ℕ) → IsBranch n s → k ≤ max_loop_count → IsBranch n (visit s k)
  visit-IsBranch s k (size, counts, sound) h = (
    length-set s.visited s.mem.program_i (k + 1) ∙ size,
    AllLe-set (max_loop_count + 1) s.visited s.mem.program_i (k + 1) (omega (arith, h)) counts,
    sound,
  )

  round_at-Yields :
      (s : QueryState) (ex : Explorer) (i : Instruction) (k : ℕ)
      → IsAddressed (arm_of i.opcode) i
      → IsBranch n s
      → AreBranches n ex.states
      → Yields
          (IsWithin n (7 * ex.gas + 2 * length ex.states + 8))
          (round_at root_block_cols is_utf8 program s ex i k)
  round_at-Yields s ex i k addressed h all = elim (Bool-cases (ltb max_loop_count k)) [
    | inl e ↦ rw e (all, omega arith)
    | inr e ↦ rw e (
        Yields->>= IsGood (IsWithin n (7 * ex.gas + 2 * length ex.states + 8))
          (exec root_block_cols is_utf8 program i (k + 1) s.mem) _
          (exec-Yields root_block_cols is_utf8 program i (k + 1) s.mem addressed h.2)
          (λ eff good.
            proceed-IsStanding n (visit s k) ex eff (visit-IsBranch s k h (ground (arith, e))) good
              all))
  ]

  round-Yields :
      (s : QueryState) (ex : Explorer) (i : Instruction)
      → get_elem? program s.mem.program_i ≡ some i
      → IsAddressed (arm_of i.opcode) i
      → IsBranch n s
      → AreBranches n ex.states
      → Yields (IsLater n (measure (some s, ex))) (round root_block_cols is_utf8 program s ex i)
  unfolding round
  round-Yields s ex i found addressed h all = elim (Bool-cases (ltb 0 ex.gas)) [
    | inr e ↦ rw e (all, omega arith)
    | inl e ↦
        let inside = get_elem?-lt program s.mem.program_i i found in
        let (k, counted) = get_elem?-some s.visited s.mem.program_i (omega (arith, inside, h.0)) in
        let paid : 0 < ex.gas = ground (arith, e) in
        let ex1 : Explorer = record ex { gas = ex.gas - 1 } in
        rw (e, counted)
          (weaken (round_at root_block_cols is_utf8 program s ex1 i k)
            (7 * (ex.gas - 1) + 2 * length ex.states + 8) (measure (some s, ex))
            (omega (arith, paid)) (round_at-Yields s ex1 i k addressed h all))
  ]
    where
      weaken :
          (r : Fallible Standing) (a b : ℕ)
          → a < b
          → Yields (IsWithin n a) r
          → Yields (IsLater n b) r
      weaken (ok st) a b less (good, le) = (good, omega (arith, less, le))
      weaken (err e) a b less u = tt
      weaken panic a b less u = u

  -- From a standing with branches of the program, whose operands are not negative where they number
  -- registers, cursors or columns, a turn of the loops never panics. If it does not end them, the standing
  -- that it comes to is such a one again: each branch counts the visits of each instruction, no more than
  -- three, and no cursor has a negative index. The measure of gas and branches is then lower than before.
  pub turn-IsTurn :
      AllAddressed program
      → (st : Standing) → IsStanding n st
      → Yields (IsTurn n st) (turn root_block_cols is_utf8 program st)
  turn-IsTurn addressed (none, ex) h = popped ex.states refl h
    where
      popped :
          (ss : List QueryState)
          → ex.states ≡ ss
          → AreBranches n ss
          → IsTurn n (none, ex) (outer root_block_cols is_utf8 program ex ss)
      popped [] e all = tt
      popped (s ∷ ss) e all = ((all.0, all.1), omega (arith, ap length e))
  turn-IsTurn addressed (some s, ex) h = elim (Option-cases (get_elem? program s.mem.program_i)) [
    | inl e ↦ rw e (h.1, omega arith)
    | inr (i, e) ↦ rw e (
        Yields->>= (IsLater n (measure (some s, ex))) (IsTurn n (some s, ex))
          (round root_block_cols is_utf8 program s ex i) _
          (round-Yields s ex i e (AllAddressed-get program s.mem.program_i i addressed e) h.0 h.1)
          (λ later good. good))
  ]

  abbrev pub IsDone : Option Explorer → Type 0
  IsDone none = ⊥
  IsDone (some ex) = Unit

  go_on :
      (st : Standing) (rest : Standing → Fallible (Option Explorer))
      → ((later : Standing) → IsLater n (measure st) later → Yields IsDone (rest later))
      → (o : Option Standing) → IsTurn n st o
      → Yields IsDone (turned root_block_cols is_utf8 program st.1 o rest)
  go_on st rest k none u = tt
  go_on st rest k (some later) good = k later good

  run-IsDone :
      AllAddressed program
      → (k : ℕ) (st : Standing) → IsStanding n st
      → measure st < k
      → Yields IsDone (run root_block_cols is_utf8 program k st)
  unfolding run
  run-IsDone addressed zero st h le = absurd (omega (arith, le))
  run-IsDone addressed (suc k) st h le =
      Yields->>= (IsTurn n st) IsDone (turn root_block_cols is_utf8 program st) _
        (turn-IsTurn addressed st h)
        (go_on st (run root_block_cols is_utf8 program k)
          (λ later good. run-IsDone addressed k later good.0 (omega (arith, good.1, le))))

  initial-IsStanding : IsStanding n (none, initial root_block_cols is_utf8 program)
  unfolding get new
  initial-IsStanding = (
    (
      length-replicate (length program) 0,
      AllLe-replicate (max_loop_count + 1) (length program),
      λ j c e. absurd (cc),
    ),
    tt,
  )

  -- Columns, and not the end of the fuel.
  abbrev pub HasColumns : Option (List (DataType × Option Bool)) → Type 0
  HasColumns o = (columns : List (DataType × Option Bool)) × (o ≡ some columns)

  -- For a program whose operands are not negative where they number registers, cursors or columns,
  -- whatever it jumps to, `explain` ends and never panics: it returns the columns, or the error of a
  -- name of a function that is not UTF-8. The fuel that it is given is not used up.
  pub explain_lem :
      AllAddressed program → Yields HasColumns (explain root_block_cols is_utf8 program)
  unfolding explain
  explain_lem addressed =
      Yields->>= IsDone HasColumns
        (run root_block_cols is_utf8 program fuel (none, initial root_block_cols is_utf8 program))
        (λ o. ok (finished o))
        (run-IsDone addressed fuel (none, initial root_block_cols is_utf8 program)
          initial-IsStanding (omega arith))
        ended
    where
      ended : (o : Option Explorer) → IsDone o → HasColumns (finished o)
      ended none h = absurd h
      ended (some ex) h = (finish ex, refl)
