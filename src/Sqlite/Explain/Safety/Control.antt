-- ===== src/Sqlite/Explain/Safety/Control.antt =====
-- sqlx-sqlite/src/connection/explain.rs: the instructions that jump, start branches or end them do
-- not panic, and start three branches at most.
use sqlx.Base.{
  ℕ, ◌≤◌, Bool, true, false, not, ◌||◌, Bool-cases, inl, inr, Option, none, some, List, [], ◌∷◌,
  ◌>>=◌, lift, Yields, Yields->>=, arith, length, ltb,
}
use sqlx.Base.Int.{ℤ, pos, ltb_ℤ}
use sqlx.Base.Eq.{int_beq, nat_eq}
use sqlx.Sqlite.Explain.Types.{
  RegDataType, typed, int, default_reg, CursorDataType, update_table, is_empty,
}
use sqlx.Sqlite.Explain.Memory.{
  MemoryState, Instruction, Fallible, advance, reg, set_reg, cursor, Flow, next, goto, break,
  Effect, goes_on, fork_if,
}
use sqlx.Sqlite.Explain.Control.{
  might_be_null, might_be_value, might_pass, go_or_end, target, tested, decremented, forgotten,
  emptied, may_be_empty, may_have_rows, rewound, exec_go_sub, exec_either, exec_is_null,
  exec_not_null, exec_must_be_int, exec_if, exec_if_pos, exec_rewind,
}
use sqlx.Sqlite.Explain.Safety.{
  NonNeg, Any, IsSound, IsCursor, Yields-lift, reg-Yields, set_reg-Yields, cursor-Yields,
  mark_not_null-Yields, update_table-Yields, is_empty-Yields,
}

abbrev pub AreSound : List MemoryState → Type 0
AreSound [] = Unit
AreSound (m ∷ ms) = IsSound m × AreSound ms

abbrev pub FlowIsSound : Flow → Type 0
FlowIsSound (next m) = IsSound m
FlowIsSound (goto m) = IsSound m
FlowIsSound (break e) = Unit

-- Sound branches, three at most.
abbrev pub IsGood : Effect → Type 0
IsGood e = AreSound e.forks × FlowIsSound e.flow × (length e.forks ≤ 3)

abbrev AtMostOne : List MemoryState → Type 0
AtMostOne ms = AreSound ms × (length ms ≤ 1)

pub then_goto :
    (m : Fallible MemoryState) → Yields IsSound m → Yields IsGood (m >>= λ x. goes_on (goto x))
then_goto m h = Yields->>= IsSound IsGood m _ h (λ x s. (tt, s, omega arith))

fork_if-Yields :
    (b : Bool) (m : Fallible MemoryState) → Yields IsSound m → Yields AtMostOne (fork_if b m)
fork_if-Yields true m h = Yields->>= IsSound AtMostOne m _ h (λ x s. ((s, tt), omega arith))
fork_if-Yields false m h = (tt, omega arith)

go_or_end-Yields :
    (forks : List MemoryState) (b : Bool) (m : Fallible MemoryState)
    → AtMostOne forks
    → Yields IsSound m
    → Yields IsGood (go_or_end forks b m)
go_or_end-Yields forks true m (s, le) h =
    Yields->>= IsSound IsGood m _ h (λ x t. (s, t, omega (arith, le)))
go_or_end-Yields forks false m (s, le) h = (s, tt, omega (arith, le))

-- The shape of the instructions that may start a branch and go on, after reading a register.
branching :
    (forks : Fallible (List MemoryState)) (b : Bool) (m : Fallible MemoryState)
    → Yields AtMostOne forks
    → Yields IsSound m
    → Yields IsGood (forks >>= λ fs. go_or_end fs b m)
branching forks b m h k =
    Yields->>= AtMostOne IsGood forks _ h (λ fs s. go_or_end-Yields fs b m s k)

module _ (i : Instruction) (m : MemoryState) (sound : IsSound m) where
  pub exec_go_sub-Yields : NonNeg i.p1 → Yields IsGood (exec_go_sub i m)
  unfolding exec_go_sub
  exec_go_sub-Yields h =
      then_goto (set_reg i.p1 (int (pos m.program_i)) (target i m))
        (set_reg-Yields i.p1 _ (target i m) h sound)

  pub exec_either-Yields : Yields IsGood (exec_either i m)
  unfolding exec_either
  exec_either-Yields = ((sound, tt), sound, omega arith)

  pub exec_is_null-Yields : NonNeg i.p1 → Yields IsGood (exec_is_null i m)
  unfolding exec_is_null
  exec_is_null-Yields h = Yields->>= Any IsGood (reg i.p1 m) _ (reg-Yields i.p1 m h) (λ o u.
      branching _ (might_be_value o) _
        (fork_if-Yields (might_be_null o) _ (set_reg-Yields i.p1 default_reg (target i m) h sound))
        (mark_not_null-Yields i.p1 (advance m) h sound))

  pub exec_not_null-Yields : NonNeg i.p1 → Yields IsGood (exec_not_null i m)
  unfolding exec_not_null
  exec_not_null-Yields h = Yields->>= Any IsGood (reg i.p1 m) _ (reg-Yields i.p1 m h) (λ o u.
      branching _ (might_be_null o) _
        (fork_if-Yields (might_be_value o) _ (mark_not_null-Yields i.p1 (target i m) h sound))
        (set_reg-Yields i.p1 default_reg (advance m) h sound))

  pub exec_must_be_int-Yields : Yields IsGood (exec_must_be_int i m)
  unfolding exec_must_be_int
  exec_must_be_int-Yields = elim (Bool-cases (int_beq i.p2 (pos 0))) [
    | inl e ↦ rw e (tt, sound, omega arith)
    | inr e ↦ rw e ((sound, tt), sound, omega arith)
  ]

  tested-Yields :
      (v : ℤ) (x : MemoryState) → NonNeg i.p1 → IsSound x → Yields IsSound (tested i m v x)
  tested-Yields v x h s = elim (Bool-cases (int_beq i.p3 (pos 0))) [
    | inl e ↦ rw e (set_reg-Yields i.p1 (int v) x h s)
    | inr e ↦ rw e s
  ]

  pub exec_if-Yields : NonNeg i.p1 → Yields IsGood (exec_if i m)
  unfolding exec_if
  exec_if-Yields h = Yields->>= Any IsGood (reg i.p1 m) _ (reg-Yields i.p1 m h) (λ o u.
      branching _ (might_pass (λ n. int_beq n (pos 0)) o) _
        (fork_if-Yields (might_pass (λ n. not (int_beq n (pos 0))) o) _
          (tested-Yields (pos 1) (target i m) h sound))
        (tested-Yields (pos 0) (advance m) h sound))

  decremented-Yields :
      (o : Option RegDataType) (x : MemoryState)
      → NonNeg i.p1
      → IsSound x
      → Yields IsSound (decremented i m o x)
  decremented-Yields (some (int n)) x h s = set_reg-Yields i.p1 _ x h s
  decremented-Yields (some (typed c)) x h s = s
  decremented-Yields none x h s = s

  forgotten-Yields :
      (o : Option RegDataType) (x : MemoryState)
      → NonNeg i.p1
      → IsSound x
      → Yields IsSound (forgotten i m o x)
  forgotten-Yields (some (int n)) x h s = set_reg-Yields i.p1 _ x h s
  forgotten-Yields (some (typed c)) x h s = s
  forgotten-Yields none x h s = s

  pub exec_if_pos-Yields : (visits : ℕ) → NonNeg i.p1 → Yields IsGood (exec_if_pos i m visits)
  unfolding exec_if_pos
  exec_if_pos-Yields visits h = Yields->>= Any IsGood (reg i.p1 m) _ (reg-Yields i.p1 m h) (λ o u.
      Yields->>= AtMostOne IsGood
        (fork_if (might_pass (λ n. ltb_ℤ (pos 0) n) o || ltb 1 visits)
          (decremented i m o (target i m)))
        _
        (fork_if-Yields (might_pass (λ n. ltb_ℤ (pos 0) n) o || ltb 1 visits) _
          (decremented-Yields o (target i m) h sound))
        (λ fs s. elim (Bool-cases (might_pass (λ n. ltb_ℤ n (pos 1)) o)) [
          | inl e ↦ rw e (s.0, sound, omega (arith, s.1))
          | inr e ↦
              rw e (go_or_end-Yields fs (ltb 1 visits) _ s (forgotten-Yields o (advance m) h sound))
        ]))

  rewound-Yields : (o : Option CursorDataType) → IsCursor o → Yields IsGood (rewound i m o)
  rewound-Yields none h = (tt, tt, omega arith)
  rewound-Yields (some c) h =
      Yields->>= Any IsGood (lift (is_empty c m.t)) _
        (Yields-lift Any (is_empty c m.t) (is_empty-Yields c m.t h))
        (λ e u.
          branching _ (may_have_rows i m e) _
            (fork_if-Yields (may_be_empty i m e) _ (
              Yields->>= Any IsSound (lift (update_table (emptied i m) c m.t)) _
                (Yields-lift Any (update_table (emptied i m) c m.t)
                  (update_table-Yields (emptied i m) c m.t h))
                (λ t' u'. sound)))
            sound)

  pub exec_rewind-Yields : NonNeg i.p1 → Yields IsGood (exec_rewind i m)
  unfolding exec_rewind
  exec_rewind-Yields h = elim (Bool-cases (int_beq i.p2 (pos 0))) [
    | inl e ↦ rw e (tt, sound, omega arith)
    | inr e ↦ rw e (
        Yields->>= IsCursor IsGood (cursor i.p1 m) (rewound i m) (cursor-Yields i.p1 m h sound)
          rewound-Yields)
  ]
