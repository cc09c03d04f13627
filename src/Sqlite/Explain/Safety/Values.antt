-- ===== src/Sqlite/Explain/Safety/Values.antt =====
-- sqlx-sqlite/src/connection/explain.rs: the instructions that go on with the next one do not panic.
use sqlx.Base.{
  ℕ, zero, suc, Bool, not, Option, none, some, List, ◌>>=◌, Yields, Yields->>=, Yields-if,
}
use sqlx.Base.Int.{ℤ, pos, ltb_ℤ, ◌+ℤ◌}
use sqlx.Base.Eq.{list_eq, nat_eq}
use sqlx.Base.Text.{codes}
use sqlx.Sqlite.Explain.Opcodes.{one_of}
use sqlx.Sqlite.Explain.Types.{null_column, RegDataType, typed}
use sqlx.Sqlite.Explain.Memory.{MemoryState, Instruction, Fallible, reg, set_reg, store, copy_reg}
use sqlx.Sqlite.Explain.Values.{
  summed, looked_aside, cast_to, moved, combined, counts, ranks, looks_aside, starts_with,
  time_functions, exec_function, exec_agg_step, exec_agg_final, exec_cast, exec_arithmetic,
  copy_each, move_each, null_each, exec_copy, exec_move, exec_null,
}
use sqlx.Sqlite.Explain.Safety.{
  NonNeg, NonNeg-add, Any, IsSound, reg-Yields, set_reg-Yields, store-Yields, copy_reg-Yields,
}

module _ (i : Instruction) (m : MemoryState) (sound : IsSound m) where
  pub exec_function-Yields :
      (is_utf8 : List ℕ → Bool) → NonNeg i.p3 → Yields IsSound (exec_function i m is_utf8)
  unfolding exec_function
  exec_function-Yields is_utf8 h =
      let set = λ (v : RegDataType). set_reg-Yields i.p3 v m h sound in
      Yields-if IsSound (not (is_utf8 i.p4)) _ _ tt (
        Yields-if IsSound (list_eq i.p4 (codes "last_insert_rowid(0)")) _ _ (set _) (
          Yields-if IsSound (one_of i.p4 time_functions) _ _ (set _) (
            Yields-if IsSound (list_eq i.p4 (codes "julianday(-1)")) _ _ (set _)
              (Yields-if IsSound (list_eq i.p4 (codes "unixepoch(-1)")) _ _ (set _) sound))))

  summed-Yields : (o : Option RegDataType) → NonNeg i.p3 → Yields IsSound (summed i m o)
  summed-Yields none h = sound
  summed-Yields (some v) h = set_reg-Yields i.p3 _ m h sound

  looked_aside-Yields : (o : Option RegDataType) → NonNeg i.p3 → Yields IsSound (looked_aside i m o)
  looked_aside-Yields none h = sound
  looked_aside-Yields (some v) h = set_reg-Yields i.p3 _ m h sound

  after :
      (k : ℤ) (f : Option RegDataType → Fallible MemoryState)
      → NonNeg k
      → ((o : Option RegDataType) → Yields IsSound (f o))
      → Yields IsSound (reg k m >>= f)
  after k f h g = Yields->>= Any IsSound (reg k m) f (reg-Yields k m h) (λ o u. g o)

  pub exec_agg_step-Yields :
      (is_utf8 : List ℕ → Bool)
      → NonNeg i.p2
      → NonNeg i.p3
      → Yields IsSound (exec_agg_step i m is_utf8)
  unfolding exec_agg_step
  exec_agg_step-Yields is_utf8 h2 h3 = Yields-if IsSound (not (is_utf8 i.p4)) _ _ tt (
      Yields-if IsSound (counts i.p4) _ _ (set_reg-Yields i.p3 _ m h3 sound) (
        Yields-if IsSound (ranks i.p4) _ _ (set_reg-Yields i.p3 _ m h3 sound) (
          Yields-if IsSound (starts_with i.p4 (codes "sum(")) _ _
            (after i.p2 (summed i m) h2 (λ o. summed-Yields o h3))
            (Yields-if IsSound (looks_aside i.p4) _ _
              (after i.p2 (looked_aside i m) h2 (λ o. looked_aside-Yields o h3))
              (after i.p2 (store i.p3 m) h2 (λ o. store-Yields i.p3 m o h3 sound))))))

  pub exec_agg_final-Yields :
      (is_utf8 : List ℕ → Bool)
      → NonNeg i.p1
      → NonNeg i.p2
      → NonNeg i.p3
      → Yields IsSound (exec_agg_final i m is_utf8)
  unfolding exec_agg_final
  exec_agg_final-Yields is_utf8 h1 h2 h3 = Yields-if IsSound (not (is_utf8 i.p4)) _ _ tt (
      Yields-if IsSound (counts i.p4) _ _ (set_reg-Yields i.p1 _ m h1 sound) (
        Yields-if IsSound (ranks i.p4) _ _ (set_reg-Yields i.p3 _ m h3 sound) (
          Yields-if IsSound (looks_aside i.p4) _ _
            (Yields->>= Any IsSound (reg i.p2 m) (looked_aside i m) (reg-Yields i.p2 m h2)
              (λ o u. looked_aside-Yields o h3))
            sound)))

  cast_to-Yields : (o : Option RegDataType) → NonNeg i.p1 → Yields IsSound (cast_to i m o)
  cast_to-Yields none h = sound
  cast_to-Yields (some v) h = set_reg-Yields i.p1 _ m h sound

  pub exec_cast-Yields : NonNeg i.p1 → Yields IsSound (exec_cast i m)
  unfolding exec_cast
  exec_cast-Yields h =
      Yields->>= Any IsSound (reg i.p1 m) (cast_to i m) (reg-Yields i.p1 m h)
        (λ o u. cast_to-Yields o h)

  pub exec_arithmetic-Yields :
      NonNeg i.p1 → NonNeg i.p2 → NonNeg i.p3 → Yields IsSound (exec_arithmetic i m)
  unfolding exec_arithmetic
  exec_arithmetic-Yields h1 h2 h3 =
      Yields->>= Any IsSound (reg i.p1 m) _ (reg-Yields i.p1 m h1) (λ a u.
        Yields->>= Any IsSound (reg i.p2 m) _ (reg-Yields i.p2 m h2)
          (λ b u'. set_reg-Yields i.p3 (combined a b) m h3 sound))

copy_each-Yields :
    (n : ℕ) (src dst : ℤ) (m : MemoryState)
    → NonNeg src
    → NonNeg dst
    → IsSound m
    → Yields IsSound (copy_each n src dst m)
unfolding copy_each
copy_each-Yields zero src dst m h k s = s
copy_each-Yields (suc n) src dst m h k s =
    Yields->>= IsSound IsSound (copy_reg src dst m) (copy_each n (src +ℤ pos 1) (dst +ℤ pos 1))
      (copy_reg-Yields src dst m h k s)
      (λ x s'.
        copy_each-Yields n (src +ℤ pos 1) (dst +ℤ pos 1) x (NonNeg-add src (pos 1) h tt)
          (NonNeg-add dst (pos 1) k tt) s')

moved-Yields :
    (src dst : ℤ) (m : MemoryState) (o : Option RegDataType)
    → NonNeg src
    → NonNeg dst
    → IsSound m
    → Yields IsSound (moved src dst m o)
moved-Yields src dst m none h k s = s
moved-Yields src dst m (some v) h k s =
    Yields->>= IsSound IsSound (set_reg dst v m) (set_reg src (typed null_column))
      (set_reg-Yields dst v m k s) (λ x s'. set_reg-Yields src (typed null_column) x h s')

move_each-Yields :
    (n : ℕ) (src dst : ℤ) (m : MemoryState)
    → NonNeg src
    → NonNeg dst
    → IsSound m
    → Yields IsSound (move_each n src dst m)
unfolding move_each
move_each-Yields zero src dst m h k s = s
move_each-Yields (suc n) src dst m h k s =
    Yields->>= IsSound IsSound (reg src m >>= moved src dst m)
      (move_each n (src +ℤ pos 1) (dst +ℤ pos 1))
      (Yields->>= Any IsSound (reg src m) (moved src dst m) (reg-Yields src m h)
        (λ o u. moved-Yields src dst m o h k s))
      (λ x s'.
        move_each-Yields n (src +ℤ pos 1) (dst +ℤ pos 1) x (NonNeg-add src (pos 1) h tt)
          (NonNeg-add dst (pos 1) k tt) s')

null_each-Yields :
    (n : ℕ) (k : ℤ) (m : MemoryState) → NonNeg k → IsSound m → Yields IsSound (null_each n k m)
unfolding null_each
null_each-Yields zero k m h s = s
null_each-Yields (suc n) k m h s =
    Yields->>= IsSound IsSound (set_reg k (typed null_column) m) (null_each n (k +ℤ pos 1))
      (set_reg-Yields k (typed null_column) m h s)
      (λ x s'. null_each-Yields n (k +ℤ pos 1) x (NonNeg-add k (pos 1) h tt) s')

module _ (i : Instruction) (m : MemoryState) (sound : IsSound m) where
  pub exec_copy-Yields : NonNeg i.p1 → NonNeg i.p2 → Yields IsSound (exec_copy i m)
  unfolding exec_copy
  exec_copy-Yields h1 h2 =
      Yields-if IsSound (ltb_ℤ i.p3 (pos 0)) _ _ sound (copy_each-Yields _ i.p1 i.p2 m h1 h2 sound)

  pub exec_move-Yields : NonNeg i.p1 → NonNeg i.p2 → Yields IsSound (exec_move i m)
  unfolding exec_move
  exec_move-Yields h1 h2 =
      Yields-if IsSound (ltb_ℤ i.p3 (pos 1)) _ _ sound (move_each-Yields _ i.p1 i.p2 m h1 h2 sound)

  pub exec_null-Yields : NonNeg i.p2 → Yields IsSound (exec_null i m)
  unfolding exec_null
  exec_null-Yields h = null_each-Yields _ i.p2 m h sound
