-- ===== src/Sqlite/Explain/Values.antt =====
-- sqlx-sqlite/src/connection/explain.rs: the instructions that go on with the next one, by what they
-- do to registers.
use sqlx.Base.{
  ℕ, zero, suc, Bool, true, false, not, ◌&&◌, ◌||◌, Option, none, some, List, [], ◌∷◌, ok, err,
  ◌>>=◌, if◌then◌else◌,
}
use sqlx.Base.Int.{ℤ, pos, pos_part, ◌+ℤ◌, ◌-ℤ◌, ltb_ℤ}
use sqlx.Base.Eq.{list_eq, nat_eq, int_beq}
use sqlx.Base.{◌==◌ as nat_beq}
use sqlx.Base.Text.{codes}
use sqlx.Sqlite.Explain.Opcodes.{one_of, affinity_to_type}
use sqlx.Sqlite.Explain.Types.{
  DataType, null, integer, float, text, bool, int4, single, null_column, RegDataType, typed,
  default_reg, known, map_to_datatype, map_to_nullable,
}
use sqlx.Sqlite.Explain.Memory.{
  MemoryState, Instruction, Fallible, not_utf8, to_u8, reg, set_reg, store, copy_reg,
}

-- `str::starts_with`.
abbrev pub starts_with : List ℕ → List ℕ → Bool
starts_with s [] = true
starts_with [] (p ∷ ps) = false
starts_with (c ∷ s) (p ∷ ps) = nat_beq c p && starts_with s ps

abbrev pub counts : List ℕ → Bool
counts p4 =
    starts_with p4 (codes "count(")
    || starts_with p4 (codes "row_number(")
    || starts_with p4 (codes "rank(")
    || starts_with p4 (codes "dense_rank(")
    || starts_with p4 (codes "ntile(")

abbrev pub ranks : List ℕ → Bool
ranks p4 = starts_with p4 (codes "percent_rank(") || starts_with p4 (codes "cume_dist")

abbrev pub looks_aside : List ℕ → Bool
looks_aside p4 = starts_with p4 (codes "lead(") || starts_with p4 (codes "lag(")

abbrev pub time_functions : List (List ℕ)
time_functions =
    codes "date(-1)" ∷ codes "time(-1)" ∷ codes "datetime(-1)" ∷ codes "strftime(-1)" ∷ []

-- The type of a sum, which can be arbitrarily large.
abbrev pub sum_type : DataType → DataType
sum_type integer = integer
sum_type int4 = integer
sum_type bool = integer
sum_type _ = float

-- The value of an operation on two registers.
abbrev pub either_nullable : Option Bool → Option Bool → Option Bool
either_nullable (some a) (some b) = some (a || b)
either_nullable (some a) none = some a
either_nullable none n = n

abbrev pub first_known : DataType → DataType → DataType
first_known null b = b
first_known a b = a

abbrev pub combined : Option RegDataType → Option RegDataType → RegDataType
combined (some a) (some b) = typed (
    single (first_known (map_to_datatype a) (map_to_datatype b))
      (either_nullable (map_to_nullable a) (map_to_nullable b)))
combined (some v) none = typed (single (map_to_datatype v) none)
combined none (some v) = typed (single (map_to_datatype v) none)
combined none none = default_reg

module _ (i : Instruction) (m : MemoryState) where
  -- Never a NULL if no argument is given.
  abbrev pub unless_no_argument : DataType → Fallible MemoryState
  unless_no_argument d = set_reg i.p3 (typed (single d (some (not (int_beq i.p2 (pos 0)))))) m

  unfoldable pub exec_function : (List ℕ → Bool) → Fallible MemoryState
  exec_function is_utf8 =
      if not (is_utf8 i.p4)
      then err not_utf8
      else if list_eq i.p4 (codes "last_insert_rowid(0)")
      then set_reg i.p3 (known integer) m
      else if one_of i.p4 time_functions
      then unless_no_argument text
      else if list_eq i.p4 (codes "julianday(-1)")
      then unless_no_argument float
      else if list_eq i.p4 (codes "unixepoch(-1)")
      then unless_no_argument integer
      else ok m

  abbrev pub summed : Option RegDataType → Fallible MemoryState
  summed none = ok m
  summed (some v) =
      set_reg i.p3 (typed (single (sum_type (map_to_datatype v)) (map_to_nullable v))) m

  abbrev pub looked_aside : Option RegDataType → Fallible MemoryState
  looked_aside none = ok m
  looked_aside (some v) = set_reg i.p3 (typed (single (map_to_datatype v) (some true))) m

  unfoldable pub exec_agg_step : (List ℕ → Bool) → Fallible MemoryState
  exec_agg_step is_utf8 =
      if not (is_utf8 i.p4)
      then err not_utf8
      else if counts i.p4
      then set_reg i.p3 (known integer) m
      else if ranks i.p4
      then set_reg i.p3 (known float) m
      else if starts_with i.p4 (codes "sum(")
      then (reg i.p2 m >>= summed)
      else if looks_aside i.p4
      then (reg i.p2 m >>= looked_aside)
      else (reg i.p2 m >>= λ v. store i.p3 m v)

  unfoldable pub exec_agg_final : (List ℕ → Bool) → Fallible MemoryState
  exec_agg_final is_utf8 =
      if not (is_utf8 i.p4)
      then err not_utf8
      else if counts i.p4
      then set_reg i.p1 (known integer) m
      else if ranks i.p4
      then set_reg i.p3 (known float) m
      else if looks_aside i.p4
      then (reg i.p2 m >>= looked_aside)
      else ok m

  abbrev pub cast_to : Option RegDataType → Fallible MemoryState
  cast_to none = ok m
  cast_to (some v) =
      set_reg i.p1 (typed (single (affinity_to_type (to_u8 i.p2)) (map_to_nullable v))) m

  unfoldable pub exec_cast : Fallible MemoryState
  exec_cast = reg i.p1 m >>= cast_to

  unfoldable pub exec_arithmetic : Fallible MemoryState
  exec_arithmetic = reg i.p1 m >>= λ a. reg i.p2 m >>= λ b. set_reg i.p3 (combined a b) m

-- The loops over registers: so many rounds from a source and a destination.
unfoldable pub copy_each : ℕ → ℤ → ℤ → MemoryState → Fallible MemoryState
copy_each zero src dst m = ok m
copy_each (suc n) src dst m =
    copy_reg src dst m >>= λ x. copy_each n (src +ℤ pos 1) (dst +ℤ pos 1) x

abbrev pub moved : ℤ → ℤ → MemoryState → Option RegDataType → Fallible MemoryState
moved src dst m none = ok m
moved src dst m (some v) = set_reg dst v m >>= λ x. set_reg src (typed null_column) x

unfoldable pub move_each : ℕ → ℤ → ℤ → MemoryState → Fallible MemoryState
move_each zero src dst m = ok m
move_each (suc n) src dst m =
    reg src m >>= moved src dst m >>= λ x. move_each n (src +ℤ pos 1) (dst +ℤ pos 1) x

unfoldable pub null_each : ℕ → ℤ → MemoryState → Fallible MemoryState
null_each zero k m = ok m
null_each (suc n) k m = set_reg k (typed null_column) m >>= λ x. null_each n (k +ℤ pos 1) x

-- `0..=p3`, `0..p3`, and `p2..=p3` or `p2..=p2`.
unfoldable pub exec_copy : Instruction → MemoryState → Fallible MemoryState
exec_copy i m = if ltb_ℤ i.p3 (pos 0) then ok m else copy_each (suc (pos_part i.p3)) i.p1 i.p2 m

unfoldable pub exec_move : Instruction → MemoryState → Fallible MemoryState
exec_move i m = if ltb_ℤ i.p3 (pos 1) then ok m else move_each (pos_part i.p3) i.p1 i.p2 m

unfoldable pub exec_null : Instruction → MemoryState → Fallible MemoryState
exec_null i m = null_each (if ltb_ℤ i.p2 i.p3 then suc (pos_part (i.p3 -ℤ i.p2)) else 1) i.p2 m
