-- ===== src/Sqlite/Explain/Memory.antt =====
-- sqlx-sqlite/src/connection/explain.rs: the memory of a branch, and the accesses that the handlers
-- share. A register or a cursor with a negative number panics, as in the map.
use sqlx.Base.{
  ℕ, zero, suc, ◌+◌, ◌-◌, ◌%◌, ◌^◌, Bool, true, false, Option, none, some, List, [], ◌∷◌, Outcome,
  ok, ◌>>=◌, lift,
}
use sqlx.Base.Int.{ℤ, pos, negsuc, ◌+ℤ◌}
use sqlx.Sqlite.IntMap
use sqlx.Sqlite.IntMap.{IntMap, get}
use sqlx.Sqlite.Explain.Types.{
  ColumnType, single, record_of, default_column, RegDataType, typed, int, map_to_columntype, Tables,
  Registers, CursorDataType,
}

pub record MemoryState : Type 0 where
  pub program_i : ℕ
  pub r : Registers
  pub p : IntMap CursorDataType
  pub t : Tables

pub record Instruction : Type 0 where
  pub opcode : List ℕ
  pub p1 : ℤ
  pub p2 : ℤ
  pub p3 : ℤ
  pub p4 : List ℕ

-- The one error that `explain` returns by itself.
pub data ExplainError : Type 0 where
  not_utf8 : ExplainError

abbrev pub Fallible : Type 0 → Type 0
Fallible A = Outcome ExplainError A

-- `as usize` and `as u8`.
abbrev pub to_usize : ℤ → ℕ
to_usize (pos n) = n
to_usize (negsuc n) = 2 ^ 64 - 1 - n

abbrev pub to_u8 : ℤ → ℕ
to_u8 (pos n) = n % 256
to_u8 (negsuc n) = 255 - n % 256

abbrev pub at : ℕ → MemoryState → MemoryState
at i m = record m { program_i = i }

abbrev pub advance : MemoryState → MemoryState
advance m = at (m.program_i + 1) m

unfoldable pub reg : ℤ → MemoryState → Fallible (Option RegDataType)
reg k m = lift (get m.r k)

unfoldable pub set_reg : ℤ → RegDataType → MemoryState → Fallible MemoryState
set_reg k v m = lift (IntMap.insert m.r k v) >>= λ res. ok (record m { r = res.0 })

unfoldable pub remove_reg : ℤ → MemoryState → Fallible MemoryState
remove_reg k m = lift (IntMap.remove m.r k) >>= λ res. ok (record m { r = res.0 })

unfoldable pub cursor : ℤ → MemoryState → Fallible (Option CursorDataType)
cursor k m = lift (get m.p k)

unfoldable pub set_cursor : ℤ → CursorDataType → MemoryState → Fallible MemoryState
set_cursor k c m = lift (IntMap.insert m.p k c) >>= λ res. ok (record m { p = res.0 })

-- `*nullable = Some(false)`, where the register holds a single column.
abbrev pub mark : ℤ → MemoryState → Option RegDataType → Fallible MemoryState
mark k m (some (typed (single d n))) = set_reg k (typed (single d (some false))) m
mark k m (some (typed (record_of cs))) = ok m
mark k m (some (int n)) = ok m
mark k m none = ok m

unfoldable pub mark_not_null : ℤ → MemoryState → Fallible MemoryState
mark_not_null k m = reg k m >>= mark k m

-- The columns in so many registers; one that is missing is the default.
abbrev pub columntype_of : Option RegDataType → ColumnType
columntype_of none = default_column
columntype_of (some v) = map_to_columntype v

unfoldable pub collect : ℕ → ℤ → MemoryState → Fallible (List ColumnType)
collect zero k m = ok []
collect (suc n) k m = reg k m >>= λ o. collect n (k +ℤ pos 1) m >>= λ cs. ok (columntype_of o ∷ cs)

-- `r[dst] = r[src]`, where there is a value.
abbrev pub store : ℤ → MemoryState → Option RegDataType → Fallible MemoryState
store dst m none = ok m
store dst m (some v) = set_reg dst v m

unfoldable pub copy_reg : ℤ → ℤ → MemoryState → Fallible MemoryState
copy_reg src dst m = reg src m >>= store dst m

-- What an instruction comes to for the branch: the next instruction, a jump, the end of the branch,
-- or the end with a row of results.
pub data BranchEnd : Type 0 where
  halt error branched : BranchEnd
  result : List ColumnType → BranchEnd

pub data Flow : Type 0 where
  next goto : MemoryState → Flow
  break : BranchEnd → Flow

-- The branches that an instruction starts, in order, by their memory, and what follows.
pub record Effect : Type 0 where
  pub forks : List MemoryState
  pub flow : Flow

abbrev pub goes_on : Flow → Fallible Effect
goes_on f = ok (record { forks = []; flow = f })

abbrev pub fork_if : Bool → Fallible MemoryState → Fallible (List MemoryState)
fork_if true m = m >>= λ x. ok (x ∷ [])
fork_if false m = ok []
