-- ===== src/Sqlite/Explain/Branches.antt =====
-- sqlx-sqlite/src/connection/explain.rs: the branches that are still to be followed, the memories
-- that branches were started with, and the two loops of `explain` over them. The loops are one
-- recursion on fuel; the gas, of which each instruction takes one, bounds how much is needed. The
-- logger is left out.
use sqlx.Base.{
  ℕ, zero, suc, ◌+◌, ◌-◌, Bool, Option, none, some, List, [], ◌∷◌, ok, ◌>>=◌, expect, if◌then◌else◌,
  ltb, length, get_elem?, set, replicate,
}
use sqlx.Base.Int.{ℤ, pos, ◌+ℤ◌, ◌-ℤ◌}
use sqlx.Sqlite.IntMap.{IntMap, new}
use sqlx.Sqlite.Explain.Types.{ColumnType}
use sqlx.Sqlite.Explain.Memory.{
  MemoryState, Instruction, Fallible, Flow, next, goto, break, halt, error, branched, result,
  BranchEnd, Effect, advance,
}
use sqlx.Sqlite.Explain.Step.{exec}
use sqlx.Sqlite.Explain.Equality.{memory_eq}

pub record BranchParent : Type 0 where
  pub id : ℤ
  pub idx : ℤ

pub record QueryState : Type 0 where
  pub visited : List ℕ
  pub branch_id : ℤ
  pub instruction_counter : ℤ
  pub branch_parent : Option BranchParent
  pub mem : MemoryState

-- The stack of branches, `visited_branch_state`, the next number of `branch_seq`, the gas and the rows
-- of results, the last one first.
pub record Explorer : Type 0 where
  pub states : List QueryState
  pub visited_branch_state : List (MemoryState × BranchParent)
  pub branch_seq : ℤ
  pub gas : ℕ
  pub result_states : List (List ColumnType)

abbrev pub max_loop_count : ℕ
max_loop_count = 2

abbrev pub max_total_instruction_count : ℕ
max_total_instruction_count = 100000

-- `new_branch`, with the memory of the branch.
abbrev pub new_branch : QueryState → ℤ → MemoryState → QueryState
new_branch s id m = record {
  visited = s.visited;
  branch_id = id;
  instruction_counter = pos 0;
  branch_parent = some (record { id = s.branch_id; idx = s.instruction_counter -ℤ pos 1 });
  mem = m;
}

-- `visited_branch_state.entry`.
unfoldable pub entry_of : MemoryState → List (MemoryState × BranchParent) → Option BranchParent
unfolding memory_eq
entry_of m [] = none
entry_of m ((k, parent) ∷ es) = if memory_eq m k then some parent else entry_of m es

-- `BranchList::push`: a branch with a memory that was seen is dropped.
abbrev pub push_entry : QueryState → Explorer → Option BranchParent → Explorer
push_entry s ex (some parent) = ex
push_entry s ex none = record ex {
  states = s ∷ ex.states;
  visited_branch_state =
      (s.mem, record { id = s.branch_id; idx = s.instruction_counter }) ∷ ex.visited_branch_state;
}

unfoldable pub push : QueryState → Explorer → Explorer
unfolding entry_of
push s ex = push_entry s ex (entry_of s.mem ex.visited_branch_state)

-- A branch for each memory, with the next number each.
unfoldable pub fork_all : QueryState → List MemoryState → Explorer → Explorer
unfolding push
fork_all s [] ex = ex
fork_all s (m ∷ ms) ex =
    fork_all s ms
      (push (new_branch s ex.branch_seq m) (record ex { branch_seq = ex.branch_seq +ℤ pos 1 }))

-- Where the loops stand: within a branch, or between two.
abbrev pub Standing : Type 0
Standing = Option QueryState × Explorer

abbrev pub record_result : BranchEnd → Explorer → Explorer
record_result (result row) ex = record ex { result_states = row ∷ ex.result_states }
record_result halt ex = ex
record_result error ex = ex
record_result branched ex = ex

abbrev pub follow : QueryState → Flow → Explorer → Standing
follow s (next m) ex = (some (record s { mem = advance m }), ex)
follow s (goto m) ex = (some (record s { mem = m }), ex)
follow s (break e) ex = (none, record_result e ex)

abbrev pub proceed : QueryState → Explorer → Effect → Standing
proceed s ex e = follow s e.flow (fork_all s e.forks ex)

-- A round that has taken gas: the branch has visited the instruction once more.
abbrev pub visit : QueryState → ℕ → QueryState
visit s n = record s {
  visited = set s.visited s.mem.program_i (n + 1);
  instruction_counter = s.instruction_counter +ℤ pos 1;
}

module _ (root_block_cols : ℤ → ℤ → Option (IntMap ColumnType)) (is_utf8 : List ℕ → Bool)
    (program : List Instruction) where
  -- The body of the inner loop, at an instruction that has been visited `n` times; an index of
  -- `visited` out of bounds panics.
  abbrev pub round_at : QueryState → Explorer → Instruction → ℕ → Fallible Standing
  round_at s ex i n =
      if ltb max_loop_count n
      then ok (none, ex)
      else exec root_block_cols is_utf8 program i (n + 1) s.mem >>= λ e.
          ok (proceed (visit s n) ex e)

  unfoldable pub round : QueryState → Explorer → Instruction → Fallible Standing
  unfolding exec fork_all
  round s ex i =
      if ltb 0 ex.gas
      then (expect (get_elem? s.visited s.mem.program_i) >>= λ n.
          round_at s (record ex { gas = ex.gas - 1 }) i n)
      else ok (none, ex)

  -- A branch that has left the program is over.
  abbrev pub inner : QueryState → Explorer → Option Instruction → Fallible Standing
  inner s ex none = ok (none, ex)
  inner s ex (some i) = round s ex i

  abbrev pub outer : Explorer → List QueryState → Option Standing
  outer ex [] = none
  outer ex (s ∷ ss) = some (some s, record ex { states = ss })

  -- One turn of the loops; none at their end.
  abbrev pub turn : Standing → Fallible (Option Standing)
  turn (none, ex) = ok (outer ex ex.states)
  turn (some s, ex) = inner s ex (get_elem? program s.mem.program_i) >>= λ st. ok (some st)

  -- What `run` comes to: the rows at the end of the loops, or none where the fuel is used up.
  abbrev pub turned :
      Explorer
      → Option Standing
      → (Standing → Fallible (Option Explorer))
      → Fallible (Option Explorer)
  turned ex none rest = ok (some ex)
  turned ex (some st) rest = rest st

  unfoldable pub run : ℕ → Standing → Fallible (Option Explorer)
  unfolding round
  run zero st = ok none
  run (suc fuel) st = turn st >>= λ o. turned st.1 o (run fuel)

  abbrev pub initial : Explorer
  initial = record {
    states =
        record {
          visited = replicate (length program) 0;
          branch_id = pos 0;
          instruction_counter = pos 0;
          branch_parent = none;
          mem = record { program_i = 0; r = new; p = new; t = new };
        }
        ∷ [];
    visited_branch_state = [];
    branch_seq = pos 1;
    gas = max_total_instruction_count;
    result_states = [];
  }
