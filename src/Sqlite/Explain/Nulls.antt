-- ===== src/Sqlite/Explain/Nulls.antt =====
-- sqlx-sqlite/src/connection/explain.rs: IsNull and NotNull are the same test, with the two ways out
-- exchanged.
use sqlx.Base.{ℕ, ◌+◌, ◌≡◌, refl, Option, none, some, Bool-cases, inl, inr, List, [], ◌∷◌, ok}
use sqlx.Base.Int.{pos}
use sqlx.Sqlite.IntMap
use sqlx.Sqlite.IntMap.{get, insert, expand}
use sqlx.Sqlite.Explain.Types.{single, record_of, RegDataType, typed, int}
use sqlx.Sqlite.Explain.Memory.{
  MemoryState, Instruction, to_usize, at, branched, reg, set_reg, mark_not_null, Fallible, Flow,
  goto, break, Effect,
}
use sqlx.Sqlite.Explain.Control.{exec_is_null, exec_not_null, is_known_not_null, is_null_type}

-- One branch at `j` and what goes on at `k`, with the same memory but for these places; or no branch,
-- and the end of what goes on.
abbrev pub AreSame : ℕ → ℕ → List MemoryState → Flow → Type 0
AreSame j k (x ∷ []) (goto y) = (x.program_i ≡ j) × (y.program_i ≡ k) × (at 0 x ≡ at 0 y)
AreSame j k [] (break e) = e ≡ branched
AreSame _ _ _ _ = ⊥

-- Both are returned, and the ways out of one are those of the other, exchanged: each branches to `j`
-- and goes on at `k`.
abbrev pub AreExchanged : ℕ → ℕ → Fallible Effect → Fallible Effect → Type 0
AreExchanged j k (ok e) (ok f) = AreSame j k e.forks f.flow × AreSame j k f.forks e.flow
AreExchanged _ _ _ _ = ⊥

-- The states that the two leave, by what the register holds.
of_register :
    (i : Instruction) (k : ℕ) (m : MemoryState) (o : Option RegDataType)
    → i.p1 ≡ pos k
    → IntMap.at m.r.slots k ≡ o
    → AreExchanged (to_usize i.p2) (m.program_i + 1) (exec_is_null i m) (exec_not_null i m)
unfolding exec_is_null exec_not_null reg set_reg mark_not_null get insert expand
of_register i k m none h e = rw (h, e) (refl, refl)
of_register i k m (some (int n)) h e = rw (h, e) (refl, (refl, refl, refl))
of_register i k m (some (typed (record_of cs))) h e = rw (h, e) ((refl, refl, refl), refl)
of_register i k m (some (typed (single d n))) h e = elim (Bool-cases (is_known_not_null n)) [
  | inl never ↦ elim (Bool-cases (is_null_type d)) [
    | inl always ↦ rw (h, e, never, always) (refl, refl)
    | inr perhaps ↦ rw (h, e, never, perhaps) (refl, (refl, refl, refl))
  ]
  | inr maybe ↦ elim (Bool-cases (is_null_type d)) [
    | inl always ↦ rw (h, e, maybe, always) ((refl, refl, refl), refl)
    | inr perhaps ↦ rw (h, e, maybe, perhaps) ((refl, refl, refl), (refl, refl, refl))
  ]
]

-- Where p1 is not negative, IsNull and NotNull both return at the same operands and in any memory. Each
-- starts no branch, or one at p2, and goes on with the next instruction, or ends as branched. The
-- branch of the one is there exactly if the other goes on, and then with the same memory, apart from
-- where it stands in the program.
pub exec_is_null-exec_not_null :
    (i : Instruction) (k : ℕ) (m : MemoryState)
    → i.p1 ≡ pos k
    → AreExchanged (to_usize i.p2) (m.program_i + 1) (exec_is_null i m) (exec_not_null i m)
exec_is_null-exec_not_null i k m h = of_register i k m (IntMap.at m.r.slots k) h refl
