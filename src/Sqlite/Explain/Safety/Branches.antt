-- ===== src/Sqlite/Explain/Safety/Branches.antt =====
-- sqlx-sqlite/src/connection/explain.rs: what holds of every branch, and the branches that an effect
-- starts.
use sqlx.Base.{
  ℕ, zero, suc, ◌+◌, ◌*◌, ◌≤◌, ◌<◌, ◌≡◌, refl, subst, ◌∙◌, inl, inr, Option, none, some,
  Option-cases, List, [], ◌∷◌, arith, length, get_elem?, set, replicate,
}
use sqlx.Base.Int.{pos, ◌+ℤ◌}
use sqlx.Sqlite.Explain.Opcodes.{arm_of}
use sqlx.Sqlite.Explain.Memory.{
  MemoryState, Instruction, Flow, next, goto, break, halt, error, branched, result, Effect,
}
use sqlx.Sqlite.Explain.Branches.{
  QueryState, Explorer, max_loop_count, new_branch, entry_of, push, fork_all, Standing, follow,
  proceed,
}
use sqlx.Sqlite.Explain.Safety.{IsSound}
use sqlx.Sqlite.Explain.Safety.Control.{IsGood, AreSound, FlowIsSound}
use sqlx.Sqlite.Explain.Safety.Step.{IsAddressed}

abbrev pub AllLe : ℕ → List ℕ → Type 0
AllLe b [] = Unit
AllLe b (x ∷ xs) = (x ≤ b) × AllLe b xs

pub AllLe-set : (b : ℕ) (xs : List ℕ) (i v : ℕ) → v ≤ b → AllLe b xs → AllLe b (set xs i v)
AllLe-set b [] i v h all = tt
AllLe-set b (x ∷ xs) zero v h (le, all) = (h, all)
AllLe-set b (x ∷ xs) (suc i) v h (le, all) = (le, AllLe-set b xs i v h all)

pub AllLe-replicate : (b n : ℕ) → AllLe b (replicate n 0)
AllLe-replicate b zero = tt
AllLe-replicate b (suc n) = (omega arith, AllLe-replicate b n)

pub get_elem?-some : (xs : List ℕ) (i : ℕ) → i < length xs → (v : ℕ) × (get_elem? xs i ≡ some v)
get_elem?-some [] i h = absurd (omega (arith, h))
get_elem?-some (x ∷ xs) zero h = (x, refl)
get_elem?-some (x ∷ xs) (suc i) h = get_elem?-some xs i (omega (arith, h))

pub get_elem?-lt :
    {A : Type 0} (xs : List A) (i : ℕ) (a : A) → get_elem? xs i ≡ some a → i < length xs
get_elem?-lt [] i a h = absurd (cc)
get_elem?-lt (x ∷ xs) zero a h = omega arith
get_elem?-lt (x ∷ xs) (suc i) a h = omega (arith, get_elem?-lt xs i a h)

abbrev pub AllAddressed : List Instruction → Type 0
AllAddressed [] = Unit
AllAddressed (i ∷ is) = IsAddressed (arm_of i.opcode) i × AllAddressed is

pub AllAddressed-get :
    (is : List Instruction) (j : ℕ) (i : Instruction)
    → AllAddressed is
    → get_elem? is j ≡ some i
    → IsAddressed (arm_of i.opcode) i
AllAddressed-get [] j i h e = absurd (cc)
AllAddressed-get (x ∷ is) zero i h e =
    let same : x ≡ i = cc in subst (λ y. IsAddressed (arm_of y.opcode) y) same h.0
AllAddressed-get (x ∷ is) (suc j) i h e = AllAddressed-get is j i h.1 e

-- A branch of a program of `n` instructions: it counts the visits of each, three at most, and its
-- memory is sound.
abbrev pub IsBranch : ℕ → QueryState → Type 0
IsBranch n s = (length s.visited ≡ n) × AllLe (max_loop_count + 1) s.visited × IsSound s.mem

abbrev pub AreBranches : ℕ → List QueryState → Type 0
AreBranches n [] = Unit
AreBranches n (s ∷ ss) = IsBranch n s × AreBranches n ss

abbrev pub IsStanding : ℕ → Standing → Type 0
IsStanding n (none, ex) = AreBranches n ex.states
IsStanding n (some s, ex) = IsBranch n s × AreBranches n ex.states

-- What each turn makes less.
abbrev pub measure : Standing → ℕ
measure (none, ex) = 7 * ex.gas + 2 * length ex.states + 1
measure (some s, ex) = 7 * ex.gas + 2 * length ex.states + 2

-- Another standing of which this holds, with a lower measure.
abbrev pub IsLater : ℕ → ℕ → Standing → Type 0
IsLater n before st = IsStanding n st × (measure st < before)

abbrev pub IsTurn : ℕ → Standing → Option Standing → Type 0
IsTurn n st none = Unit
IsTurn n st (some later) = IsLater n (measure st) later

-- What a call of `push` leaves: the gas, and a branch more at most.
abbrev pub Grows : ℕ → ℕ → Explorer → Explorer → Type 0
Grows n k ex ex' =
    AreBranches n ex'.states × (ex'.gas ≡ ex.gas) × (length ex'.states ≤ length ex.states + k)

push-Grows :
    (n : ℕ) (s : QueryState) (ex : Explorer)
    → IsBranch n s
    → AreBranches n ex.states
    → Grows n 1 ex (push s ex)
unfolding push
push-Grows n s ex h all = elim (Option-cases (entry_of s.mem ex.visited_branch_state)) [
  | inl e ↦ rw e ((h, all), refl, omega arith)
  | inr (parent, e) ↦ rw e (all, refl, omega arith)
]

pub fork_all-Grows :
    (n : ℕ) (s : QueryState) (ms : List MemoryState) (ex : Explorer)
    → IsBranch n s
    → AreSound ms
    → AreBranches n ex.states
    → Grows n (length ms) ex (fork_all s ms ex)
unfolding fork_all
fork_all-Grows n s [] ex h sound all = (all, refl, omega arith)
fork_all-Grows n s (m ∷ ms) ex h (here, sound) all =
    let ex1 : Explorer = record ex { branch_seq = ex.branch_seq +ℤ pos 1 } in
    let b = new_branch s ex.branch_seq m in
    let one = push-Grows n b ex1 (h.0, h.1, here) all in
    let later = fork_all-Grows n s ms (push b ex1) h sound one.0 in
    (later.0, later.1 ∙ one.1, omega (arith, one.2, later.2))

abbrev pub IsWithin : ℕ → ℕ → Standing → Type 0
IsWithin n bound st = IsStanding n st × (measure st ≤ bound)

pub follow-IsStanding :
    (n : ℕ) (s : QueryState) (f : Flow) (ex : Explorer)
    → IsBranch n s
    → FlowIsSound f
    → AreBranches n ex.states
    → IsWithin n (7 * ex.gas + 2 * length ex.states + 2) (follow s f ex)
follow-IsStanding n s (next m) ex h sound all = (((h.0, h.1, sound), all), omega arith)
follow-IsStanding n s (goto m) ex h sound all = (((h.0, h.1, sound), all), omega arith)
follow-IsStanding n s (break halt) ex h sound all = (all, omega arith)
follow-IsStanding n s (break error) ex h sound all = (all, omega arith)
follow-IsStanding n s (break branched) ex h sound all = (all, omega arith)
follow-IsStanding n s (break (result row)) ex h sound all = (all, omega arith)

pub proceed-IsStanding :
    (n : ℕ) (s : QueryState) (ex : Explorer) (e : Effect)
    → IsBranch n s
    → IsGood e
    → AreBranches n ex.states
    → IsWithin n (7 * ex.gas + 2 * length ex.states + 8) (proceed s ex e)
proceed-IsStanding n s ex e h (forks, flow, three) all =
    let grown = fork_all-Grows n s e.forks ex h forks all in
    let st = follow-IsStanding n s e.flow (fork_all s e.forks ex) h flow grown.0 in
    (st.0, omega (arith, st.1, grown.1, grown.2, three))
