-- ===== src/Sqlite/Explain/Safety.antt =====
-- sqlx-sqlite/src/connection/explain.rs: accesses of registers, cursors and tables whose numbers are
-- not negative do not panic.
pub mod Control
pub mod Coroutines
pub mod Cursors
pub mod Values
pub mod Step
pub mod Branches
pub mod Loops
use sqlx.Base.{
  ℕ, zero, suc, ◌+◌, ◌≤◌, ◌≡◌, refl, sym, ap, subst, ◌∙◌, Bool, true, false, Bool-cases, inl, inr,
  Option, none, some, Option-cases, List, [], ◌∷◌, Outcome, ok, err, panic, ◌>>=◌, lift, Yields,
  Yields->>=, arith, ◌==◌, if◌then◌else◌, ==_iff,
}
use sqlx.Base.Int.{ℤ, pos, negsuc, ◌+ℤ◌}
use sqlx.Sqlite.IntMap
use sqlx.Sqlite.IntMap.{IntMap, get, insert, remove, expand}
use sqlx.Sqlite.IntMap.Lookup.{get-insert}
use sqlx.Sqlite.Explain.Types.{
  ColumnType, single, record_of, RegDataType, typed, int, CursorDataType, normal, pseudo,
  TableDataType, Tables, Registers, columns_ref, columns, set_table, update_table, is_empty,
}
use sqlx.Sqlite.Explain.Memory.{
  MemoryState, Fallible, ExplainError, reg, set_reg, remove_reg, cursor, set_cursor, mark,
  mark_not_null, collect, store, copy_reg,
}

abbrev pub NonNeg : ℤ → Type 0
NonNeg (pos n) = Unit
NonNeg (negsuc n) = ⊥

abbrev pub Any {ℓ} : {A : Type ℓ} → A → Type 0
Any a = Unit

abbrev pub index_of : CursorDataType → ℤ
index_of (normal k) = k
index_of (pseudo k) = k

-- The cursor that is there, if any, has an index that is not negative.
abbrev pub IsCursor : Option CursorDataType → Type 0
IsCursor none = Unit
IsCursor (some c) = NonNeg (index_of c)

-- So for all cursors of a memory.
abbrev pub IsSound : MemoryState → Type 0
IsSound m = (j : ℕ) (c : CursorDataType) → get m.p (pos j) ≡ ok (some c) → NonNeg (index_of c)

pub NonNeg-add : (a b : ℤ) → NonNeg a → NonNeg b → NonNeg (a +ℤ b)
unfolding ◌+ℤ◌
NonNeg-add (pos a) (pos b) h k = ground arith
NonNeg-add (pos a) (negsuc b) h k = absurd k
NonNeg-add (negsuc a) b h k = absurd h

pub Yields-lift {ℓ} :
    {A : Type ℓ} (P : A → Type 0) (m : Outcome ⊥ A)
    → Yields P m
    → Yields P (lift {E = ExplainError} m)
Yields-lift P (ok a) h = h
Yields-lift P (err e) h = absurd e
Yields-lift P panic h = h

pub get-Yields {ℓ} : {V : Type ℓ} (m : IntMap V) (k : ℤ) → NonNeg k → Yields Any (get m k)
unfolding get
get-Yields m (pos n) h = tt
get-Yields m (negsuc n) h = absurd h

pub insert-Yields {ℓ} :
    {V : Type ℓ} (m : IntMap V) (k : ℤ) (v : V) → NonNeg k → Yields Any (insert m k v)
unfolding insert expand
insert-Yields m (pos n) v h = tt
insert-Yields m (negsuc n) v h = absurd h

pub reg-Yields : (k : ℤ) (m : MemoryState) → NonNeg k → Yields Any (reg k m)
unfolding reg
reg-Yields k m h = Yields-lift Any (get m.r k) (get-Yields m.r k h)

pub set_reg-Yields :
    (k : ℤ) (v : RegDataType) (m : MemoryState)
    → NonNeg k
    → IsSound m
    → Yields IsSound (set_reg k v m)
unfolding set_reg insert expand
set_reg-Yields (pos n) v m h s = s
set_reg-Yields (negsuc n) v m h s = absurd h

pub remove_reg-Yields :
    (k : ℤ) (m : MemoryState) → NonNeg k → IsSound m → Yields IsSound (remove_reg k m)
unfolding remove_reg remove
remove_reg-Yields (pos n) m h s = s
remove_reg-Yields (negsuc n) m h s = absurd h

pub cursor-Yields : (k : ℤ) (m : MemoryState) → NonNeg k → IsSound m → Yields IsCursor (cursor k m)
unfolding cursor get
cursor-Yields (negsuc n) m h s = absurd h
cursor-Yields (pos n) m h s = elim (Option-cases (IntMap.at m.p.slots n)) [
  | inl e ↦ rw e tt
  | inr (c, e) ↦ rw e (s n c (ap ok e))
]

pub set_cursor-Yields :
    (k : ℤ) (c : CursorDataType) (m : MemoryState)
    → NonNeg k
    → NonNeg (index_of c)
    → IsSound m
    → Yields IsSound (set_cursor k c m)
unfolding set_cursor
set_cursor-Yields (negsuc n) c m h hc s = absurd h
set_cursor-Yields (pos n) c m h hc s =
    let (r, inserted, before, after) = get-insert m.p n c in
    rw inserted (λ j d e. elim (Bool-cases (n == j)) [
      | inl same ↦ let found : c ≡ d = cc (after j) in subst (λ x. NonNeg (index_of x)) found hc
      | inr other ↦ s j d (cc (after j))
    ])

pub mark_not_null-Yields :
    (k : ℤ) (m : MemoryState) → NonNeg k → IsSound m → Yields IsSound (mark_not_null k m)
unfolding mark_not_null
mark_not_null-Yields k m h s =
    Yields->>= Any IsSound (reg k m) (mark k m) (reg-Yields k m h) (λ o u. marked o)
  where
    marked : (o : Option RegDataType) → Yields IsSound (mark k m o)
    marked (some (typed (single d n))) = set_reg-Yields k (typed (single d (some false))) m h s
    marked (some (typed (record_of cs))) = s
    marked (some (int n)) = s
    marked none = s

pub collect-Yields : (n : ℕ) (k : ℤ) (m : MemoryState) → NonNeg k → Yields Any (collect n k m)
unfolding collect
collect-Yields zero k m h = tt
collect-Yields (suc n) k m h = Yields->>= Any Any (reg k m) _ (reg-Yields k m h) (λ o u.
    Yields->>= Any Any (collect n (k +ℤ pos 1) m) _
      (collect-Yields n (k +ℤ pos 1) m (NonNeg-add k (pos 1) h tt)) (λ cs u'. tt))

pub store-Yields :
    (dst : ℤ) (m : MemoryState) (o : Option RegDataType)
    → NonNeg dst
    → IsSound m
    → Yields IsSound (store dst m o)
store-Yields dst m none h s = s
store-Yields dst m (some v) h s = set_reg-Yields dst v m h s

pub copy_reg-Yields :
    (src dst : ℤ) (m : MemoryState)
    → NonNeg src
    → NonNeg dst
    → IsSound m
    → Yields IsSound (copy_reg src dst m)
unfolding copy_reg
copy_reg-Yields src dst m h k s =
    Yields->>= Any IsSound (reg src m) (store dst m) (reg-Yields src m h)
      (λ o u. store-Yields dst m o k s)

pub columns_ref-Yields :
    (c : CursorDataType) (t : Tables) (r : Registers)
    → NonNeg (index_of c)
    → Yields Any (columns_ref c t r)
columns_ref-Yields (normal k) t r h = Yields->>= Any Any (get t k) _ (get-Yields t k h) (λ o u. tt)
columns_ref-Yields (pseudo k) t r h = Yields->>= Any Any (get r k) _ (get-Yields r k h) (λ o u. tt)

pub update_table-Yields :
    (f : TableDataType → TableDataType) (c : CursorDataType) (t : Tables)
    → NonNeg (index_of c)
    → Yields Any (update_table f c t)
unfolding update_table
update_table-Yields f (pseudo k) t h = tt
update_table-Yields f (normal k) t h =
    Yields->>= Any Any (get t k) (set_table f k t) (get-Yields t k h) (λ o u. written o)
  where
    written : (o : Option TableDataType) → Yields Any (set_table f k t o)
    written none = tt
    written (some tab) =
        Yields->>= Any Any (insert t k (f tab)) _ (insert-Yields t k (f tab) h) (λ r u. tt)

pub is_empty-Yields :
    (c : CursorDataType) (t : Tables) → NonNeg (index_of c) → Yields Any (is_empty c t)
unfolding is_empty
is_empty-Yields (pseudo k) t h = tt
is_empty-Yields (normal k) t h = Yields->>= Any Any (get t k) _ (get-Yields t k h) (λ o u. tt)
