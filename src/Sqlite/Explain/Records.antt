-- ===== src/Sqlite/Explain/Records.antt =====
-- sqlx-sqlite/src/connection/explain.rs: a record that is made of registers, and the columns that are
-- read from a cursor on it.
use sqlx.Base.{
  ℕ, zero, suc, ◌+◌, ◌<◌, ◌≡◌, refl, ap, ◌∙◌, Option, none, some, List, [], ◌∷◌, ok, ◌>>=◌,
  get_elem?, arith, ◌==◌, if◌then◌else◌,
}
use sqlx.Base.Int.{pos, ◌+ℤ◌}
use sqlx.Sqlite.IntMap
use sqlx.Sqlite.IntMap.{IntMap, get, insert, expand, from_dense_record, dense, slot}
use sqlx.Sqlite.IntMap.Lookup.{get-insert}
use sqlx.Sqlite.Explain.Types.{
  ColumnType, RegDataType, typed, record_type, map_of, slots_of, columns_of, CursorDataType, pseudo,
}
use sqlx.Sqlite.Explain.Memory.{
  MemoryState, Instruction, reg, set_reg, cursor, set_cursor, collect, columntype_of,
}
use sqlx.Sqlite.Explain.Cursors.{exec_make_record, exec_column}

slots_of-columns_of : (xs : List (Option ColumnType)) → slots_of (columns_of xs) ≡ xs
slots_of-columns_of [] = refl
slots_of-columns_of (none ∷ xs) = ap (◌∷◌ none) (slots_of-columns_of xs)
slots_of-columns_of (some c ∷ xs) = ap (◌∷◌ (some c)) (slots_of-columns_of xs)

at-dense : {V : Type 0} (vs : List V) (j : ℕ) → slot (get_elem? (dense vs) j) ≡ get_elem? vs j
unfolding dense
at-dense [] j = refl
at-dense (v ∷ vs) zero = refl
at-dense (v ∷ vs) (suc j) = at-dense vs j

-- The column of a register.
abbrev pub column_in : MemoryState → ℕ → ColumnType
column_in m a = columntype_of (IntMap.at m.r.slots a)

columns_in : ℕ → ℕ → MemoryState → List ColumnType
columns_in zero a m = []
columns_in (suc n) a m = column_in m a ∷ columns_in n (a + 1) m

collect-columns_in : (n a : ℕ) (m : MemoryState) → collect n (pos a) m ≡ ok (columns_in n a m)
unfolding collect columns_in reg get ◌+ℤ◌
collect-columns_in zero a m = refl
collect-columns_in (suc n) a m =
    let next : pos a +ℤ pos 1 ≡ pos (a + 1) = ground arith in
    rw (next, collect-columns_in n (a + 1) m) refl

get_elem?-columns_in :
    (n a : ℕ) (m : MemoryState) (j : ℕ)
    → j < n
    → get_elem? (columns_in n a m) j ≡ some (column_in m (a + j))
unfolding columns_in
get_elem?-columns_in zero a m j h = absurd (omega (arith, h))
get_elem?-columns_in (suc n) a m zero h = ap (λ k. some (column_in m k)) (omega arith)
get_elem?-columns_in (suc n) a m (suc j) h =
    get_elem?-columns_in n (a + 1) m j (omega (arith, h))
    ∙ ap (λ k. some (column_in m k)) (omega arith)

set_reg_lem :
    (k : ℕ) (v : RegDataType) (m : MemoryState)
    → (x : MemoryState) × (set_reg (pos k) v m ≡ ok x)
      × (x.p ≡ m.p)
      × ((j : ℕ) → get x.r (pos j) ≡ (if k == j then ok (some v) else get m.r (pos j)))
unfolding set_reg
set_reg_lem k v m =
    let (r, inserted, before, after) = get-insert m.r k v in
    (record m { r = r.0 }, rw inserted refl, refl, after)

set_cursor_lem :
    (k : ℕ) (c : CursorDataType) (m : MemoryState)
    → (x : MemoryState) × (set_cursor (pos k) c m ≡ ok x)
      × (x.r ≡ m.r)
      × (get x.p (pos k) ≡ ok (some c))
unfolding set_cursor
set_cursor_lem k c m =
    let (r, inserted, before, after) = get-insert m.p k c in
    (record m { p = r.0 }, rw inserted refl, refl, ground (arith, after k))

-- A column of a record of so many registers.
get-record :
    (n a j : ℕ) (m : MemoryState)
    → j < n
    → get (map_of (columns_of (from_dense_record (columns_in n a m)).slots)) (pos j)
      ≡ ok (some (column_in m (a + j)))
unfolding get from_dense_record
get-record n a j m h =
    ap (λ xs. ok (slot (get_elem? xs j))) (slots_of-columns_of (dense (columns_in n a m)))
    ∙ ap ok (at-dense (columns_in n a m) j ∙ get_elem?-columns_in n a m j h)

-- MakeRecord of the `n` registers from `a` on, OpenPseudo of a cursor on the record, and Column `j < n`
-- of the cursor never panic, and leave in the register for the column what register `a + j` described
-- before; a register that was never written counts as one of the default type.
pub exec_column-exec_make_record :
    (make column : Instruction) (a n d c j e : ℕ) (m : MemoryState)
    → make.p1 ≡ pos a
    → make.p2 ≡ pos n
    → make.p3 ≡ pos d
    → column.p1 ≡ pos c
    → column.p2 ≡ pos j
    → column.p3 ≡ pos e
    → j < n
    → (x : MemoryState) × ((exec_make_record make m >>= λ y.
          set_cursor (pos c) (pseudo (pos d)) y >>= λ z. exec_column column z)
        ≡ ok x)
      × (get x.r (pos e) ≡ ok (some (typed (column_in m (a + j)))))
unfolding exec_make_record exec_column cursor
exec_column-exec_make_record make column a n d c j e m m1 m2 m3 c1 c2 c3 h =
    let row = columns_in n a m in
    let (y, y_made, y_p, y_r) = set_reg_lem d (typed (record_type (from_dense_record row))) m in
    let (z, z_made, z_r, z_p) = set_cursor_lem c (pseudo (pos d)) y in
    let there : get z.r (pos d) ≡ ok (some (typed (record_type (from_dense_record row)))) =
      ap (λ r. get r (pos d)) z_r ∙ ground (arith, y_r d) in
    let (x, x_made, x_p, x_r) = set_reg_lem e (typed (column_in m (a + j))) z in
    (
      x,
      rw
          (
            m1,
            m2,
            m3,
            collect-columns_in n a m,
            y_made,
            z_made,
            c1,
            c2,
            c3,
            z_p,
            there,
            get-record n a j m h,
            x_made,
          )
          refl,
      ground (arith, x_r e),
    )
