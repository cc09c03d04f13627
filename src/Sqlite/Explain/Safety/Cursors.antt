-- ===== src/Sqlite/Explain/Safety/Cursors.antt =====
-- sqlx-sqlite/src/connection/explain.rs: the instructions on cursors, tables and records do not panic.
use sqlx.Base.{Option, none, some, ◌>>=◌, lift, Yields, Yields->>=}
use sqlx.Base.Int.{ℤ, pos, negsuc}
use sqlx.Base.Eq.{nat_eq}
use sqlx.Sqlite.IntMap
use sqlx.Sqlite.IntMap.{IntMap}
use sqlx.Sqlite.Explain.Types.{
  null, ColumnType, single, record_of, RegDataType, typed, int, CursorDataType, normal, pseudo,
  TableDataType, columns_ref, columns, update_table,
}
use sqlx.Sqlite.Explain.Memory.{MemoryState, Instruction, ExplainError, reg, cursor, collect}
use sqlx.Sqlite.Explain.Cursors.{
  size_of, column_at, column_of, row_of, to_table, inserted, duplicated, open_table,
  nulled_register, nulled, exec_column, exec_row_data, exec_make_record, exec_insert, exec_delete,
  exec_open_dup, exec_open_read, exec_open_ephemeral, exec_null_row,
}
use sqlx.Sqlite.Explain.Safety.{
  NonNeg, Any, IsSound, IsCursor, Yields-lift, get-Yields, insert-Yields, reg-Yields,
  set_reg-Yields, cursor-Yields, set_cursor-Yields, collect-Yields, columns_ref-Yields,
  update_table-Yields,
}

module _ (i : Instruction) (m : MemoryState) (sound : IsSound m) where
  column_of-Yields :
      (o : Option CursorDataType) → NonNeg i.p2 → IsCursor o → Yields Any (column_of i m o)
  column_of-Yields none h k = tt
  column_of-Yields (some c) h k =
      Yields->>= Any Any (lift (columns_ref c m.t m.r)) _
        (Yields-lift Any (columns_ref c m.t m.r) (columns_ref-Yields c m.t m.r k))
        (λ cc u. found cc)
    where
      found :
          (cc : Option (IntMap ColumnType))
          → Yields Any (lift {E = ExplainError} (column_at cc i.p2))
      found none = tt
      found (some cc) = Yields-lift Any (IntMap.get cc i.p2) (get-Yields cc i.p2 h)

  pub exec_column-Yields :
      NonNeg i.p1 → NonNeg i.p2 → NonNeg i.p3 → Yields IsSound (exec_column i m)
  unfolding exec_column
  exec_column-Yields h1 h2 h3 =
      Yields->>= Any IsSound (cursor i.p1 m >>= column_of i m) _
        (Yields->>= IsCursor Any (cursor i.p1 m) (column_of i m) (cursor-Yields i.p1 m h1 sound)
          (λ o k. column_of-Yields o h2 k))
        (λ value u. set_reg-Yields i.p3 _ m h3 sound)

  row_of-Yields : (o : Option CursorDataType) → IsCursor o → Yields Any (row_of i m o)
  row_of-Yields none k = tt
  row_of-Yields (some c) k =
      Yields-lift Any (columns c m.t m.r)
        (Yields->>= Any Any (columns_ref c m.t m.r) _ (columns_ref-Yields c m.t m.r k) (λ cc u. tt))

  pub exec_row_data-Yields : NonNeg i.p1 → NonNeg i.p2 → Yields IsSound (exec_row_data i m)
  unfolding exec_row_data
  exec_row_data-Yields h1 h2 =
      Yields->>= Any IsSound (cursor i.p1 m >>= row_of i m) _
        (Yields->>= IsCursor Any (cursor i.p1 m) (row_of i m) (cursor-Yields i.p1 m h1 sound)
          row_of-Yields)
        (λ row u. set_reg-Yields i.p2 _ m h2 sound)

  pub exec_make_record-Yields :
      NonNeg i.p1 → NonNeg i.p2 → NonNeg i.p3 → Yields IsSound (exec_make_record i m)
  unfolding exec_make_record
  exec_make_record-Yields h1 h2 h3 = Yields->>= Any IsSound (size_of i.p2) _ (sized i.p2 h2) (λ n u.
      Yields->>= Any IsSound (collect n i.p1 m) _ (collect-Yields n i.p1 m h1)
        (λ row u'. set_reg-Yields i.p3 _ m h3 sound))
    where
      sized : (k : ℤ) → NonNeg k → Yields Any (size_of k)
      sized (pos n) h = tt
      sized (negsuc n) h = absurd h

  to_table-Yields :
      (f : TableDataType → TableDataType) (o : Option CursorDataType)
      → IsCursor o
      → Yields IsSound (to_table i m f o)
  to_table-Yields f none k = sound
  to_table-Yields f (some c) k =
      Yields->>= Any IsSound (lift (update_table f c m.t)) _
        (Yields-lift Any (update_table f c m.t) (update_table-Yields f c m.t k)) (λ t' u. sound)

  write_table :
      (f : TableDataType → TableDataType)
      → NonNeg i.p1
      → Yields IsSound (cursor i.p1 m >>= to_table i m f)
  write_table f h =
      Yields->>= IsCursor IsSound (cursor i.p1 m) (to_table i m f) (cursor-Yields i.p1 m h sound)
        (to_table-Yields f)

  inserted-Yields : (o : Option RegDataType) → NonNeg i.p1 → Yields IsSound (inserted i m o)
  inserted-Yields none h = sound
  inserted-Yields (some (int n)) h = sound
  inserted-Yields (some (typed (record_of cs))) h = write_table _ h
  inserted-Yields (some (typed (single null n))) h = write_table _ h
  inserted-Yields (some (typed (single _ n))) h = sound

  pub exec_insert-Yields : NonNeg i.p1 → NonNeg i.p2 → Yields IsSound (exec_insert i m)
  unfolding exec_insert
  exec_insert-Yields h1 h2 =
      Yields->>= Any IsSound (reg i.p2 m) (inserted i m) (reg-Yields i.p2 m h2)
        (λ o u. inserted-Yields o h1)

  pub exec_delete-Yields : NonNeg i.p1 → Yields IsSound (exec_delete i m)
  unfolding exec_delete
  exec_delete-Yields h = write_table _ h

  duplicated-Yields :
      (o : Option CursorDataType) → NonNeg i.p1 → IsCursor o → Yields IsSound (duplicated i m o)
  duplicated-Yields none h k = sound
  duplicated-Yields (some c) h k = set_cursor-Yields i.p1 c m h k sound

  pub exec_open_dup-Yields : NonNeg i.p1 → NonNeg i.p2 → Yields IsSound (exec_open_dup i m)
  unfolding exec_open_dup
  exec_open_dup-Yields h1 h2 =
      Yields->>= IsCursor IsSound (cursor i.p2 m) (duplicated i m) (cursor-Yields i.p2 m h2 sound)
        (λ o k. duplicated-Yields o h1 k)

  open_table-Yields : (tab : TableDataType) → NonNeg i.p1 → Yields IsSound (open_table i m tab)
  unfolding open_table
  open_table-Yields tab h =
      Yields->>= Any IsSound (lift (IntMap.insert m.t (pos m.program_i) tab)) _
        (Yields-lift Any (IntMap.insert m.t (pos m.program_i) tab)
          (insert-Yields m.t (pos m.program_i) tab tt))
        (λ res u. set_cursor-Yields i.p1 _ (record m { t = res.0 }) h tt sound)

  pub exec_open_read-Yields :
      (root_block_cols : ℤ → ℤ → Option (IntMap ColumnType))
      → NonNeg i.p1
      → Yields IsSound (exec_open_read i m root_block_cols)
  unfolding exec_open_read
  exec_open_read-Yields root_block_cols h = open_table-Yields _ h

  pub exec_open_ephemeral-Yields :
      NonNeg i.p1 → NonNeg i.p2 → Yields IsSound (exec_open_ephemeral i m)
  unfolding exec_open_ephemeral
  exec_open_ephemeral-Yields h1 h2 =
      Yields->>= Any IsSound (size_of i.p2) _ (sized i.p2 h2) (λ n u. open_table-Yields _ h1)
    where
      sized : (k : ℤ) → NonNeg k → Yields Any (size_of k)
      sized (pos n) h = tt
      sized (negsuc n) h = absurd h

  nulled_register-Yields :
      (k : ℤ) (o : Option RegDataType) → NonNeg k → Yields IsSound (nulled_register i m k o)
  nulled_register-Yields k none h = sound
  nulled_register-Yields k (some (int n)) h = sound
  nulled_register-Yields k (some (typed (single d n))) h = sound
  nulled_register-Yields k (some (typed (record_of cs))) h = set_reg-Yields k _ m h sound

  nulled-Yields : (o : Option CursorDataType) → IsCursor o → Yields IsSound (nulled i m o)
  nulled-Yields none k = sound
  nulled-Yields (some (normal j)) k = to_table-Yields _ (some (normal j)) k
  nulled-Yields (some (pseudo j)) k =
      Yields->>= Any IsSound (reg j m) (nulled_register i m j) (reg-Yields j m k)
        (λ o u. nulled_register-Yields j o k)

  pub exec_null_row-Yields : NonNeg i.p1 → Yields IsSound (exec_null_row i m)
  unfolding exec_null_row
  exec_null_row-Yields h =
      Yields->>= IsCursor IsSound (cursor i.p1 m) (nulled i m) (cursor-Yields i.p1 m h sound)
        nulled-Yields
