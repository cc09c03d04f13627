-- ===== src/Core/Transaction/Failure.antt =====
-- sqlx-postgres/src/transaction.rs and sqlx-mysql/src/transaction.rs where the server refuses to begin
-- a transaction in another.
use sqlx.Base.{ℕ, suc, ◌+◌, ◌≡◌, refl, ap, ◌∙◌, none, List, [], ◌∷◌, err, lt→ltb, arith}
use sqlx.Base.Runs.{◌>>◌}
use sqlx.Core.Transaction.{
  Sql, savepoint, Error, Server, Conn, answers, wait_until_ready, execute, start_rollback,
  begin_statement, pg_begin, mysql_begin, begin_ansi_transaction_sql, rollback_ansi_transaction_sql,
  guarded, check_begun, set_depth,
}

begin_ansi_transaction_sql-suc :
    {D : Type 0} (k : ℕ) → begin_ansi_transaction_sql {D = D} (suc k) ≡ savepoint (suc k)
unfolding begin_ansi_transaction_sql
begin_ansi_transaction_sql-suc k = ground arith

module _ {D : Type 0} (server : Server D) where
  open server use {State, exec}

  abbrev conn : State → ℕ → List (Sql D) → Conn server
  conn r depth qs = record { state = r; transaction_depth = depth; queued = qs }

  start_rollback-suc :
      (z : State) (k : ℕ)
      → start_rollback server (conn z (suc k) [])
        ≡ conn z k (rollback_ansi_transaction_sql (suc k) ∷ [])
  unfolding start_rollback
  start_rollback-suc z k =
      rw (lt→ltb 0 (suc k) (omega arith))
        (ap (λ d. conn z d (rollback_ansi_transaction_sql (suc k) ∷ [])) (omega arith))

  refused :
      (r z : State) (k : ℕ) (e : Error)
      → exec (savepoint (suc k)) r ≡ (err e, z)
      → wait_until_ready server (conn r (suc k) (begin_ansi_transaction_sql (suc k) ∷ []))
        ≡ (err e, conn z (suc k) [])
  unfolding wait_until_ready answers
  refused r z k e h = rw (begin_ansi_transaction_sql-suc {D = D} k, h) refl

  -- Where the server refuses the savepoint of a transaction in another, the PostgreSQL driver queues
  -- the rollback of the other one and counts it as ended, though it is still in its user's hands; the
  -- MySQL driver leaves the other one as it is.
  pub begin-err :
      (r z : State) (k : ℕ) (e : Error)
      → exec (savepoint (suc k)) r ≡ (err e, z)
      → (pg_begin server none (conn r (suc k) [])
          ≡ (err e, conn z k (rollback_ansi_transaction_sql (suc k) ∷ [])))
        × (mysql_begin server none (conn r (suc k) []) ≡ (err e, conn z (suc k) []))
  unfolding pg_begin mysql_begin begin_statement wait_until_ready execute answers
  begin-err r z k e h = (
    ap
          (λ x.
            guarded server (
              ((λ c. x) >> check_begun server >> set_depth server (suc k + 1)) (conn r (suc k) [])))
          (refused r z k e h)
        ∙ ap (λ c. (err e, c)) (start_rollback-suc z k),
    rw (begin_ansi_transaction_sql-suc {D = D} k, h) refl,
  )
