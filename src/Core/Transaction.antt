-- ===== src/Core/Transaction.antt =====
-- sqlx-core/src/transaction.rs, sqlx-postgres/src/transaction.rs and sqlx-mysql/src/transaction.rs:
-- transactions, and savepoints inside them. An SQL text is modelled by what it says, a number in it
-- by the number. The server is a parameter, of which is assumed that it runs the statements that its
-- manual says it accepts; the queries that are queued are taken to fit the protocol.
pub mod Session
pub mod Savepoints
pub mod Nesting
pub mod Failure
pub mod Dutiful
mod Tests
use sqlx.Base.{
  ℕ, suc, ◌+◌, ◌-◌, ◌≡◌, Bool, true, false, not, Option, none, some, List, [], ◌∷◌, ◌++◌, ◌==◌, ltb,
  if◌then◌else◌, Outcome, ok, err, panic,
}
use sqlx.Base.Runs.{Exec, resume, ◌>>=◌, ◌>>◌, return}

pub data Sql (D : Type 0) : Type 0 where
  -- "BEGIN", "COMMIT" and "ROLLBACK".
  begin_transaction commit_transaction rollback_transaction : Sql D
  -- "SAVEPOINT _sqlx_savepoint_{n}", "RELEASE SAVEPOINT …" and "ROLLBACK TO SAVEPOINT …".
  savepoint release rollback_to : ℕ → Sql D
  -- Any other statement that the server accepts and that ends no transaction, by what it does to the
  -- data.
  other : (D → D) → Sql D

pub data Error : Type 0 where
  invalid_save_point_statement begin_failed database : Error

module _ {D : Type 0} where
  unfoldable pub begin_ansi_transaction_sql : ℕ → Sql D
  begin_ansi_transaction_sql depth = if depth == 0 then begin_transaction else savepoint depth

  unfoldable pub commit_ansi_transaction_sql : ℕ → Sql D
  commit_ansi_transaction_sql depth = if depth == 1 then commit_transaction else release (depth - 1)

  unfoldable pub rollback_ansi_transaction_sql : ℕ → Sql D
  rollback_ansi_transaction_sql depth =
      if depth == 1 then rollback_transaction else rollback_to (depth - 1)

-- What a server does with a statement, and whether the status that it reports is that of an open
-- transaction.
pub record Server (D : Type 0) : Type 1 where
  pub State : Type 0
  pub exec : Sql D → Exec Error State (Unit {0})
  pub in_transaction : State → Bool

abbrev pub is_ok : Outcome Error (Unit {0}) → Bool
is_ok (ok u) = true
is_ok (err e) = false
is_ok panic = false

module _ {D : Type 0} (server : Server D) where
  open server use {State, exec, in_transaction}

  -- The statements that are sent and not answered yet wait in `queued`.
  pub record Conn : Type 0 where
    pub state : State
    pub transaction_depth : ℕ
    pub queued : List (Sql D)

  abbrev pub answered :
      Outcome Error (Unit {0}) × State
      → List (Sql D)
      → (State → Outcome Error (Unit {0}) × State × List (Sql D))
      → Outcome Error (Unit {0}) × State × List (Sql D)
  answered (ok u, s) qs rest = rest s
  answered (err e, s) qs rest = (err e, s, qs)
  answered (panic, s) qs rest = (panic, s, qs)

  -- The first error ends the wait; what is behind it stays unanswered.
  unfoldable pub answers : List (Sql D) → State → Outcome Error (Unit {0}) × State × List (Sql D)
  answers [] s = (ok tt, s, [])
  answers (q ∷ qs) s = answered (exec q s) qs (answers qs)

  unfoldable pub wait_until_ready : Exec Error Conn (Unit {0})
  unfolding answers
  wait_until_ready c =
      let r = answers c.queued c.state in (r.0, record c { state = r.1; queued = r.2 })

  abbrev pub queue_simple_query : Sql D → Conn → Conn
  queue_simple_query q c = record c { queued = c.queued ++ q ∷ [] }

  abbrev pub run_query : Sql D → Exec Error Conn (Unit {0})
  run_query q c = let r = exec q c.state in (r.0, record c { state = r.1 })

  unfoldable pub execute : Sql D → Exec Error Conn (Unit {0})
  unfolding wait_until_ready
  execute q = wait_until_ready >> run_query q

  abbrev pub set_depth : ℕ → Exec Error Conn (Unit {0})
  set_depth n c = (ok tt, record c { transaction_depth = n })

  -- `BeginFailed`, where the server reports no transaction.
  abbrev pub check_begun : Exec Error Conn (Unit {0})
  check_begun c = if in_transaction c.state then (ok tt, c) else (err begin_failed, c)

  unfoldable pub commit : Exec Error Conn (Unit {0})
  unfolding execute commit_ansi_transaction_sql
  commit c =
      if ltb 0 c.transaction_depth
      then (execute (commit_ansi_transaction_sql c.transaction_depth)
            >> set_depth (c.transaction_depth - 1))
          c
      else (ok tt, c)

  unfoldable pub rollback : Exec Error Conn (Unit {0})
  unfolding execute rollback_ansi_transaction_sql
  rollback c =
      if ltb 0 c.transaction_depth
      then (execute (rollback_ansi_transaction_sql c.transaction_depth)
            >> set_depth (c.transaction_depth - 1))
          c
      else (ok tt, c)

  unfoldable pub start_rollback : Conn → Conn
  unfolding rollback_ansi_transaction_sql
  start_rollback c =
      if ltb 0 c.transaction_depth
      then record (queue_simple_query (rollback_ansi_transaction_sql c.transaction_depth) c) {
        transaction_depth = c.transaction_depth - 1;
      }
      else c

  unfoldable pub begin_statement : Option (Sql D) → ℕ → Outcome Error (Sql D)
  unfolding begin_ansi_transaction_sql
  begin_statement (some q) depth = if ltb 0 depth then err invalid_save_point_statement else ok q
  begin_statement none depth = ok (begin_ansi_transaction_sql depth)

  -- The drop of PostgreSQL's `Rollback`, which is defused at the end.
  abbrev pub guarded : Outcome Error (Unit {0}) × Conn → Outcome Error (Unit {0}) × Conn
  unfolding start_rollback
  guarded (r, c) = (r, if is_ok r then c else start_rollback c)

  unfoldable pub pg_begin : Option (Sql D) → Exec Error Conn (Unit {0})
  unfolding start_rollback wait_until_ready begin_statement
  pg_begin statement c =
      resume
        (λ q conn. guarded (
          (wait_until_ready >> check_begun >> set_depth (conn.transaction_depth + 1))
            (queue_simple_query q conn)))
        (begin_statement statement c.transaction_depth) c

  unfoldable pub mysql_begin : Option (Sql D) → Exec Error Conn (Unit {0})
  unfolding execute begin_statement
  mysql_begin statement c =
      resume (λ q. execute q >> check_begun >> set_depth (c.transaction_depth + 1))
        (begin_statement statement c.transaction_depth) c

  -- The drop of a `Transaction`.
  abbrev pub drop_transaction : Bool → Conn → Conn
  unfolding start_rollback
  drop_transaction open_ c = if open_ then start_rollback c else c

  -- `Transaction::commit` and `Transaction::rollback`, which drop the transaction at their end.
  unfoldable pub transaction_commit : Exec Error Conn (Unit {0})
  unfolding commit start_rollback
  transaction_commit c = let r = commit c in (r.0, drop_transaction (not (is_ok r.0)) r.1)

  unfoldable pub transaction_rollback : Exec Error Conn (Unit {0})
  unfolding rollback start_rollback
  transaction_rollback c = let r = rollback c in (r.0, drop_transaction (not (is_ok r.0)) r.1)
