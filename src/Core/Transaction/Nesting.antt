-- ===== src/Core/Transaction/Nesting.antt =====
-- Transactions of sqlx-core/src/transaction.rs as the drivers run them on a server, and transactions
-- that nest.
pub mod Queued
pub mod Steps
use sqlx.Base.{
  ℕ, zero, suc, ◌+◌, ◌-◌, ◌≡◌, refl, sym, ap, subst, ◌∙◌, Bool, true, false, Option, none, some,
  List, [], ◌∷◌, ◌++◌, Outcome, ok, arith, lt→ltb, Option-cases, inl, inr,
}
use sqlx.Base.Runs.{Exec, ◌>>◌, return, >>=-ok}
use sqlx.Core.Transaction.{
  Sql, other, Error, Server, Conn, answers, wait_until_ready, execute, commit, rollback,
  start_rollback, begin_statement, pg_begin, mysql_begin, drop_transaction, transaction_commit,
  transaction_rollback, queue_simple_query, run_query, set_depth, check_begun, guarded,
  begin_ansi_transaction_sql, commit_ansi_transaction_sql, rollback_ansi_transaction_sql,
}
use sqlx.Core.Transaction.Session.{
  Session, Rules, Nested, apply, is_open, nested_begin, nested_commit, nested_rollback,
  nested_update,
}
use sqlx.Core.Transaction.Savepoints.{
  Tracks, begin-Tracks, commit-Tracks, rollback-Tracks, update-Tracks,
}

pub data Driver : Type 0 where
  postgres mysql : Driver

-- What a user does with a connection and its transactions; `drop` is that of an open transaction.
pub data Op (D : Type 0) : Type 0 where
  begin_op commit_op rollback_op drop_op : Op D
  update_op : (D → D) → Op D

module _ {D : Type 0} where
  unfoldable pub nested_op : Op D → Nested D → Nested D
  unfolding nested_begin nested_commit nested_rollback nested_update
  nested_op begin_op n = nested_begin n
  nested_op commit_op n = nested_commit n
  nested_op rollback_op n = nested_rollback n
  nested_op drop_op n = nested_rollback n
  nested_op (update_op f) n = nested_update f n

  unfoldable pub nested_ops : List (Op D) → Nested D → Nested D
  nested_ops [] n = n
  nested_ops (o ∷ os) n = nested_ops os (nested_op o n)

  abbrev pub and_then : Option (Session D) → (Session D → Option (Session D)) → Option (Session D)
  and_then none k = none
  and_then (some s) k = k s

  unfoldable pub apply_all : Rules → List (Sql D) → Session D → Option (Session D)
  apply_all rules [] s = some s
  apply_all rules (q ∷ qs) s = and_then (apply rules q s) (apply_all rules qs)

module _ {D : Type 0} (server : Server D) where
  open server use {State, exec, in_transaction}

  pub begin_with : Driver → Option (Sql D) → Exec Error (Conn server) (Unit {0})
  begin_with postgres = pg_begin server
  begin_with mysql = mysql_begin server

  pub run_op : Driver → Op D → Exec Error (Conn server) (Unit {0})
  run_op d begin_op = begin_with d none
  run_op d commit_op = transaction_commit server
  run_op d rollback_op = transaction_rollback server
  run_op d drop_op = λ c. (ok tt, drop_transaction server true c)
  run_op d (update_op f) = execute server (other f)

  pub run_ops : Driver → List (Op D) → Exec Error (Conn server) (Unit {0})
  run_ops d [] = return tt
  run_ops d (o ∷ os) = run_op d o >> run_ops d os

  -- What is assumed of the server: it has the session that its manual speaks of, runs what is
  -- accepted in it, and reports whether a transaction is open in it.
  pub record Documented : Type 0 where
    pub view : State → Session D
    pub rules : Rules
    pub accepts :
        (q : Sql D) (s : State) (t : Session D)
        → apply rules q (view s) ≡ some t
        → (r : State) × (exec q s ≡ (ok tt, r)) × (view r ≡ t)
    pub reports : (s : State) → in_transaction s ≡ is_open (view s)

  module _ (manual : Documented) where
    open manual use {view, rules}

    -- Once the server has answered what is queued, it holds the data of transactions that nest.
    abbrev pub Refines : Conn server → Nested D → Type 0
    Refines c n =
        (t : Session D) × (apply_all rules c.queued (view c.state) ≡ some t)
        × Tracks c.transaction_depth t n
