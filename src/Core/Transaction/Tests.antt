-- ===== src/Core/Transaction/Tests.antt =====
-- Runs of transactions on a server that does what its manual says, and on one that refuses.
use sqlx.Base.{ℕ, ◌+◌, ◌≡◌, refl, none, some, List, [], ◌∷◌, ok, err, true}
use sqlx.Core.Transaction.{
  database, Server, Conn, pg_begin, mysql_begin, transaction_commit, commit,
  rollback_ansi_transaction_sql,
}
use sqlx.Core.Transaction.Nesting.{
  postgres, mysql, Op, begin_op, commit_op, rollback_op, drop_op, update_op, apply_all, nested_op,
  nested_ops, run_ops, Refines,
}
use sqlx.Core.Transaction.Nesting.Steps.{run_ops-Refines}
use sqlx.Core.Transaction.Session.{Rules}
use sqlx.Core.Transaction.Dutiful.{dutiful, dutiful-Documented, mysql_rules, sql_rules}
use sqlx.Core.Transaction.Failure.{begin-err}

abbrev fresh : (rules : Rules) → Conn (dutiful rules)
fresh rules = record {
  state = record { current = 7; base = none; savepoints = [] };
  transaction_depth = 0;
  queued = [];
}

-- A transaction in a transaction is dropped, and another one rolled back; the outer one commits.
abbrev ops : List (Op ℕ)
ops =
    begin_op
    ∷ update_op (λ n. n + 1)
    ∷ begin_op
    ∷ update_op (λ n. n + 10)
    ∷ drop_op
    ∷ begin_op
    ∷ update_op (λ n. n + 100)
    ∷ rollback_op
    ∷ commit_op
    ∷ []

ops_now :
    nested_ops ops (record { data_now = 7; opened = [] }) ≡ record { data_now = 8; opened = [] }
unfolding nested_ops nested_op
ops_now = refl

settled :
    (rules : Rules)
    → apply_all rules (fresh rules).queued (fresh rules).state ≡ some (fresh rules).state
unfolding apply_all
settled rules = refl

run_ops-Refines_example :
    (e : Conn (dutiful mysql_rules)) × (run_ops (dutiful mysql_rules) mysql ops (fresh mysql_rules)
      ≡ (ok tt, e))
    × Refines
        (dutiful mysql_rules)
        (dutiful-Documented mysql_rules)
        e
        (nested_ops ops (record { data_now = 7; opened = [] }))
run_ops-Refines_example =
    run_ops-Refines (dutiful mysql_rules) (dutiful-Documented mysql_rules) mysql ops
      (fresh mysql_rules) (record { data_now = 7; opened = [] })
      ((fresh mysql_rules).state, settled mysql_rules, (refl, refl, refl, refl))

-- The same with the savepoints of PostgreSQL.
postgres_runs :
    (e : Conn (dutiful sql_rules)) × (run_ops (dutiful sql_rules) postgres ops (fresh sql_rules)
      ≡ (ok tt, e))
    × Refines
        (dutiful sql_rules)
        (dutiful-Documented sql_rules)
        e
        (nested_ops ops (record { data_now = 7; opened = [] }))
postgres_runs =
    run_ops-Refines (dutiful sql_rules) (dutiful-Documented sql_rules) postgres ops
      (fresh sql_rules) (record { data_now = 7; opened = [] })
      ((fresh sql_rules).state, settled sql_rules, (refl, refl, refl, refl))

-- A server that refuses every statement.
abbrev refusing : Server ℕ
refusing = record { State = ℕ; exec = λ q s. (err database, s); in_transaction = λ s. true }

abbrev in_one : Conn refusing
in_one = record { state = 7; transaction_depth = 1; queued = [] }

begin-err_example :
    (pg_begin refusing none in_one ≡ (
      err database,
      record { state = 7; transaction_depth = 0; queued = rollback_ansi_transaction_sql 1 ∷ [] },
    ))
    × (mysql_begin refusing none in_one ≡ (err database, in_one))
begin-err_example = begin-err refusing 7 7 0 database refl

-- The commit of the other transaction then ends well, and nothing is committed.
commit_after_refusal :
    transaction_commit refusing
      (record { state = 7; transaction_depth = 0; queued = rollback_ansi_transaction_sql 1 ∷ [] })
    ≡ (
      ok tt,
      record { state = 7; transaction_depth = 0; queued = rollback_ansi_transaction_sql 1 ∷ [] },
    )
unfolding transaction_commit commit
commit_after_refusal = refl
