-- ===== src/Sqlite/Worker.antt =====
-- sqlx-sqlite/src/connection/worker.rs: the commands of the worker thread that begin and end
-- transactions, where the caller may have given up before the reply. The database is the server of
-- Core.Transaction, and a caller that no longer waits is a reply that is not received.
pub mod Nesting
mod Tests
use sqlx.Base.{
  ℕ, ◌+◌, ◌-◌, Bool, true, false, not, ◌&&◌, Option, none, some, List, [], ◌∷◌, ltb, if◌then◌else◌,
  Outcome, ok, err, panic,
}
use sqlx.Core.Transaction.{
  Sql, other, Error, Server, is_ok, begin_statement, begin_ansi_transaction_sql,
  commit_ansi_transaction_sql, rollback_ansi_transaction_sql,
}

-- The `Bool` says whether the reply is received; the drop of a transaction rolls back with no one
-- to reply to.
pub data Command (D : Type 0) : Type 0 where
  begin : Option (Sql D) → Bool → Command D
  commit : Bool → Command D
  rollback : Option Bool → Command D

module _ {D : Type 0} (server : Server D) where
  open server use {State, exec}

  pub record Worker : Type 0 where
    pub state : State
    pub transaction_depth : ℕ
    pub ignore_next_start_rollback : Bool

  -- The statement, and the depth where it succeeds.
  abbrev pub run_at : Sql D → ℕ → Worker → Outcome Error (Unit {0}) × Worker
  run_at q depth w =
      let r = exec q w.state in
      (
        r.0,
        record w {
          state = r.1;
          transaction_depth = if is_ok r.0 then depth else w.transaction_depth;
        },
      )

  -- Whether the worker goes on, the reply, and the worker.
  abbrev pub Handled : Type 0
  Handled = Bool × Outcome Error (Unit {0}) × Worker

  -- A transaction that no one knows of is rolled back at once.
  abbrev pub undo : Bool → ℕ → Outcome Error (Unit {0}) × Worker → Handled
  unfolding rollback_ansi_transaction_sql
  undo false depth (res, w) = (true, res, w)
  undo true depth (res, w) =
      let r = run_at (rollback_ansi_transaction_sql (depth + 1)) (w.transaction_depth - 1) w in
      (is_ok r.0, res, r.1)

  abbrev pub begun_with : Outcome Error (Sql D) → Bool → Worker → Handled
  begun_with (err e) received w = (received, err e, w)
  begun_with panic received w = (false, panic, w)
  begun_with (ok q) received w =
      let r = run_at q (w.transaction_depth + 1) w in
      undo (is_ok r.0 && not received) w.transaction_depth r

  -- The next rollback that no one waits for is that of a transaction that has ended already.
  abbrev pub ignoring : Bool → Outcome Error (Unit {0}) × Worker → Handled
  ignoring received (res, w) = (
    true,
    res,
    if is_ok res && not received then record w { ignore_next_start_rollback = true } else w,
  )

  abbrev pub replied : Option Bool → Outcome Error (Unit {0}) × Worker → Handled
  replied none (res, w) = (true, res, w)
  replied (some received) r = ignoring received r

  abbrev is_none : Option Bool → Bool
  is_none none = true
  is_none (some b) = false

  pub handle : Command D → Worker → Handled
  unfolding commit_ansi_transaction_sql rollback_ansi_transaction_sql
  handle (begin statement received) w =
      begun_with (begin_statement server statement w.transaction_depth) received w
  handle (commit received) w = ignoring received (
      if ltb 0 w.transaction_depth
      then run_at (commit_ansi_transaction_sql w.transaction_depth) (w.transaction_depth - 1) w
      else (ok tt, w))
  handle (rollback tx) w =
      if w.ignore_next_start_rollback && is_none tx
      then (true, ok tt, record w { ignore_next_start_rollback = false })
      else replied tx (
          if ltb 0 w.transaction_depth
          then run_at (rollback_ansi_transaction_sql w.transaction_depth) (w.transaction_depth - 1)
              w
          else (ok tt, w))

-- What a caller does: an operation that it waits for, or one that it gives up, after which an
-- unfinished transaction is dropped.
pub data Event (D : Type 0) : Type 0 where
  begun begin_given_up : Event D
  committed rolled_back : Bool → Event D
  dropped : Event D

module _ {D : Type 0} (server : Server D) where
  -- The worker goes on, and a command follows.
  abbrev pub followed_by : Command D → Handled server → Bool × Worker server
  followed_by c (going, res, w) = let r = handle server c w in (going && r.0, r.2)

  abbrev pub last : Handled server → Bool × Worker server
  last (going, res, w) = (going, w)

  -- A transaction whose end is given up is dropped.
  pub serve : Event D → Worker server → Bool × Worker server
  unfolding handle
  serve begun w = last (handle server (begin none true) w)
  serve begin_given_up w = last (handle server (begin none false) w)
  serve (committed true) w = last (handle server (commit true) w)
  serve (committed false) w = followed_by (rollback none) (handle server (commit false) w)
  serve (rolled_back true) w = last (handle server (rollback (some true)) w)
  serve (rolled_back false) w =
      followed_by (rollback none) (handle server (rollback (some false)) w)
  serve dropped w = last (handle server (rollback none) w)

  abbrev pub going_on :
      Bool × Worker server → (Worker server → Bool × Worker server) → Bool × Worker server
  going_on (true, w) rest = rest w
  going_on (false, w) rest = (false, w)

  pub serve_all : List (Event D) → Worker server → Bool × Worker server
  unfolding serve
  serve_all [] w = (true, w)
  serve_all (e ∷ es) w = going_on (serve e w) (serve_all es)
