-- ===== src/Core/Transaction/Nesting/Steps.antt =====
-- The operations of sqlx-core/src/transaction.rs and of the drivers, one by one and in sequence, do
-- what transactions that nest do.
use sqlx.Base.{
  ℕ, zero, suc, ◌+◌, ◌-◌, ◌≡◌, refl, ap, ◌∙◌, true, none, some, List, [], ◌∷◌, ◌++◌, ok, arith,
  lt→ltb,
}
use sqlx.Base.Runs.{Exec, ◌>>◌, >>=-ok}
use sqlx.Core.Transaction.{
  Sql, other, Error, Server, Conn, answers, wait_until_ready, execute, commit, rollback,
  start_rollback, begin_statement, pg_begin, mysql_begin, transaction_commit, transaction_rollback,
  run_query, set_depth, check_begun, guarded, begin_ansi_transaction_sql,
  commit_ansi_transaction_sql, rollback_ansi_transaction_sql,
}
use sqlx.Core.Transaction.Session.{
  Session, Nested, apply, nested_begin, nested_commit, nested_rollback, nested_update,
}
use sqlx.Core.Transaction.Savepoints.{
  Tracks, begin-Tracks, commit-Tracks, rollback-Tracks, update-Tracks,
}
use sqlx.Core.Transaction.Nesting.{
  Driver, postgres, mysql, Op, begin_op, commit_op, rollback_op, drop_op, update_op, nested_op,
  nested_ops, apply_all, begin_with, run_op, run_ops, Documented, Refines,
}
use sqlx.Core.Transaction.Nesting.Queued.{
  closed, commit-outside, rollback-outside, and_then-some, apply_all-snoc,
}

module _ {D : Type 0} (server : Server D) (manual : Documented server) where
  open server use {State, exec, in_transaction}
  open manual use {view, accepts, reports, rules}

  answers_lem :
      (qs : List (Sql D)) (s : State) (t : Session D)
      → apply_all rules qs (view s) ≡ some t
      → (r : State) × (answers server qs s ≡ (ok tt, r, [])) × (view r ≡ t)
  unfolding answers apply_all
  answers_lem [] s t h = (s, refl, cc)
  answers_lem (q ∷ qs) s t h =
      let (u, first, rest) = and_then-some (apply rules q (view s)) (apply_all rules qs) t h in
      let (r, run, now) = accepts q s u first in
      let (z, all, last) = answers_lem qs r t (rw now rest) in (z, rw (run, all) refl, last)

  wait_until_ready_lem :
      (c : Conn server) (t : Session D)
      → apply_all rules c.queued (view c.state) ≡ some t
      → (r : State) × (wait_until_ready server c ≡ (ok tt, record c { state = r; queued = [] }))
        × (view r ≡ t)
  unfolding wait_until_ready
  wait_until_ready_lem c t h =
      let (r, all, last) = answers_lem c.queued c.state t h in (r, rw all refl, last)

  execute_lem :
      (q : Sql D) (c : Conn server) (t u : Session D)
      → apply_all rules c.queued (view c.state) ≡ some t
      → apply rules q t ≡ some u
      → (r : State) × (execute server q c ≡ (ok tt, record c { state = r; queued = [] }))
        × (view r ≡ u)
  unfolding execute
  execute_lem q c t u h step =
      let (r, all, last) = wait_until_ready_lem c t h in
      let (z, run, now) = accepts q r u (rw last step) in
      (
        z,
        >>=-ok (wait_until_ready server) (λ _. run_query server q) c tt
              (record c { state = r; queued = [] }) all
            ∙ rw run refl,
        now,
      )

  -- Where `execute` ends well and the depth is set, the connection refines what the session does.
  settled :
      (r : State) (depth : ℕ) (u : Session D) (n : Nested D)
      → view r ≡ u
      → Tracks depth u n
      → Refines server manual (record { state = r; transaction_depth = depth; queued = [] }) n
  unfolding apply_all
  settled r depth u n e h = (u, ap some e, h)

  -- What `commit` and `rollback` do where the statement of the depth is accepted.
  closes :
      (q : Sql D) (depth : ℕ) (c : Conn server) (t u : Session D) (n : Nested D)
      → apply_all rules c.queued (view c.state) ≡ some t
      → apply rules q t ≡ some u
      → Tracks depth u n
      → (d : Conn server) × ((execute server q >> set_depth server depth) c ≡ (ok tt, d))
        × Refines server manual d n
  closes q depth c t u n h step after =
      let (r, run, now) = execute_lem q c t u h step in
      (
        record { state = r; transaction_depth = depth; queued = [] },
        >>=-ok (execute server q) (λ _. set_depth server depth) c tt
            (record c { state = r; queued = [] }) run,
        settled r depth u n now after,
      )

  abbrev conn : State → ℕ → List (Sql D) → Conn server
  conn r depth qs = record { state = r; transaction_depth = depth; queued = qs }

  commit_lem :
      (r : State) (depth : ℕ) (qs : List (Sql D)) (n : Nested D)
      → Refines server manual (conn r depth qs) n
      → (d : Conn server) × (commit server (conn r depth qs) ≡ (ok tt, d))
        × Refines server manual d (nested_commit n)
  unfolding commit
  commit_lem r zero qs n (t, h, tracks) = (conn r 0 qs, refl, (t, h, commit-outside t n tracks))
  commit_lem r (suc k) qs n (t, h, tracks) =
      let (u, step, after) = commit-Tracks rules k t n tracks in
      rw (lt→ltb 0 (suc k) (omega arith)) (
        closes (commit_ansi_transaction_sql (suc k)) (suc k - 1) (conn r (suc k) qs) t u
          (nested_commit n) h step (closed k u (nested_commit n) after))

  rollback_lem :
      (r : State) (depth : ℕ) (qs : List (Sql D)) (n : Nested D)
      → Refines server manual (conn r depth qs) n
      → (d : Conn server) × (rollback server (conn r depth qs) ≡ (ok tt, d))
        × Refines server manual d (nested_rollback n)
  unfolding rollback
  rollback_lem r zero qs n (t, h, tracks) = (conn r 0 qs, refl, (t, h, rollback-outside t n tracks))
  rollback_lem r (suc k) qs n (t, h, tracks) =
      let (u, step, after) = rollback-Tracks rules k t n tracks in
      rw (lt→ltb 0 (suc k) (omega arith)) (
        closes (rollback_ansi_transaction_sql (suc k)) (suc k - 1) (conn r (suc k) qs) t u
          (nested_rollback n) h step (closed k u (nested_rollback n) after))

  start_rollback_lem :
      (r : State) (depth : ℕ) (qs : List (Sql D)) (n : Nested D)
      → Refines server manual (conn r depth qs) n
      → Refines server manual (start_rollback server (conn r depth qs)) (nested_rollback n)
  unfolding start_rollback
  start_rollback_lem r zero qs n (t, h, tracks) = (t, h, rollback-outside t n tracks)
  start_rollback_lem r (suc k) qs n (t, h, tracks) =
      let (u, step, after) = rollback-Tracks rules k t n tracks in
      let sent = apply_all-snoc rules qs (rollback_ansi_transaction_sql (suc k)) (view r) t h in
      rw (lt→ltb 0 (suc k) (omega arith)) (u, sent ∙ step, closed k u (nested_rollback n) after)

  checked :
      (r : State) (depth : ℕ) (u : Session D) (n : Nested D)
      → view r ≡ u
      → Tracks (suc depth) u n
      → in_transaction r ≡ true
  checked r depth u n e (b, base, now, after) = reports r ∙ rw (e, base) refl

  checks :
      (m : Exec Error (Conn server) (Unit {0})) (c : Conn server) (z : State) (depth : ℕ)
      → m c ≡ (ok tt, conn z depth [])
      → in_transaction z ≡ true
      → (m >> check_begun server >> set_depth server (depth + 1)) c ≡ (ok tt, conn z (suc depth) [])
  checks m c z depth run open_ =
      >>=-ok (m >> check_begun server) (λ _. set_depth server (depth + 1)) c tt (conn z depth [])
        (>>=-ok m (λ _. check_begun server) c tt (conn z depth []) run ∙ rw open_ refl)
      ∙ ap (λ k. (ok tt, conn z k [])) (omega arith)

  begin_with_lem :
      (d : Driver) (r : State) (depth : ℕ) (qs : List (Sql D)) (n : Nested D)
      → Refines server manual (conn r depth qs) n
      → (e : Conn server) × (begin_with server d none (conn r depth qs) ≡ (ok tt, e))
        × Refines server manual e (nested_begin n)
  unfolding begin_with pg_begin mysql_begin begin_statement
  begin_with_lem postgres r depth qs n (t, h, tracks) =
      let (u, step, after) = begin-Tracks rules depth t n tracks in
      let sent = apply_all-snoc rules qs (begin_ansi_transaction_sql depth) (view r) t h in
      let (z, run, now) =
        wait_until_ready_lem (conn r depth (qs ++ begin_ansi_transaction_sql depth ∷ [])) u
          (sent ∙ step) in
      let open_ = checked z depth u (nested_begin n) now after in
      (
        conn z (suc depth) [],
        ap (guarded server) (
            checks (wait_until_ready server)
              (conn r depth (qs ++ begin_ansi_transaction_sql depth ∷ [])) z depth run open_),
        settled z (suc depth) u (nested_begin n) now after,
      )
  begin_with_lem mysql r depth qs n (t, h, tracks) =
      let (u, step, after) = begin-Tracks rules depth t n tracks in
      let (z, run, now) =
        execute_lem (begin_ansi_transaction_sql depth) (conn r depth qs) t u h step in
      let open_ = checked z depth u (nested_begin n) now after in
      (
        conn z (suc depth) [],
        checks (execute server (begin_ansi_transaction_sql depth)) (conn r depth qs) z depth run
            open_,
        settled z (suc depth) u (nested_begin n) now after,
      )

  run_op_lem :
      (d : Driver) (o : Op D) (r : State) (depth : ℕ) (qs : List (Sql D)) (n : Nested D)
      → Refines server manual (conn r depth qs) n
      → (e : Conn server) × (run_op server d o (conn r depth qs) ≡ (ok tt, e))
        × Refines server manual e (nested_op o n)
  unfolding run_op nested_op transaction_commit transaction_rollback nested_update
  run_op_lem d begin_op r depth qs n h = begin_with_lem d r depth qs n h
  run_op_lem d commit_op r depth qs n h =
      let (e, run, after) = commit_lem r depth qs n h in (e, rw run refl, after)
  run_op_lem d rollback_op r depth qs n h =
      let (e, run, after) = rollback_lem r depth qs n h in (e, rw run refl, after)
  run_op_lem d drop_op r depth qs n h =
      (start_rollback server (conn r depth qs), refl, start_rollback_lem r depth qs n h)
  run_op_lem d (update_op f) r depth qs n (t, h, tracks) =
      let (u, step, after) = update-Tracks rules f depth t n tracks in
      let (z, run, now) = execute_lem (other f) (conn r depth qs) t u h step in
      (conn z depth [], run, settled z depth u (nested_update f n) now after)

  -- On a server that does what its manual says, where a savepoint either hides an older one of its
  -- name, as in PostgreSQL, or replaces it, as in MySQL, and a release takes the later savepoints
  -- along or leaves them, every sequence of beginnings, commits, rollbacks, drops and other
  -- statements that the server accepts runs to its end with no error, for either driver, and leaves
  -- the data and the number of open transactions that transactions that nest have after it.
  pub run_ops-Refines :
      (d : Driver) (os : List (Op D)) (c : Conn server) (n : Nested D)
      → Refines server manual c n
      → (e : Conn server) × (run_ops server d os c ≡ (ok tt, e))
        × Refines server manual e (nested_ops os n)
  unfolding run_ops nested_ops
  run_ops-Refines d [] c n h = (c, refl, h)
  run_ops-Refines d (o ∷ os) c n h =
      let (e, run, after) = run_op_lem d o c.state c.transaction_depth c.queued n h in
      let (z, rest, last) = run_ops-Refines d os e (nested_op o n) after in
      (z, >>=-ok (run_op server d o) (λ _. run_ops server d os) c tt e run ∙ rest, last)
