-- ===== src/Sqlite/Worker/Nesting.antt =====
-- sqlx-sqlite/src/connection/worker.rs: callers that give up leave no transaction behind.
use sqlx.Base.{
  ℕ, zero, suc, ◌+◌, ◌-◌, ◌≡◌, refl, ap, subst, ◌∙◌, Bool, true, false, not, ◌&&◌, Option, none,
  some, List, [], ◌∷◌, ok, arith, lt→ltb,
}
use sqlx.Core.Transaction.{
  Sql, Server, is_ok, begin_statement, begin_ansi_transaction_sql, commit_ansi_transaction_sql,
  rollback_ansi_transaction_sql,
}
use sqlx.Core.Transaction.Session.{
  Session, Nested, apply, nested_begin, nested_commit, nested_rollback,
}
use sqlx.Core.Transaction.Savepoints.{Tracks, begin-Tracks, commit-Tracks, rollback-Tracks}
use sqlx.Core.Transaction.Nesting.{Documented}
use sqlx.Core.Transaction.Nesting.Queued.{closed, commit-outside, rollback-outside}
use sqlx.Sqlite.Worker.{
  commit, rollback, Worker, run_at, ignoring, replied, undo, ignoring, replied, undo, handle, Event,
  begun, begin_given_up, committed, rolled_back, dropped, followed_by, last, serve, serve_all,
  going_on,
}

module _ {D : Type 0} where
  -- A transaction that is committed or rolled back is so whether or not its caller waits.
  pub nested_event : Event D → Nested D → Nested D
  unfolding nested_begin nested_commit nested_rollback
  nested_event begun n = nested_begin n
  nested_event begin_given_up n = n
  nested_event (committed b) n = nested_commit n
  nested_event (rolled_back b) n = nested_rollback n
  nested_event dropped n = nested_rollback n

  pub nested_events : List (Event D) → Nested D → Nested D
  nested_events [] n = n
  nested_events (e ∷ es) n = nested_events es (nested_event e n)

module _ {D : Type 0} (server : Server D) (manual : Documented server) where
  open server use {State, exec}
  open manual use {view, accepts, rules}

  abbrev worker : State → ℕ → Bool → Worker server
  worker r depth ignore = record {
    state = r;
    transaction_depth = depth;
    ignore_next_start_rollback = ignore;
  }

  -- The database holds the data of transactions that nest, and no rollback is to be ignored.
  abbrev pub Refines : Worker server → Nested D → Type 0
  Refines w n = (w.ignore_next_start_rollback ≡ false) × Tracks w.transaction_depth (view w.state) n

  run_at_lem :
      (q : Sql D) (depth : ℕ) (w : Worker server) (t : Session D) (n : Nested D)
      → apply rules q (view w.state) ≡ some t
      → Tracks depth t n
      → (r : State) × (run_at server q depth w
          ≡ (ok tt, worker r depth w.ignore_next_start_rollback))
        × Tracks depth (view r) n
  run_at_lem q depth w t n step after =
      let (r, run, now) = accepts q w.state t step in (r, rw run refl, rw now after)

  ignoring-ok :
      (received : Bool) (z : State) (d : ℕ)
      → ignoring server received (ok tt, worker z d false)
        ≡ (true, ok tt, worker z d (not received))
  ignoring-ok true z d = refl
  ignoring-ok false z d = refl

  -- The end of a transaction, at any depth and with or without a reply.
  commit_lem :
      (received : Bool) (r : State) (depth : ℕ) (n : Nested D)
      → Tracks depth (view r) n
      → (z : State) × (d : ℕ) × (handle server (commit received) (worker r depth false)
          ≡ (true, ok tt, worker z d (not received)))
        × Tracks d (view z) (nested_commit n)
  unfolding handle
  commit_lem received r zero n h = (r, 0, ignoring-ok received r 0, commit-outside (view r) n h)
  commit_lem received r (suc k) n h =
      let (u, step, after) = commit-Tracks rules k (view r) n h in
      let (z, run, tracks) =
        run_at_lem (commit_ansi_transaction_sql (suc k)) (suc k - 1) (worker r (suc k) false) u
          (nested_commit n) step (closed k u (nested_commit n) after) in
      (
        z,
        suc k - 1,
        rw (lt→ltb 0 (suc k) (omega arith))
            (ap (ignoring server received) run ∙ ignoring-ok received z (suc k - 1)),
        tracks,
      )

  rollback_lem :
      (tx : Option Bool) (r : State) (depth : ℕ) (n : Nested D)
      → Tracks depth (view r) n
      → (z : State) × (d : ℕ) × (handle server (rollback tx) (worker r depth false)
          ≡ replied server tx (ok tt, worker z d false))
        × Tracks d (view z) (nested_rollback n)
  unfolding handle
  rollback_lem tx r zero n h = (r, 0, refl, rollback-outside (view r) n h)
  rollback_lem tx r (suc k) n h =
      let (u, step, after) = rollback-Tracks rules k (view r) n h in
      let (z, run, tracks) =
        run_at_lem (rollback_ansi_transaction_sql (suc k)) (suc k - 1) (worker r (suc k) false) u
          (nested_rollback n) step (closed k u (nested_rollback n) after) in
      (z, suc k - 1, rw (lt→ltb 0 (suc k) (omega arith)) (ap (replied server tx) run), tracks)

  ignored_lem :
      (z : State) (d : ℕ)
      → handle server (rollback none) (worker z d true) ≡ (true, ok tt, worker z d false)
  unfolding handle
  ignored_lem z d = refl

  begun_at :
      (r : State) (depth : ℕ) (n : Nested D)
      → Tracks depth (view r) n
      → (z : State) × (run_at server
            (begin_ansi_transaction_sql depth)
            (depth + 1)
            (worker r depth false)
          ≡ (ok tt, worker z (depth + 1) false))
        × Tracks (depth + 1) (view z) (nested_begin n)
  begun_at r depth n h =
      let (u, step, after) = begin-Tracks rules depth (view r) n h in
      run_at_lem (begin_ansi_transaction_sql depth) (depth + 1) (worker r depth false) u
        (nested_begin n) step
        (subst (λ d. Tracks d u (nested_begin n)) {x = suc depth} (omega arith) after)

  undone_at :
      (z : State) (depth : ℕ) (n : Nested D)
      → Tracks (depth + 1) (view z) (nested_begin n)
      → (y : State) × (run_at server
            (rollback_ansi_transaction_sql (depth + 1))
            (depth + 1 - 1)
            (worker z (depth + 1) false)
          ≡ (ok tt, worker y (depth + 1 - 1) false))
        × Tracks (depth + 1 - 1) (view y) n
  unfolding nested_rollback nested_begin
  undone_at z depth n h =
      let h' = subst (λ d. Tracks d (view z) (nested_begin n)) {y = suc depth} (omega arith) h in
      let (u, step, after) = rollback-Tracks rules depth (view z) (nested_begin n) h' in
      run_at_lem (rollback_ansi_transaction_sql (depth + 1)) (depth + 1 - 1)
        (worker z (depth + 1) false) u n
        (subst (λ d. apply rules (rollback_ansi_transaction_sql d) (view z) ≡ some u)
          {x = suc depth} (omega arith) step)
        (subst (λ d. Tracks d u n) {x = depth} (omega arith) after)

  serve_lem :
      (e : Event D) (r : State) (depth : ℕ) (n : Nested D)
      → Tracks depth (view r) n
      → (z : State) × (d : ℕ) × (serve server e (worker r depth false) ≡ (true, worker z d false))
        × Tracks d (view z) (nested_event e n)
  unfolding serve nested_event begin_statement
  serve_lem begun r depth n h =
      let (z, run, tracks) = begun_at r depth n h in
      (z, depth + 1, ap (λ x. last server (undo server (is_ok x.0 && false) depth x)) run, tracks)
  serve_lem begin_given_up r depth n h =
      let (z, run, open_) = begun_at r depth n h in
      let (y, back, tracks) = undone_at z depth n open_ in
      (
        y,
        depth + 1 - 1,
        ap (λ x. last server (undo server (is_ok x.0 && true) depth x)) run
            ∙ ap (λ x. (is_ok x.0, x.1)) back,
        tracks,
      )
  serve_lem (committed true) r depth n h =
      let (z, d, run, tracks) = commit_lem true r depth n h in (z, d, ap (last server) run, tracks)
  serve_lem (committed false) r depth n h =
      let (z, d, run, tracks) = commit_lem false r depth n h in
      (
        z,
        d,
        ap (followed_by server (rollback none)) run ∙ ap (last server) (ignored_lem z d),
        tracks,
      )
  serve_lem (rolled_back true) r depth n h =
      let (z, d, run, tracks) = rollback_lem (some true) r depth n h in
      (z, d, ap (last server) run, tracks)
  serve_lem (rolled_back false) r depth n h =
      let (z, d, run, tracks) = rollback_lem (some false) r depth n h in
      (
        z,
        d,
        ap (followed_by server (rollback none)) run ∙ ap (last server) (ignored_lem z d),
        tracks,
      )
  serve_lem dropped r depth n h =
      let (z, d, run, tracks) = rollback_lem none r depth n h in
      (z, d, ap (last server) run, tracks)

  -- On a database that does what its manual says, the worker goes on after every sequence of
  -- beginnings, commits, rollbacks and drops, of which callers may give up any, and its database
  -- holds the data and the open transactions of those that were begun and not given up.
  pub serve_all-Refines :
      (es : List (Event D)) (w : Worker server) (n : Nested D)
      → Refines w n
      → (z : Worker server) × (serve_all server es w ≡ (true, z)) × Refines z (nested_events es n)
  unfolding serve_all nested_events
  serve_all-Refines [] w n h = (w, refl, h)
  serve_all-Refines (e ∷ es) w n (heeds, h) =
      let (y, d, run, tracks) = serve_lem e w.state w.transaction_depth n h in
      let (z, rest, after) =
        serve_all-Refines es (worker y d false) (nested_event e n) (refl, tracks) in
      (
        z,
        ap
              (λ b.
                going_on server (serve server e (worker w.state w.transaction_depth b))
                  (serve_all server es))
              heeds
            ∙ ap (λ x. going_on server x (serve_all server es)) run
            ∙ rest,
        after,
      )
