-- ===== src/Core/Transaction/Savepoints.antt =====
-- The statements of sqlx-core/src/transaction.rs on the savepoints of a session.
use sqlx.Base.{
  ℕ, zero, suc, ◌<◌, ◌≡◌, refl, sym, ap, subst, Bool, true, false, Bool-cases, inl, inr, none, some,
  List, [], ◌∷◌, ◌==◌, arith,
}
use sqlx.Base.Eq.{eq_refl, nat_eq}
use sqlx.Core.Transaction.{
  savepoint, release, rollback_to, other, begin_ansi_transaction_sql, commit_ansi_transaction_sql,
  rollback_ansi_transaction_sql,
}
use sqlx.Core.Transaction.Session.{
  Session, Rules, since, without, older, without_latest, after_release, apply, Nested, nested_begin,
  nested_commit, nested_rollback, nested_update,
}

neq : {k m : ℕ} → k < m → (m == k) ≡ false
neq {k} {m} h = ground arith

lt_ne : {k m : ℕ} → k < m → (k == m) ≡ false
lt_ne {k} {m} h = ground arith

module _ {D : Type 0} where
  -- The savepoints `k` to 1 with their data, among leftovers of those that were rolled back: one
  -- that lies on the savepoints of depth `k` has a higher number. `b` is the data before all.
  pub data Saved (b : D) : ℕ → List (ℕ × D) → List D → Type 0 where
    nothing : Saved b zero [] (b ∷ [])
    leftover :
        {k : ℕ} {sp : List (ℕ × D)} {xs : List D} (m : ℕ) (x : D)
        → k < m
        → Saved b k sp xs
        → Saved b k ((m, x) ∷ sp) xs
    saved :
        {k : ℕ} {sp : List (ℕ × D)} {xs : List D} (x : D)
        → Saved b k sp xs
        → Saved b (suc k) ((suc k, x) ∷ sp) (x ∷ xs)

  -- A session, seen as transactions that nest to a depth.
  abbrev pub Tracks : ℕ → Session D → Nested D → Type 0
  Tracks zero s n =
      (s.base ≡ none) × (s.savepoints ≡ []) × (s.current ≡ n.data_now) × (n.opened ≡ [])
  Tracks (suc k) s n =
      (b : D) × (s.base ≡ some b) × (s.current ≡ n.data_now) × Saved b k s.savepoints n.opened

  Saved-zero : (b : D) {sp : List (ℕ × D)} {xs : List D} → Saved b zero sp xs → xs ≡ b ∷ []
  Saved-zero b nothing = refl
  Saved-zero b (leftover m x lt h) = Saved-zero b h

  -- The latest savepoint `suc k` holds the data of the innermost transaction.
  Saved-since :
      (b : D) {k : ℕ} {sp : List (ℕ × D)} {xs : List D}
      → Saved b (suc k) sp xs
      → (x : D) × (r : List (ℕ × D)) × (ys : List D) × (since (suc k) sp ≡ some (x, r))
        × (xs ≡ x ∷ ys)
        × Saved b k r ys
        × Saved b k (without_latest (suc k) sp) ys
  unfolding since without_latest
  Saved-since b {k} (leftover m x lt h) =
      let (y, r, ys, found, e, rest, kept) = Saved-since b h in
      (y, r, ys, (rw (neq lt) found), e, rest, rw (neq lt) (leftover m x (omega (arith, lt)) kept))
  Saved-since b (saved {k} {sp} {xs} x h) =
      (x, sp, xs, (rw (eq_refl (suc k)) refl), refl, h, rw (eq_refl (suc k)) h)

  after_release-Saved :
      (keeps_later : Bool) (b : D) (k : ℕ) (sp r : List (ℕ × D)) (ys : List D)
      → Saved b k r ys
      → Saved b k (without_latest (suc k) sp) ys
      → Saved b k (after_release keeps_later (suc k) sp r) ys
  after_release-Saved true b k sp r ys rest kept = kept
  after_release-Saved false b k sp r ys rest kept = rest

  begin_ansi_transaction_sql-suc :
      (k : ℕ) → begin_ansi_transaction_sql {D = D} (suc k) ≡ savepoint (suc k)
  unfolding begin_ansi_transaction_sql
  begin_ansi_transaction_sql-suc k = ground arith

  commit_ansi_transaction_sql-suc :
      (k : ℕ) → commit_ansi_transaction_sql {D = D} (suc (suc k)) ≡ release (suc k)
  unfolding commit_ansi_transaction_sql
  commit_ansi_transaction_sql-suc k = ground arith

  rollback_ansi_transaction_sql-suc :
      (k : ℕ) → rollback_ansi_transaction_sql {D = D} (suc (suc k)) ≡ rollback_to (suc k)
  unfolding rollback_ansi_transaction_sql
  rollback_ansi_transaction_sql-suc k = ground arith

  -- Deleting the savepoints of a higher number leaves these.
  without-Saved :
      (b : D) (j : ℕ) {k : ℕ} {sp : List (ℕ × D)} {xs : List D}
      → k < j
      → Saved b k sp xs
      → Saved b k (without j sp) xs
  unfolding without
  without-Saved b j h nothing = nothing
  without-Saved b j h (leftover m x lt rest) = elim (Bool-cases (m == j)) [
    | inl same ↦ rw same (without-Saved b j h rest)
    | inr differs ↦ rw differs (leftover m x lt (without-Saved b j h rest))
  ]
  without-Saved b j h (saved {k} x rest) =
      rw (lt_ne h) (saved x (without-Saved b j (omega (arith, h)) rest))

  older-Saved :
      (replaces : Bool) (b : D) {k : ℕ} {sp : List (ℕ × D)} {xs : List D}
      → Saved b k sp xs
      → Saved b k (older replaces (suc k) sp) xs
  older-Saved true b {k} h = without-Saved b (suc k) (omega arith) h
  older-Saved false b h = h

module _ {D : Type 0} (rules : Rules) where
  -- Each statement that is sent at a depth is accepted, and does what nesting asks.
  pub begin-Tracks :
      (d : ℕ) (s : Session D) (n : Nested D)
      → Tracks d s n
      → (t : Session D) × (apply rules (begin_ansi_transaction_sql d) s ≡ some t)
        × Tracks (suc d) t (nested_begin n)
  unfolding begin_ansi_transaction_sql apply nested_begin
  begin-Tracks zero s n h =
      let (base, sp, now, opened) = h in
      (
        record { current = s.current; base = some s.current; savepoints = [] },
        rw base refl,
        (n.data_now, ap some now, now, rw opened nothing),
      )
  begin-Tracks (suc k) s n h =
      let (b, base, now, sv) = h in
      (
        record s { savepoints = (suc k, s.current) ∷ older rules.replaces (suc k) s.savepoints },
        rw (begin_ansi_transaction_sql-suc k) (ground arith),
        (
          b,
          base,
          now,
          subst
              (λ x.
                Saved b (suc k) ((suc k, x) ∷ older rules.replaces (suc k) s.savepoints)
                  (n.data_now ∷ n.opened))
              (sym now) (saved n.data_now (older-Saved rules.replaces b sv)),
        ),
      )

  pub commit-Tracks :
      (d : ℕ) (s : Session D) (n : Nested D)
      → Tracks (suc d) s n
      → (t : Session D) × (apply rules (commit_ansi_transaction_sql (suc d)) s ≡ some t)
        × Tracks d t (nested_commit n)
  unfolding commit_ansi_transaction_sql apply nested_commit
  commit-Tracks zero s n h =
      let (b, base, now, sv) = h in
      (
        record s { base = none; savepoints = [] },
        rw base refl,
        (refl, refl, now, rw (Saved-zero b sv) refl),
      )
  commit-Tracks (suc k) s n h =
      let (b, base, now, sv) = h in
      let (x, r, ys, found, e, rest, kept) = Saved-since b sv in
      (
        record s { savepoints = after_release rules.keeps_later (suc k) s.savepoints r },
        rw (commit_ansi_transaction_sql-suc k, found) refl,
        (
          b,
          base,
          now,
          rw e (after_release-Saved rules.keeps_later b k s.savepoints r ys rest kept),
        ),
      )

  pub rollback-Tracks :
      (d : ℕ) (s : Session D) (n : Nested D)
      → Tracks (suc d) s n
      → (t : Session D) × (apply rules (rollback_ansi_transaction_sql (suc d)) s ≡ some t)
        × Tracks d t (nested_rollback n)
  unfolding rollback_ansi_transaction_sql apply nested_rollback
  rollback-Tracks zero s n h =
      let (b, base, now, sv) = h in
      let e = Saved-zero b sv in
      (
        record { current = b; base = none; savepoints = [] },
        rw base refl,
        (refl, refl, rw e refl, rw e refl),
      )
  rollback-Tracks (suc k) s n h =
      let (b, base, now, sv) = h in
      let (x, r, ys, found, e, rest, _) = Saved-since b sv in
      (
        record s { current = x; savepoints = (suc k, x) ∷ r },
        rw (rollback_ansi_transaction_sql-suc k, found) refl,
        (b, base, rw e refl, rw e (leftover (suc k) x (omega arith) rest)),
      )

  -- Any other statement leaves what is open as it is.
  pub update-Tracks :
      (f : D → D) (d : ℕ) (s : Session D) (n : Nested D)
      → Tracks d s n
      → (t : Session D) × (apply rules (other f) s ≡ some t) × Tracks d t (nested_update f n)
  unfolding apply nested_update
  update-Tracks f zero s n (base, sp, now, opened) =
      (record s { current = f s.current }, refl, (base, sp, ap f now, opened))
  update-Tracks f (suc k) s n (b, base, now, sv) =
      (record s { current = f s.current }, refl, (b, base, ap f now, sv))
