-- ===== src/Core/Transaction/Session.antt =====
-- What the manuals of the servers say of transactions and savepoints, as far as
-- sqlx-core/src/transaction.rs relies on it, and transactions that nest, which it offers.
use sqlx.Base.{ℕ, Bool, true, false, Option, none, some, List, [], ◌∷◌, ◌==◌, if◌then◌else◌}
use sqlx.Core.Transaction.{
  Sql, begin_transaction, commit_transaction, rollback_transaction, savepoint, release, rollback_to,
  other,
}

-- The data before the open transaction, and at each savepoint, the latest first.
pub record Session (D : Type 0) : Type 0 where
  pub current : D
  pub base : Option D
  pub savepoints : List (ℕ × D)

-- What the manuals of the servers say differently of savepoints.
pub record Rules : Type 0 where
  -- Whether a savepoint takes the place of an older one of its name, as in MySQL, or hides it, as in
  -- PostgreSQL and SQLite.
  pub replaces : Bool
  -- Whether a release leaves the savepoints that were set after the one it names. PostgreSQL and
  -- SQLite release them with it; MySQL's manual speaks of the named one alone.
  pub keeps_later : Bool

-- Transactions that nest: the data, and what it was when each open transaction began.
pub record Nested (D : Type 0) : Type 0 where
  pub data_now : D
  pub opened : List D

module _ {D : Type 0} where
  -- The latest savepoint of a name, and those before it.
  unfoldable pub since : ℕ → List (ℕ × D) → Option (D × List (ℕ × D))
  since n [] = none
  since n ((m, x) ∷ sp) = if m == n then some (x, sp) else since n sp

  abbrev in_savepoint :
      Option (D × List (ℕ × D)) → (D → List (ℕ × D) → Session D) → Option (Session D)
  in_savepoint none k = none
  in_savepoint (some (x, sp)) k = some (k x sp)

  abbrev pub is_open : Session D → Bool
  is_open s = elim s.base [ none ↦ false | some b ↦ true ]

  -- The savepoints that a new one of a name leaves: MySQL deletes an older one of that name, while
  -- PostgreSQL and SQLite keep it, hidden by the new one.
  unfoldable pub without : ℕ → List (ℕ × D) → List (ℕ × D)
  without n [] = []
  without n ((m, x) ∷ sp) = let rest = without n sp in if m == n then rest else (m, x) ∷ rest

  abbrev pub older : Bool → ℕ → List (ℕ × D) → List (ℕ × D)
  older true n sp = without n sp
  older false n sp = sp

  -- The savepoints without the latest of a name.
  unfoldable pub without_latest : ℕ → List (ℕ × D) → List (ℕ × D)
  without_latest n [] = []
  without_latest n ((m, x) ∷ sp) =
      let rest = without_latest n sp in if m == n then sp else (m, x) ∷ rest

  -- What a release leaves of `all`, with `sp` those before the savepoint that it names.
  abbrev pub after_release : Bool → ℕ → List (ℕ × D) → List (ℕ × D) → List (ℕ × D)
  after_release true n all sp = without_latest n all
  after_release false n all sp = sp

  -- `none` where the manuals warn, or report an error.
  unfoldable pub apply : Rules → Sql D → Session D → Option (Session D)
  unfolding since without
  apply rules begin_transaction s = elim s.base [
    | none ↦ some (record s { base = some s.current; savepoints = [] })
    | some b ↦ none
  ]
  apply rules commit_transaction s = elim s.base [
    | none ↦ none
    | some b ↦ some (record s { base = none; savepoints = [] })
  ]
  apply rules rollback_transaction s = elim s.base [
    | none ↦ none
    | some b ↦ some (record { current = b; base = none; savepoints = [] })
  ]
  apply rules (savepoint n) s = elim s.base [
    | none ↦ none
    | some b ↦ some (record s { savepoints = (n, s.current) ∷ older rules.replaces n s.savepoints })
  ]
  apply rules (release n) s =
      in_savepoint (since n s.savepoints)
        (λ x sp. record s { savepoints = after_release rules.keeps_later n s.savepoints sp })
  apply rules (rollback_to n) s =
      in_savepoint (since n s.savepoints)
        (λ x sp. record s { current = x; savepoints = (n, x) ∷ sp })
  apply rules (other f) s = some (record s { current = f s.current })

  unfoldable pub nested_begin : Nested D → Nested D
  nested_begin n = record n { opened = n.data_now ∷ n.opened }

  unfoldable pub nested_commit : Nested D → Nested D
  nested_commit n = record n { opened = elim n.opened [ [] ↦ [] | x ∷ xs ↦ xs ] }

  unfoldable pub nested_rollback : Nested D → Nested D
  nested_rollback n = elim n.opened [ [] ↦ n | x ∷ xs ↦ record { data_now = x; opened = xs } ]

  unfoldable pub nested_update : (D → D) → Nested D → Nested D
  nested_update f n = record n { data_now = f n.data_now }
