-- ===== src/Core/Transaction/Nesting/Queued.antt =====
-- What a session comes to by the statements that are queued, for sqlx-core/src/transaction.rs.
use sqlx.Base.{
  ℕ, zero, suc, ◌-◌, ◌≡◌, refl, sym, subst, Option, none, some, List, [], ◌∷◌, ◌++◌, arith,
  Option-cases, inl, inr,
}
use sqlx.Core.Transaction.{Sql}
use sqlx.Core.Transaction.Session.{Session, Rules, Nested, apply, nested_commit, nested_rollback}
use sqlx.Core.Transaction.Savepoints.{Tracks}
use sqlx.Core.Transaction.Nesting.{and_then, apply_all}

module _ {D : Type 0} where
  pub closed : (k : ℕ) (s : Session D) (n : Nested D) → Tracks k s n → Tracks (suc k - 1) s n
  closed k s n h = subst (λ d. Tracks d s n) {x = k} (omega arith) h

  pub commit-outside :
      (t : Session D) (n : Nested D) → Tracks zero t n → Tracks zero t (nested_commit n)
  unfolding nested_commit
  commit-outside t n (base, sp, now, opened) = (base, sp, now, rw opened refl)

  nested_rollback-nil : (n : Nested D) → n.opened ≡ [] → nested_rollback n ≡ n
  unfolding nested_rollback
  nested_rollback-nil n h = ground arith

  pub rollback-outside :
      (t : Session D) (n : Nested D) → Tracks zero t n → Tracks zero t (nested_rollback n)
  rollback-outside t n h = subst (Tracks zero t) (sym (nested_rollback-nil n h.3)) h

  pub and_then-some :
      (o : Option (Session D)) (k : Session D → Option (Session D)) (t : Session D)
      → and_then o k ≡ some t
      → (u : Session D) × (o ≡ some u) × (k u ≡ some t)
  and_then-some none k t h = absurd (cc)
  and_then-some (some u) k t h = (u, refl, h)

module _ {D : Type 0} (rules : Rules) where
  apply_one : (q : Sql D) (t : Session D) → apply_all rules (q ∷ []) t ≡ apply rules q t
  unfolding apply_all
  apply_one q t = elim (Option-cases (apply rules q t)) [
    | inl e ↦ rw e refl
    | inr (u, e) ↦ rw e refl
  ]

  pub apply_all-snoc :
      (qs : List (Sql D)) (q : Sql D) (s t : Session D)
      → apply_all rules qs s ≡ some t
      → apply_all rules (qs ++ q ∷ []) s ≡ apply rules q t
  unfolding apply_all
  apply_all-snoc [] q s t h = let same : s ≡ t = cc in rw same (apply_one q t)
  apply_all-snoc (r ∷ qs) q s t h =
      let (u, first, rest) = and_then-some (apply rules r s) (apply_all rules qs) t h in
      rw first (apply_all-snoc qs q u t rest)
