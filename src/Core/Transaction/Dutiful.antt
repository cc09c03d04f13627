-- ===== src/Core/Transaction/Dutiful.antt =====
-- A server that does what its manual says and no more, to run sqlx-core/src/transaction.rs on.
use sqlx.Base.{ℕ, ◌≡◌, refl, true, false, Option, none, some, Outcome, ok, err}
use sqlx.Core.Transaction.{Error, database, Server}
use sqlx.Core.Transaction.Session.{Session, Rules, apply, is_open}
use sqlx.Core.Transaction.Nesting.{Documented}

abbrev pub tried : Option (Session ℕ) → Session ℕ → Outcome Error (Unit {0}) × Session ℕ
tried none s = (err database, s)
tried (some t) s = (ok tt, t)

-- A server whose savepoints are those of the manual of MySQL, or of PostgreSQL and SQLite.
abbrev pub mysql_rules : Rules
mysql_rules = record { replaces = true; keeps_later = true }

abbrev pub sql_rules : Rules
sql_rules = record { replaces = false; keeps_later = false }

abbrev pub dutiful : Rules → Server ℕ
dutiful rules = record {
  State = Session ℕ;
  exec = λ q s. tried (apply rules q s) s;
  in_transaction = is_open;
}

pub tried-some :
    (o : Option (Session ℕ)) (s t : Session ℕ)
    → o ≡ some t
    → (r : Session ℕ) × (tried o s ≡ (ok tt, r)) × (r ≡ t)
tried-some o s t h = (t, rw h refl, refl)

abbrev pub dutiful-Documented : (rules : Rules) → Documented (dutiful rules)
dutiful-Documented rules = record {
  view = λ s. s;
  rules = rules;
  accepts = λ q s t h. tried-some (apply rules q s) s t h;
  reports = λ s. refl;
}
