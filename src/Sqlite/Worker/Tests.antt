-- ===== src/Sqlite/Worker/Tests.antt =====
-- A run of the worker whose callers give up.
use sqlx.Base.{ℕ, ◌≡◌, refl, none, List, [], ◌∷◌, true, false}
use sqlx.Core.Transaction.Dutiful.{dutiful, dutiful-Documented, sql_rules}
use sqlx.Sqlite.Worker.{Worker, Event, begun, begin_given_up, committed, rolled_back, serve_all}
use sqlx.Sqlite.Worker.Nesting.{nested_events, Refines, serve_all-Refines}

abbrev idle : Worker (dutiful sql_rules)
idle = record {
  state = record { current = 7; base = none; savepoints = [] };
  transaction_depth = 0;
  ignore_next_start_rollback = false;
}

abbrev events : List (Event ℕ)
events = begun ∷ begin_given_up ∷ begun ∷ rolled_back false ∷ committed false ∷ []

serve_all-Refines_example :
    (z : Worker (dutiful sql_rules)) × (serve_all (dutiful sql_rules) events idle ≡ (true, z))
    × Refines
        (dutiful sql_rules)
        (dutiful-Documented sql_rules)
        z
        (nested_events events (record { data_now = 7; opened = [] }))
serve_all-Refines_example =
    serve_all-Refines (dutiful sql_rules) (dutiful-Documented sql_rules) events idle
      (record { data_now = 7; opened = [] }) (refl, (refl, refl, refl, refl))
