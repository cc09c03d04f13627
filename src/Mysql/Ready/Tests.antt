-- ===== src/Mysql/Ready/Tests.antt =====
-- A run of `wait_until_ready` on a list of packets.
use sqlx.Base.{ℕ, suc, ◌+◌, ◌≡◌, refl, true, List, [], ◌∷◌, map, ok, err, arith}
use sqlx.Base.Bytes.Cursor.{cursor}
use sqlx.Base.Runs.{Exec}
use sqlx.Mysql.Ready.{wait_until_ready}
use sqlx.Mysql.Ready.Answers.{
  affected, result_set, Pending, answers, rest_of_rows, waiting_for, packets_all_pending, Delivers,
  ArePending,
}
use sqlx.Mysql.Ready.Complete.{wait_until_ready_lem}

pub data Closed : Type 0 where
  closed : Closed

-- A stream that is a list of packets.
abbrev next_packet : Exec Closed (List (List ℕ)) (List ℕ)
next_packet [] = (err closed, [])
next_packet (p ∷ ps) = (ok p, ps)

-- Rows that are half read and another answer behind them, and a result set of one column.
abbrev pending : List Pending
pending =
    rest_of_rows ((1 ∷ 55 ∷ []) ∷ []) 10 0 (affected 2 0 2 0 ∷ [])
    ∷ answers (result_set ((3 ∷ 100 ∷ []) ∷ []) ((1 ∷ 56 ∷ []) ∷ []) 2 0 ∷ [])
    ∷ []

delivered : (ps : List (List ℕ)) → Delivers next_packet ps ps []
delivered [] = refl
delivered (p ∷ ps) = (ps, refl, delivered ps)

pending-ArePending : ArePending pending
pending-ArePending = (
  (
    (refl, tt),
    omega arith,
    omega arith,
    ((omega arith, omega arith, omega arith, omega arith), tt),
  ),
  (((omega arith, omega arith, (refl, tt), omega arith, omega arith), tt), tt),
)

wait_until_ready_lem_example :
    (k : ℕ) × ((f : ℕ)
      → wait_until_ready cursor true next_packet
          (k + suc f)
          (packets_all_pending true pending, map waiting_for pending)
        ≡ (ok tt, ([], [])))
wait_until_ready_lem_example =
    wait_until_ready_lem cursor true next_packet pending (packets_all_pending true pending) []
      pending-ArePending (delivered (packets_all_pending true pending))
