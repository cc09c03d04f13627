-- ===== src/Mysql/Ready/Answers.antt =====
-- The answers that sqlx-mysql/src/connection/stream.rs waits for, as the server sends them.
use sqlx.Base.{ℕ, ◌^◌, ◌<◌, ◌≡◌, Bool, true, false, List, [], ◌∷◌, ◌++◌, ok, if◌then◌else◌, length}
use sqlx.Base.Runs.{Exec}
use sqlx.Mysql.Packet.{Waiting, result, row}
use sqlx.Mysql.LengthEncoded.RoundTrip.{head_byte, tail_bytes}
use sqlx.Mysql.Response.{from_bits_truncate, has_more_results, ok_packet, eof_packet}
use sqlx.Mysql.Ready.{is_end}

-- The numbers of an OK packet; or the columns and the rows of a result set, and the status and the
-- warnings at its end.
pub data Answer : Type 0 where
  affected : ℕ → ℕ → ℕ → ℕ → Answer
  result_set : List (List ℕ) → List (List ℕ) → ℕ → ℕ → Answer

abbrev pub status_of : Answer → ℕ
status_of (affected rows id bits warnings) = bits
status_of (result_set columns rows bits warnings) = bits

-- Whether the status announces another answer.
abbrev pub more : ℕ → Bool
more bits = has_more_results (from_bits_truncate bits)

abbrev pub AreRows : List (List ℕ) → Type 0
AreRows [] = Unit
AreRows (p ∷ ps) = (is_end p ≡ false) × AreRows ps

-- The numbers fit their fields, and no row looks like the end of the rows.
abbrev pub IsAnswer : Answer → Type 0
IsAnswer (affected rows id bits warnings) =
    (rows < 2 ^ 64) × (id < 2 ^ 64) × (bits < 65536) × (warnings < 65536)
IsAnswer (result_set columns rows bits warnings) =
    (0 < length columns)
    × (length columns < 65536)
    × AreRows rows
    × (bits < 65536)
    × (warnings < 65536)

-- Answers of which each but the last announces the next one; `false` where none is to follow.
abbrev pub Chain : Bool → List Answer → Type 0
Chain false [] = Unit
Chain true [] = ⊥
Chain false (a ∷ as_) = ⊥
Chain true (a ∷ as_) = IsAnswer a × Chain (more (status_of a)) as_

-- What one thing that is waited for has yet to bring: all its answers, or the rest of some rows and
-- the answers behind it.
pub data Pending : Type 0 where
  answers : List Answer → Pending
  rest_of_rows : List (List ℕ) → ℕ → ℕ → List Answer → Pending

abbrev pub waiting_for : Pending → Waiting
waiting_for (answers as_) = result
waiting_for (rest_of_rows rows bits warnings as_) = row

abbrev pub IsPending : Pending → Type 0
IsPending (answers as_) = Chain true as_
IsPending (rest_of_rows rows bits warnings as_) =
    AreRows rows × (bits < 65536) × (warnings < 65536) × Chain (more bits) as_

abbrev pub ArePending : List Pending → Type 0
ArePending [] = Unit
ArePending (p ∷ ps) = IsPending p × ArePending ps

module _ (deprecate_eof : Bool) where
  abbrev pub end_packet : ℕ → ℕ → List ℕ
  end_packet bits warnings =
      if deprecate_eof then ok_packet 254 0 0 bits warnings else eof_packet warnings bits

  abbrev pub end_of_columns : ℕ → ℕ → List (List ℕ)
  end_of_columns bits warnings = if deprecate_eof then [] else eof_packet warnings bits ∷ []

  unfoldable pub packets_of : Answer → List (List ℕ)
  packets_of (affected rows id bits warnings) = ok_packet 0 rows id bits warnings ∷ []
  packets_of (result_set columns rows bits warnings) =
      (head_byte (length columns) ∷ tail_bytes (length columns))
      ∷ (columns ++ (end_of_columns bits warnings ++ (rows ++ end_packet bits warnings ∷ [])))

  unfoldable pub packets_of_all : List Answer → List (List ℕ)
  unfolding packets_of
  packets_of_all [] = []
  packets_of_all (a ∷ as_) = packets_of a ++ packets_of_all as_

  unfoldable pub packets_pending : Pending → List (List ℕ)
  unfolding packets_of_all
  packets_pending (answers as_) = packets_of_all as_
  packets_pending (rest_of_rows rows bits warnings as_) =
      rows ++ (end_packet bits warnings ∷ packets_of_all as_)

  unfoldable pub packets_all_pending : List Pending → List (List ℕ)
  unfolding packets_pending
  packets_all_pending [] = []
  packets_all_pending (p ∷ ps) = packets_pending p ++ packets_all_pending ps

-- The packets that are received from one state of the stream to another.
abbrev pub Delivers : {E S : Type 0} → Exec E S (List ℕ) → S → List (List ℕ) → S → Type 0
Delivers recv s [] t = s ≡ t
Delivers recv s (p ∷ ps) t = (u : _) × (recv s ≡ (ok p, u)) × Delivers recv u ps t
