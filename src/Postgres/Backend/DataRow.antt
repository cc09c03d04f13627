-- ===== src/Postgres/Backend/DataRow.antt =====
-- sqlx-postgres/src/message/data_row.rs: a row and the ranges of its values. The crate `byteorder`
-- reads an integer as the cursor of Base.Bytes does, and leaves the slice where it is.
pub mod Encoded
pub mod RoundTrip
use sqlx.Base.{
  ℕ, zero, suc, ◌+◌, ◌-◌, ◌^◌, Bool, ◌&&◌, not, Option, none, some, List, [], ◌∷◌, ltb, leb,
  if◌then◌else◌, Outcome, ok, err, panic, ◌>>=◌, lift, expect, length, drop, get_elem?,
}
use sqlx.Base.Slices.{slice}
use sqlx.Base.Bytes.{Buf}

-- The numbers in the messages: the length of the buffer, the offset and the bytes that are there,
-- the offset, and the offset and the length.
pub data DataRowError : Type 0 where
  too_short : ℕ → DataRowError
  missing_length : ℕ → ℕ → DataRowError
  start_out_of_range : ℕ → DataRowError
  end_out_of_range : ℕ → ℕ → DataRowError

pub record DataRow : Type 0 where
  pub storage : List ℕ
  pub values : List (Option (ℕ × ℕ))

abbrev pub range_of : List ℕ → Option (ℕ × ℕ) → Outcome ⊥ (Option (List ℕ))
range_of storage none = ok none
range_of storage (some (start, end_)) =
    if leb start end_ && leb end_ (length storage)
    then ok (some (slice storage start end_))
    else panic

-- An index or a range out of bounds panics.
unfoldable pub get : DataRow → ℕ → Outcome ⊥ (Option (List ℕ))
get row index = expect (get_elem? row.values index) >>= range_of row.storage

-- The length is an i32 by its bits: the negative ones are those of a NULL.
abbrev pub value_of : ℕ → ℕ → Outcome DataRowError (Option (ℕ × ℕ) × ℕ)
value_of offset bits =
    if ltb bits (2 ^ 31)
    then if ltb (offset + 4 + bits) (2 ^ 32)
      then ok (some (offset + 4, offset + 4 + bits), offset + 4 + bits)
      else err (end_out_of_range offset bits)
    else ok (none, offset + 4)

module _ (cursor : Buf) where
  open cursor use {get_be}

  -- A round of the loop: the value, and the offset of the next one.
  unfoldable pub decode_value : List ℕ → ℕ → Outcome DataRowError (Option (ℕ × ℕ) × ℕ)
  decode_value buf offset =
      if not (ltb (offset + 4) (2 ^ 32))
      then err (start_out_of_range offset)
      else if ltb (length buf) (offset + 4)
      then err (missing_length offset (offset + 4 - length buf))
      else lift (get_be 4 (drop offset buf)) >>= λ r. value_of offset r.0

  unfoldable pub decode_values : ℕ → List ℕ → ℕ → Outcome DataRowError (List (Option (ℕ × ℕ)))
  decode_values zero buf offset = ok []
  decode_values (suc n) buf offset =
      decode_value buf offset >>= λ r. decode_values n buf r.1 >>= λ vs. ok (r.0 ∷ vs)

  unfoldable pub decode_body : List ℕ → Outcome DataRowError DataRow
  unfolding decode_values
  decode_body buf =
      if ltb (length buf) 2
      then err (too_short (length buf))
      else lift (get_be 2 buf) >>= λ r.
          decode_values r.0 buf 2 >>= λ vs. ok (record { storage = buf; values = vs })
