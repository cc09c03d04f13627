-- ===== src/Mysql/LengthEncoded.antt =====
-- sqlx-mysql/src/io/buf.rs and buf_mut.rs: integers and strings with their length in front; and
-- the rows of the text protocol, sqlx-mysql/src/protocol/text/row.rs and protocol/row.rs.
pub mod RoundTrip
pub mod Rows
mod Tests
use sqlx.Base.{
  ℕ, zero, suc, ◌+◌, ◌-◌, ◌^◌, ◌≡◌, Bool, true, false, Option, none, some, List, [], ◌∷◌, ◌++◌, leb,
  ltb, ◌==◌, ◌&&◌, if◌then◌else◌, Outcome, ok, err, panic, ◌>>=◌, lift, length, take, get_elem?,
}
use sqlx.Base.Bytes.{Buf, to_le_bytes}
use sqlx.Base.Slices.{slice}
use sqlx.Core.BufExt.{BufError, get_str}

pub put_uint_lenenc : List ℕ → ℕ → List ℕ
put_uint_lenenc buf v =
    let encoded_le = to_le_bytes 8 v in
    if leb v 250
    then buf ++ take 1 encoded_le
    else if leb v 65535
    then (buf ++ 252 ∷ []) ++ take 2 encoded_le
    else if leb v 16777215
    then (buf ++ 253 ∷ []) ++ take 3 encoded_le
    else (buf ++ 254 ∷ []) ++ encoded_le

pub put_bytes_lenenc : List ℕ → List ℕ → List ℕ
put_bytes_lenenc buf v = put_uint_lenenc buf (length v) ++ v

-- A row of the text protocol: the packet, and where in it each value stands.
pub record Row : Type 0 where
  pub storage : List ℕ
  pub values : List (Option (ℕ × ℕ))

abbrev value_in : List ℕ → Option (Option (ℕ × ℕ)) → Outcome ⊥ (Option (List ℕ))
value_in storage none = panic
value_in storage (some none) = ok none
value_in storage (some (some (start, end))) =
    if leb start end && leb end (length storage) then ok (some (slice storage start end)) else panic

pub row_get : Row → ℕ → Outcome ⊥ (Option (List ℕ))
row_get row index = value_in row.storage (get_elem? row.values index)

abbrev pub first : List ℕ → Outcome ⊥ ℕ
first [] = panic
first (b ∷ bs) = ok b

module _ (buf : Buf) where
  open buf use {get_le, split_to, advance}

  -- What follows the first byte.
  pub uint_after : ℕ → List ℕ → Outcome ⊥ (ℕ × List ℕ)
  uint_after b rest =
      if b == 252
      then get_le 2 rest
      else if b == 253
      then get_le 3 rest
      else if b == 254
      then get_le 8 rest
      else ok (b, rest)

  pub get_uint_lenenc : List ℕ → Outcome ⊥ (ℕ × List ℕ)
  get_uint_lenenc bytes = do (b, rest) ← get_le 1 bytes; uint_after b rest

  -- A u64 always fits a usize of 64 bits.
  pub get_bytes_lenenc : List ℕ → Outcome ⊥ (List ℕ × List ℕ)
  get_bytes_lenenc bytes = do (size, rest) ← get_uint_lenenc bytes; split_to size rest

  -- As text; `is_utf8` is the check for UTF-8.
  pub get_str_lenenc : (List ℕ → Bool) → List ℕ → Outcome BufError (List ℕ × List ℕ)
  get_str_lenenc is_utf8 bytes =
      lift (get_uint_lenenc bytes) >>= λ (size, rest). get_str buf is_utf8 size rest

  -- One round of the loop of `TextRow::decode_with`; `total` is the length of the packet.
  pub column_value : ℕ → ℕ → List ℕ → Outcome ⊥ (Option (ℕ × ℕ) × List ℕ)
  column_value total b bytes = if b == 251 then (do rest ← advance 1 bytes; ok (none, rest)) else do
    (size, at_value) ← get_uint_lenenc bytes
    rest ← advance size at_value
    ok (some (total - length at_value, total - length at_value + size), rest)

  -- The loop, for so many columns.
  pub column_values : ℕ → ℕ → List ℕ → Outcome ⊥ (List (Option (ℕ × ℕ)))
  column_values zero total bytes = ok []
  column_values (suc n) total bytes = do
    b ← first bytes
    (value, rest) ← column_value total b bytes
    values ← column_values n total rest
    ok (value ∷ values)

  pub decode_text_row : ℕ → List ℕ → Outcome ⊥ Row
  decode_text_row columns bytes = do
    values ← column_values columns (length bytes) bytes
    ok (record { storage = bytes; values = values })
