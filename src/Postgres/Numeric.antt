-- ===== src/Postgres/Numeric.antt =====
-- sqlx-postgres/src/types/numeric.rs: the wire form of NUMERIC values. An i16 is an integer, and
-- its two bytes are those of its residue modulo 2^16.
pub mod RoundTrip
mod Tests
use sqlx.Base.{
  ℕ, zero, suc, ◌+◌, ◌-◌, Bool, true, false, Option, none, some, List, [], ◌∷◌, ◌++◌, ltb, ◌==◌,
  if◌then◌else◌, Outcome, ok, err, panic, ◌>>=◌, lift, length,
}
use sqlx.Base.Int.{ℤ, pos, negsuc}
use sqlx.Base.Bytes.{Buf, to_be_bytes}

pub data PgNumericSign : Type 0 where
  positive negative : PgNumericSign

pub data PgNumeric : Type 0 where
  not_a_number : PgNumeric
  -- The sign, the digits, the weight and the scale.
  number : PgNumericSign → List ℤ → ℤ → ℤ → PgNumeric

abbrev pub sign_pos : ℕ
sign_pos = 0

abbrev pub sign_neg : ℕ
sign_neg = 16384

abbrev pub sign_nan : ℕ
sign_nan = 49152

-- The 16 bits of an i16, and the i16 with these bits.
pub i16_bits : ℤ → ℕ
i16_bits (pos n) = n
i16_bits (negsuc n) = 65535 - n

pub i16_of_bits : ℕ → ℤ
i16_of_bits n = if ltb n 32768 then pos n else negsuc (65535 - n)

pub data NumericError : Type 0 where
  too_many_digits bad_sign : ℕ → NumericError
  -- The index of the digit, and the digit.
  digit_out_of_range : ℕ → ℤ → NumericError

pub try_from_u16 : ℕ → Outcome NumericError PgNumericSign
try_from_u16 n =
    if n == sign_pos
    then ok positive
    else if n == sign_neg
    then ok negative
    else if n == sign_nan
    then panic
    else err (bad_sign n)

pub sign_bits : PgNumericSign → ℕ
sign_bits positive = sign_pos
sign_bits negative = sign_neg

pub is_valid_digit : ℤ → Bool
is_valid_digit (pos n) = ltb n 10000
is_valid_digit (negsuc n) = false

-- The loop over the digits, of which the first has the index `i`; what was written before an error
-- stays in the buffer.
pub put_digits : ℕ → List ℤ → List ℕ → List ℕ × Option NumericError
put_digits i [] buf = (buf, none)
put_digits i (digit ∷ digits) buf =
    let rest = put_digits (i + 1) digits (buf ++ to_be_bytes 2 (i16_bits digit)) in
    if is_valid_digit digit then rest else (buf, some (digit_out_of_range i digit))

pub encode : PgNumeric → List ℕ → List ℕ × Option NumericError
encode (number sign digits weight scale) buf =
    if ltb 32767 (length digits)
    then (buf, some (too_many_digits (length digits)))
    else put_digits 0 digits (
        buf
        ++ to_be_bytes 2 (length digits)
        ++ to_be_bytes 2 (i16_bits weight)
        ++ to_be_bytes 2 (sign_bits sign)
        ++ to_be_bytes 2 (i16_bits scale))
encode not_a_number buf =
    (buf ++ to_be_bytes 2 0 ++ to_be_bytes 2 0 ++ to_be_bytes 2 sign_nan ++ to_be_bytes 2 0, none)

module _ (buf : Buf) where
  open buf use {get_be}

  pub get_digits : ℕ → List ℕ → Outcome ⊥ (List ℤ × List ℕ)
  get_digits zero bytes = ok ([], bytes)
  get_digits (suc n) bytes = do
    (digit, at_next) ← get_be 2 bytes
    (digits, rest) ← get_digits n at_next
    ok (i16_of_bits digit ∷ digits, rest)

  -- `decode` after the four fields of the header.
  pub decode_body : ℕ → ℤ → ℕ → ℤ → List ℕ → Outcome NumericError PgNumeric
  decode_body num_digits weight sign scale bytes = if sign == sign_nan then ok not_a_number else do
    (digits, rest) ← lift (get_digits num_digits bytes)
    sign ← try_from_u16 sign
    ok (number sign digits weight scale)

  pub decode : List ℕ → Outcome NumericError PgNumeric
  decode bytes = do
    (num_digits, at_weight) ← lift (get_be 2 bytes)
    (weight, at_sign) ← lift (get_be 2 at_weight)
    (sign, at_scale) ← lift (get_be 2 at_sign)
    (scale, at_digits) ← lift (get_be 2 at_scale)
    decode_body num_digits (i16_of_bits weight) sign (i16_of_bits scale) at_digits
