-- ===== src/Postgres/Numeric/Tests.antt =====
-- Runs of the model of numeric.rs.
use sqlx.Base.{ℕ, ◌≡◌, refl, List, [], ◌∷◌, ◌++◌, arith, none, some, ok, true, false}
use sqlx.Base.Int.{pos}
use sqlx.Base.Bytes.Cursor.{cursor}
use sqlx.Postgres.Numeric.{
  PgNumeric, number, positive, negative, encode, decode, is_valid_digit, digit_out_of_range,
}
use sqlx.Postgres.Numeric.RoundTrip.{decode-encode, encode-refuses}

-- -12345.678
abbrev price : PgNumeric
price = number negative (pos 1 ∷ pos 2345 ∷ pos 6780 ∷ []) (pos 1) (pos 3)

price_digits :
    (is_valid_digit (pos 1) ≡ true)
    × (is_valid_digit (pos 2345) ≡ true)
    × (is_valid_digit (pos 6780) ≡ true)
unfolding is_valid_digit
price_digits = (refl, refl, refl)

too_big : is_valid_digit (pos 10000) ≡ false
unfolding is_valid_digit
too_big = refl

decode-encode_example :
    (bytes : List ℕ) × ((v : List ℕ) → encode price v ≡ (v ++ bytes, none))
    × (decode cursor bytes ≡ ok price)
decode-encode_example = decode-encode cursor price (
  omega arith,
  (price_digits.0, (price_digits.1, (price_digits.2, tt))),
  omega arith,
  omega arith,
)

encode-refuses_example :
    (encode (number positive (pos 1 ∷ [] ++ pos 10000 ∷ []) (pos 0) (pos 0)) []).1
    ≡ some (digit_out_of_range 1 (pos 10000))
encode-refuses_example =
    encode-refuses positive (pos 1 ∷ []) (pos 10000) [] (pos 0) (pos 0) [] (omega arith)
      (price_digits.0, tt) too_big
