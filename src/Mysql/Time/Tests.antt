-- ===== src/Mysql/Time/Tests.antt =====
-- Runs of the model of mysql_time.rs.
use sqlx.Base.{ℕ, suc, ◌≡◌, refl, false, List, [], ◌∷◌, ◌++◌, arith, ok, length, Yields}
use sqlx.Base.Bytes.Cursor.{cursor}
use sqlx.Mysql.Time.{
  MySqlTimeSign, negative, positive, MySqlTime, cmp, is_negative, sign_is_positive,
}
use sqlx.Mysql.Time.Order.{IsValid, value_of, compare_ℤ, cmp_lem}
use sqlx.Mysql.Time.Wire.{encoded_len, encode_by_ref, decode}
use sqlx.Mysql.Time.Wire.RoundTrip.{decode-encode_by_ref}
use sqlx.Mysql.Time.Wire.Total.{decode-Yields}
use sqlx.Mysql.Time.Spans.{Duration}

abbrev time : MySqlTimeSign → ℕ → ℕ → ℕ → ℕ → MySqlTime
time s h m sec u = record {
  sign = s;
  magnitude = record { hours = h; minutes = m; seconds = sec; microseconds = u };
}

-- -100:20:30.5
abbrev long_ago : MySqlTime
long_ago = time negative 100 20 30 500000

abbrev later : MySqlTime
later = time positive 1 2 3 4

long_ago-IsValid : IsValid long_ago
long_ago-IsValid = ((omega arith, omega arith, omega arith), omega arith, λ _. omega arith)

later-IsValid : IsValid later
later-IsValid = ((omega arith, omega arith, omega arith), omega arith, λ e. cc e)

-- `is_negative` answers whether the value is positive.
negative_not_negative : is_negative long_ago ≡ false
unfolding is_negative sign_is_positive
negative_not_negative = refl

cmp_lem_example : cmp long_ago later ≡ compare_ℤ (value_of long_ago) (value_of later)
cmp_lem_example = cmp_lem long_ago later long_ago-IsValid later-IsValid

decode-encode_by_ref_example :
    (bytes : List ℕ) × ((v : List ℕ) → encode_by_ref cursor long_ago v ≡ v ++ bytes)
    × (length bytes ≡ suc (encoded_len long_ago))
    × (decode cursor bytes ≡ ok long_ago)
decode-encode_by_ref_example = decode-encode_by_ref cursor long_ago long_ago-IsValid

decode-Yields_example : Yields IsValid (decode cursor (9 ∷ 0 ∷ 1 ∷ 0 ∷ []))
decode-Yields_example = decode-Yields cursor (9 ∷ 0 ∷ 1 ∷ 0 ∷ [])

abbrev hour_and_a_bit : Duration
hour_and_a_bit = record { secs = 3661; nanos = 1234567 }
