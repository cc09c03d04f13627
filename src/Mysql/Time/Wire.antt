-- ===== src/Mysql/Time/Wire.antt =====
-- The binary encoding of TIME: `Encode` and `Decode` of MySqlTime in mysql_time.rs.
pub mod RoundTrip
pub mod Total
use sqlx.Base.{
  ℕ, zero, suc, ◌+◌, ◌-◌, ◌*◌, ◌/◌, ◌%◌, ◌^◌, ◌≤◌, ◌<◌, ◌≡◌, Bool, true, false, ◌&&◌, ◌||◌, not,
  Option, none, some, List, [], ◌∷◌, ltb, ◌==◌, if◌then◌else◌, Outcome, ok, err, panic, ◌>>=◌, ◌>>◌,
  lift, map_err, length, expect, ok_or,
}
use sqlx.Base.Bytes.{Buf}
use sqlx.Mysql.Time.{
  u32_range, MySqlTimeSign, negative, positive, TimeMagnitude, MySqlTime, MySqlTimeError, zero_time,
  new, is_zero,
}

pub data DecodeError : Type 0 where
  empty_buffer hours_overflow : DecodeError
  bad_length bad_sign : ℕ → DecodeError
  invalid : MySqlTimeError → DecodeError

pub to_byte : MySqlTimeSign → ℕ
to_byte negative = 1
to_byte positive = 0

pub from_byte : ℕ → Outcome DecodeError MySqlTimeSign
from_byte zero = ok positive
from_byte (suc zero) = ok negative
from_byte (suc (suc n)) = err (bad_sign (suc (suc n)))

pub encoded_len : MySqlTime → ℕ
encoded_len t = if is_zero t then 0 else if t.magnitude.microseconds == 0 then 8 else 12

abbrev pub is_nil : List ℕ → Bool
is_nil [] = true
is_nil (b ∷ bs) = false

-- `checked_mul` and `checked_add` of u32.
abbrev pub in_u32 : ℕ → Option ℕ
in_u32 n = if ltb n u32_range then some n else none

abbrev pub and_then : Option ℕ → (ℕ → Option ℕ) → Option ℕ
and_then none f = none
and_then (some n) f = f n

module _ (buf : Buf) where
  open buf use {get_le, put_le}

  -- The encoding is appended to `v`.
  pub encode_by_ref : MySqlTime → List ℕ → List ℕ
  encode_by_ref t v =
      if is_zero t
      then put_le v 1 0
      else let header = put_le (put_le v 1 (encoded_len t)) 1 (to_byte t.sign) in
        let days = put_le header 4 (t.magnitude.hours / 24) in
        let hours = put_le days 1 (t.magnitude.hours % 24) in
        let minutes = put_le hours 1 t.magnitude.minutes in
        let seconds = put_le minutes 1 t.magnitude.seconds in
        if t.magnitude.microseconds == 0 then seconds else put_le seconds 4 t.magnitude.microseconds

  pub read_microseconds : List ℕ → Outcome DecodeError (ℕ × List ℕ)
  read_microseconds [] = ok (0, [])
  read_microseconds (b ∷ bs) = lift (get_le 4 (b ∷ bs))

  -- `decode` from the sign byte on.
  pub decode_fields : List ℕ → Outcome DecodeError MySqlTime
  decode_fields bytes = do
    (sign_byte, at_days) ← lift (get_le 1 bytes)
    sign ← from_byte sign_byte
    (days, at_hours) ← lift (get_le 4 at_days)
    (hours, at_minutes) ← lift (get_le 1 at_hours)
    (minutes, at_seconds) ← lift (get_le 1 at_minutes)
    (seconds, at_micros) ← lift (get_le 1 at_seconds)
    (microseconds, rest) ← read_microseconds at_micros
    whole_hours ← ok_or (and_then (in_u32 (days * 24)) (λ h. in_u32 (h + hours))) hours_overflow
    map_err invalid (new sign whole_hours minutes seconds microseconds)

  pub decode : List ℕ → Outcome DecodeError MySqlTime
  decode [] = err empty_buffer
  decode (b ∷ bs) = do
    (len, rest) ← lift (get_le 1 (b ∷ bs))
    if len == 0
        then ok zero_time
        else if length rest == 8 || length rest == 12
        then decode_fields rest
        else err (bad_length (length rest))
