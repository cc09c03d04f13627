-- ===== src/Mysql/Time.antt =====
-- sqlx-mysql/src/types/mysql_time.rs: the values of MySQL's type TIME, their binary encoding, and
-- their conversions to and from durations.
pub mod Wire
pub mod Spans
pub mod Order
pub mod Valid
mod Tests
use Prim.Native.String.{String}
use Prim.Native.Nat.{Ordering, compare}
use sqlx.Base.{
  ℕ, zero, suc, ◌+◌, ◌-◌, ◌*◌, ◌/◌, ◌%◌, ◌^◌, ◌≤◌, ◌<◌, ◌≡◌, Bool, true, false, ◌&&◌, ◌||◌, not,
  Option, none, some, List, [], ◌∷◌, ltb, ◌==◌, if◌then◌else◌, Outcome, ok, err, panic, ◌>>=◌, ◌>>◌,
  lift, map_err, length,
}
use sqlx.Base.Int.{ℤ, pos, negsuc}
use sqlx.Base.Bytes.{Buf}

abbrev pub u32_range : ℕ
u32_range = 2 ^ 32

pub data MySqlTimeSign : Type 0 where
  negative positive : MySqlTimeSign

pub record TimeMagnitude : Type 0 where
  pub hours : ℕ
  pub minutes : ℕ
  pub seconds : ℕ
  pub microseconds : ℕ

pub record MySqlTime : Type 0 where
  pub sign : MySqlTimeSign
  pub magnitude : TimeMagnitude

pub data MySqlTimeError : Type 0 where
  field_range : String → ℕ → ℕ → MySqlTimeError
  subsecond_excess : MySqlTimeSign → ℕ → MySqlTime → MySqlTimeError
  negative_zero : MySqlTimeError

abbrev pub hours_max : ℕ
hours_max = 838

abbrev pub magnitude_zero : TimeMagnitude
magnitude_zero = record { hours = 0; minutes = 0; seconds = 0; microseconds = 0 }

abbrev pub magnitude_max : TimeMagnitude
magnitude_max = record { hours = hours_max; minutes = 59; seconds = 59; microseconds = 0 }

abbrev pub zero_time : MySqlTime
zero_time = record { sign = positive; magnitude = magnitude_zero }

abbrev pub max_time : MySqlTime
max_time = record { sign = positive; magnitude = magnitude_max }

abbrev pub min_time : MySqlTime
min_time = record { sign = negative; magnitude = magnitude_max }

pub sign_is_positive : MySqlTimeSign → Bool
sign_is_positive positive = true
sign_is_positive negative = false

pub sign_is_negative : MySqlTimeSign → Bool
sign_is_negative positive = false
sign_is_negative negative = true

-- The derived orders; an ordering of fields gives way to the next where they are equal.
pub then_by : Ordering → Ordering → Ordering
then_by Ordering.lt o = Ordering.lt
then_by Ordering.eq o = o
then_by Ordering.gt o = Ordering.gt

pub sign_cmp : MySqlTimeSign → MySqlTimeSign → Ordering
sign_cmp negative negative = Ordering.eq
sign_cmp negative positive = Ordering.lt
sign_cmp positive negative = Ordering.gt
sign_cmp positive positive = Ordering.eq

pub magnitude_cmp : TimeMagnitude → TimeMagnitude → Ordering
magnitude_cmp a b = then_by (compare a.hours b.hours) (
    then_by (compare a.minutes b.minutes)
      (then_by (compare a.seconds b.seconds) (compare a.microseconds b.microseconds)))

pub magnitude_eq : TimeMagnitude → TimeMagnitude → Bool
magnitude_eq a b =
    a.hours == b.hours
    && a.minutes == b.minutes
    && a.seconds == b.seconds
    && a.microseconds == b.microseconds

pub is_gt : Ordering → Bool
is_gt Ordering.gt = true
is_gt Ordering.lt = false
is_gt Ordering.eq = false

-- One field of `check_fields!`.
pub check_field : String → ℕ → ℕ → Outcome MySqlTimeError (Unit {0})
check_field name limit value = if ltb limit value then err (field_range name limit value) else ok tt

pub extreme : MySqlTimeSign → MySqlTime
extreme positive = max_time
extreme negative = min_time

-- The part of `new` after the fields are checked.
pub from_magnitude : MySqlTimeSign → TimeMagnitude → Outcome MySqlTimeError MySqlTime
from_magnitude sign values =
    if sign_is_negative sign && magnitude_eq values magnitude_zero
    then err negative_zero
    else if is_gt (magnitude_cmp values magnitude_max)
    then err (subsecond_excess sign values.microseconds (extreme sign))
    else ok (record { sign = sign; magnitude = values })

pub new : MySqlTimeSign → ℕ → ℕ → ℕ → ℕ → Outcome MySqlTimeError MySqlTime
new sign hours minutes seconds microseconds = do
  check_field "hours" hours_max hours
  check_field "minutes" 59 minutes
  check_field "seconds" 59 seconds
  check_field "microseconds" 999999 microseconds
  from_magnitude sign
      (record { hours = hours; minutes = minutes; seconds = seconds; microseconds = microseconds })

pub is_zero : MySqlTime → Bool
is_zero t = sign_is_positive t.sign && magnitude_eq t.magnitude magnitude_zero

pub is_positive : MySqlTime → Bool
is_positive t = sign_is_positive t.sign

pub is_negative : MySqlTime → Bool
is_negative t = sign_is_positive t.sign

pub is_valid_time_of_day : MySqlTime → Bool
is_valid_time_of_day t = sign_is_positive t.sign && ltb t.magnitude.hours 24

pub reverse_signs : MySqlTimeSign → TimeMagnitude → TimeMagnitude → Ordering
reverse_signs positive a b = magnitude_cmp a b
reverse_signs negative a b = magnitude_cmp b a

pub same_sign : MySqlTimeSign → MySqlTimeSign → Bool
same_sign negative negative = true
same_sign negative positive = false
same_sign positive negative = false
same_sign positive positive = true

pub cmp : MySqlTime → MySqlTime → Ordering
cmp t other =
    if not (same_sign t.sign other.sign)
    then sign_cmp t.sign other.sign
    else reverse_signs t.sign t.magnitude other.magnitude
