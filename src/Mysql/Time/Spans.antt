-- ===== src/Mysql/Time/Spans.antt =====
-- The conversions of mysql_time.rs between TIME values and spans of time.
pub mod Elapsed
use sqlx.Base.{
  ℕ, zero, suc, ◌+◌, ◌-◌, ◌*◌, ◌/◌, ◌%◌, ◌^◌, ◌≤◌, ◌<◌, ◌≡◌, Bool, true, false, ◌&&◌, ◌||◌, not,
  Option, none, some, List, [], ◌∷◌, ltb, ◌==◌, if◌then◌else◌, Outcome, ok, err, panic, ◌>>=◌, ◌>>◌,
}
use sqlx.Base.Int.{ℤ, pos, negsuc, ◌*ℤ◌}
use sqlx.Mysql.Time.{
  u32_range, MySqlTimeSign, negative, positive, TimeMagnitude, MySqlTime, MySqlTimeError,
  field_range, new, is_positive, hours_max,
}

-- std::time::Duration: whole seconds, and nanoseconds below 10^9.
pub record Duration : Type 0 where
  pub secs : ℕ
  pub nanos : ℕ

pub whole_seconds : MySqlTime → ℕ
whole_seconds t =
    (t.magnitude.hours * 3600 + t.magnitude.minutes * 60 + t.magnitude.seconds) % u32_range

pub signum : MySqlTimeSign → ℤ
signum negative = negsuc 0
signum positive = pos 1

pub whole_seconds_signed : MySqlTime → ℤ
whole_seconds_signed t = pos (whole_seconds t) *ℤ signum t.sign

pub subsec_nanos : MySqlTime → ℕ
subsec_nanos t = t.magnitude.microseconds * 1000 % u32_range

-- `Duration::new` carries nanoseconds over; a TIME value has none to carry.
pub to_duration : MySqlTime → Option Duration
to_duration t =
    if is_positive t
    then some (record {
      secs = whole_seconds t + subsec_nanos t / 1000000000;
      nanos = subsec_nanos t % 1000000000;
    })
    else none

-- `TryFrom<Duration>`.
pub try_from : Duration → Outcome MySqlTimeError MySqlTime
try_from value =
    let hours = value.secs / 3600 in
    let rem_seconds = value.secs % 3600 in
    if ltb hours u32_range
    then new positive hours (rem_seconds / 60 % 256) (rem_seconds % 60 % 256) (value.nanos / 1000)
    else err (field_range "hours" hours_max hours)
