-- ===== src/Mysql/Time/Spans/Elapsed.antt =====
-- The time that a TIME value and a duration stand for.
use sqlx.Base.{
  ℕ, ◌+◌, ◌*◌, ◌/◌, ◌%◌, ◌≤◌, ◌<◌, ◌≡◌, refl, sym, ◌∙◌, inl, inr, some, arith, ltb, if◌then◌else◌,
  Outcome, ok, err, panic, Bool-cases, Yields, subst, lt→ltb,
}
use sqlx.Mysql.Time.{
  u32_range, positive, MySqlTime, MySqlTimeError, new, is_positive, sign_is_positive, field_range,
  hours_max,
}
use sqlx.Mysql.Time.Order.{total, IsValid}
use sqlx.Mysql.Time.Valid.{new_iff, new-Yields}
use sqlx.Mysql.Time.Spans.{Duration, whole_seconds, subsec_nanos, to_duration, try_from}

-- The whole microseconds of a duration.
abbrev pub micros_of : Duration → ℕ
micros_of d = d.secs * 1000000 + d.nanos / 1000

-- The TIME value for a duration that is short enough.
abbrev pub time_for : Duration → MySqlTime
time_for d = record {
  sign = positive;
  magnitude = record {
    hours = d.secs / 3600;
    minutes = d.secs % 3600 / 60;
    seconds = d.secs % 3600 % 60;
    microseconds = d.nanos / 1000;
  };
}

total-time_for : (d : Duration) → total (time_for d).magnitude ≡ micros_of d
total-time_for d = omega arith

try_from-new :
    (d : Duration)
    → try_from d ≡ (
        if ltb (d.secs / 3600) u32_range
        then new positive (d.secs / 3600) (d.secs % 3600 / 60) (d.secs % 3600 % 60) (d.nanos / 1000)
        else err (field_range "hours" hours_max (d.secs / 3600)))
unfolding try_from
try_from-new d =
    let minutes : d.secs % 3600 / 60 % 256 ≡ d.secs % 3600 / 60 = omega arith in
    let seconds : d.secs % 3600 % 60 % 256 ≡ d.secs % 3600 % 60 = omega arith in
    rw (minutes, seconds) refl

IsValid-time_for :
    (d : Duration) → d.nanos < 1000000000 → micros_of d ≤ 3020399000000 → IsValid (time_for d)
IsValid-time_for d h le =
    ((omega arith, omega arith, omega (arith, h)), omega (arith, le), λ e. cc e)

to_duration-time_for :
    (d : Duration)
    → d.nanos < 1000000000
    → micros_of d ≤ 3020399000000
    → to_duration (time_for d) ≡ some (record { secs = d.secs; nanos = d.nanos / 1000 * 1000 })
unfolding to_duration whole_seconds subsec_nanos is_positive sign_is_positive
to_duration-time_for d h le =
    let secs : whole_seconds (time_for d) + subsec_nanos (time_for d) / 1000000000 ≡ d.secs =
      omega (arith, h, le) in
    let nanos : subsec_nanos (time_for d) % 1000000000 ≡ d.nanos / 1000 * 1000 = omega (arith, h) in
    rw (secs, nanos) refl

-- A duration (its nanoseconds below 10^9) of at most 838:59:59 becomes the valid TIME value of as many whole microseconds, which
-- `to_duration` turns back into the duration without its odd nanoseconds; a longer one is an error.
pub try_from_lem :
    (d : Duration)
    → d.nanos < 1000000000
    → (micros_of d ≤ 3020399000000
        → (t : MySqlTime) × (try_from d ≡ ok t)
          × IsValid t
          × (total t.magnitude ≡ micros_of d)
          × (to_duration t ≡ some (record { secs = d.secs; nanos = d.nanos / 1000 * 1000 })))
      × (3020399000000 < micros_of d → (e : MySqlTimeError) × (try_from d ≡ err e))
try_from_lem d h = (short, long (try_from d) refl)
  where
    short :
        micros_of d ≤ 3020399000000
        → (t : MySqlTime) × (try_from d ≡ ok t)
          × IsValid t
          × (total t.magnitude ≡ micros_of d)
          × (to_duration t ≡ some (record { secs = d.secs; nanos = d.nanos / 1000 * 1000 }))
    short le = (
      time_for d,
      try_from-new d
          ∙ rw (lt→ltb (d.secs / 3600) u32_range (omega (arith, le))) (
              (new_iff positive (d.secs / 3600) (d.secs % 3600 / 60) (d.secs % 3600 % 60)
                  (d.nanos / 1000) (time_for d)).1
                (refl, IsValid-time_for d h le)),
      IsValid-time_for d h le,
      total-time_for d,
      to_duration-time_for d h le,
    )

    long :
        (r : Outcome MySqlTimeError MySqlTime)
        → try_from d ≡ r
        → 3020399000000 < micros_of d
        → (e : MySqlTimeError) × (try_from d ≡ err e)
    long (err e) q lt = (e, q)
    long (ok t) q lt = elim (Bool-cases (ltb (d.secs / 3600) u32_range)) [
      | inl e ↦
          let (_, valid) =
            (new_iff positive (d.secs / 3600) (d.secs % 3600 / 60) (d.secs % 3600 % 60)
                (d.nanos / 1000) t).0
              (rw e at (sym (try_from-new d) ∙ q)) in
          absurd (omega (arith, valid, lt))
      | inr e ↦ cc (rw e at (sym (try_from-new d) ∙ q))
    ]
    long panic q lt = elim (Bool-cases (ltb (d.secs / 3600) u32_range)) [
      | inl e ↦ absurd (
          subst (Yields IsValid) (rw e at (sym (try_from-new d) ∙ q)) (
            new-Yields positive (d.secs / 3600) (d.secs % 3600 / 60) (d.secs % 3600 % 60)
              (d.nanos / 1000)))
      | inr e ↦ cc (rw e at (sym (try_from-new d) ∙ q))
    ]
