-- ===== src/Mysql/Time/Valid.antt =====
-- What `MySqlTime::new` accepts.
use Prim.Native.String.{String}
use sqlx.Base.{
  ℕ, ◌≤◌, ◌≡◌, refl, ap, sym, ◌↔◌, ◌∙◌, inl, inr, ◌&&◌, arith, ltb, ◌==◌, if◌then◌else◌, Outcome,
  ok, err, panic, ◌>>◌, Bool-cases, ◌≢◌, Yields, Yields->>=, subst,
}
use sqlx.Mysql.Time.{
  MySqlTimeSign, negative, positive, TimeMagnitude, MySqlTime, MySqlTimeError, magnitude_eq,
  magnitude_zero, magnitude_max, extreme, subsecond_excess, magnitude_cmp, is_gt, sign_is_negative,
  check_field, from_magnitude, new,
}
use sqlx.Mysql.Time.Order.{total, IsClock, IsValid, magnitude_cmp_lem, magnitude_eq_zero}

over_max :
    (m : TimeMagnitude)
    → IsClock m
    → is_gt (magnitude_cmp m magnitude_max) ≡ ltb 3020399000000 (total m)
unfolding is_gt
over_max m v = ap is_gt (magnitude_cmp_lem m magnitude_max v (omega arith)) ∙ ground arith

abbrev time : MySqlTimeSign → TimeMagnitude → MySqlTime
time s m = record { sign = s; magnitude = m }

pub from_magnitude-IsValid :
    (s : MySqlTimeSign) (m : TimeMagnitude)
    → IsValid (time s m)
    → from_magnitude s m ≡ ok (time s m)
unfolding from_magnitude sign_is_negative
from_magnitude-IsValid positive m (v, le, _) = rw (over_max m v) (ground (arith, le))
from_magnitude-IsValid negative m (v, le, nz) =
    rw (over_max m v, magnitude_eq_zero m) (ground (arith, le, nz refl))

-- The two ways past the tests of `from_magnitude`.
within :
    (s : MySqlTimeSign) (m : TimeMagnitude) (t : MySqlTime)
    → IsClock m
    → (if ltb 3020399000000 (total m)
        then err (subsecond_excess s m.microseconds (extreme s))
        else ok (time s m))
      ≡ ok t
    → (t ≡ time s m) × (total m ≤ 3020399000000)
within s m t v h = elim (Bool-cases (ltb 3020399000000 (total m))) [
  | inl e ↦ cc (rw e at h)
  | inr e ↦ (cc (rw e at h), ground (arith, e))
]

pub from_magnitude_ok :
    (s : MySqlTimeSign) (m : TimeMagnitude) (t : MySqlTime)
    → IsClock m
    → from_magnitude s m ≡ ok t
    → (t ≡ time s m) × IsValid (time s m)
unfolding from_magnitude sign_is_negative
from_magnitude_ok positive m t v h =
    let (e, le) = within positive m t v (rw (over_max m v) at h) in (e, (v, le, λ n. cc n))
from_magnitude_ok negative m t v h = elim (Bool-cases (total m == 0)) [
  | inl z ↦ cc (rw (magnitude_eq_zero m, z) at h)
  | inr nz ↦
      let (e, le) = within negative m t v (rw (magnitude_eq_zero m, nz, over_max m v) at h) in
      (e, (v, le, λ _. ground (arith, nz)))
]

check_field_ok : (name : String) (limit n : ℕ) → check_field name limit n ≡ ok tt → n ≤ limit
unfolding check_field
check_field_ok name limit n h = elim (Bool-cases (ltb limit n)) [
  | inl e ↦ cc (rw e at h)
  | inr e ↦ ground (arith, e)
]

check_field_le : (name : String) (limit n : ℕ) → n ≤ limit → check_field name limit n ≡ ok tt
unfolding check_field
check_field_le name limit n h = ground (arith, h)

>>-ok :
    {A : Type 0} (c : Outcome MySqlTimeError (Unit {0})) (k : Outcome MySqlTimeError A) (a : A)
    → (c >> k) ≡ ok a
    → (c ≡ ok tt) × (k ≡ ok a)
>>-ok (ok tt) k a h = (refl, h)
>>-ok (err e) k a h = cc h
>>-ok panic k a h = cc h

abbrev clock : ℕ → ℕ → ℕ → ℕ → TimeMagnitude
clock h m s u = record { hours = h; minutes = m; seconds = s; microseconds = u }

-- `new` succeeds exactly on the fields of a valid TIME value, which it then makes: minutes and
-- seconds below 60, microseconds below a million, at most 838:59:59 in all, and no negative zero.
pub new_iff :
    (s : MySqlTimeSign) (h m sec u : ℕ) (t : MySqlTime)
    → (new s h m sec u ≡ ok t)
      ↔ ((t ≡ time s (clock h m sec u)) × IsValid (time s (clock h m sec u)))
unfolding new
new_iff s h m sec u t = (accepted, made)
  where
    accepted :
        new s h m sec u ≡ ok t → (t ≡ time s (clock h m sec u)) × IsValid (time s (clock h m sec u))
    accepted e =
        let (_, e1) = >>-ok (check_field "hours" 838 h) _ t e in
        let (c2, e2) = >>-ok (check_field "minutes" 59 m) _ t e1 in
        let (c3, e3) = >>-ok (check_field "seconds" 59 sec) _ t e2 in
        let (c4, e4) = >>-ok (check_field "microseconds" 999999 u) _ t e3 in
        from_magnitude_ok s (clock h m sec u) t
          (
            omega (arith, check_field_ok "minutes" 59 m c2),
            omega (arith, check_field_ok "seconds" 59 sec c3),
            omega (arith, check_field_ok "microseconds" 999999 u c4),
          )
          e4

    made :
        (t ≡ time s (clock h m sec u)) × IsValid (time s (clock h m sec u)) → new s h m sec u ≡ ok t
    made (e, v) =
        rw
          (
            e,
            check_field_le "hours" 838 h (omega (arith, v)),
            check_field_le "minutes" 59 m (omega (arith, v)),
            check_field_le "seconds" 59 sec (omega (arith, v)),
            check_field_le "microseconds" 999999 u (omega (arith, v)),
          )
          (from_magnitude-IsValid s (clock h m sec u) v)

check_field-Yields :
    (name : String) (limit n : ℕ) → Yields (λ _. n ≤ limit) (check_field name limit n)
unfolding check_field
check_field-Yields name limit n = elim (Bool-cases (ltb limit n)) [
  | inl e ↦ rw e tt
  | inr e ↦ rw e (ground (arith, e))
]

from_magnitude-Yields :
    (s : MySqlTimeSign) (m : TimeMagnitude) → IsClock m → Yields IsValid (from_magnitude s m)
from_magnitude-Yields s m v = settled (from_magnitude s m) refl
  where
    not_panic : from_magnitude s m ≢ panic
    not_panic e = elim (Bool-cases (sign_is_negative s && magnitude_eq m magnitude_zero)) [
      | inl b ↦ unfold from_magnitude in cc (rw b at e)
      | inr b ↦ elim (Bool-cases (is_gt (magnitude_cmp m magnitude_max))) [
        | inl g ↦ unfold from_magnitude in cc (rw (b, g) at e)
        | inr g ↦ unfold from_magnitude in cc (rw (b, g) at e)
      ]
    ]

    settled : (r : Outcome MySqlTimeError MySqlTime) → from_magnitude s m ≡ r → Yields IsValid r
    settled (ok t) e =
        let (same, valid) = from_magnitude_ok s m t v e in subst IsValid (sym same) valid
    settled (err e') e = tt
    settled panic e = absurd (not_panic e)

-- `new` never panics, and what it makes is valid.
pub new-Yields : (s : MySqlTimeSign) (h m sec u : ℕ) → Yields IsValid (new s h m sec u)
unfolding new
new-Yields s h m sec u =
    Yields->>= (λ _. h ≤ 838) IsValid (check_field "hours" 838 h) _
      (check_field-Yields "hours" 838 h)
      λ _ lh.
        Yields->>= (λ _. m ≤ 59) IsValid (check_field "minutes" 59 m) _
          (check_field-Yields "minutes" 59 m)
          λ _ lm.
            Yields->>= (λ _. sec ≤ 59) IsValid (check_field "seconds" 59 sec) _
              (check_field-Yields "seconds" 59 sec)
              λ _ ls.
                Yields->>= (λ _. u ≤ 999999) IsValid (check_field "microseconds" 999999 u) _
                  (check_field-Yields "microseconds" 999999 u)
                  λ _ lu.
                    from_magnitude-Yields s (clock h m sec u)
                      (omega (arith, lm), omega (arith, ls), omega (arith, lu))
