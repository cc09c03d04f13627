-- ===== src/Mysql/Time/Order.antt =====
-- The order of TIME values against the microseconds that they stand for.
use Prim.Native.Nat.{Ordering, compare}
use sqlx.Base.{ℕ, ◌+◌, ◌*◌, ◌≤◌, ◌<◌, ◌≡◌, refl, not, ◌∙◌, arith, ◌==◌, if◌then◌else◌}
use sqlx.Base.Int.{ℤ, pos, pos_part, neg_part, sub_ℕ}
use sqlx.Mysql.Time.{
  MySqlTimeSign, negative, positive, TimeMagnitude, MySqlTime, then_by, sign_cmp, magnitude_cmp,
  magnitude_eq, magnitude_zero, reverse_signs, same_sign, cmp,
}

abbrev pub total : TimeMagnitude → ℕ
total m = ((m.hours * 60 + m.minutes) * 60 + m.seconds) * 1000000 + m.microseconds

-- The fields are within the limits of a clock.
abbrev pub IsClock : TimeMagnitude → Type 0
IsClock m = (m.minutes < 60) × (m.seconds < 60) × (m.microseconds < 1000000)

pub magnitude_cmp_lem :
    (a b : TimeMagnitude) → IsClock a → IsClock b → magnitude_cmp a b ≡ compare (total a) (total b)
unfolding magnitude_cmp then_by
magnitude_cmp_lem a b v w = ground (arith, v, w)

pub magnitude_eq_zero : (m : TimeMagnitude) → magnitude_eq m magnitude_zero ≡ (total m == 0)
unfolding magnitude_eq
magnitude_eq_zero m = ground arith

-- What MySQL takes for a TIME value: at most 838:59:59 either way, and no negative zero.
abbrev pub IsValid : MySqlTime → Type 0
IsValid t =
    IsClock t.magnitude
    × (total t.magnitude ≤ 3020399000000)
    × (t.sign ≡ negative → 0 < total t.magnitude)

abbrev pub signed : MySqlTimeSign → ℕ → ℤ
signed positive n = pos n
signed negative n = sub_ℕ 0 n

-- The microseconds that a TIME value stands for.
abbrev pub value_of : MySqlTime → ℤ
value_of t = signed t.sign (total t.magnitude)

abbrev pub compare_ℤ : ℤ → ℤ → Ordering
compare_ℤ a b = compare (pos_part a + neg_part b) (pos_part b + neg_part a)

reverse_signs_lem :
    (s : MySqlTimeSign) (a b : TimeMagnitude)
    → IsClock a
    → IsClock b
    → reverse_signs s a b ≡ compare_ℤ (signed s (total a)) (signed s (total b))
unfolding reverse_signs
reverse_signs_lem positive a b v w = magnitude_cmp_lem a b v w ∙ ground arith
reverse_signs_lem negative a b v w = magnitude_cmp_lem b a w v ∙ ground arith

-- `cmp` on signs of its own, so that they can be split.
abbrev of_signs : MySqlTimeSign → MySqlTimeSign → TimeMagnitude → TimeMagnitude → Ordering
of_signs s r a b = if not (same_sign s r) then sign_cmp s r else reverse_signs s a b

of_signs_lem :
    (s r : MySqlTimeSign) (a b : TimeMagnitude)
    → IsClock a
    → IsClock b
    → (s ≡ negative → 0 < total a)
    → (r ≡ negative → 0 < total b)
    → of_signs s r a b ≡ compare_ℤ (signed s (total a)) (signed r (total b))
unfolding same_sign sign_cmp
of_signs_lem positive positive a b v w na nb = reverse_signs_lem positive a b v w
of_signs_lem negative negative a b v w na nb = reverse_signs_lem negative a b v w
of_signs_lem positive negative a b v w na nb = ground (arith, nb refl)
of_signs_lem negative positive a b v w na nb = ground (arith, na refl)

-- `cmp` puts valid TIME values in the order of the signed microseconds that they stand for.
pub cmp_lem :
    (a b : MySqlTime) → IsValid a → IsValid b → cmp a b ≡ compare_ℤ (value_of a) (value_of b)
unfolding cmp
cmp_lem a b (va, _, na) (vb, _, nb) = of_signs_lem a.sign b.sign a.magnitude b.magnitude va vb na nb
