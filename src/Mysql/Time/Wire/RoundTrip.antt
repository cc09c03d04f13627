-- ===== src/Mysql/Time/Wire/RoundTrip.antt =====
-- The binary decoder of TIME against the encoder.
use mathlib.Core.List.{append_assoc, append-nil}
use sqlx.Base.{
  ℕ, suc, ◌+◌, ◌*◌, ◌/◌, ◌%◌, ◌≤◌, ◌<◌, ◌≡◌, refl, ap, sym, ◌∙◌, inl, inr, true, false, ◌&&◌, ◌||◌,
  List, [], ◌∷◌, ◌++◌, arith, ◌==◌, if◌then◌else◌, ok, lift, length, length-append, Bool-cases,
  lt→ltb, map_err, some,
}
use sqlx.Base.Bytes.{Buf, to_le_bytes, get_le-to_le_bytes, get_u8, put_u8, length-to_le_bytes}
use sqlx.Mysql.Time.{
  u32_range, MySqlTimeSign, negative, positive, TimeMagnitude, MySqlTime, zero_time, is_zero,
  sign_is_positive, magnitude_eq, magnitude_zero,
}
use sqlx.Mysql.Time.Order.{total, IsValid, magnitude_eq_zero}
use sqlx.Mysql.Time.Valid.{new_iff}
use sqlx.Mysql.Time.Wire.{
  to_byte, from_byte, encoded_len, encode_by_ref, read_microseconds, decode_fields, decode, invalid,
  in_u32, and_then,
}

from_byte-to_byte : (s : MySqlTimeSign) → from_byte (to_byte s) ≡ ok s
unfolding from_byte to_byte
from_byte-to_byte negative = refl
from_byte-to_byte positive = refl

to_byte-lt : (s : MySqlTimeSign) → to_byte s < 256
unfolding to_byte
to_byte-lt negative = omega arith
to_byte-lt positive = omega arith

-- A TIME value that is zero, and the only one.
zero_lem :
    (s : MySqlTimeSign) (m : TimeMagnitude)
    → (sign_is_positive s && magnitude_eq m magnitude_zero) ≡ true
    → record { sign = s; magnitude = m } ≡ zero_time
unfolding sign_is_positive
zero_lem positive m h =
    let z : total m ≡ 0 = ground (arith, magnitude_eq_zero m, h) in
    let hours : m.hours ≡ 0 = omega (arith, z) in
    let minutes : m.minutes ≡ 0 = omega (arith, z) in
    let seconds : m.seconds ≡ 0 = omega (arith, z) in
    let microseconds : m.microseconds ≡ 0 = omega (arith, z) in cc
zero_lem negative m h = cc h

micros_bytes : ℕ → List ℕ
micros_bytes u = if u == 0 then [] else to_le_bytes 4 u

hours_lem : (h : ℕ) → h ≤ 838 → and_then (in_u32 (h / 24 * 24)) (λ n. in_u32 (n + h % 24)) ≡ some h
hours_lem h le =
    rw
      (
        lt→ltb (h / 24 * 24) u32_range (omega (arith, le)),
        lt→ltb (h / 24 * 24 + h % 24) u32_range (omega (arith, le)),
      )
      (ap some (omega arith))

encoded_len-lt : (t : MySqlTime) → encoded_len t < 256
unfolding encoded_len
encoded_len-lt t = ground arith

module _ (buf : Buf) where
  open buf use {get_le, put_le, put_le_appends}

  read_some : (xs : List ℕ) → 0 < length xs → read_microseconds buf xs ≡ lift (get_le 4 xs)
  unfolding read_microseconds
  read_some [] h = absurd (omega (arith, h))
  read_some (b ∷ bs) h = refl

  read_microseconds_lem :
      (u : ℕ) → u < 1000000 → read_microseconds buf (micros_bytes u) ≡ ok (u, [])
  unfolding micros_bytes read_microseconds
  read_microseconds_lem u h = elim (Bool-cases (u == 0)) [
    | inl e ↦ rw e (ap (λ n. ok (n, [])) (ground (arith, e)))
    | inr e ↦
        rw (e, read_some (to_le_bytes 4 u) (omega (arith, length-to_le_bytes 4 u)))
          (ap lift (
            ap (get_le 4) (sym (append-nil (to_le_bytes 4 u)))
            ∙ get_le-to_le_bytes buf 4 u [] (omega (arith, h))))
  ]

  -- The bytes of a TIME value that is not zero, from the sign on.
  fields : MySqlTime → List ℕ
  fields t =
      to_byte t.sign
      ∷ (to_le_bytes 4 (t.magnitude.hours / 24)
          ++ t.magnitude.hours % 24
            ∷ t.magnitude.minutes
            ∷ t.magnitude.seconds
            ∷ micros_bytes t.magnitude.microseconds)

  length-fields :
      (t : MySqlTime) → length (fields t) ≡ (if t.magnitude.microseconds == 0 then 8 else 12)
  unfolding fields micros_bytes
  length-fields t =
      let days = t.magnitude.hours / 24 in
      let micros = t.magnitude.microseconds in
      ground (
        arith,
        length-append (to_le_bytes 4 days) (
            t.magnitude.hours % 24
            ∷ t.magnitude.minutes
            ∷ t.magnitude.seconds
            ∷ (if micros == 0 then [] else to_le_bytes 4 micros)),
        length-to_le_bytes 4 days,
        length-to_le_bytes 4 micros,
      )

  decode_fields-fields : (t : MySqlTime) → IsValid t → decode_fields buf (fields t) ≡ ok t
  unfolding decode_fields fields
  decode_fields-fields t v =
      let mag = t.magnitude in
      rw
        (
          get_u8 buf (to_byte t.sign),
          from_byte-to_byte t.sign,
          get_le-to_le_bytes buf 4 (mag.hours / 24)
              (mag.hours % 24 ∷ mag.minutes ∷ mag.seconds ∷ micros_bytes mag.microseconds)
              (omega (arith, v)),
          get_u8 buf (mag.hours % 24),
          get_u8 buf mag.minutes,
          get_u8 buf mag.seconds,
          read_microseconds_lem mag.microseconds (omega (arith, v)),
        )
        (rw (hours_lem mag.hours (omega (arith, v))) (
          ap (map_err invalid)
            ((new_iff t.sign mag.hours mag.minutes mag.seconds mag.microseconds t).1 (refl, v))))

  put_micros : (v : List ℕ) (u : ℕ) → (if u == 0 then v else put_le v 4 u) ≡ v ++ micros_bytes u
  unfolding micros_bytes
  put_micros v u = elim (Bool-cases (u == 0)) [
    | inl e ↦ rw e (sym (append-nil v))
    | inr e ↦ rw e (put_le_appends v 4 u)
  ]

  -- What the encoder appends.
  wire : MySqlTime → List ℕ
  wire t = if is_zero t then 0 ∷ [] else encoded_len t ∷ fields t

  encode_by_ref_lem : (t : MySqlTime) (v : List ℕ) → IsValid t → encode_by_ref buf t v ≡ v ++ wire t
  unfolding encode_by_ref wire fields
  encode_by_ref_lem t v valid = elim (Bool-cases (is_zero t)) [
    | inl e ↦ rw (e, put_u8 buf v 0 (omega arith)) refl
    | inr e ↦
        let mag = t.magnitude in
        let start = (v ++ encoded_len t ∷ []) ++ to_byte t.sign ∷ [] in
        let days = start ++ to_le_bytes 4 (mag.hours / 24) in
        rw
          (
            e,
            put_u8 buf v (encoded_len t) (encoded_len-lt t),
            put_u8 buf (v ++ encoded_len t ∷ []) (to_byte t.sign) (to_byte-lt t.sign),
            put_le_appends start 4 (mag.hours / 24),
            put_u8 buf days (mag.hours % 24) (omega arith),
            put_u8 buf (days ++ mag.hours % 24 ∷ []) mag.minutes (omega (arith, valid)),
            put_u8 buf ((days ++ mag.hours % 24 ∷ []) ++ mag.minutes ∷ []) mag.seconds
                (omega (arith, valid)),
            put_micros (((days ++ mag.hours % 24 ∷ []) ++ mag.minutes ∷ []) ++ mag.seconds ∷ [])
                mag.microseconds,
          )
          (simp append_assoc)
  ]

  length-wire : (t : MySqlTime) → length (wire t) ≡ suc (encoded_len t)
  unfolding wire encoded_len
  length-wire t = ground (arith, length-fields t)

  decode-wire : (t : MySqlTime) → IsValid t → decode buf (wire t) ≡ ok t
  unfolding decode wire
  decode-wire t v = elim (Bool-cases (is_zero t)) [
    | inl e ↦ rw (e, get_u8 buf 0) (ap ok (sym (unfold is_zero in zero_lem t.sign t.magnitude e)))
    | inr e ↦
        let some_len : (encoded_len t == 0) ≡ false = unfold encoded_len in ground (arith, e) in
        let fits : (length (fields t) == 8 || length (fields t) == 12) ≡ true =
          ground (arith, length-fields t) in
        rw (e, get_u8 buf (encoded_len t), some_len, fits) (decode_fields-fields t v)
  ]

  -- A valid TIME value is encoded in the announced length plus the byte for it, after what the
  -- buffer held before, and decoded from these bytes to itself.
  pub decode-encode_by_ref :
      (t : MySqlTime)
      → IsValid t
      → (bytes : List ℕ) × ((v : List ℕ) → encode_by_ref buf t v ≡ v ++ bytes)
        × (length bytes ≡ suc (encoded_len t))
        × (decode buf bytes ≡ ok t)
  decode-encode_by_ref t v = (wire t, λ w. encode_by_ref_lem t w v, length-wire t, decode-wire t v)
