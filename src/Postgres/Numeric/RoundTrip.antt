-- ===== src/Postgres/Numeric/RoundTrip.antt =====
-- Reading back a NUMERIC value.
use mathlib.Core.List.{append_assoc, append-nil}
use sqlx.Base.{
  ℕ, ◌+◌, ◌-◌, ◌<◌, ◌≡◌, refl, sym, ap, ◌∙◌, true, false, none, some, List, [], ◌∷◌, ◌++◌, arith,
  ltb, ◌==◌, ok, length,
}
use sqlx.Base.Int.{ℤ, pos, negsuc}
use sqlx.Base.Bytes.{Buf, to_be_bytes, get_be-to_be_bytes}
use sqlx.Postgres.Numeric.{
  PgNumericSign, positive, negative, PgNumeric, not_a_number, number, i16_bits, i16_of_bits,
  try_from_u16, sign_bits, is_valid_digit, put_digits, encode, get_digits, decode_body, decode,
  sign_nan, digit_out_of_range,
}

abbrev pub IsI16 : ℤ → Type 0
IsI16 (pos n) = n < 32768
IsI16 (negsuc n) = n < 32768

abbrev pub AreDigits : List ℤ → Type 0
AreDigits [] = Unit
AreDigits (d ∷ ds) = (is_valid_digit d ≡ true) × AreDigits ds

-- What the wire format can hold.
abbrev pub IsWire : PgNumeric → Type 0
IsWire not_a_number = Unit
IsWire (number sign digits weight scale) =
    (length digits < 32768) × AreDigits digits × IsI16 weight × IsI16 scale

i16_of_bits-i16_bits : (z : ℤ) → IsI16 z → i16_of_bits (i16_bits z) ≡ z
unfolding i16_of_bits i16_bits
i16_of_bits-i16_bits (pos n) h = ground (arith, h)
i16_of_bits-i16_bits (negsuc n) h =
    let high : ltb (65535 - n) 32768 ≡ false = ground (arith, h) in
    rw high (ap negsuc (omega (arith, h)))

i16_bits-lt : (z : ℤ) → IsI16 z → i16_bits z < 65536
unfolding i16_bits
i16_bits-lt (pos n) h = omega (arith, h)
i16_bits-lt (negsuc n) h = omega arith

digit-IsI16 : (z : ℤ) → is_valid_digit z ≡ true → IsI16 z
unfolding is_valid_digit
digit-IsI16 (pos n) h = ground (arith, h)
digit-IsI16 (negsuc n) h = cc h

sign_bits-lt : (s : PgNumericSign) → sign_bits s < 65536
unfolding sign_bits
sign_bits-lt positive = omega arith
sign_bits-lt negative = omega arith

sign_bits-nan : (s : PgNumericSign) → (sign_bits s == sign_nan) ≡ false
unfolding sign_bits
sign_bits-nan positive = refl
sign_bits-nan negative = refl

try_from_u16-sign_bits : (s : PgNumericSign) → try_from_u16 (sign_bits s) ≡ ok s
unfolding try_from_u16 sign_bits
try_from_u16-sign_bits positive = refl
try_from_u16-sign_bits negative = refl

digit_bytes : List ℤ → List ℕ
digit_bytes [] = []
digit_bytes (d ∷ ds) = to_be_bytes 2 (i16_bits d) ++ digit_bytes ds

put_digits_lem :
    (i : ℕ) (ds : List ℤ) (v : List ℕ)
    → AreDigits ds
    → put_digits i ds v ≡ (v ++ digit_bytes ds, none)
unfolding put_digits digit_bytes
put_digits_lem i [] v h = ap (λ xs. (xs, none)) (sym (append-nil v))
put_digits_lem i (d ∷ ds) v h =
    rw (h.0, put_digits_lem (i + 1) ds (v ++ to_be_bytes 2 (i16_bits d)) h.1)
      (ap (λ xs. (xs, none)) (append_assoc v (to_be_bytes 2 (i16_bits d)) (digit_bytes ds)))

-- The four fields in front, and the digits.
header : ℕ → ℕ → ℕ → ℕ → List ℕ → List ℕ
header a b c d rest =
    to_be_bytes 2 a ++ (to_be_bytes 2 b ++ (to_be_bytes 2 c ++ (to_be_bytes 2 d ++ rest)))

append-header :
    (a b c d : ℕ) (v rest : List ℕ)
    → v ++ to_be_bytes 2 a ++ to_be_bytes 2 b ++ to_be_bytes 2 c ++ to_be_bytes 2 d ++ rest
      ≡ v ++ header a b c d rest
unfolding header
append-header a b c d v rest = simp append_assoc

module _ (buf : Buf) where
  open buf use {get_be}

  get_digits_lem :
      (ds : List ℤ) → AreDigits ds → get_digits buf (length ds) (digit_bytes ds) ≡ ok (ds, [])
  unfolding get_digits digit_bytes
  get_digits_lem [] h = refl
  get_digits_lem (d ∷ ds) h =
      rw
        (
          get_be-to_be_bytes buf 2 (i16_bits d) (digit_bytes ds)
              (i16_bits-lt d (digit-IsI16 d h.0)),
          get_digits_lem ds h.1,
          i16_of_bits-i16_bits d (digit-IsI16 d h.0),
        )
        refl

  decode-header :
      (a b c d : ℕ) (rest : List ℕ)
      → a < 65536
      → b < 65536
      → c < 65536
      → d < 65536
      → decode buf (header a b c d rest) ≡ decode_body buf a (i16_of_bits b) c (i16_of_bits d) rest
  unfolding decode header
  decode-header a b c d rest ha hb hc hd =
      rw
        (
          get_be-to_be_bytes buf 2 a
              (to_be_bytes 2 b ++ (to_be_bytes 2 c ++ (to_be_bytes 2 d ++ rest))) ha,
          get_be-to_be_bytes buf 2 b (to_be_bytes 2 c ++ (to_be_bytes 2 d ++ rest)) hb,
          get_be-to_be_bytes buf 2 c (to_be_bytes 2 d ++ rest) hc,
          get_be-to_be_bytes buf 2 d rest hd,
        )
        refl

  -- A value that the wire format can hold, with every digit below 10000, is encoded without error
  -- behind what the buffer holds, and decoded from these bytes to itself.
  pub decode-encode :
      (n : PgNumeric)
      → IsWire n
      → (bytes : List ℕ) × ((v : List ℕ) → encode n v ≡ (v ++ bytes, none))
        × (decode buf bytes ≡ ok n)
  unfolding encode decode_body
  decode-encode not_a_number h = (
    header 0 0 sign_nan 0 [],
    λ v.
        ap (λ xs. (xs, none))
          (sym (
              append-nil (
                v
                ++ to_be_bytes 2 0
                ++ to_be_bytes 2 0
                ++ to_be_bytes 2 sign_nan
                ++ to_be_bytes 2 0))
            ∙ append-header 0 0 sign_nan 0 v []),
    decode-header 0 0 sign_nan 0 [] (omega arith) (omega arith) (omega arith) (omega arith),
  )
  decode-encode (number s ds w sc) h = (
    header (length ds) (i16_bits w) (sign_bits s) (i16_bits sc) (digit_bytes ds),
    λ v.
        let fits : ltb 32767 (length ds) ≡ false = ground (arith, h.0) in
        let start =
          v
          ++ to_be_bytes 2 (length ds)
          ++ to_be_bytes 2 (i16_bits w)
          ++ to_be_bytes 2 (sign_bits s)
          ++ to_be_bytes 2 (i16_bits sc) in
        rw (fits, put_digits_lem 0 ds start h.1)
          (ap (λ xs. (xs, none))
            (append-header (length ds) (i16_bits w) (sign_bits s) (i16_bits sc) v
              (digit_bytes ds))),
    decode-header (length ds) (i16_bits w) (sign_bits s) (i16_bits sc) (digit_bytes ds)
          (omega (arith, h.0)) (i16_bits-lt w h.2) (sign_bits-lt s) (i16_bits-lt sc h.3)
        ∙ rw
            (
              sign_bits-nan s,
              get_digits_lem ds h.1,
              try_from_u16-sign_bits s,
              i16_of_bits-i16_bits w h.2,
              i16_of_bits-i16_bits sc h.3,
            )
            refl,
  )

-- The error names the first digit that is out of range.
put_digits_bad :
    (i : ℕ) (good : List ℤ) (d : ℤ) (ds : List ℤ) (v : List ℕ)
    → AreDigits good
    → is_valid_digit d ≡ false
    → (put_digits i (good ++ d ∷ ds) v).1 ≡ some (digit_out_of_range (i + length good) d)
unfolding put_digits
put_digits_bad i [] d ds v g b = rw b (ap (λ k. some (digit_out_of_range k d)) (omega arith))
put_digits_bad i (x ∷ good) d ds v g b =
    rw (g.0, put_digits_bad (i + 1) good d ds (v ++ to_be_bytes 2 (i16_bits x)) g.1 b)
      (ap (λ k. some (digit_out_of_range k d)) (omega arith))

-- A number with at most 32767 digits of which one is not below 10000 is refused, with the index and
-- the value of the first such digit.
pub encode-refuses :
    (s : PgNumericSign) (good : List ℤ) (d : ℤ) (ds : List ℤ) (w sc : ℤ) (v : List ℕ)
    → length (good ++ d ∷ ds) < 32768
    → AreDigits good
    → is_valid_digit d ≡ false
    → (encode (number s (good ++ d ∷ ds) w sc) v).1 ≡ some (digit_out_of_range (length good) d)
unfolding encode
encode-refuses s good d ds w sc v h g b =
    let fits : ltb 32767 (length (good ++ d ∷ ds)) ≡ false = ground (arith, h) in
    rw fits
      (put_digits_bad 0 good d ds _ g b ∙ ap (λ k. some (digit_out_of_range k d)) (omega arith))
