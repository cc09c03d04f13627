-- ===== src/Postgres/Backend/DataRow/RoundTrip.antt =====
-- sqlx-postgres/src/message/data_row.rs: the values of a row that the server has encoded.
use mathlib.Core.List.{append_assoc}
use sqlx.Base.{
  ℕ, zero, suc, ◌+◌, ◌<◌, ◌≡◌, refl, sym, ap, ◌∙◌, Option, none, some, List, [], ◌∷◌, ◌++◌, lt→ltb,
  le→leb, ok, panic, ◌>>=◌, expect, length, length-append, get_elem?, arith,
}
use sqlx.Base.Slices.{slice, slice-middle, drop-append}
use sqlx.Base.Bytes.{Buf, to_be_bytes, length-to_be_bytes, get_be-to_be_bytes}
use sqlx.Postgres.Backend.DataRow.{
  DataRow, range_of, get, value_of, decode_value, decode_values, decode_body,
}
use sqlx.Postgres.Backend.DataRow.Encoded.{
  put_value, put_values, put_row, AreShort, range_at, behind, ranges, length-put_value, ltb-ge,
  leb-gt, short_head, short_tail, behind-length,
}

module _ (cursor : Buf) where
  open cursor use {get_be}

  decode_value-to_be_bytes :
      (pre rest : List ℕ) (n o : ℕ)
      → length pre ≡ o
      → n < 4294967296
      → o + 4 < 4294967296
      → decode_value cursor (pre ++ (to_be_bytes 4 n ++ rest)) o ≡ value_of o n
  unfolding decode_value
  decode_value-to_be_bytes pre rest n o e h fits =
      let len = length-append pre (to_be_bytes 4 n ++ rest) in
      let inner = length-append (to_be_bytes 4 n) rest in
      rw
        (
          lt→ltb (o + 4) 4294967296 fits,
          ltb-ge (length (pre ++ (to_be_bytes 4 n ++ rest))) (o + 4)
              (omega (arith, len, inner, length-to_be_bytes 4 n)),
          drop-append pre (to_be_bytes 4 n ++ rest) o e,
          get_be-to_be_bytes cursor 4 n rest h,
        )
        refl

  decode_value-put_value :
      (pre rest : List ℕ) (v : Option (List ℕ)) (o : ℕ)
      → length pre ≡ o
      → AreShort (v ∷ [])
      → behind o v < 4294967296
      → decode_value cursor (pre ++ (put_value v ++ rest)) o ≡ ok (range_at o v, behind o v)
  unfolding put_value
  decode_value-put_value pre rest none o e h fits =
      decode_value-to_be_bytes pre rest 4294967295 o e (omega arith) fits
  decode_value-put_value pre rest (some bs) o e h fits =
      ap (λ x. decode_value cursor (pre ++ x) o) (append_assoc (to_be_bytes 4 (length bs)) bs rest)
      ∙ decode_value-to_be_bytes pre (bs ++ rest) (length bs) o e (omega (arith, h.0)) (omega arith)
      ∙ rw (lt→ltb (length bs) 2147483648 h.0, lt→ltb (o + 4 + length bs) 4294967296 fits) refl

  decode_values-put_values :
      (pre : List ℕ) (vs : List (Option (List ℕ))) (o : ℕ)
      → length pre ≡ o
      → AreShort vs
      → o + length (put_values vs) < 4294967296
      → decode_values cursor (length vs) (pre ++ put_values vs) o ≡ ok (ranges o vs)
  unfolding decode_values put_values ranges
  decode_values-put_values pre [] o e h fits = refl
  decode_values-put_values pre (v ∷ vs) o e h fits =
      let size = length-append (put_value v) (put_values vs) in
      let first =
        decode_value-put_value pre (put_values vs) v o e (short_head v vs h)
          (omega (arith, size, length-put_value o v)) in
      let later =
        decode_values-put_values (pre ++ put_value v) vs (behind o v) (behind-length pre v o e)
          (short_tail v vs h) (omega (arith, size, length-put_value o v)) in
      let here =
        ap (λ x. decode_values cursor (length vs) x (behind o v))
          (sym (append_assoc pre (put_value v) (put_values vs))) in
      rw (first, here, later) refl

range_of-put_value :
    (pre rest : List ℕ) (v : Option (List ℕ)) (o : ℕ)
    → length pre ≡ o
    → range_of (pre ++ (put_value v ++ rest)) (range_at o v) ≡ ok v
unfolding put_value
range_of-put_value pre rest none o e = refl
range_of-put_value pre rest (some bs) o e =
    let header = to_be_bytes 4 (length bs) in
    let size = length-to_be_bytes 4 (length bs) in
    let grouped : ((pre ++ header) ++ bs) ++ rest ≡ pre ++ ((header ++ bs) ++ rest) =
      ap (λ x. x ++ rest) (append_assoc pre header bs) ∙ append_assoc pre (header ++ bs) rest in
    let here =
      slice-middle (pre ++ header) bs rest (o + 4) (o + 4 + length bs)
        (omega (arith, length-append pre header, size)) refl in
    let total = length-append pre ((header ++ bs) ++ rest) in
    let inner = length-append (header ++ bs) rest in
    let first = length-append header bs in
    rw
      (
        le→leb (o + 4) (o + 4 + length bs) (omega arith),
        le→leb (o + 4 + length bs) (length (pre ++ ((header ++ bs) ++ rest)))
            (omega (arith, total, inner, first, size)),
      )
      (ap (λ x. ok (some (slice x (o + 4) (o + 4 + length bs)))) (sym grouped)
        ∙ ap (λ x. ok (some x)) here)

get-ranges :
    (pre : List ℕ) (vs : List (Option (List ℕ))) (o i : ℕ) (v : Option (List ℕ))
    → length pre ≡ o
    → get_elem? vs i ≡ some v
    → (expect (get_elem? (ranges o vs) i) >>= range_of (pre ++ put_values vs)) ≡ ok v
unfolding ranges put_values
get-ranges pre [] o i v e h = absurd (cc)
get-ranges pre (w ∷ vs) o zero v e h =
    range_of-put_value pre (put_values vs) w o e ∙ ap ok (let same : w ≡ v = cc in same)
get-ranges pre (w ∷ vs) o (suc i) v e h =
    ap (λ x. expect (get_elem? (ranges (behind o w) vs) i) >>= range_of x)
      (sym (append_assoc pre (put_value w) (put_values vs)))
    ∙ get-ranges (pre ++ put_value w) vs (behind o w) i v (behind-length pre w o e) h

-- A row of at most 65535 values, each of less than 2^31 bytes, that the server encodes in less than
-- 2^32 bytes is decoded, and each of its values is got back, a NULL as none.
pub get-decode_body :
    (cursor : Buf) (vs : List (Option (List ℕ)))
    → AreShort vs
    → length vs < 65536
    → length (put_row vs) < 4294967296
    → (row : DataRow) × (decode_body cursor (put_row vs) ≡ ok row)
      × ((i : ℕ) (v : Option (List ℕ)) → get_elem? vs i ≡ some v → get row i ≡ ok v)
unfolding decode_body get put_row
get-decode_body cursor vs h count fits =
    let header = to_be_bytes 2 (length vs) in
    let size = length-to_be_bytes 2 (length vs) in
    let total = length-append header (put_values vs) in
    let all = decode_values-put_values cursor header vs 2 size h (omega (arith, total, size)) in
    (
      record { storage = put_row vs; values = ranges 2 vs },
      rw
          (
            ltb-ge (length (header ++ put_values vs)) 2 (omega (arith, total, size)),
            get_be-to_be_bytes cursor 2 (length vs) (put_values vs) count,
            all,
          )
          refl,
      λ i v e. get-ranges header vs 2 i v size e,
    )

-- A body whose last value is shorter than its length says is decoded without an error, and the
-- access to the value panics.
pub get_truncated :
    (cursor : Buf) (bs : List ℕ) (n : ℕ)
    → length bs < n
    → n < 2147483648
    → (row : DataRow) × (decode_body cursor (to_be_bytes 2 1 ++ (to_be_bytes 4 n ++ bs)) ≡ ok row)
      × (get row 0 ≡ panic)
unfolding decode_body decode_values get
get_truncated cursor bs n short h =
    let header = to_be_bytes 2 1 in
    let size = length-to_be_bytes 2 1 in
    let total = length-append header (to_be_bytes 4 n ++ bs) in
    let inner = length-append (to_be_bytes 4 n) bs in
    let number = length-to_be_bytes 4 n in
    let one = decode_value-to_be_bytes cursor header bs n 2 size (omega arith) (omega arith) in
    (
      record { storage = header ++ (to_be_bytes 4 n ++ bs); values = some (6, 6 + n) ∷ [] },
      rw
          (
            ltb-ge (length (header ++ (to_be_bytes 4 n ++ bs))) 2 (omega (arith, total, size)),
            get_be-to_be_bytes cursor 2 1 (to_be_bytes 4 n ++ bs) (omega arith),
            one,
            lt→ltb n 2147483648 h,
            lt→ltb (6 + n) 4294967296 (omega arith),
          )
          refl,
      rw
          (
            le→leb 6 (6 + n) (omega arith),
            leb-gt (6 + n) (length (header ++ (to_be_bytes 4 n ++ bs)))
                (omega (arith, total, inner, size, number)),
          )
          refl,
    )
