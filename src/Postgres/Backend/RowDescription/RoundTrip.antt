-- ===== src/Postgres/Backend/RowDescription/RoundTrip.antt =====
-- sqlx-postgres/src/message/row_description.rs: the columns that the server has described.
use sqlx.Base.{
  ℕ, zero, suc, ◌+◌, ◌≤◌, ◌<◌, ◌≡◌, refl, ap, ◌∙◌, true, false, Bool, Option, none, some, List, [],
  ◌∷◌, ◌++◌, ltb, ok, length, length-append, arith,
}
use sqlx.Base.Bytes.{Buf, to_be_bytes, length-to_be_bytes, get_be-to_be_bytes}
use sqlx.Core.BufExt.{AllDiffer, FindsFirst, get_str_nul-append}
use sqlx.Postgres.Backend.RowDescription.{
  Field, non_zero, decode_numbers, decode_field, decode_fields, decode_body,
}

-- A number that may be missing is a zero where it is.
abbrev or_zero : Option ℕ → ℕ
or_zero none = 0
or_zero (some n) = n

-- A field as the server encodes it, behind its name.
unfoldable pub put_numbers : Field → List ℕ → List ℕ
put_numbers f rest =
    to_be_bytes 4 (or_zero f.relation_id)
    ++ (to_be_bytes 2 (or_zero f.relation_attribute_no)
        ++ (to_be_bytes 4 f.data_type_id
            ++ (to_be_bytes 2 f.data_type_size
                ++ (to_be_bytes 4 f.type_modifier ++ (to_be_bytes 2 f.format ++ rest)))))

unfoldable pub put_fields : List Field → List ℕ
unfolding put_numbers
put_fields [] = []
put_fields (f ∷ fs) = f.name ++ 0 ∷ put_numbers f (put_fields fs)

unfoldable pub put_description : List Field → List ℕ
unfolding put_fields
put_description fs = to_be_bytes 2 (length fs) ++ put_fields fs

-- A number of so many values, that is missing or is not zero.
abbrev pub IsNonZero : ℕ → Option ℕ → Type 0
IsNonZero bound none = Unit
IsNonZero bound (some n) = (0 < n) × (n < bound)

non_zero-or_zero : (bound : ℕ) (o : Option ℕ) → IsNonZero bound o → non_zero (or_zero o) ≡ o
non_zero-or_zero bound none h = refl
non_zero-or_zero bound (some zero) h = absurd (omega (arith, h.0))
non_zero-or_zero bound (some (suc n)) h = ground arith

or_zero_lt : (bound : ℕ) (o : Option ℕ) → 0 < bound → IsNonZero bound o → or_zero o < bound
or_zero_lt bound none b h = b
or_zero_lt bound (some n) b h = h.1

ltb-ge : (a b : ℕ) → b ≤ a → ltb a b ≡ false
ltb-ge a b h = ground arith

length-put_be : (w n : ℕ) (rest : List ℕ) → length (to_be_bytes w n ++ rest) ≡ w + length rest
length-put_be w n rest =
    length-append (to_be_bytes w n) rest ∙ ap (λ l. l + length rest) (length-to_be_bytes w n)

length-put_numbers : (f : Field) (rest : List ℕ) → 18 ≤ length (put_numbers f rest)
unfolding put_numbers
length-put_numbers f rest = omega (arith, length-put_be)

module _ (cursor : Buf) (memchr : ℕ → List ℕ → Option ℕ) (is_utf8 : List ℕ → Bool) where
  -- The fields of a description, within the widths of its numbers.
  abbrev pub IsField : Field → Type 0
  IsField f =
      AllDiffer 0 f.name
      × (is_utf8 f.name ≡ true)
      × IsNonZero 4294967296 f.relation_id
      × IsNonZero 65536 f.relation_attribute_no
      × (f.data_type_id < 4294967296)
      × (f.data_type_size < 65536)
      × (f.type_modifier < 4294967296)
      × (f.format < 65536)

  abbrev pub AreFields : List Field → Type 0
  AreFields [] = Unit
  AreFields (f ∷ fs) = IsField f × AreFields fs

  decode_numbers-put_numbers :
      (f : Field) (rest : List ℕ)
      → IsField f
      → decode_numbers cursor memchr is_utf8 f.name (put_numbers f rest) ≡ ok (f, rest)
  unfolding decode_numbers put_numbers
  decode_numbers-put_numbers f rest
        (differ, text, relation, attribute, type_id, size, modifier, format) =
      rw
        (
          ltb-ge (length (put_numbers f rest)) 18 (length-put_numbers f rest),
          get_be-to_be_bytes cursor 4 (or_zero f.relation_id) _
              (or_zero_lt 4294967296 f.relation_id (omega arith) relation),
          get_be-to_be_bytes cursor 2 (or_zero f.relation_attribute_no) _
              (or_zero_lt 65536 f.relation_attribute_no (omega arith) attribute),
          get_be-to_be_bytes cursor 4 f.data_type_id _ type_id,
          get_be-to_be_bytes cursor 2 f.data_type_size _ size,
          get_be-to_be_bytes cursor 4 f.type_modifier _ modifier,
          get_be-to_be_bytes cursor 2 f.format rest format,
          non_zero-or_zero 4294967296 f.relation_id relation,
          non_zero-or_zero 65536 f.relation_attribute_no attribute,
        )
        refl

  decode_fields-put_fields :
      FindsFirst memchr
      → (fs : List Field) → AreFields fs
      → decode_fields cursor memchr is_utf8 (length fs) (put_fields fs) ≡ ok fs
  unfolding decode_fields decode_field put_fields
  decode_fields-put_fields first [] h = refl
  decode_fields-put_fields first (f ∷ fs) (h, later) =
      rw
        (
          get_str_nul-append cursor memchr is_utf8 first f.name (put_numbers f (put_fields fs)) h.0
              h.1,
          decode_numbers-put_numbers f (put_fields fs) h,
          decode_fields-put_fields first fs later,
        )
        refl

  -- If `memchr` finds the first byte with a value, then at most 65535 fields that the server encodes are
  -- decoded as they are. Their names are UTF-8 without zero bytes, their numbers fit, and a table or a
  -- column that is there is not numbered 0.
  pub decode_body-put_description :
      FindsFirst memchr
      → (fs : List Field) → AreFields fs
      → length fs < 65536
      → decode_body cursor memchr is_utf8 (put_description fs) ≡ ok fs
  unfolding decode_body put_description
  decode_body-put_description first fs h count =
      let header = to_be_bytes 2 (length fs) in
      let total = length-append header (put_fields fs) in
      rw
        (
          ltb-ge (length (header ++ put_fields fs)) 2
              (omega (arith, total, length-to_be_bytes 2 (length fs))),
          get_be-to_be_bytes cursor 2 (length fs) (put_fields fs) count,
        )
        (decode_fields-put_fields first fs h)
