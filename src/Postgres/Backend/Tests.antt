-- ===== src/Postgres/Backend/Tests.antt =====
-- Runs of the messages of the server.
use sqlx.Base.{
  refl, if◌then◌else◌, ◌==◌, true, Bool, take, Yields, Bool-cases, Option-cases, inl, inr, suc, ℕ,
  ◌≡◌, ◌<◌, length, Option, none, some, List, [], ◌∷◌, ok, get_elem?, arith,
}
use sqlx.Base.Bytes.{to_be_bytes, from_be_bytes}
use sqlx.Base.Bytes.Cursor.{cursor}
use sqlx.Postgres.Backend.DataRow
use sqlx.Postgres.Backend.DataRow.{DataRow, get}
use sqlx.Postgres.Backend.DataRow.Encoded.{put_row, put_values, put_value}
use sqlx.Postgres.Backend.DataRow.RoundTrip.{get-decode_body}
use sqlx.Postgres.Backend.Notice.{
  decode_with, read_fields, on_field, next_field, severity_from, get_cached_str, get_raw, log,
}
use sqlx.Postgres.Backend.Notice.Cached.{text_at, decode_with-Yields}
use sqlx.Postgres.Backend.RowDescription.Total.{decode_body-Yields}
use sqlx.Core.BufExt.{FindsFirst, FindsWithin}
use sqlx.Postgres.Backend.RowDescription.{Field, decode_body}
use sqlx.Postgres.Backend.RowDescription.RoundTrip.{
  AreFields, put_description, decode_body-put_description,
}

abbrev columns : List (Option (List ℕ))
columns = some (1 ∷ 2 ∷ []) ∷ none ∷ some [] ∷ []

small : length (put_row columns) < 4294967296
unfolding put_row put_values put_value to_be_bytes
small = omega arith

get-decode_body_example :
    (row : DataRow) × (DataRow.decode_body cursor (put_row columns) ≡ ok row)
    × ((i : ℕ) (v : Option (List ℕ)) → get_elem? columns i ≡ some v → get row i ≡ ok v)
get-decode_body_example =
    get-decode_body cursor columns (omega arith, (omega arith, tt)) (omega arith) small

-- The index of the first byte with a value.
abbrev after : Option ℕ → Option ℕ
after none = none
after (some i) = some (suc i)

abbrev position : ℕ → List ℕ → Option ℕ
position c [] = none
position c (x ∷ xs) = if x == c then some 0 else after (position c xs)

abbrev any_text : List ℕ → Bool
any_text _ = true

-- A severity `LOG`, a code `42` and a message `ab`, each with its zero, and the last zero.
abbrev notice_bytes : List ℕ
notice_bytes = 83 ∷ 76 ∷ 79 ∷ 71 ∷ 0 ∷ 67 ∷ 52 ∷ 50 ∷ 0 ∷ 77 ∷ 97 ∷ 98 ∷ 0 ∷ 0 ∷ []

notice_decoded :
    decode_with position any_text notice_bytes
    ≡ ok (record { storage = notice_bytes; severity = log; message = (10, 12); code = (6, 8) })
unfolding decode_with read_fields on_field next_field severity_from
notice_decoded = refl

position-FindsWithin : FindsWithin position
position-FindsWithin c [] i h = absurd (cc)
position-FindsWithin c (x ∷ xs) i h = elim (Bool-cases (x == c)) [
  | inl e ↦ let first : 0 ≡ i = cc in omega (arith, first)
  | inr e ↦ elim (Option-cases (position c xs)) [
    | inl none_ ↦ absurd (cc)
    | inr (j, found) ↦
        let next : suc j ≡ i = cc in omega (arith, position-FindsWithin c xs j found, next)
  ]
]

decode_with-Yields_example :
    Yields
      (λ n.
        (n.storage ≡ notice_bytes)
        × (get_cached_str position any_text n.storage n.message
            ≡ ok (text_at notice_bytes n.message))
        × (get_cached_str position any_text n.storage n.code ≡ ok (text_at notice_bytes n.code))
        × ((ty : ℕ) → Yields (λ _. Unit {0}) (get_raw position any_text n ty)))
      (decode_with position any_text notice_bytes)
decode_with-Yields_example =
    decode_with-Yields position any_text position-FindsWithin refl notice_bytes

position-FindsFirst : FindsFirst position
position-FindsFirst c [] rest h = ground arith
position-FindsFirst c (x ∷ xs) rest (x_differs, differ) =
    rw (position-FindsFirst c xs rest differ) (ground (arith, x_differs))

-- A column `id` of a table, and an expression without a name.
abbrev described : List Field
described =
    record {
      name = 105 ∷ 100 ∷ [];
      relation_id = some 16384;
      relation_attribute_no = some 1;
      data_type_id = 23;
      data_type_size = 4;
      type_modifier = 4294967295;
      format = 1;
    }
    ∷ record {
      name = [];
      relation_id = none;
      relation_attribute_no = none;
      data_type_id = 25;
      data_type_size = 65535;
      type_modifier = 4294967295;
      format = 1;
    }
    ∷ []

described-AreFields : AreFields cursor position any_text described
described-AreFields = (
  (
    ((λ e. omega (arith, e)), ((λ e. omega (arith, e)), tt)),
    refl,
    (omega arith, omega arith),
    (omega arith, omega arith),
    omega arith,
    omega arith,
    omega arith,
    omega arith,
  ),
  ((tt, refl, tt, tt, omega arith, omega arith, omega arith, omega arith), tt),
)

decode_body-put_description_example :
    decode_body cursor position any_text (put_description described) ≡ ok described
decode_body-put_description_example =
    decode_body-put_description cursor position any_text position-FindsFirst described
      described-AreFields (omega arith)

-- A description of one field that ends after its name.
abbrev cut_off : List ℕ
cut_off = 0 ∷ 1 ∷ 105 ∷ 0 ∷ 7 ∷ []

decode_body-Yields_example :
    Yields
      (λ fs. length fs ≡ from_be_bytes (take 2 cut_off))
      (decode_body cursor position any_text cut_off)
decode_body-Yields_example =
    decode_body-Yields cursor position any_text position-FindsWithin cut_off
