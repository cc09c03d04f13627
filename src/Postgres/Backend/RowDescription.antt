-- ===== src/Postgres/Backend/RowDescription.antt =====
-- sqlx-postgres/src/message/row_description.rs: the columns of the rows of a query. Signed numbers
-- are by their bits.
pub mod RoundTrip
pub mod Total
use sqlx.Base.{
  ℕ, zero, suc, Bool, Option, none, some, List, [], ◌∷◌, ltb, ◌==◌, if◌then◌else◌, Outcome, ok, err,
  panic, ◌>>=◌, lift, map_err, length,
}
use sqlx.Base.Bytes.{Buf}
use sqlx.Core.BufExt.{BufError, get_str_nul}

pub record Field : Type 0 where
  pub name : List ℕ
  pub relation_id : Option ℕ
  pub relation_attribute_no : Option ℕ
  pub data_type_id : ℕ
  pub data_type_size : ℕ
  pub type_modifier : ℕ
  pub format : ℕ

-- The numbers in the messages: the length of the buffer, and the name and the length.
pub data RowDescriptionError : Type 0 where
  short_body : ℕ → RowDescriptionError
  short_field : List ℕ → ℕ → RowDescriptionError
  bad_name : BufError → RowDescriptionError

abbrev pub non_zero : ℕ → Option ℕ
non_zero n = if n == 0 then none else some n

module _ (cursor : Buf) (memchr : ℕ → List ℕ → Option ℕ) (is_utf8 : List ℕ → Bool) where
  open cursor use {get_be}

  -- A round of the loop, behind the name and without it.
  unfoldable pub decode_numbers : List ℕ → List ℕ → Outcome RowDescriptionError (Field × List ℕ)
  decode_numbers name buf = if ltb (length buf) 18 then err (short_field name (length buf)) else do
    (relation_id, buf1) ← lift (get_be 4 buf)
    (relation_attribute_no, buf2) ← lift (get_be 2 buf1)
    (data_type_id, buf3) ← lift (get_be 4 buf2)
    (data_type_size, buf4) ← lift (get_be 2 buf3)
    (type_modifier, buf5) ← lift (get_be 4 buf4)
    (format, buf6) ← lift (get_be 2 buf5)
    ok (
      record {
        name = name;
        relation_id = non_zero relation_id;
        relation_attribute_no = non_zero relation_attribute_no;
        data_type_id = data_type_id;
        data_type_size = data_type_size;
        type_modifier = type_modifier;
        format = format;
      },
      buf6,
    )

  unfoldable pub decode_field : List ℕ → Outcome RowDescriptionError (Field × List ℕ)
  unfolding decode_numbers
  decode_field buf = map_err bad_name (get_str_nul cursor memchr is_utf8 buf) >>= λ (name, rest).
      decode_numbers name rest

  unfoldable pub decode_fields : ℕ → List ℕ → Outcome RowDescriptionError (List Field)
  decode_fields zero buf = ok []
  decode_fields (suc n) buf =
      decode_field buf >>= λ (field, rest). decode_fields n rest >>= λ fields. ok (field ∷ fields)

  unfoldable pub decode_body : List ℕ → Outcome RowDescriptionError (List Field)
  unfolding decode_fields
  decode_body buf =
      if ltb (length buf) 2
      then err (short_body (length buf))
      else lift (get_be 2 buf) >>= λ (cnt, rest). decode_fields cnt rest
