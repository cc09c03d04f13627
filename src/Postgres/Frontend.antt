-- ===== src/Postgres/Frontend.antt =====
-- sqlx-postgres/src/io and the frontend messages of sqlx-postgres/src/message: names of statements
-- and portals, the length in front of a message, and Bind, Close, Describe and Execute. The crate
-- `itoa`, which writes a number in decimal, is a parameter; the allocation that `encode_with` tries
-- first is taken to succeed.
pub mod Framing
pub mod Binding
mod Tests
use sqlx.Base.{
  ℕ, zero, suc, ◌+◌, ◌-◌, ◌^◌, Bool, true, false, Option, none, some, List, [], ◌∷◌, ◌++◌, ltb,
  if◌then◌else◌, length, take, drop,
}
use sqlx.Base.Bytes.{to_be_bytes}

pub data EncodeError : Type 0 where
  message_size too_many_formats : ℕ → EncodeError

-- What an encoder leaves in the buffer, and its error.
abbrev pub Encoded : Type 0
Encoded = List ℕ × Option EncodeError

-- `none` is unnamed.
abbrev pub IdInner : Type 0
IdInner = Option ℕ

pub next : IdInner → IdInner
next none = none
next (some id) = some (if ltb (id + 1) (2 ^ 32) then id + 1 else 1)

-- "sqlx_s_" and "sqlx_p_".
abbrev pub statement_prefix : List ℕ
statement_prefix = 115 ∷ 113 ∷ 108 ∷ 120 ∷ 95 ∷ 115 ∷ 95 ∷ []

abbrev pub portal_prefix : List ℕ
portal_prefix = 115 ∷ 113 ∷ 108 ∷ 120 ∷ 95 ∷ 112 ∷ 95 ∷ []

abbrev sized : List ℕ → ℕ → Encoded
sized buf offset =
    let size = length buf - offset in
    if ltb size (2 ^ 31)
    then (take offset buf ++ to_be_bytes 4 size ++ drop (offset + 4) buf, none)
    else (take offset buf, some (message_size size))

abbrev prefixed : ℕ → Encoded → Encoded
prefixed offset (buf, none) = sized buf offset
prefixed offset (buf, some e) = (take offset buf, some e)

pub put_length_prefixed : (List ℕ → Encoded) → List ℕ → Encoded
put_length_prefixed write_contents buf =
    prefixed (length buf) (write_contents (buf ++ 0 ∷ 0 ∷ 0 ∷ 0 ∷ []))

pub data PgValueFormat : Type 0 where
  text binary : PgValueFormat

pub format_code : PgValueFormat → ℕ
format_code text = 0
format_code binary = 1

pub put_formats : List PgValueFormat → List ℕ → List ℕ
put_formats [] buf = buf
put_formats (f ∷ fs) buf = put_formats fs (buf ++ to_be_bytes 2 (format_code f))

pub record Bind : Type 0 where
  pub portal : IdInner
  pub statement : IdInner
  pub formats : List PgValueFormat
  pub num_params : ℕ
  pub params : List ℕ
  pub result_formats : List PgValueFormat

pub data Target : Type 0 where
  statement portal : IdInner → Target

pub record Execute : Type 0 where
  pub portal : IdInner
  pub limit : ℕ

pub data Message : Type 0 where
  bind : Bind → Message
  close describe : Target → Message
  execute : Execute → Message

-- `FORMAT`, as a byte.
pub format_of : Message → ℕ
format_of (bind b) = 66
format_of (close t) = 67
format_of (describe t) = 68
format_of (execute e) = 69

module _ (itoa : ℕ → List ℕ) where
  pub put_name_with_nul : IdInner → List ℕ → List ℕ → List ℕ
  put_name_with_nul none name_prefix buf = buf ++ 0 ∷ []
  put_name_with_nul (some id) name_prefix buf = buf ++ name_prefix ++ itoa id ++ 0 ∷ []

  -- `Bind::encode_body`, whose second count is that of `formats`.
  pub encode_bind : Bind → List ℕ → Encoded
  encode_bind b buf =
      let names =
        put_name_with_nul b.statement statement_prefix
          (put_name_with_nul b.portal portal_prefix buf) in
      let counted = put_formats b.formats (names ++ to_be_bytes 2 (length b.formats)) in
      let with_params = counted ++ to_be_bytes 2 b.num_params ++ b.params in
      let results = with_params ++ to_be_bytes 2 (length b.formats) in
      if ltb (length b.formats) 65536
      then (put_formats b.result_formats results, none)
      else (names, some (too_many_formats (length b.formats)))

  -- `encode_body` of Close and of Describe.
  pub encode_target : Target → List ℕ → Encoded
  encode_target (statement id) buf = (put_name_with_nul id statement_prefix (buf ++ 83 ∷ []), none)
  encode_target (portal id) buf = (put_name_with_nul id portal_prefix (buf ++ 80 ∷ []), none)

  pub encode_execute : Execute → List ℕ → Encoded
  encode_execute e buf =
      (put_name_with_nul e.portal portal_prefix buf ++ to_be_bytes 4 e.limit, none)

  pub encode_body : Message → List ℕ → Encoded
  encode_body (bind b) buf = encode_bind b buf
  encode_body (close t) buf = encode_target t buf
  encode_body (describe t) buf = encode_target t buf
  encode_body (execute e) buf = encode_execute e buf

  -- `EncodeMessage::encode_with`.
  pub encode_msg : Message → List ℕ → Encoded
  encode_msg m buf = put_length_prefixed (encode_body m) (buf ++ format_of m ∷ [])
