-- ===== src/Postgres/Frontend/Tests.antt =====
-- Runs of the frontend messages.
use sqlx.Base.{ℕ, ◌+◌, ◌≡◌, List, [], ◌∷◌, ◌++◌, Option, none, some}
use sqlx.Postgres.Frontend.{
  EncodeError, Bind, close, statement, text, binary, encode_body, encode_msg, format_of,
}
use sqlx.Postgres.Frontend.Framing.{Appends, framed, encode_msg_lem}

-- Enough of `itoa` for an identifier of one digit.
abbrev one_digit : ℕ → List ℕ
one_digit n = (48 + n) ∷ []

-- One parameter format, and two result formats.
abbrev uneven : Bind
uneven = record {
  portal = none;
  statement = some 1;
  formats = binary ∷ [];
  num_params = 0;
  params = [];
  result_formats = text ∷ binary ∷ [];
}

encode_msg_lem_example :
    (body : List ℕ) × (r : Option EncodeError) × Appends
      (encode_body one_digit (close (statement (some 7))))
      body
      r
    × ((v : List ℕ)
        → encode_msg one_digit (close (statement (some 7))) v
          ≡ framed (v ++ format_of (close (statement (some 7))) ∷ []) body r)
encode_msg_lem_example = encode_msg_lem one_digit (close (statement (some 7)))
