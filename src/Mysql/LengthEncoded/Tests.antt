-- ===== src/Mysql/LengthEncoded/Tests.antt =====
-- Runs of the length-encoded forms.
use sqlx.Base.{
  ℕ, ◌+◌, ◌≤◌, ◌≡◌, Bool, true, ltb, ◌&&◌, List, [], ◌∷◌, ◌++◌, arith, Option, none, some, ok,
  length, get_elem?, expect,
}
use sqlx.Base.Bytes.Cursor.{cursor}
use sqlx.Mysql.LengthEncoded.{
  Row, row_get, decode_text_row, put_bytes_lenenc, get_bytes_lenenc, get_str_lenenc,
}
use sqlx.Mysql.LengthEncoded.RoundTrip.{get_bytes_lenenc-put_bytes_lenenc}
use sqlx.Mysql.LengthEncoded.Rows.{row_bytes, row_get-decode_text_row}

abbrev name : List ℕ
name = 97 ∷ 98 ∷ 99 ∷ []

-- A stand-in for the check for UTF-8: only ASCII.
abbrev is_ascii : List ℕ → Bool
is_ascii [] = true
is_ascii (c ∷ cs) = ltb c 128 && is_ascii cs

get_bytes_lenenc-put_bytes_lenenc_example :
    (e : List ℕ) × ((b : List ℕ) → put_bytes_lenenc b name ≡ b ++ e)
    × (length e ≤ length name + 9)
    × ((rest : List ℕ) → get_bytes_lenenc cursor (e ++ rest) ≡ ok (name, rest))
    × ((rest : List ℕ) → get_str_lenenc cursor is_ascii (e ++ rest) ≡ ok (name, rest))
get_bytes_lenenc-put_bytes_lenenc_example =
    get_bytes_lenenc-put_bytes_lenenc cursor is_ascii name (omega arith)

abbrev cells : List (Option (List ℕ))
cells = some name ∷ none ∷ some [] ∷ []

row_get-decode_text_row_example :
    (r : Row) × (decode_text_row cursor 3 (row_bytes cells) ≡ ok r)
    × ((i : ℕ) → row_get r i ≡ expect (get_elem? cells i))
row_get-decode_text_row_example =
    row_get-decode_text_row cursor cells (omega arith, (omega arith, tt))
