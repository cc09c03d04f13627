-- ===== src/Postgres/Backend/DataRow/Encoded.antt =====
-- sqlx-postgres/src/message/data_row.rs: the body of a row as the server encodes it, and the ranges of
-- its values.
use sqlx.Base.{
  ℕ, ◌+◌, ◌≤◌, ◌<◌, ◌≡◌, ap, ◌∙◌, false, Option, none, some, List, [], ◌∷◌, ◌++◌, ltb, leb, length,
  length-append, arith,
}
use sqlx.Base.Bytes.{to_be_bytes, length-to_be_bytes}

-- A value as the server encodes it: its length, or -1, and its bytes.
unfoldable pub put_value : Option (List ℕ) → List ℕ
put_value none = to_be_bytes 4 4294967295
put_value (some bs) = to_be_bytes 4 (length bs) ++ bs

unfoldable pub put_values : List (Option (List ℕ)) → List ℕ
unfolding put_value
put_values [] = []
put_values (v ∷ vs) = put_value v ++ put_values vs

unfoldable pub put_row : List (Option (List ℕ)) → List ℕ
unfolding put_values
put_row vs = to_be_bytes 2 (length vs) ++ put_values vs

abbrev pub AreShort : List (Option (List ℕ)) → Type 0
AreShort [] = Unit
AreShort (none ∷ vs) = AreShort vs
AreShort (some bs ∷ vs) = (length bs < 2147483648) × AreShort vs

-- The range of a value behind the offset, and the offset behind it.
abbrev pub range_at : ℕ → Option (List ℕ) → Option (ℕ × ℕ)
range_at o none = none
range_at o (some bs) = some (o + 4, o + 4 + length bs)

abbrev pub behind : ℕ → Option (List ℕ) → ℕ
behind o none = o + 4
behind o (some bs) = o + 4 + length bs

unfoldable pub ranges : ℕ → List (Option (List ℕ)) → List (Option (ℕ × ℕ))
ranges o [] = []
ranges o (v ∷ vs) = range_at o v ∷ ranges (behind o v) vs

pub length-put_value : (o : ℕ) (v : Option (List ℕ)) → o + length (put_value v) ≡ behind o v
unfolding put_value
length-put_value o none = omega (arith, length-to_be_bytes 4 4294967295)
length-put_value o (some bs) =
    omega (arith, length-to_be_bytes 4 (length bs), length-append (to_be_bytes 4 (length bs)) bs)

pub ltb-ge : (a b : ℕ) → b ≤ a → ltb a b ≡ false
ltb-ge a b h = ground arith

pub leb-gt : (a b : ℕ) → b < a → leb a b ≡ false
leb-gt a b h = ground arith

pub short_head :
    (v : Option (List ℕ)) (vs : List (Option (List ℕ))) → AreShort (v ∷ vs) → AreShort (v ∷ [])
short_head none vs h = tt
short_head (some bs) vs h = (h.0, tt)

pub short_tail :
    (v : Option (List ℕ)) (vs : List (Option (List ℕ))) → AreShort (v ∷ vs) → AreShort vs
short_tail none vs h = h
short_tail (some bs) vs h = h.1

pub behind-length :
    (pre : List ℕ) (v : Option (List ℕ)) (o : ℕ)
    → length pre ≡ o
    → length (pre ++ put_value v) ≡ behind o v
behind-length pre v o e =
    length-append pre (put_value v) ∙ ap (λ n. n + length (put_value v)) e ∙ length-put_value o v

pub behind_le : (o : ℕ) (v : Option (List ℕ)) → o + 4 ≤ behind o v
behind_le o none = omega arith
behind_le o (some bs) = omega arith
