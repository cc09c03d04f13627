-- ===== src/Mysql/LengthEncoded/RoundTrip.antt =====
-- Reading back what has its length in front.
use mathlib.Core.List.{append_assoc}
use sqlx.Base.{
  ℕ, ◌+◌, ◌^◌, ◌≤◌, ◌<◌, ◌≡◌, ◌≢◌, refl, inl, inr, true, false, List, [], ◌∷◌, ◌++◌, arith, leb,
  ◌==◌, if◌then◌else◌, Bool, ap, ◌∙◌, ok, err, length, length-append, Bool-cases,
}
use sqlx.Base.Bytes.{
  Buf, to_le_bytes, get_le-to_le_bytes, get_u8, take-to_le_bytes, length-to_le_bytes,
  split_to-append, byte-to_le_bytes,
}
use sqlx.Mysql.LengthEncoded.{
  put_uint_lenenc, put_bytes_lenenc, uint_after, get_uint_lenenc, get_bytes_lenenc, get_str_lenenc,
}
use sqlx.Core.BufExt.{not_utf8, get_str-append}

-- The first byte of the encoding, and the others.
unfoldable pub head_byte : ℕ → ℕ
head_byte v =
    if leb v 250 then v else if leb v 65535 then 252 else if leb v 16777215 then 253 else 254

unfoldable pub tail_bytes : ℕ → List ℕ
tail_bytes v =
    if leb v 250
    then []
    else if leb v 65535
    then to_le_bytes 2 v
    else if leb v 16777215
    then to_le_bytes 3 v
    else to_le_bytes 8 v

-- Which of the four forms.
data Form (v : ℕ) : Type 0 where
  one : leb v 250 ≡ true → Form v
  two : leb v 250 ≡ false → leb v 65535 ≡ true → Form v
  three : leb v 250 ≡ false → leb v 65535 ≡ false → leb v 16777215 ≡ true → Form v
  eight : leb v 250 ≡ false → leb v 65535 ≡ false → leb v 16777215 ≡ false → Form v

form : (v : ℕ) → Form v
form v = elim (Bool-cases (leb v 250)) [
  | inl a ↦ one a
  | inr a ↦ elim (Bool-cases (leb v 65535)) [
    | inl b ↦ two a b
    | inr b ↦ elim (Bool-cases (leb v 16777215)) [ inl c ↦ three a b c | inr c ↦ eight a b c ]
  ]
]

pub put_uint_lenenc_lem :
    (v : ℕ) (buf : List ℕ) → put_uint_lenenc buf v ≡ buf ++ head_byte v ∷ tail_bytes v
unfolding put_uint_lenenc head_byte tail_bytes
put_uint_lenenc_lem v buf = elim (form v) [
  | one a ↦ rw (a, take-to_le_bytes 1 7 v, byte-to_le_bytes v (ground (arith, a))) refl
  | two a b ↦ rw (a, b, take-to_le_bytes 2 6 v) (append_assoc buf (252 ∷ []) (to_le_bytes 2 v))
  | three a b c ↦
      rw (a, b, c, take-to_le_bytes 3 5 v) (append_assoc buf (253 ∷ []) (to_le_bytes 3 v))
  | eight a b c ↦ rw (a, b, c) (append_assoc buf (254 ∷ []) (to_le_bytes 8 v))
]

length-tail_bytes : (v : ℕ) → length (tail_bytes v) ≤ 8
unfolding tail_bytes
length-tail_bytes v = elim (form v) [
  | one a ↦ rw a (omega arith)
  | two a b ↦ rw (a, b) (omega (arith, length-to_le_bytes 2 v))
  | three a b c ↦ rw (a, b, c) (omega (arith, length-to_le_bytes 3 v))
  | eight a b c ↦ rw (a, b, c) (omega (arith, length-to_le_bytes 8 v))
]

pub head_byte-≢ : (v : ℕ) → head_byte v ≢ 251
unfolding head_byte
head_byte-≢ v = ground arith

module _ (buf : Buf) where
  open buf use {get_le}

  uint_after_lem :
      (v : ℕ) (rest : List ℕ)
      → v < 2 ^ 64
      → uint_after buf (head_byte v) (tail_bytes v ++ rest) ≡ ok (v, rest)
  unfolding uint_after head_byte tail_bytes
  uint_after_lem v rest h = elim (form v) [
    | one a ↦
        let x : (v == 252) ≡ false = ground (arith, a) in
        let y : (v == 253) ≡ false = ground (arith, a) in
        let z : (v == 254) ≡ false = ground (arith, a) in rw (a, x, y, z) refl
    | two a b ↦ rw (a, b) (get_le-to_le_bytes buf 2 v rest (ground (arith, b)))
    | three a b c ↦ rw (a, b, c) (get_le-to_le_bytes buf 3 v rest (ground (arith, c)))
    | eight a b c ↦ rw (a, b, c) (get_le-to_le_bytes buf 8 v rest (omega (arith, h)))
  ]

  pub get_uint_lenenc_lem :
      (v : ℕ) (rest : List ℕ)
      → v < 2 ^ 64
      → get_uint_lenenc buf (head_byte v ∷ (tail_bytes v ++ rest)) ≡ ok (v, rest)
  unfolding get_uint_lenenc
  get_uint_lenenc_lem v rest h = rw (get_u8 buf (head_byte v)) (uint_after_lem v rest h)

  -- What `put_bytes_lenenc` appends to a buffer for fewer than 2^64 bytes, whatever the buffer holds,
  -- `get_bytes_lenenc` reads back, and leaves what follows; `get_str_lenenc` does so too if the bytes
  -- are UTF-8, and returns its error if they are not. The length takes at most nine bytes.
  pub get_bytes_lenenc-put_bytes_lenenc :
      (is_utf8 : List ℕ → Bool) (v : List ℕ)
      → length v < 2 ^ 64
      → (e : List ℕ) × ((b : List ℕ) → put_bytes_lenenc b v ≡ b ++ e)
        × (length e ≤ length v + 9)
        × ((rest : List ℕ) → get_bytes_lenenc buf (e ++ rest) ≡ ok (v, rest))
        × ((rest : List ℕ)
            → get_str_lenenc buf is_utf8 (e ++ rest)
              ≡ (if is_utf8 v then ok (v, rest) else err not_utf8))
  unfolding put_bytes_lenenc get_bytes_lenenc get_str_lenenc
  get_bytes_lenenc-put_bytes_lenenc is_utf8 v h =
      let counted = λ (rest : List ℕ).
        ap (λ x. get_uint_lenenc buf (head_byte (length v) ∷ x))
          (append_assoc (tail_bytes (length v)) v rest)
        ∙ get_uint_lenenc_lem (length v) (v ++ rest) h in
      (
        (head_byte (length v) ∷ tail_bytes (length v)) ++ v,
        λ b.
            rw (put_uint_lenenc_lem (length v) b)
              (append_assoc b (head_byte (length v) ∷ tail_bytes (length v)) v),
        omega (arith, length-append (tail_bytes (length v)) v, length-tail_bytes (length v)),
        λ rest. rw (counted rest, split_to-append buf v rest) refl,
        λ rest. rw (counted rest) (get_str-append buf is_utf8 v rest),
      )
