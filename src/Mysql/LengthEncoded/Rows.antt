-- ===== src/Mysql/LengthEncoded/Rows.antt =====
-- The values that a row of the text protocol gives out.
use mathlib.Core.List.{append_assoc}
use sqlx.Base.{
  ℕ, zero, suc, ◌+◌, ◌-◌, ◌^◌, ◌<◌, ◌≡◌, refl, sym, ◌∙◌, false, Option, none, some, List, [], ◌∷◌,
  ◌++◌, arith, ◌==◌, ok, length, length-append, get_elem?, expect, le→leb,
}
use sqlx.Base.Slices.{slice, take-append, take-append_length, drop-append}
use sqlx.Base.Bytes.{Buf, advance-append}
use sqlx.Mysql.LengthEncoded.{Row, row_get, value_in, column_value, column_values, decode_text_row}
use sqlx.Mysql.LengthEncoded.RoundTrip.{head_byte, tail_bytes, get_uint_lenenc_lem, head_byte-≢}

-- What a server sends for one value, and for a row.
abbrev pub cell_bytes : Option (List ℕ) → List ℕ
cell_bytes none = 251 ∷ []
cell_bytes (some v) = head_byte (length v) ∷ (tail_bytes (length v) ++ v)

abbrev pub row_bytes : List (Option (List ℕ)) → List ℕ
row_bytes [] = []
row_bytes (c ∷ cs) = cell_bytes c ++ row_bytes cs

abbrev pub Short : List (Option (List ℕ)) → Type 0
Short [] = Unit
Short (none ∷ cs) = Short cs
Short (some v ∷ cs) = (length v < 2 ^ 64) × Short cs

slice-middle :
    (pre v post : List ℕ) → slice (pre ++ (v ++ post)) (length pre) (length pre + length v) ≡ v
slice-middle pre v post =
    rw
      (
        take-append_length pre (v ++ post) (length pre) (length v) refl,
        take-append v post (length v) refl,
      )
      (drop-append pre v (length pre) refl)

-- A value that the row finds where the loop has put it.
value_in-middle :
    (storage pre v post : List ℕ)
    → storage ≡ pre ++ (v ++ post)
    → (let start = length storage - length (v ++ post) in
        value_in storage (some (some (start, start + length v))))
      ≡ ok (some v)
value_in-middle storage pre v post e =
    let start : length (pre ++ (v ++ post)) - length (v ++ post) ≡ length pre =
      omega (arith, length-append pre (v ++ post)) in
    rw
      (
        e,
        start,
        le→leb (length pre) (length pre + length v) (omega arith),
        le→leb (length pre + length v) (length (pre ++ (v ++ post)))
            (omega (arith, length-append pre (v ++ post), length-append v post)),
        slice-middle pre v post,
      )
      refl

-- The row with these cells after `pre` is read as they are.
abbrev Reads : List ℕ → List (Option (List ℕ)) → List (Option (ℕ × ℕ)) → Type 0
Reads storage cs vs = (i : ℕ) → value_in storage (get_elem? vs i) ≡ expect {E = ⊥} (get_elem? cs i)

Reads-cons :
    (storage : List ℕ) (c : Option (List ℕ)) (cs : List (Option (List ℕ))) (v : Option (ℕ × ℕ))
    (vs : List (Option (ℕ × ℕ)))
    → value_in storage (some v) ≡ ok c
    → Reads storage cs vs
    → Reads storage (c ∷ cs) (v ∷ vs)
Reads-cons storage c cs v vs here there zero = here
Reads-cons storage c cs v vs here there (suc i) = there i

module _ (buf : Buf) where
  open buf use {get_le, advance}

  column_value-some :
      (total : ℕ) (v rest : List ℕ)
      → length v < 2 ^ 64
      → column_value buf total (head_byte (length v)) (cell_bytes (some v) ++ rest)
        ≡ ok (some (total - length (v ++ rest), total - length (v ++ rest) + length v), rest)
  unfolding column_value
  column_value-some total v rest h =
      let null : (head_byte (length v) == 251) ≡ false = ground (arith, head_byte-≢ (length v)) in
      rw
        (
          null,
          append_assoc (tail_bytes (length v)) v rest,
          get_uint_lenenc_lem buf (length v) (v ++ rest) h,
          advance-append buf v rest,
        )
        refl

  column_value-none :
      (total : ℕ) (rest : List ℕ) → column_value buf total 251 (251 ∷ rest) ≡ ok (none, rest)
  unfolding column_value
  column_value-none total rest = rw (advance-append buf (251 ∷ []) rest) refl

  column_values_lem :
      (cs : List (Option (List ℕ))) (pre storage : List ℕ)
      → storage ≡ pre ++ row_bytes cs
      → Short cs
      → (vs : List (Option (ℕ × ℕ))) × (column_values buf
            (length cs)
            (length storage)
            (row_bytes cs)
          ≡ ok vs)
        × Reads storage cs vs
  unfolding column_values
  column_values_lem [] pre storage e h = ([], refl, λ i. refl)
  column_values_lem (none ∷ cs) pre storage e h =
      let (vs, run, reads) =
        column_values_lem cs (pre ++ 251 ∷ []) storage
          (e ∙ sym (append_assoc pre (251 ∷ []) (row_bytes cs))) h in
      (
        none ∷ vs,
        rw (column_value-none (length storage) (row_bytes cs), run) refl,
        Reads-cons storage none cs none vs refl reads,
      )
  column_values_lem (some v ∷ cs) pre storage e h =
      let cell = cell_bytes (some v) in
      let rest = row_bytes cs in
      let (vs, run, reads) =
        column_values_lem cs (pre ++ cell) storage (e ∙ sym (append_assoc pre cell rest)) h.1 in
      let start = length storage - length (v ++ rest) in
      let header = head_byte (length v) ∷ tail_bytes (length v) in
      let split : storage ≡ (pre ++ header) ++ (v ++ rest) = e ∙ simp append_assoc in
      (
        some (start, start + length v) ∷ vs,
        rw (column_value-some (length storage) v rest h.0, run) refl,
        Reads-cons storage (some v) cs (some (start, start + length v)) vs
            (value_in-middle storage (pre ++ header) v rest split) reads,
      )

  -- A row that a server sends for these cells, each shorter than 2^64 bytes, is decoded without
  -- panic, and gives out at each index the cell that stands there, and NULL where there is none.
  pub row_get-decode_text_row :
      (cs : List (Option (List ℕ)))
      → Short cs
      → (r : Row) × (decode_text_row buf (length cs) (row_bytes cs) ≡ ok r)
        × ((i : ℕ) → row_get r i ≡ expect (get_elem? cs i))
  unfolding decode_text_row row_get
  row_get-decode_text_row cs h =
      let (vs, run, reads) = column_values_lem cs [] (row_bytes cs) refl h in
      (record { storage = row_bytes cs; values = vs }, rw run refl, reads)
