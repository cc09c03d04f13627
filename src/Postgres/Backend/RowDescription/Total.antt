-- ===== src/Postgres/Backend/RowDescription/Total.antt =====
-- sqlx-postgres/src/message/row_description.rs: descriptions of any bytes.
use sqlx.Base.{
  ℕ, zero, suc, ◌+◌, ◌≤◌, ◌≡◌, refl, ap, Bool, Bool-cases, inl, inr, Option, List, ltb, Outcome,
  ◌>>=◌, lift, map_err, Yields, Yields->>=, Yields-map_err, length, take, arith,
}
use sqlx.Base.Bytes.{Buf, from_be_bytes, get_be-Yields}
use sqlx.Core.BufExt.{FindsWithin, get_str_nul, get_str_nul-Yields}
use sqlx.Postgres.Backend.RowDescription.{
  RowDescriptionError, bad_name, decode_numbers, decode_field, decode_fields, decode_body,
}

abbrev Any {ℓ} : {A : Type ℓ} → A → Type 0
Any a = Unit

module _ (cursor : Buf) (memchr : ℕ → List ℕ → Option ℕ) (is_utf8 : List ℕ → Bool) where
  open cursor use {get_be, get_be_read}

  -- A number that is read where there are as many bytes and `left` more.
  then_read :
      {B : Type 0} (w left : ℕ) (xs : List ℕ) (f : ℕ × List ℕ → Outcome RowDescriptionError B)
      → w + left ≤ length xs
      → ((r : ℕ × List ℕ) → left ≤ length r.1 → Yields Any (f r))
      → Yields Any (lift (get_be w xs) >>= f)
  then_read w left xs f h k =
      Yields->>= (λ r. length r.1 + w ≡ length xs) Any (lift (get_be w xs)) f
        (get_be-Yields cursor RowDescriptionError w xs (omega (arith, h)))
        (λ r e. k r (omega (arith, h, e)))

  decode_numbers-Yields :
      (name buf : List ℕ) → Yields Any (decode_numbers cursor memchr is_utf8 name buf)
  unfolding decode_numbers
  decode_numbers-Yields name buf = elim (Bool-cases (ltb (length buf) 18)) [
    | inl e ↦ rw e tt
    | inr e ↦
        let size : 18 ≤ length buf = ground (arith, e) in
        rw e (
          then_read 4 14 buf _ size (λ r1 h1. then_read 2 12 r1.1 _ h1 (λ r2 h2.
            then_read 4 8 r2.1 _ h2 (λ r3 h3. then_read 2 6 r3.1 _ h3 (λ r4 h4.
              then_read 4 2 r4.1 _ h4 (λ r5 h5. then_read 2 0 r5.1 _ h5 (λ r6 h6. tt)))))))
  ]

  decode_field-Yields :
      FindsWithin memchr → (buf : List ℕ) → Yields Any (decode_field cursor memchr is_utf8 buf)
  unfolding decode_field
  decode_field-Yields within buf =
      Yields->>= Any Any (map_err bad_name (get_str_nul cursor memchr is_utf8 buf)) _
        (Yields-map_err Any bad_name (get_str_nul cursor memchr is_utf8 buf)
          (get_str_nul-Yields cursor memchr is_utf8 within buf))
        (λ r u. decode_numbers-Yields r.0 r.1)

  decode_fields-Yields :
      FindsWithin memchr
      → (n : ℕ) (buf : List ℕ)
      → Yields (λ fs. length fs ≡ n) (decode_fields cursor memchr is_utf8 n buf)
  unfolding decode_fields
  decode_fields-Yields within zero buf = refl
  decode_fields-Yields within (suc n) buf =
      Yields->>= Any (λ fs. length fs ≡ suc n) (decode_field cursor memchr is_utf8 buf) _
        (decode_field-Yields within buf)
        (λ r u.
          Yields->>= (λ fs. length fs ≡ n) (λ fs. length fs ≡ suc n)
            (decode_fields cursor memchr is_utf8 n r.1) _ (decode_fields-Yields within n r.1)
            (λ fs e. ap suc e))

  -- If `memchr` finds only indices of the slice, no bytes make the decoding of a description panic, and
  -- one that is decoded has as many fields as its first two bytes say.
  pub decode_body-Yields :
      FindsWithin memchr
      → (buf : List ℕ)
      → Yields
          (λ fs. length fs ≡ from_be_bytes (take 2 buf))
          (decode_body cursor memchr is_utf8 buf)
  unfolding decode_body
  decode_body-Yields within buf = elim (Bool-cases (ltb (length buf) 2)) [
    | inl e ↦ rw e tt
    | inr e ↦
        let size : 2 ≤ length buf = ground (arith, e) in
        rw (e, get_be_read 2 buf size) (decode_fields-Yields within (from_be_bytes (take 2 buf)) _)
  ]
