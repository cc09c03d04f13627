-- ===== src/Postgres/Frontend/Framing.antt =====
-- The frame of a frontend message.
use mathlib.Core.List.{append_assoc, append-nil}
use sqlx.Base.{
  ℕ, ◌+◌, ◌-◌, ◌^◌, ◌≤◌, ◌<◌, ◌≡◌, refl, sym, ap, ◌∙◌, inl, inr, false, Option, none, some, List,
  [], ◌∷◌, ◌++◌, arith, ltb, lt→ltb, ltb→lt, Bool-cases, if◌then◌else◌, length, length-append, take,
  drop,
}
use sqlx.Base.Slices.{take-append, drop-append}
use sqlx.Base.Bytes.{to_be_bytes}
use sqlx.Postgres.Frontend.{
  EncodeError, message_size, Encoded, IdInner, portal_prefix, statement_prefix, put_length_prefixed,
  prefixed, put_name_with_nul, put_formats, format_code, PgValueFormat, Bind, Target, statement,
  portal, Message, bind, close, describe, execute, format_of, encode_bind, encode_target,
  encode_execute, encode_body, encode_msg, too_many_formats,
}

-- What the frame makes of a body, and of its error.
abbrev pub framed : List ℕ → List ℕ → Option EncodeError → Encoded
framed v body none =
    if ltb (length body + 4) (2 ^ 31)
    then (v ++ to_be_bytes 4 (length body + 4) ++ body, none)
    else (v, some (message_size (length body + 4)))
framed v body (some e) = (v, some e)

put_length_prefixed_lem :
    (write : List ℕ → Encoded) (v body : List ℕ) (r : Option EncodeError)
    → write (v ++ 0 ∷ 0 ∷ 0 ∷ 0 ∷ []) ≡ (v ++ 0 ∷ 0 ∷ 0 ∷ 0 ∷ [] ++ body, r)
    → put_length_prefixed write v ≡ framed v body r
unfolding put_length_prefixed
put_length_prefixed_lem write v body r e = rw e (by_result r)
  where
    zeros : List ℕ
    zeros = 0 ∷ 0 ∷ 0 ∷ 0 ∷ []

    front : take (length v) (v ++ 0 ∷ 0 ∷ 0 ∷ 0 ∷ [] ++ body) ≡ v
    front =
        ap (take (length v)) (append_assoc v (0 ∷ 0 ∷ 0 ∷ 0 ∷ []) body)
        ∙ take-append v (0 ∷ 0 ∷ 0 ∷ 0 ∷ body) (length v) refl

    back : drop (length v + 4) (v ++ 0 ∷ 0 ∷ 0 ∷ 0 ∷ [] ++ body) ≡ body
    back =
        drop-append (v ++ 0 ∷ 0 ∷ 0 ∷ 0 ∷ []) body (length v + 4)
          (length-append v (0 ∷ 0 ∷ 0 ∷ 0 ∷ []))

    size : length (v ++ 0 ∷ 0 ∷ 0 ∷ 0 ∷ [] ++ body) - length v ≡ length body + 4
    size =
        omega (
          arith,
          length-append (v ++ 0 ∷ 0 ∷ 0 ∷ 0 ∷ []) body,
          length-append v (0 ∷ 0 ∷ 0 ∷ 0 ∷ []),
        )

    by_result :
        (r : Option EncodeError)
        → prefixed (length v) (v ++ 0 ∷ 0 ∷ 0 ∷ 0 ∷ [] ++ body, r) ≡ framed v body r
    by_result none = rw (size, front, back) refl
    by_result (some e') = rw front refl

-- `f` appends `body`, and ends with `r`, whatever the buffer holds.
abbrev pub Appends : (List ℕ → Encoded) → List ℕ → Option EncodeError → Type 0
Appends f body r = (v : List ℕ) → f v ≡ (v ++ body, r)

pub put_formats-append :
    (fs : List PgValueFormat) (v : List ℕ) → put_formats fs v ≡ v ++ put_formats fs []
unfolding put_formats
put_formats-append [] v = sym (append-nil v)
put_formats-append (f ∷ fs) v =
    put_formats-append fs (v ++ to_be_bytes 2 (format_code f))
    ∙ append_assoc v (to_be_bytes 2 (format_code f)) (put_formats fs [])
    ∙ ap (λ xs. v ++ xs) (sym (put_formats-append fs (to_be_bytes 2 (format_code f))))

module _ (itoa : ℕ → List ℕ) where
  pub put_name_with_nul-append :
      (id : IdInner) (p v : List ℕ)
      → put_name_with_nul itoa id p v ≡ v ++ put_name_with_nul itoa id p []
  unfolding put_name_with_nul
  put_name_with_nul-append none p v = refl
  put_name_with_nul-append (some id) p v = simp append_assoc

  abbrev pub names : Bind → List ℕ
  names b =
      put_name_with_nul itoa b.portal portal_prefix []
      ++ put_name_with_nul itoa b.statement statement_prefix []

  -- What a Bind message holds in front of the number of its result formats.
  abbrev pub before_count : Bind → List ℕ
  before_count b =
      names b
      ++ to_be_bytes 2 (length b.formats)
      ++ put_formats b.formats []
      ++ to_be_bytes 2 b.num_params
      ++ b.params

  -- A Bind message with this number in front of its result formats.
  abbrev pub bind_body : Bind → ℕ → List ℕ
  bind_body b count = before_count b ++ (to_be_bytes 2 count ++ put_formats b.result_formats [])

  pub encode_bind_fits :
      (b : Bind)
      → length b.formats < 65536
      → Appends (encode_bind itoa b) (bind_body b (length b.formats)) none
  unfolding encode_bind
  encode_bind_fits b h v =
      let start = v ++ put_name_with_nul itoa b.portal portal_prefix [] in
      let named = start ++ put_name_with_nul itoa b.statement statement_prefix [] in
      let counted = named ++ to_be_bytes 2 (length b.formats) in
      let formats = counted ++ put_formats b.formats [] in
      let results =
        formats ++ to_be_bytes 2 b.num_params ++ b.params ++ to_be_bytes 2 (length b.formats) in
      rw
        (
          lt→ltb (length b.formats) 65536 h,
          put_name_with_nul-append b.portal portal_prefix v,
          put_name_with_nul-append b.statement statement_prefix start,
          put_formats-append b.formats counted,
          put_formats-append b.result_formats results,
        )
        (ap (λ xs. (xs, none)) (regroup v b))
    where
      regroup :
          (v : List ℕ) (b : Bind)
          → v
              ++ put_name_with_nul itoa b.portal portal_prefix []
              ++ put_name_with_nul itoa b.statement statement_prefix []
              ++ to_be_bytes 2 (length b.formats)
              ++ put_formats b.formats []
              ++ to_be_bytes 2 b.num_params
              ++ b.params
              ++ to_be_bytes 2 (length b.formats)
              ++ put_formats b.result_formats []
            ≡ v ++ bind_body b (length b.formats)
      regroup v b = simp append_assoc

  encode_bind_full :
      (b : Bind)
      → 65536 ≤ length b.formats
      → Appends (encode_bind itoa b) (names b) (some (too_many_formats (length b.formats)))
  unfolding encode_bind
  encode_bind_full b h v =
      let start = v ++ put_name_with_nul itoa b.portal portal_prefix [] in
      let full : ltb (length b.formats) 65536 ≡ false = ground (arith, h) in
      rw
        (
          full,
          put_name_with_nul-append b.portal portal_prefix v,
          put_name_with_nul-append b.statement statement_prefix start,
        )
        (ap (λ xs. (xs, some (too_many_formats (length b.formats))))
          (append_assoc v (put_name_with_nul itoa b.portal portal_prefix [])
            (put_name_with_nul itoa b.statement statement_prefix [])))

  encode_target_lem : (t : Target) → (body : List ℕ) × Appends (encode_target itoa t) body none
  unfolding encode_target
  encode_target_lem (statement id) = (
    83 ∷ put_name_with_nul itoa id statement_prefix [],
    λ v.
        ap (λ xs. (xs, none))
          (put_name_with_nul-append id statement_prefix (v ++ 83 ∷ [])
            ∙ append_assoc v (83 ∷ []) (put_name_with_nul itoa id statement_prefix [])),
  )
  encode_target_lem (portal id) = (
    80 ∷ put_name_with_nul itoa id portal_prefix [],
    λ v.
        ap (λ xs. (xs, none))
          (put_name_with_nul-append id portal_prefix (v ++ 80 ∷ [])
            ∙ append_assoc v (80 ∷ []) (put_name_with_nul itoa id portal_prefix [])),
  )

  encode_body_lem :
      (m : Message)
      → (body : List ℕ) × (r : Option EncodeError) × Appends (encode_body itoa m) body r
  unfolding encode_body encode_execute
  encode_body_lem (bind b) = elim (Bool-cases (ltb (length b.formats) 65536)) [
    | inl h ↦ (_, none, encode_bind_fits b (ltb→lt (length b.formats) 65536 h))
    | inr h ↦ (_, _, encode_bind_full b (ground (arith, h)))
  ]
  encode_body_lem (close t) = let (body, h) = encode_target_lem t in (body, none, h)
  encode_body_lem (describe t) = let (body, h) = encode_target_lem t in (body, none, h)
  encode_body_lem (execute e) = (
    put_name_with_nul itoa e.portal portal_prefix [] ++ to_be_bytes 4 e.limit,
    none,
    λ v. rw (put_name_with_nul-append e.portal portal_prefix v) (
        ap (λ xs. (xs, none))
          (append_assoc v (put_name_with_nul itoa e.portal portal_prefix [])
            (to_be_bytes 4 e.limit))),
  )

  -- A message is its format byte, its length with that of the length field, and what `encode_body`
  -- appends, behind what the buffer holds. Where the body fails, or is too long for an i32, the
  -- error comes back and nothing but the format byte is left behind.
  pub encode_msg_lem :
      (m : Message)
      → (body : List ℕ) × (r : Option EncodeError) × Appends (encode_body itoa m) body r
        × ((v : List ℕ) → encode_msg itoa m v ≡ framed (v ++ format_of m ∷ []) body r)
  unfolding encode_msg
  encode_msg_lem m =
      let (body, r, h) = encode_body_lem m in
      (
        body,
        r,
        h,
        λ v.
            put_length_prefixed_lem (encode_body itoa m) (v ++ format_of m ∷ []) body r
              (h (v ++ format_of m ∷ [] ++ 0 ∷ 0 ∷ 0 ∷ 0 ∷ [])),
      )
