-- ===== src/Postgres/Backend/Notice/Ranges.antt =====
-- sqlx-postgres/src/message/response.rs: the ranges of the fields of a message.
use sqlx.Base.{
  ℕ, ◌+◌, ◌≤◌, ◌<◌, ◌≡◌, refl, subst, Bool, Option, none, some, List, ◌==◌, length, length-drop,
  drop, get_elem?, arith, Bool-cases, inl, inr,
}
use sqlx.Core.BufExt.{FindsWithin}
use sqlx.Postgres.Backend.Notice.{FieldRange, field_to, field_from, next_field}

module _ (memchr : ℕ → List ℕ → Option ℕ) (is_utf8 : List ℕ → Bool) where
  -- A field lies in the bytes, and takes two of them or more.
  abbrev pub InBounds : List ℕ → ℕ → FieldRange memchr is_utf8 → Type 0
  InBounds buf offset (ty, v, next) = (v.0 ≤ v.1) × (v.1 ≤ length buf) × (offset + 2 ≤ next)

  field_to-InBounds :
      (buf : List ℕ) (offset ty : ℕ) (o : Option ℕ) (f : FieldRange memchr is_utf8)
      → ((len : ℕ) → o ≡ some len → offset + 1 + len < length buf)
      → field_to memchr is_utf8 ty (offset + 1) o ≡ some f
      → InBounds buf offset f
  field_to-InBounds buf offset ty none f k h = absurd (cc)
  field_to-InBounds buf offset ty (some len) f k h =
      let same : (ty, (offset + 1, offset + 1 + len), offset + 1 + len + 1) ≡ f = cc in
      subst (InBounds buf offset) same (omega arith, omega (arith, k len refl), omega arith)

  field_from-InBounds :
      FindsWithin memchr
      → (buf : List ℕ) (offset : ℕ) (o : Option ℕ) (f : FieldRange memchr is_utf8)
      → field_from memchr is_utf8 buf offset o ≡ some f
      → InBounds buf offset f
  field_from-InBounds within buf offset none f h = absurd (cc)
  field_from-InBounds within buf offset (some ty) f h = elim (Bool-cases (ty == 0)) [
    | inl e ↦ absurd (cc)
    | inr e ↦
        let rest = drop (offset + 1) buf in
        field_to-InBounds buf offset ty (memchr 0 rest) f
          (λ len found. omega (arith, within 0 rest len found, length-drop (offset + 1) buf)) (cc)
  ]

  pub next_field-InBounds :
      FindsWithin memchr
      → (buf : List ℕ) (offset : ℕ) (f : FieldRange memchr is_utf8)
      → next_field memchr is_utf8 buf offset ≡ some f
      → InBounds buf offset f
  unfolding next_field
  next_field-InBounds within buf offset f h =
      field_from-InBounds within buf offset (get_elem? buf offset) f h
