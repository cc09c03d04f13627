-- ===== src/Postgres/Backend/Notice/Cached.antt =====
-- sqlx-postgres/src/message/response.rs: the ranges that a decoded notice keeps.
use sqlx.Base.{
  ℕ, zero, suc, ◌≤◌, ◌≡◌, refl, Bool, true, not, ◌||◌, Option, none, some, List, [], le→leb, ◌==◌,
  ok, Yields, Yields->>=, Yields-if, length, arith, Bool-cases, Option-cases, inl, inr,
}
use sqlx.Base.Slices.{slice}
use sqlx.Core.BufExt.{FindsWithin}
use sqlx.Postgres.Backend.Notice.Ranges.{next_field-InBounds}
use sqlx.Postgres.Backend.Notice.{
  NoticeError, Seen, nothing_seen, severity_from, is_empty_range, index, next_field, PgSeverity,
  utf8_at, on_next, find_field, get_raw, known_or, on_field, read_fields, decode_with,
  get_cached_str,
}

abbrev pub text_at : List ℕ → ℕ × ℕ → List ℕ
text_at buf (start, end_) = slice buf start end_

index-text_at :
    {E : Type 0} (buf : List ℕ) (v : ℕ × ℕ)
    → v.0 ≤ v.1
    → v.1 ≤ length buf
    → index {E = E} buf v ≡ ok (text_at buf v)
index-text_at buf v a b = rw (le→leb v.0 v.1 a, le→leb v.1 (length buf) b) refl

module _ (memchr : ℕ → List ℕ → Option ℕ) (is_utf8 : List ℕ → Bool) where
  -- A range of the bytes that holds text.
  abbrev pub IsText : List ℕ → ℕ × ℕ → Type 0
  IsText buf v = (v.0 ≤ v.1) × (v.1 ≤ length buf) × (is_utf8 (text_at buf v) ≡ true)

  abbrev Good : List ℕ → Seen → Type 0
  Good buf seen = IsText buf seen.message × IsText buf seen.code

  utf8_at-Yields :
      (buf : List ℕ) (v : ℕ × ℕ)
      → v.0 ≤ v.1
      → v.1 ≤ length buf
      → Yields (λ _. is_utf8 (text_at buf v) ≡ true) (utf8_at memchr is_utf8 buf v)
  utf8_at-Yields buf v a b = elim (Bool-cases (is_utf8 (text_at buf v))) [
    | inl e ↦ rw (index-text_at {E = NoticeError} buf v a b, e) refl
    | inr e ↦ rw (index-text_at {E = NoticeError} buf v a b, e) tt
  ]

  known_or-Yields :
      (text : List ℕ) (o : Option PgSeverity) → Yields (λ _. Unit {0}) (known_or text o)
  known_or-Yields text none = tt
  known_or-Yields text (some s) = tt

  on_field-Yields :
      (buf : List ℕ) (field : ℕ) (v : ℕ × ℕ) (seen : Seen)
      → v.0 ≤ v.1
      → v.1 ≤ length buf
      → Good buf seen
      → Yields (Good buf) (on_field memchr is_utf8 buf field v seen)
  unfolding on_field
  on_field-Yields buf field v seen hv hb good =
      let P = λ (t : List ℕ). is_utf8 (text_at buf v) ≡ true in
      let is_text = utf8_at-Yields buf v hv hb in
      Yields-if (Good buf) (field == 83) _ _
        (Yields->>= P (Good buf) (utf8_at memchr is_utf8 buf v) _ is_text (λ t e. good))
        (Yields-if (Good buf) (field == 86) _ _
          (Yields->>= P (Good buf) (utf8_at memchr is_utf8 buf v) _ is_text (λ t e.
            Yields->>= (λ _. Unit {0}) (Good buf) (known_or t (severity_from t)) _
              (known_or-Yields t (severity_from t)) (λ s u. good)))
          (Yields-if (Good buf) (field == 77) _ _
            (Yields->>= P (Good buf) (utf8_at memchr is_utf8 buf v) _ is_text
              (λ t e. ((hv, hb, e), good.1)))
            (Yields-if (Good buf) (field == 67) _ _
              (Yields->>= P (Good buf) (utf8_at memchr is_utf8 buf v) _ is_text
                (λ t e. (good.0, (hv, hb, e))))
              good)))

  read_fields-Yields :
      FindsWithin memchr
      → (fuel : ℕ) (buf : List ℕ) (offset : ℕ) (seen : Seen) → Good buf seen
      → Yields (Good buf) (read_fields memchr is_utf8 fuel buf offset seen)
  unfolding read_fields on_next
  read_fields-Yields within zero buf offset seen good = good
  read_fields-Yields within (suc fuel) buf offset seen good =
      elim (Option-cases (next_field memchr is_utf8 buf offset)) [
        | inl e ↦ rw e good
        | inr ((field, v, next), e) ↦
            let bounds = next_field-InBounds memchr is_utf8 within buf offset (field, v, next) e in
            rw e (
              Yields-if (Good buf) (not (is_empty_range seen.message || is_empty_range seen.code)) _
                _ good
                (Yields->>= (Good buf) (Good buf) (on_field memchr is_utf8 buf field v seen)
                  (read_fields memchr is_utf8 fuel buf next)
                  (on_field-Yields buf field v seen bounds.0 bounds.1 good)
                  (λ later still. read_fields-Yields within fuel buf next later still)))
      ]

  get_cached_str-IsText :
      (buf : List ℕ) (v : ℕ × ℕ)
      → IsText buf v
      → get_cached_str memchr is_utf8 buf v ≡ ok (text_at buf v)
  unfolding get_cached_str
  get_cached_str-IsText buf v (a, b, text) = rw (index-text_at {E = ⊥} buf v a b, text) refl

  find_field-Yields :
      FindsWithin memchr
      → (fuel ty : ℕ) (buf : List ℕ) (offset : ℕ)
      → Yields (λ _. Unit {0}) (find_field memchr is_utf8 fuel ty buf offset)
  unfolding find_field
  find_field-Yields within zero ty buf offset = tt
  find_field-Yields within (suc fuel) ty buf offset =
      elim (Option-cases (next_field memchr is_utf8 buf offset)) [
        | inl e ↦ rw e tt
        | inr ((field, v, next), e) ↦
            let bounds = next_field-InBounds memchr is_utf8 within buf offset (field, v, next) e in
            rw (e, index-text_at {E = ⊥} buf v bounds.0 bounds.1)
              (Yields-if (λ _. Unit {0}) (field == ty) _ _ tt
                (find_field-Yields within fuel ty buf next))
      ]

  -- If `memchr` finds only indices of the slice and the empty text is UTF-8, decoding a notice never panics,
  -- and a notice that is decoded keeps the bytes. Of it neither `message` nor `code` panics, though both
  -- unwrap the check for UTF-8: each is the text at the range that was kept. `get_raw` of any field does
  -- not panic either.
  pub decode_with-Yields :
      FindsWithin memchr
      → is_utf8 [] ≡ true
      → (buf : List ℕ)
      → Yields
          (λ n.
            (n.storage ≡ buf)
            × (get_cached_str memchr is_utf8 n.storage n.message ≡ ok (text_at buf n.message))
            × (get_cached_str memchr is_utf8 n.storage n.code ≡ ok (text_at buf n.code))
            × ((ty : ℕ) → Yields (λ _. Unit {0}) (get_raw memchr is_utf8 n ty)))
          (decode_with memchr is_utf8 buf)
  unfolding decode_with get_raw
  decode_with-Yields within empty buf =
      let none_yet : IsText buf (0, 0) = (omega arith, omega arith, empty) in
      Yields->>= (Good buf) _ (read_fields memchr is_utf8 (length buf) buf 0 nothing_seen) _
        (read_fields-Yields within (length buf) buf 0 nothing_seen (none_yet, none_yet))
        (λ seen good. (
          refl,
          get_cached_str-IsText buf seen.message good.0,
          get_cached_str-IsText buf seen.code good.1,
          λ ty. find_field-Yields within (length buf) ty buf 0,
        ))
