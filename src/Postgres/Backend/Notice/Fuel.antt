-- ===== src/Postgres/Backend/Notice/Fuel.antt =====
-- sqlx-postgres/src/message/response.rs: the fuel of the loop over the fields of a message.
use sqlx.Base.{
  ℕ, zero, suc, ◌+◌, ◌≤◌, ◌≡◌, refl, ap, Bool, not, ◌||◌, Option, none, List, [], ◌∷◌,
  if◌then◌else◌, Outcome, ok, err, panic, ◌>>=◌, length, get_elem?, arith, Option-cases, inl, inr,
}
use sqlx.Core.BufExt.{FindsWithin}
use sqlx.Postgres.Backend.Notice.Ranges.{next_field-InBounds}
use sqlx.Postgres.Backend.Notice.{Seen, is_empty_range, next_field, on_next, on_field, read_fields}

bind_ext :
    {E A B : Type 0} (m : Outcome E A) (f g : A → Outcome E B)
    → ((a : A) → f a ≡ g a)
    → (m >>= f) ≡ (m >>= g)
bind_ext (ok a) f g h = h a
bind_ext (err e) f g h = refl
bind_ext panic f g h = refl

get_elem?-ge : (xs : List ℕ) (i : ℕ) → length xs ≤ i → get_elem? xs i ≡ none
get_elem?-ge [] i h = refl
get_elem?-ge (x ∷ xs) zero h = absurd (omega arith)
get_elem?-ge (x ∷ xs) (suc i) h = get_elem?-ge xs i (omega arith)

module _ (memchr : ℕ → List ℕ → Option ℕ) (is_utf8 : List ℕ → Bool) where
  beyond :
      (buf : List ℕ) (offset : ℕ)
      → length buf ≤ offset
      → next_field memchr is_utf8 buf offset ≡ none
  unfolding next_field
  beyond buf offset h = rw (get_elem?-ge buf offset h) refl

  -- The fuel of the length of the message is enough: more of it changes nothing.
  pub read_fields_enough :
      FindsWithin memchr
      → (m n : ℕ) (buf : List ℕ) (offset : ℕ) (seen : Seen) → length buf ≤ offset + m
      → length buf ≤ offset + n
      → read_fields memchr is_utf8 m buf offset seen ≡ read_fields memchr is_utf8 n buf offset seen
  unfolding read_fields on_next
  read_fields_enough within zero zero buf offset seen hm hn = refl
  read_fields_enough within zero (suc n) buf offset seen hm hn =
      rw (beyond buf offset (omega (arith, hm))) refl
  read_fields_enough within (suc m) zero buf offset seen hm hn =
      rw (beyond buf offset (omega (arith, hn))) refl
  read_fields_enough within (suc m) (suc n) buf offset seen hm hn =
      elim (Option-cases (next_field memchr is_utf8 buf offset)) [
        | inl e ↦ rw e refl
        | inr ((field, v, next), e) ↦
            let bounds = next_field-InBounds memchr is_utf8 within buf offset (field, v, next) e in
            let r = on_field memchr is_utf8 buf field v seen in
            let later =
              bind_ext r (read_fields memchr is_utf8 m buf next)
                (read_fields memchr is_utf8 n buf next)
                (λ after.
                  read_fields_enough within m n buf next after (omega (arith, bounds.2, hm))
                    (omega (arith, bounds.2, hn))) in
            rw e (
              ap
                (λ x.
                  if not (is_empty_range seen.message || is_empty_range seen.code)
                  then ok seen
                  else x)
                later)
      ]
