-- ===== src/Postgres/Frontend/Binding.antt =====
-- The two counts of a Bind message.
use mathlib.Core.List.{append_assoc}
use sqlx.Base.{ℕ, ◌<◌, ◌≡◌, refl, sym, ap, ◌∙◌, ◌↔◌, none, List, [], ◌++◌, length, take, drop}
use sqlx.Base.Slices.{take-append, drop-append}
use sqlx.Base.Bytes.{to_be_bytes, from_be_bytes, length-to_be_bytes, from_be_bytes-to_be_bytes}
use sqlx.Postgres.Frontend.{Bind, encode_bind, put_formats}
use sqlx.Postgres.Frontend.Framing.{bind_body, before_count, encode_bind_fits}

-- The number that stands behind a prefix.
number_after : List ℕ → List ℕ → ℕ
number_after pre xs = from_be_bytes (take 2 (drop (length pre) xs))

number_after_lem :
    (pre rest : List ℕ) (n : ℕ)
    → n < 65536
    → number_after pre (pre ++ (to_be_bytes 2 n ++ rest)) ≡ n
unfolding number_after
number_after_lem pre rest n h =
    rw
      (
        drop-append pre (to_be_bytes 2 n ++ rest) (length pre) refl,
        take-append (to_be_bytes 2 n) rest 2 (length-to_be_bytes 2 n),
      )
      (from_be_bytes-to_be_bytes 2 n h)

module _ (itoa : ℕ → List ℕ) where
  -- `Bind::encode_body` announces the number of the result formats that it writes exactly if the
  -- message has as many result formats as parameter formats, up to 65535 of each.
  pub encode_bind_iff :
      (b : Bind) (v : List ℕ)
      → length b.formats < 65536
      → length b.result_formats < 65536
      → (encode_bind itoa b v ≡ (v ++ bind_body itoa b (length b.result_formats), none))
        ↔ (length b.formats ≡ length b.result_formats)
  encode_bind_iff b v h k = (
    λ e.
        sym (found (length b.formats) h)
        ∙ ap (number_after pre) (ap (λ p. p.0) (sym (encode_bind_fits itoa b h v) ∙ e))
        ∙ found (length b.result_formats) k,
    λ e. encode_bind_fits itoa b h v ∙ ap (λ n. (v ++ bind_body itoa b n, none)) e,
  )
    where
      pre : List ℕ
      pre = v ++ before_count itoa b

      found : (n : ℕ) → n < 65536 → number_after pre (v ++ bind_body itoa b n) ≡ n
      found n r =
          ap (number_after pre) (
            sym (
              append_assoc v (before_count itoa b)
                (to_be_bytes 2 n ++ put_formats b.result_formats [])))
          ∙ number_after_lem pre (put_formats b.result_formats []) n r
