-- ===== src/Base/Bytes/Cursor.antt =====
-- A cursor over a slice that meets what `Buf` asks, to run the decoders on.
use sqlx.Base.{
  ℕ, ◌≤◌, ◌<◌, ◌≡◌, refl, List, ◌++◌, arith, leb, le→leb, if◌then◌else◌, Outcome, ok, panic, length,
  take, drop,
}
use sqlx.Base.Bytes.{Buf, to_le_bytes, from_le_bytes, from_be_bytes}

abbrev pub within {ℓ} : {A : Type ℓ} → (List ℕ → A) → ℕ → List ℕ → Outcome ⊥ A
within f w xs = if leb w (length xs) then ok (f xs) else panic

pub within_enough {ℓ} :
    {A : Type ℓ} (f : List ℕ → A) (w : ℕ) (xs : List ℕ) → w ≤ length xs → within f w xs ≡ ok (f xs)
within_enough f w xs h = rw (le→leb w (length xs) h) refl

pub within_short {ℓ} :
    {A : Type ℓ} (f : List ℕ → A) (w : ℕ) (xs : List ℕ) → length xs < w → within f w xs ≡ panic
within_short f w xs h = ground (arith, h)

abbrev pub read : (List ℕ → ℕ) → ℕ → List ℕ → ℕ × List ℕ
read from w xs = (from (take w xs), drop w xs)

abbrev pub cursor : Buf
cursor = record {
  get_le = λ w. within (read from_le_bytes w) w;
  get_be = λ w. within (read from_be_bytes w) w;
  put_le = λ v w n. v ++ to_le_bytes w n;
  split_to = λ n. within (λ xs. (take n xs, drop n xs)) n;
  advance = λ n. within (drop n) n;
  get_le_read = λ w. within_enough (read from_le_bytes w) w;
  get_be_read = λ w. within_enough (read from_be_bytes w) w;
  put_le_appends = λ v w n. refl;
  split_to_read = λ n. within_enough (λ xs. (take n xs, drop n xs)) n;
  advance_read = λ n. within_enough (drop n) n;
  get_le_short = λ w. within_short (read from_le_bytes w) w;
  get_be_short = λ w. within_short (read from_be_bytes w) w;
  split_to_short = λ n. within_short (λ xs. (take n xs, drop n xs)) n;
  advance_short = λ n. within_short (drop n) n;
}
