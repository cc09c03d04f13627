-- ===== src/Base/Bytes.antt =====
-- Integers as bytes: the standard library's `to_le_bytes`, `to_be_bytes` and their inverses, for
-- integers of `w` bytes, and the cursor over a byte slice that the crate `bytes` provides.
pub mod Cursor
use native.Mathlib.Nat.{
  one-le-pow, mod-lt, mod-eq_of_lt, div-add-mod', div-lt_iff_lt-mul, pow-succ',
}
use sqlx.Base.{
  ℕ, zero, suc, ◌+◌, ◌-◌, ◌*◌, ◌/◌, ◌%◌, ◌^◌, ◌≤◌, ◌<◌, ◌≡◌, refl, sym, ap, ◌∙◌, Bool, true, false,
  List, [], ◌∷◌, ◌++◌, arith, ltb, if◌then◌else◌, Outcome, ok, err, panic, length, take, drop, set,
  length-append, length-drop, lift, Yields,
}
use sqlx.Base.Slices.{take-append, drop-append}

unfoldable pub to_le_bytes : ℕ → ℕ → List ℕ
to_le_bytes zero n = []
to_le_bytes (suc w) n = n % 256 ∷ to_le_bytes w (n / 256)

pub from_le_bytes : List ℕ → ℕ
from_le_bytes [] = 0
from_le_bytes (b ∷ bs) = b + 256 * from_le_bytes bs

unfoldable pub to_be_bytes : ℕ → ℕ → List ℕ
to_be_bytes zero n = []
to_be_bytes (suc w) n = n / 256 ^ w % 256 ∷ to_be_bytes w (n % 256 ^ w)

pub from_be_bytes : List ℕ → ℕ
from_be_bytes [] = 0
from_be_bytes (b ∷ bs) = b * 256 ^ length bs + from_be_bytes bs

pub length-to_le_bytes : (w n : ℕ) → length (to_le_bytes w n) ≡ w
unfolding to_le_bytes
length-to_le_bytes zero n = refl
length-to_le_bytes (suc w) n = ap suc (length-to_le_bytes w (n / 256))

pub length-to_be_bytes : (w n : ℕ) → length (to_be_bytes w n) ≡ w
unfolding to_be_bytes
length-to_be_bytes zero n = refl
length-to_be_bytes (suc w) n = ap suc (length-to_be_bytes w (n % 256 ^ w))

pub from_le_bytes-to_le_bytes : (w n : ℕ) → n < 256 ^ w → from_le_bytes (to_le_bytes w n) ≡ n
unfolding to_le_bytes from_le_bytes
from_le_bytes-to_le_bytes zero n h = omega arith
from_le_bytes-to_le_bytes (suc w) n h =
    omega (arith, from_le_bytes-to_le_bytes w (n / 256) (omega (arith, h)))

pub from_be_bytes-to_be_bytes : (w n : ℕ) → n < 256 ^ w → from_be_bytes (to_be_bytes w n) ≡ n
unfolding to_be_bytes from_be_bytes
from_be_bytes-to_be_bytes zero n h = omega arith
from_be_bytes-to_be_bytes (suc w) n h =
    let base : 0 < 256 ^ w = omega (arith, one-le-pow w 256 (omega arith)) in
    let small : n / 256 ^ w < 256 =
      (div-lt_iff_lt-mul base).1 (omega (arith, h, pow-succ' 256 w)) in
    rw
      (
        length-to_be_bytes w (n % 256 ^ w),
        from_be_bytes-to_be_bytes w (n % 256 ^ w) (mod-lt n base),
        mod-eq_of_lt small,
      )
      (div-add-mod' n (256 ^ w))

pub take-to_le_bytes : (w k n : ℕ) → take w (to_le_bytes (w + k) n) ≡ to_le_bytes w n
unfolding to_le_bytes
take-to_le_bytes zero k n = refl
take-to_le_bytes (suc w) k n =
    ap (λ m. take (suc w) (to_le_bytes m n)) {x = suc w + k} {y = suc (w + k)} (omega arith)
    ∙ ap (◌∷◌ (n % 256)) (take-to_le_bytes w k (n / 256))

pub set-to_le_bytes : (w n v : ℕ) → set (to_le_bytes (suc w) n) w v ≡ to_le_bytes w n ++ v ∷ []
unfolding to_le_bytes
set-to_le_bytes zero n v = refl
set-to_le_bytes (suc w) n v = ap (◌∷◌ (n % 256)) (set-to_le_bytes w (n / 256) v)

pub byte-to_le_bytes : (n : ℕ) → n < 256 → to_le_bytes 1 n ≡ n ∷ []
unfolding to_le_bytes
byte-to_le_bytes n h = ap (λ b. b ∷ []) (omega (arith, h))

-- The crate `bytes` reads an integer of `w` bytes from the front of a slice, moves the slice past
-- it, and panics where the slice is too short; `put` appends the bytes of an integer to a vector,
-- `split_to` takes so many bytes off the front, and `advance` drops them.
pub record Buf : Type 0 where
  pub get_le : ℕ → List ℕ → Outcome ⊥ (ℕ × List ℕ)
  pub get_be : ℕ → List ℕ → Outcome ⊥ (ℕ × List ℕ)
  pub put_le : List ℕ → ℕ → ℕ → List ℕ
  pub split_to : ℕ → List ℕ → Outcome ⊥ (List ℕ × List ℕ)
  pub advance : ℕ → List ℕ → Outcome ⊥ (List ℕ)
  pub get_le_read :
      (w : ℕ) (xs : List ℕ)
      → w ≤ length xs
      → get_le w xs ≡ ok (from_le_bytes (take w xs), drop w xs)
  pub get_be_read :
      (w : ℕ) (xs : List ℕ)
      → w ≤ length xs
      → get_be w xs ≡ ok (from_be_bytes (take w xs), drop w xs)
  pub put_le_appends : (v : List ℕ) (w n : ℕ) → put_le v w n ≡ v ++ to_le_bytes w n
  pub split_to_read :
      (n : ℕ) (xs : List ℕ) → n ≤ length xs → split_to n xs ≡ ok (take n xs, drop n xs)
  pub advance_read : (n : ℕ) (xs : List ℕ) → n ≤ length xs → advance n xs ≡ ok (drop n xs)
  pub get_le_short : (w : ℕ) (xs : List ℕ) → length xs < w → get_le w xs ≡ panic
  pub get_be_short : (w : ℕ) (xs : List ℕ) → length xs < w → get_be w xs ≡ panic
  pub split_to_short : (n : ℕ) (xs : List ℕ) → length xs < n → split_to n xs ≡ panic
  pub advance_short : (n : ℕ) (xs : List ℕ) → length xs < n → advance n xs ≡ panic

module _ (buf : Buf) where
  open buf use {
    get_le, get_be, get_le_read, get_be_read, put_le, put_le_appends, split_to, split_to_read,
    advance, advance_read,
  }

  -- The single bytes.
  pub get_u8 : (b : ℕ) (rest : List ℕ) → get_le 1 (b ∷ rest) ≡ ok (b, rest)
  unfolding from_le_bytes
  get_u8 b rest = get_le_read 1 (b ∷ rest) (omega arith) ∙ ap (λ n. ok (n, rest)) (omega arith)

  pub put_u8 : (v : List ℕ) (b : ℕ) → b < 256 → put_le v 1 b ≡ v ++ b ∷ []
  unfolding to_le_bytes
  put_u8 v b h = put_le_appends v 1 b ∙ ap (λ n. v ++ n ∷ []) (omega (arith, h))

  pub get_le-to_le_bytes :
      (w n : ℕ) (rest : List ℕ) → n < 256 ^ w → get_le w (to_le_bytes w n ++ rest) ≡ ok (n, rest)
  get_le-to_le_bytes w n rest h =
      let len : length (to_le_bytes w n) ≡ w = length-to_le_bytes w n in
      rw
        (
          get_le_read w (to_le_bytes w n ++ rest)
              (omega (arith, length-append (to_le_bytes w n) rest, len)),
          take-append (to_le_bytes w n) rest w len,
          drop-append (to_le_bytes w n) rest w len,
          from_le_bytes-to_le_bytes w n h,
        )
        refl

  pub get_be-to_be_bytes :
      (w n : ℕ) (rest : List ℕ) → n < 256 ^ w → get_be w (to_be_bytes w n ++ rest) ≡ ok (n, rest)
  get_be-to_be_bytes w n rest h =
      let len : length (to_be_bytes w n) ≡ w = length-to_be_bytes w n in
      rw
        (
          get_be_read w (to_be_bytes w n ++ rest)
              (omega (arith, length-append (to_be_bytes w n) rest, len)),
          take-append (to_be_bytes w n) rest w len,
          drop-append (to_be_bytes w n) rest w len,
          from_be_bytes-to_be_bytes w n h,
        )
        refl

  pub split_to-append : (xs rest : List ℕ) → split_to (length xs) (xs ++ rest) ≡ ok (xs, rest)
  split_to-append xs rest =
      rw
        (
          split_to_read (length xs) (xs ++ rest) (omega (arith, length-append xs rest)),
          take-append xs rest (length xs) refl,
          drop-append xs rest (length xs) refl,
        )
        refl

  pub advance-append : (xs rest : List ℕ) → advance (length xs) (xs ++ rest) ≡ ok rest
  advance-append xs rest =
      rw
        (
          advance_read (length xs) (xs ++ rest) (omega (arith, length-append xs rest)),
          drop-append xs rest (length xs) refl,
        )
        refl

  pub get_be-Yields {ℓ} :
      (E : Type ℓ) (w : ℕ) (xs : List ℕ)
      → w ≤ length xs
      → Yields (λ r. length r.1 + w ≡ length xs) (lift {E = E} (get_be w xs))
  get_be-Yields E w xs h = rw (get_be_read w xs h) (omega (arith, length-drop w xs, h))
