-- ===== src/Mysql/Time/Wire/Total.antt =====
-- The binary decoder of TIME on arbitrary bytes.
use sqlx.Base.{
  ℕ, zero, suc, ◌+◌, ◌*◌, ◌≡◌, refl, ◌⊎◌, inl, inr, ◌||◌, List, [], ◌∷◌, arith, ◌==◌, lift, length,
  length-drop, Bool-cases, ok_or, some, none, Option, Yields, Yields->>=, Yields-map_err,
}
use sqlx.Base.Bytes.{Buf, get_u8}
use sqlx.Mysql.Time.{new}
use sqlx.Mysql.Time.Order.{IsValid}
use sqlx.Mysql.Time.Valid.{new-Yields}
use sqlx.Mysql.Time.Wire.{
  from_byte, read_microseconds, decode_fields, decode, DecodeError, in_u32, and_then,
  hours_overflow, invalid,
}

-- The bytes that are left have this length.
abbrev Left : ℕ → ℕ × List ℕ → Type 0
Left n p = length p.1 ≡ n

from_byte-Yields : (b : ℕ) → Yields (λ _. Unit {0}) (from_byte b)
unfolding from_byte
from_byte-Yields zero = tt
from_byte-Yields (suc zero) = tt
from_byte-Yields (suc (suc b)) = tt

ok_or-Yields : (o : Option ℕ) (e : DecodeError) → Yields (λ _. Unit {0}) (ok_or o e)
ok_or-Yields none e = tt
ok_or-Yields (some n) e = tt

module _ (buf : Buf) where
  open buf use {get_le, get_le_read}

  get_le-Yields :
      (w n : ℕ) (xs : List ℕ)
      → length xs ≡ w + n
      → Yields {E = DecodeError} (Left n) (lift (get_le w xs))
  get_le-Yields w n xs h =
      rw (get_le_read w xs (omega (arith, h))) (omega (arith, length-drop w xs, h))

  read_microseconds-Yields :
      (xs : List ℕ)
      → (length xs ≡ 0) ⊎ (length xs ≡ 4)
      → Yields (λ _. Unit {0}) (read_microseconds buf xs)
  unfolding read_microseconds
  read_microseconds-Yields [] h = tt
  read_microseconds-Yields (b ∷ bs) h = rw (get_le_read 4 (b ∷ bs) (omega (arith, h))) tt

  decode_fields-Yields :
      (n : ℕ) (xs : List ℕ)
      → (n ≡ 0) ⊎ (n ≡ 4)
      → length xs ≡ 8 + n
      → Yields IsValid (decode_fields buf xs)
  unfolding decode_fields
  decode_fields-Yields n xs k h =
      Yields->>= (Left (7 + n)) IsValid (lift (get_le 1 xs)) _
        (get_le-Yields 1 (7 + n) xs (omega (arith, h)))
        λ p hp.
          Yields->>= (λ _. Unit {0}) IsValid (from_byte p.0) _ (from_byte-Yields p.0)
            λ s _.
              Yields->>= (Left (3 + n)) IsValid (lift (get_le 4 p.1)) _
                (get_le-Yields 4 (3 + n) p.1 (omega (arith, hp)))
                λ q hq.
                  Yields->>= (Left (2 + n)) IsValid (lift (get_le 1 q.1)) _
                    (get_le-Yields 1 (2 + n) q.1 (omega (arith, hq)))
                    λ r hr.
                      Yields->>= (Left (1 + n)) IsValid (lift (get_le 1 r.1)) _
                        (get_le-Yields 1 (1 + n) r.1 (omega (arith, hr)))
                        λ t ht.
                          Yields->>= (Left n) IsValid (lift (get_le 1 t.1)) _
                            (get_le-Yields 1 n t.1 (omega (arith, ht)))
                            λ u hu.
                              Yields->>= (λ _. Unit {0}) IsValid (read_microseconds buf u.1) _
                                (read_microseconds-Yields u.1 (omega (arith, hu, k)))
                                λ v _.
                                  Yields->>= (λ _. Unit {0}) IsValid
                                    (ok_or (and_then (in_u32 (q.0 * 24)) (λ x. in_u32 (x + r.0)))
                                      hours_overflow)
                                    _
                                    (ok_or-Yields
                                      (and_then (in_u32 (q.0 * 24)) (λ x. in_u32 (x + r.0)))
                                      hours_overflow)
                                    λ whole _.
                                      Yields-map_err IsValid invalid (new s whole t.0 u.0 v.0)
                                        (new-Yields s whole t.0 u.0 v.0)

  -- On any bytes, `decode` does not panic, and a TIME value that it gives is valid.
  pub decode-Yields : (bytes : List ℕ) → Yields IsValid (decode buf bytes)
  unfolding decode
  decode-Yields [] = tt
  decode-Yields (b ∷ bs) = rw (get_u8 buf b bs) (elim (Bool-cases (b == 0)) [
    | inl e ↦ rw e (omega arith, omega arith, λ n. cc n)
    | inr e ↦ elim (Bool-cases (length bs == 8 || length bs == 12)) [
      | inl f ↦
          rw (e, f)
            (elim (Bool-cases (length bs == 8)) [
              | inl g ↦ decode_fields-Yields 0 bs (inl refl) (ground (arith, g))
              | inr g ↦ decode_fields-Yields 4 bs (inr refl) (ground (arith, f, g))
            ])
      | inr f ↦ rw (e, f) tt
    ]
  ])
