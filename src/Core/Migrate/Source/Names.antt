-- ===== src/Core/Migrate/Source/Names.antt =====
-- sqlx-core/src/migrate/source.rs: the name that is written for a migration is read back.
use mathlib.Core.List.{append_assoc, append-nil}
use sqlx.Base.{
  ℕ, zero, suc, ◌+◌, ◌-◌, ◌*◌, ◌^◌, ◌≤◌, ◌<◌, ◌≡◌, ◌≢◌, refl, sym, ap, ◌∙◌, true, false, Bool-cases,
  inl, inr, some, [], ◌∷◌, ◌++◌, arith, leb, lt→ltb, le→leb, leb→le, length-drop, ok, length,
  length-append, take, drop,
}
use sqlx.Base.{◌==◌ as nat_beq}
use sqlx.Base.Int.{pos}
use sqlx.Base.Eq.{list_eq, list_eq_iff, nat_eq}
use sqlx.Base.Slices.{take-append, drop-append, drop-append_le}
use sqlx.Base.Text.{codes}
use sqlx.Core.BufExt.{AllDiffer}
use sqlx.Core.Migrate.{MigrationType, simple, reversible_up, reversible_down}
use sqlx.Core.Migrate.Source.{
  Str, ends_with, replace, splitn2, trim_rounds, trim_end_matches, digits, parse_i64, suffix,
  from_filename, parse_name,
}
use sqlx.Core.Migrate.Add.{new_file_name}

-- A suffix as long as what ends the text.
ends_with-append : (x s p : Str) → length s ≡ length p → ends_with (x ++ s) p ≡ list_eq s p
unfolding ends_with
ends_with-append x s p same =
    rw
      (
        le→leb (length p) (length (x ++ s)) (omega (arith, length-append x s)),
        drop-append x s (length (x ++ s) - length p) (omega (arith, length-append x s)),
      )
      refl

list_eq_refl : (s : Str) → list_eq s s ≡ true
list_eq_refl s = (list_eq_iff s s).1 refl

list_eq-append : (a p s : Str) → length a ≡ length p → list_eq (a ++ s) (p ++ s) ≡ list_eq a p
list_eq-append [] [] s e = list_eq_refl s
list_eq-append [] (d ∷ p) s e = absurd (omega arith)
list_eq-append (c ∷ a) [] s e = absurd (omega arith)
list_eq-append (c ∷ a) (d ∷ p) s e = rw (list_eq-append a p s (omega arith)) refl

-- What both end in does not matter.
ends_with-append_both : (x p s : Str) → ends_with (x ++ s) (p ++ s) ≡ ends_with x p
unfolding ends_with
ends_with-append_both x p s =
    let same_room : leb (length (p ++ s)) (length (x ++ s)) ≡ leb (length p) (length x) =
      ground (arith, length-append p s, length-append x s) in
    elim (Bool-cases (leb (length p) (length x))) [
      | inl fits ↦
          let same_cut : length (x ++ s) - length (p ++ s) ≡ length x - length p =
            omega (arith, length-append p s, length-append x s) in
          let inside = drop-append_le x s (length x - length p) (omega arith) in
          let size = length-drop (length x - length p) x in
          rw (same_room, fits, same_cut, inside)
            (list_eq-append (drop (length x - length p) x) p s
              (omega (arith, size, leb→le _ _ fits)))
      | inr short ↦ rw (same_room, short) refl
    ]

-- A description as it stands in a name, which is not taken for a part of the suffix.
abbrev pub IsPlain : MigrationType → Str → Type 0
IsPlain simple d =
    (ends_with d (codes ".up") ≡ false)
    × (ends_with d (codes ".down") ≡ false)
    × (ends_with d (codes ".sql") ≡ false)
IsPlain reversible_up d = ends_with d (codes ".up.sql") ≡ false
IsPlain reversible_down d = ends_with d (codes ".down.sql") ≡ false

from_filename_lem : (t : MigrationType) (d : Str) → IsPlain t d → from_filename (d ++ suffix t) ≡ t
unfolding from_filename suffix
from_filename_lem simple d (up, down, sql) =
    rw
      (
        ends_with-append_both d (codes ".up") (codes ".sql"),
        up,
        ends_with-append_both d (codes ".down") (codes ".sql"),
        down,
      )
      refl
from_filename_lem reversible_up d h =
    rw (ends_with-append d (codes ".up.sql") (codes ".up.sql") refl) refl
from_filename_lem reversible_down d h =
    let other : ends_with (d ++ codes ".down.sql") (codes ".up.sql") ≡ false =
      ap (λ x. ends_with x (codes ".up.sql")) (sym (append_assoc d (codes ".d") (codes "own.sql")))
      ∙ ends_with-append (d ++ codes ".d") (codes "own.sql") (codes ".up.sql") refl in
    rw (other, ends_with-append d (codes ".down.sql") (codes ".down.sql") refl) refl

ends_with_sql : (t : MigrationType) (d : Str) → ends_with (d ++ suffix t) (codes ".sql") ≡ true
unfolding suffix
ends_with_sql simple d = ends_with-append d (codes ".sql") (codes ".sql") refl
ends_with_sql reversible_up d =
    ap (λ x. ends_with x (codes ".sql")) (sym (append_assoc d (codes ".up") (codes ".sql")))
    ∙ ends_with-append (d ++ codes ".up") (codes ".sql") (codes ".sql") refl
ends_with_sql reversible_down d =
    ap (λ x. ends_with x (codes ".sql")) (sym (append_assoc d (codes ".down") (codes ".sql")))
    ∙ ends_with-append (d ++ codes ".down") (codes ".sql") (codes ".sql") refl

trim_rounds-plain : (fuel : ℕ) (d s : Str) → ends_with d s ≡ false → trim_rounds fuel d s ≡ d
unfolding trim_rounds
trim_rounds-plain zero d s h = refl
trim_rounds-plain (suc fuel) d s h = rw h refl

trim_end_matches-append : (d s : Str) → ends_with d s ≡ false → trim_end_matches (d ++ s) s ≡ d
unfolding trim_end_matches trim_rounds
trim_end_matches-append d [] h =
    let ends : ends_with d [] ≡ true =
      ap (λ x. ends_with x []) (sym (append-nil d)) ∙ ends_with-append d [] [] refl in
    absurd (cc)
trim_end_matches-append d (c ∷ s) h =
    let suffixed = d ++ c ∷ s in
    let fuel : length suffixed ≡ suc (length suffixed - 1) =
      omega (arith, length-append d (c ∷ s)) in
    let cut : take (length suffixed - length (c ∷ s)) suffixed ≡ d =
      take-append d (c ∷ s) _ (omega (arith, length-append d (c ∷ s))) in
    ap (λ n. trim_rounds n suffixed (c ∷ s)) fuel
    ∙ rw (ends_with-append d (c ∷ s) (c ∷ s) refl, list_eq_refl (c ∷ s), cut)
        (trim_rounds-plain (length suffixed - 1) d (c ∷ s) h)

ends_with-suffix : (t : MigrationType) (d : Str) → IsPlain t d → ends_with d (suffix t) ≡ false
unfolding suffix
ends_with-suffix simple d h = h.2
ends_with-suffix reversible_up d h = h
ends_with-suffix reversible_down d h = h

abbrev pub AreDigits : Str → Type 0
AreDigits [] = Unit
AreDigits (c ∷ s) = (48 ≤ c) × (c ≤ 57) × AreDigits s

-- The number that digits spell behind `n`.
abbrev pub number : ℕ → Str → ℕ
number n [] = n
number n (c ∷ s) = number (n * 10 + (c - 48)) s

digits_lem : (s : Str) (n : ℕ) → AreDigits s → digits n s ≡ some (number n s)
unfolding digits
digits_lem [] n h = refl
digits_lem (c ∷ s) n (low, high, h) = ground (arith, digits_lem s (n * 10 + (c - 48)) h)

pub parse_i64-digits :
    (s : Str) → AreDigits s → s ≢ [] → number 0 s < 2 ^ 63 → parse_i64 s ≡ some (pos (number 0 s))
unfolding parse_i64
parse_i64-digits [] h ne fits = absurd (ne refl)
parse_i64-digits (c ∷ s) h ne fits =
    let minus : nat_beq c 45 ≡ false = ground (arith, h.0) in
    let plus : nat_beq c 43 ≡ false = ground (arith, h.0) in
    rw (minus, plus, digits_lem (c ∷ s) 0 h, lt→ltb _ _ fits) refl

splitn2-digits : (p rest : Str) → AreDigits p → splitn2 95 (p ++ 95 ∷ rest) ≡ some (p, rest)
unfolding splitn2
splitn2-digits [] rest h = refl
splitn2-digits (c ∷ p) rest (low, high, h) =
    let other : nat_beq c 95 ≡ false = ground arith in rw (other, splitn2-digits p rest h) refl

replace_back : (d : Str) → AllDiffer 95 d → replace 95 32 (replace 32 95 d) ≡ d
unfolding replace
replace_back [] h = refl
replace_back (c ∷ d) (differ, h) = ground (arith, replace_back d h)

-- The name of a new migration, with a prefix of digits that spell an i64 and a description that has
-- no `_` and does not, with `_` for each space, end in a part of a suffix, is read back as that
-- number, the type and the description.
pub parse_name-new_file_name :
    (prefix description : Str) (t : MigrationType)
    → AreDigits prefix
    → prefix ≢ []
    → number 0 prefix < 2 ^ 63
    → AllDiffer 95 description
    → IsPlain t (replace 32 95 description)
    → parse_name (new_file_name prefix description t)
      ≡ ok (some (pos (number 0 prefix), t, description))
unfolding parse_name new_file_name
parse_name-new_file_name prefix description t are_digits ne fits differ plain =
    let d = replace 32 95 description in
    rw
      (
        splitn2-digits prefix (d ++ suffix t) are_digits,
        ends_with_sql t d,
        parse_i64-digits prefix are_digits ne fits,
        from_filename_lem t d plain,
        trim_end_matches-append d (suffix t) (ends_with-suffix t d plain),
        replace_back description differ,
      )
      refl
