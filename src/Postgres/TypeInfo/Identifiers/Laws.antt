-- ===== src/Postgres/TypeInfo/Identifiers/Laws.antt =====
-- sqlx-postgres/src/type_info.rs: which names `name_eq` takes for the same.
use sqlx.Base.{
  ℕ, ◌+◌, ◌≤◌, ◌≡◌, refl, ap, ◌↔◌, Bool, true, false, List, [], ◌∷◌, ◌++◌, map, ◌==◌, arith, length,
  take, ==_iff, ◌&&◌, length-append, Bool-cases, inl, inr,
}
use sqlx.Base.Slices.{take-all, take-append}
use sqlx.Base.Eq.{list_eq_iff, nat_eq}
use sqlx.Postgres.TypeInfo.{Str}
use sqlx.Postgres.TypeInfo.Identifiers.{
  IdentifierChar, to_ascii_lowercase, char_eq, eq_ignore_ascii_case, scan, identifier_chars,
  same_chars, has_unicode_escapes, name_eq,
}

-- A name with no quotation mark.
abbrev pub IsPlain : Str → Type 0
IsPlain [] = Unit
IsPlain (c ∷ s) = ((c == 34) ≡ false) × IsPlain s

abbrev unquoted : ℕ → IdentifierChar
unquoted c = record { ch = c; case_sensitive = false }

scan-IsPlain : (s : Str) → IsPlain s → scan false false s ≡ map unquoted s
unfolding scan
scan-IsPlain [] h = refl
scan-IsPlain (c ∷ s) h = rw (h.0, scan-IsPlain s h.1) refl

and_true : (a : Bool) {b : Bool} → (a && b) ≡ true → (a ≡ true) × (b ≡ true)
and_true true h = (refl, h)
and_true false h = absurd (cc)

cons-eq : {a b : ℕ} {xs ys : List ℕ} → a ≡ b → xs ≡ ys → ◌≡◌ {A = List ℕ} (a ∷ xs) (b ∷ ys)
cons-eq e h = cc

abbrev head_or : ℕ → List ℕ → ℕ
head_or d [] = d
head_or d (x ∷ xs) = x

abbrev tail : List ℕ → List ℕ
tail [] = []
tail (x ∷ xs) = xs

-- The shorter of two names, in lower case, is what the other starts with.
abbrev pub SamePrefix : Str → Str → Type 0
SamePrefix a b =
    map to_ascii_lowercase (take (length b) a) ≡ map to_ascii_lowercase (take (length a) b)

same_chars-unquoted :
    (a b : Str)
    → (same_chars (map unquoted a) (map unquoted b) ≡ true)
      ↔ (SamePrefix a b × (length a ≤ length b + 1) × (length b ≤ length a + 1))
unfolding same_chars
same_chars-unquoted [] [] = (λ h. (refl, omega arith, omega arith), λ h. refl)
same_chars-unquoted [] (b ∷ []) = (λ h. (refl, omega arith, omega arith), λ h. refl)
same_chars-unquoted [] (b ∷ c ∷ ys) = (λ h. cc, λ h. absurd (omega (arith, h.2)))
same_chars-unquoted (a ∷ []) [] = (λ h. (refl, omega arith, omega arith), λ h. refl)
same_chars-unquoted (a ∷ c ∷ xs) [] = (λ h. cc, λ h. absurd (omega (arith, h.1)))
same_chars-unquoted (a ∷ xs) (b ∷ ys) =
    let ih = same_chars-unquoted xs ys in
    (
      λ h.
          let both = and_true (eq_ignore_ascii_case a b) h in
          let rest = ih.0 both.1 in
          (cons-eq ((==_iff _ _).0 both.0) rest.0, omega (arith, rest.1), omega (arith, rest.2)),
      λ h.
          let heads : eq_ignore_ascii_case a b ≡ true = (==_iff _ _).1 (ap (head_or 0) h.0) in
          rw (heads, ih.1 (ap tail h.0, omega (arith, h.1), omega (arith, h.2))) refl,
    )

-- Names with no quotation mark, of which the first does not start with "U&", are taken for the same
-- exactly when the shorter one, the case of ASCII letters aside, is what the other starts with, and the other is
-- at most one character longer.
pub name_eq-IsPlain :
    (a b : Str)
    → IsPlain a
    → IsPlain b
    → has_unicode_escapes a ≡ false
    → (name_eq a b ≡ true)
      ↔ (SamePrefix a b × (length a ≤ length b + 1) × (length b ≤ length a + 1))
unfolding name_eq identifier_chars
name_eq-IsPlain a b ha hb hu =
    rw (hu, scan-IsPlain a ha, scan-IsPlain b hb) (same_chars-unquoted a b)

IsPlain-append : (s : Str) (c : ℕ) → IsPlain s → (c == 34) ≡ false → IsPlain (s ++ c ∷ [])
IsPlain-append [] c h hc = (hc, tt)
IsPlain-append (a ∷ s) c h hc = (h.0, IsPlain-append s c h.1 hc)

SamePrefix-snoc : (n : Str) (c : ℕ) → SamePrefix n (n ++ c ∷ [])
SamePrefix-snoc n c =
    rw
      (
        take-all (length (n ++ c ∷ [])) n (omega (arith, length-append n (c ∷ []))),
        take-append n (c ∷ []) (length n) refl,
      )
      refl

-- `name_eq` does not tell apart a name and the name with one more character behind it.
pub name_eq-snoc :
    (n : Str) (c : ℕ)
    → IsPlain n
    → (c == 34) ≡ false
    → has_unicode_escapes n ≡ false
    → name_eq n (n ++ c ∷ []) ≡ true
name_eq-snoc n c hn hc hu = (name_eq-IsPlain n (n ++ c ∷ []) hn (IsPlain-append n c hn hc) hu).1 (
  SamePrefix-snoc n c,
  omega (arith, length-append n (c ∷ [])),
  omega (arith, length-append n (c ∷ [])),
)

char_eq_refl : (a : IdentifierChar) → char_eq a a ≡ true
char_eq_refl a = ground arith

char_eq_comm : (a b : IdentifierChar) → char_eq a b ≡ char_eq b a
char_eq_comm a b = ground arith

same_chars_refl : (cs : List IdentifierChar) → same_chars cs cs ≡ true
unfolding same_chars
same_chars_refl [] = refl
same_chars_refl (c ∷ cs) = rw (char_eq_refl c, same_chars_refl cs) refl

same_chars_comm : (a b : List IdentifierChar) → same_chars a b ≡ same_chars b a
unfolding same_chars
same_chars_comm [] [] = refl
same_chars_comm [] (b ∷ bs) = refl
same_chars_comm (a ∷ cs) [] = refl
same_chars_comm (a ∷ cs) (b ∷ bs) = rw (char_eq_comm a b, same_chars_comm cs bs) refl

pub name_eq_refl : (n : Str) → name_eq n n ≡ true
unfolding name_eq
name_eq_refl n = elim (Bool-cases (has_unicode_escapes n)) [
  | inl u ↦ rw u ((list_eq_iff n n).1 refl)
  | inr p ↦ rw p (same_chars_refl (identifier_chars n))
]

-- Of names that do not start with "U&", the order does not matter.
pub name_eq_comm :
    (a b : Str)
    → has_unicode_escapes a ≡ false
    → has_unicode_escapes b ≡ false
    → name_eq a b ≡ name_eq b a
unfolding name_eq
name_eq_comm a b ha hb = rw (ha, hb) (same_chars_comm (identifier_chars a) (identifier_chars b))

-- A name that starts with "u&" is taken for the same as the one with a capital, but not the other
-- way round.
pub name_eq-unicode_escapes :
    (s : Str)
    → IsPlain s
    → (name_eq (117 ∷ 38 ∷ s) (85 ∷ 38 ∷ s) ≡ true) × (name_eq (85 ∷ 38 ∷ s) (117 ∷ 38 ∷ s) ≡ false)
unfolding name_eq has_unicode_escapes
name_eq-unicode_escapes s h = (
  (name_eq-IsPlain (117 ∷ 38 ∷ s) (85 ∷ 38 ∷ s) (refl, (refl, h)) (refl, (refl, h)) refl).1
      (refl, omega arith, omega arith),
  refl,
)
