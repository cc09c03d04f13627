-- ===== src/Postgres/Pgpass/Fields.antt =====
-- `find_next_field` against a description of the escapes character by character.
use mathlib.Core.List.{append-nil}
use sqlx.Base.{
  ℕ, ◌+◌, ◌≡◌, refl, sym, ap, ◌∙◌, inl, inr, Bool, true, false, Option, none, some, [], ◌∷◌, ◌++◌,
  arith, ◌==◌, ==_iff, ◌||◌, if◌then◌else◌, length, drop, Bool-cases,
}
use sqlx.Base.Slices.{slice, drop-all}
use sqlx.Postgres.Pgpass.{Str, colon, backslash, text_of, find_from, find_next_field}
use sqlx.Postgres.Pgpass.Reading.{
  field_of, behind, behind-cons, read_so_far, Sound, and_false, taken, rest_of, none_left,
  finish_lem, added, Step, goes_on, shifted, Sound-pushed, Sound-added,
}

-- The second of two backslashes takes the place of both.
escaped_backslash :
    (escaped : Option Str) (last : ℕ) (pre : Str) (c : ℕ)
    → last ≡ length pre
    → c ≡ backslash
    → read_so_far (some (text_of escaped ++ backslash ∷ [])) (length pre + 1) (pre ++ c ∷ [])
      ≡ read_so_far escaped last pre ++ c ∷ []
escaped_backslash escaped last pre c h k =
    rw
      (
        none_left pre c,
        drop-all last pre (omega (arith, h)),
        append-nil (text_of escaped),
        append-nil (text_of escaped ++ backslash ∷ []),
      )
      (ap (λ d. text_of escaped ++ d ∷ []) (sym k))

-- The first backslash adds what stands before it.
first_backslash :
    (escaped : Option Str) (last : ℕ) (pre xs line : Str) (c : ℕ)
    → line ≡ pre ++ xs
    → read_so_far
        (some (text_of escaped ++ slice line last (length pre)))
        (length pre + 1)
        (pre ++ c ∷ [])
      ≡ read_so_far escaped last pre
first_backslash escaped last pre xs line c e =
    rw (none_left pre c, taken pre xs line e) (append-nil (text_of escaped ++ drop last pre))

find_from_lem :
    (cs pre line : Str) (escaping : Bool) (escaped : Option Str) (last : ℕ)
    → line ≡ pre ++ cs
    → Sound escaping escaped last pre
    → find_from line (length pre) escaping escaped last cs
      ≡ behind (read_so_far escaped last pre) (field_of escaping cs)
unfolding find_from field_of
find_from_lem [] pre line escaping escaped last e v = refl
find_from_lem (c ∷ cs) pre line true escaped last e v = elim (Bool-cases (c == backslash)) [
  | inl b ↦
      let added_one = some (text_of escaped ++ backslash ∷ []) in
      let ih : Step false added_one (length pre + 1) c cs pre line =
        find_from_lem cs (pre ++ c ∷ []) line false added_one (length pre + 1)
          (shifted c cs pre line e)
          (Sound-pushed false (text_of escaped ++ backslash ∷ []) pre c) in
      let acc : (read_so_far added_one (length pre + 1) (pre ++ c ∷ [])
          ≡ read_so_far escaped last pre ++ c ∷ []) =
        escaped_backslash escaped last pre c (v.2 refl) ((==_iff c backslash).0 b) in
      rw
        (and_false (c == colon), b, goes_on c cs pre line false added_one (length pre + 1) _ ih acc)
        (sym (behind-cons (read_so_far escaped last pre) c (field_of false cs)))
  | inr b ↦
      let ih : Step false escaped last c cs pre line =
        find_from_lem cs (pre ++ c ∷ []) line false escaped last (shifted c cs pre line e)
          (Sound-added true escaped last pre c v) in
      rw
        (
          and_false (c == colon),
          b,
          goes_on c cs pre line false escaped last _ ih (added escaped last pre c v.0),
        )
        (sym (behind-cons (read_so_far escaped last pre) c (field_of false cs)))
]
find_from_lem (c ∷ cs) pre line false escaped last e v = elim (Bool-cases (c == colon)) [
  | inl k ↦
      rw
        (
          k,
          taken pre (c ∷ cs) line e,
          finish_lem escaped pre last v.1,
          rest_of pre cs line c e,
          append-nil (read_so_far escaped last pre),
        )
        refl
  | inr k ↦ elim (Bool-cases (c == backslash)) [
    | inl b ↦
        let text = text_of escaped ++ slice line last (length pre) in
        let ih : Step true (some text) (length pre + 1) c cs pre line =
          find_from_lem cs (pre ++ c ∷ []) line true (some text) (length pre + 1)
            (shifted c cs pre line e) (Sound-pushed true text pre c) in
        rw (k, b)
          (goes_on c cs pre line true (some text) (length pre + 1) (read_so_far escaped last pre) ih
            (first_backslash escaped last pre (c ∷ cs) line c e))
    | inr b ↦
        let ih : Step false escaped last c cs pre line =
          find_from_lem cs (pre ++ c ∷ []) line false escaped last (shifted c cs pre line e)
            (Sound-added false escaped last pre c v) in
        rw (k, b, goes_on c cs pre line false escaped last _ ih (added escaped last pre c v.0))
          (sym (behind-cons (read_so_far escaped last pre) c (field_of false cs)))
  ]
]

behind-nil : (o : Option (Str × Str)) → behind [] o ≡ o
behind-nil none = refl
behind-nil (some (f, r)) = refl

-- `find_next_field` reads a line from the left. A backslash that is not escaped itself escapes the
-- character behind it, whatever that is, and is left out; the field ends at the first colon that is
-- not escaped, behind which the rest of the line is left. There is no field exactly where there is no
-- such colon.
pub find_next_field_lem : (line : Str) → find_next_field line ≡ field_of false line
unfolding find_next_field
find_next_field_lem line =
    find_from_lem line [] line false none 0 refl (omega arith, λ _. refl, λ e. cc)
    ∙ behind-nil (field_of false line)

-- A field as it is written in a file.
abbrev pub escape : Str → Str
escape [] = []
escape (c ∷ cs) = if c == colon || c == backslash then backslash ∷ c ∷ escape cs else c ∷ escape cs

field_of-escape : (f rest : Str) → field_of false (escape f ++ colon ∷ rest) ≡ some (f, rest)
unfolding field_of
field_of-escape [] rest = refl
field_of-escape (c ∷ cs) rest = elim (Bool-cases (c == colon || c == backslash)) [
  | inl e ↦ rw (e, field_of-escape cs rest) refl
  | inr e ↦
      let plain : (c == colon) ≡ false = ground (arith, e) in
      let plain' : (c == backslash) ≡ false = ground (arith, e) in
      rw (e, plain, plain', field_of-escape cs rest) refl
]

-- A field that is written with its colons and backslashes escaped is read back as it was, and the
-- rest of the line is left.
pub find_next_field-escape :
    (f rest : Str) → find_next_field (escape f ++ colon ∷ rest) ≡ some (f, rest)
find_next_field-escape f rest =
    find_next_field_lem (escape f ++ colon ∷ rest) ∙ field_of-escape f rest
