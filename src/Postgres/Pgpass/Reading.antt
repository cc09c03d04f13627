-- ===== src/Postgres/Pgpass/Reading.antt =====
-- A field of a line of a pgpass file described character by character, and what the loop of
-- `find_next_field` has read of it.
use mathlib.Core.List.{append_assoc}
use sqlx.Base.{
  ℕ, ◌+◌, ◌≡◌, ◌≤◌, refl, sym, ap, ◌∙◌, Bool, true, false, ◌&&◌, Option, none, some, [], ◌∷◌, ◌++◌,
  arith, ◌==◌, if◌then◌else◌, length, length-append, take, drop,
}
use sqlx.Base.Slices.{take-append, drop-append, drop-append_le, drop-all}
use sqlx.Postgres.Pgpass.{Str, colon, backslash, text_of, finish, find_from}

abbrev pub cons_field : ℕ → Option (Str × Str) → Option (Str × Str)
cons_field c none = none
cons_field c (some (f, r)) = some (c ∷ f, r)

-- A field ends at a colon; a backslash stands for the character behind it, whatever that is.
unfoldable pub field_of : Bool → Str → Option (Str × Str)
field_of escaping [] = none
field_of true (c ∷ cs) = cons_field c (field_of false cs)
field_of false (c ∷ cs) =
    let plain = cons_field c (field_of false cs) in
    let escaped = field_of true cs in
    if c == colon then some ([], cs) else if c == backslash then escaped else plain

abbrev pub behind : Str → Option (Str × Str) → Option (Str × Str)
behind acc none = none
behind acc (some (f, r)) = some (acc ++ f, r)

pub behind-cons :
    (acc : Str) (c : ℕ) (o : Option (Str × Str))
    → behind acc (cons_field c o) ≡ behind (acc ++ c ∷ []) o
behind-cons acc c none = refl
behind-cons acc c (some (f, r)) = ap (λ xs. some (xs, r)) (sym (append_assoc acc (c ∷ []) f))

-- What the loop has read of the field so far, when the characters `pre` are behind it.
abbrev pub read_so_far : Option Str → ℕ → Str → Str
read_so_far escaped last pre = text_of escaped ++ drop last pre

abbrev pub Sound : Bool → Option Str → ℕ → Str → Type 0
Sound escaping escaped last pre =
    (last ≤ length pre) × (escaped ≡ none → last ≡ 0) × (escaping ≡ true → last ≡ length pre)

pub and_false : (b : Bool) → (b && false) ≡ false
and_false true = refl
and_false false = refl

pub taken : (pre xs line : Str) → line ≡ pre ++ xs → take (length pre) line ≡ pre
taken pre xs line e = ap (take (length pre)) e ∙ take-append pre xs (length pre) refl

pub rest_of : (pre cs line : Str) (c : ℕ) → line ≡ pre ++ c ∷ cs → drop (length pre + 1) line ≡ cs
rest_of pre cs line c e =
    ap (drop (length pre + 1)) (e ∙ sym (append_assoc pre (c ∷ []) cs))
    ∙ drop-append (pre ++ c ∷ []) cs (length pre + 1) (length-append pre (c ∷ []))

-- Nothing is read behind the last character that is added.
pub none_left : (pre : Str) (c : ℕ) → drop (length pre + 1) (pre ++ c ∷ []) ≡ []
none_left pre c =
    drop-all (length pre + 1) (pre ++ c ∷ []) (omega (arith, length-append pre (c ∷ [])))

pub finish_lem :
    (escaped : Option Str) (pre : Str) (last : ℕ)
    → (escaped ≡ none → last ≡ 0)
    → finish escaped pre last ≡ read_so_far escaped last pre
finish_lem none pre last h = rw (h refl) refl
finish_lem (some s) pre last h = refl

-- A character that is added to the field where it stands.
pub added :
    (escaped : Option Str) (last : ℕ) (pre : Str) (c : ℕ)
    → last ≤ length pre
    → read_so_far escaped last (pre ++ c ∷ []) ≡ read_so_far escaped last pre ++ c ∷ []
added escaped last pre c h =
    ap (λ xs. text_of escaped ++ xs) (drop-append_le pre (c ∷ []) last h)
    ∙ sym (append_assoc (text_of escaped) (drop last pre) (c ∷ []))

abbrev pub Step : Bool → Option Str → ℕ → ℕ → Str → Str → Str → Type 0
Step escaping escaped last c cs pre line =
    find_from line (length (pre ++ c ∷ [])) escaping escaped last cs
    ≡ behind (read_so_far escaped last (pre ++ c ∷ [])) (field_of escaping cs)

-- The loop goes on with `c` behind it.
pub goes_on :
    (c : ℕ) (cs pre line : Str) (escaping : Bool) (escaped : Option Str) (last : ℕ) (acc : Str)
    → Step escaping escaped last c cs pre line
    → read_so_far escaped last (pre ++ c ∷ []) ≡ acc
    → find_from line (length pre + 1) escaping escaped last cs ≡ behind acc (field_of escaping cs)
goes_on c cs pre line escaping escaped last acc ih a =
    let more : length pre + 1 ≡ length (pre ++ c ∷ []) = sym (length-append pre (c ∷ [])) in
    ap (λ n. find_from line n escaping escaped last cs) more
    ∙ ih
    ∙ ap (λ xs. behind xs (field_of escaping cs)) a

pub shifted : (c : ℕ) (cs pre line : Str) → line ≡ pre ++ c ∷ cs → line ≡ pre ++ c ∷ [] ++ cs
shifted c cs pre line e = e ∙ sym (append_assoc pre (c ∷ []) cs)

pub Sound-pushed :
    (escaping : Bool) (s pre : Str) (c : ℕ)
    → Sound escaping (some s) (length pre + 1) (pre ++ c ∷ [])
Sound-pushed escaping s pre c =
    let size : length (pre ++ c ∷ []) ≡ length pre + 1 = length-append pre (c ∷ []) in
    (omega (arith, size), λ e. cc e, λ _. sym size)

pub Sound-added :
    (escaping : Bool) (escaped : Option Str) (last : ℕ) (pre : Str) (c : ℕ)
    → Sound escaping escaped last pre
    → Sound false escaped last (pre ++ c ∷ [])
Sound-added escaping escaped last pre c v =
    (omega (arith, v.0, length-append pre (c ∷ [])), v.1, λ e. cc e)
