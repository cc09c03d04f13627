-- ===== src/Postgres/TypeInfo/Equality/Fuel.antt =====
-- sqlx-postgres/src/type_info.rs: the equality of types calls itself on smaller types only.
use sqlx.Base.{
  subst, ℕ, zero, suc, ◌+◌, ◌≤◌, ◌<◌, ◌≡◌, refl, ap, ◌⊎◌, inl, inr, Bool, ◌&&◌, ◌||◌, true, Option,
  none, some, [], ◌∷◌, ◌==◌, arith, length, Bool-cases, if◌then◌else◌,
}
use sqlx.Base.Eq.{nat_eq}
use sqlx.Postgres.TypeInfo.{Str, PgType, PgTypeKind}
use sqlx.Postgres.TypeInfo.Oids.{try_oid}
use sqlx.Postgres.TypeInfo.Elements.{
  try_array_element, kind_element, declare_element, strip_underscore,
}
use sqlx.Postgres.TypeInfo.Equality.{
  is_declare_with_oid, both_or, eq_body, depth, eq_within, eq_impl, eq,
}

strip_underscore-length : (n r : Str) → strip_underscore n ≡ some r → suc (length r) ≡ length n
unfolding strip_underscore
strip_underscore-length [] r h = absurd (cc)
strip_underscore-length (c ∷ n) r h = elim (Bool-cases (c == 95)) [
  | inl e ↦ let same : n ≡ r = cc in rw same refl
  | inr e ↦ absurd (cc)
]

declare_element-depth :
    (o : Option Str) (e : PgType) (n : ℕ)
    → ((r : Str) → o ≡ some r → suc (length r) ≡ n)
    → declare_element o ≡ some e
    → depth e < suc n
unfolding declare_element depth
declare_element-depth none e n k h = absurd (cc)
declare_element-depth (some r) e n k h =
    let same : PgType.declare_with_name r ≡ e = cc in
    subst (λ v. depth v < suc n) same (omega (arith, k r refl))

-- The element of a type is no larger than the type, and smaller where the type has no OID.
element_lt : (t e : PgType) → try_oid t ≡ none → try_array_element t ≡ some e → depth e < depth t
unfolding try_array_element try_oid depth
element_lt (PgType.declare_with_name n) e k h =
    declare_element-depth (strip_underscore n) e (length n) (strip_underscore-length n) h
element_lt (PgType.declare_array_of n) e k h =
    let same : PgType.declare_with_name n ≡ e = cc in
    subst (λ v. depth v < suc (suc (length n))) same (omega arith)
element_lt _ e k h = absurd (cc)

element_le : (t e : PgType) → try_array_element t ≡ some e → depth e ≤ depth t
unfolding try_array_element kind_element try_oid depth
element_le (PgType.custom o n (PgTypeKind.array u)) e h =
    let same : u ≡ e = cc in subst (λ v. depth v ≤ suc (depth u)) same (omega arith)
element_le (PgType.declare_with_name n) e h =
    omega (arith, element_lt (PgType.declare_with_name n) e refl h)
element_le (PgType.declare_array_of n) e h =
    omega (arith, element_lt (PgType.declare_array_of n) e refl h)
element_le _ e h = ground arith

pub elements_lt :
    (a b x y : PgType)
    → try_array_element a ≡ some x
    → try_array_element b ≡ some y
    → (try_oid a ≡ none) ⊎ (try_oid b ≡ none)
    → depth x + depth y < depth a + depth b
elements_lt a b x y hx hy (inl e) = omega (arith, element_lt a x e hx, element_le b y hy)
elements_lt a b x y hx hy (inr e) = omega (arith, element_le a x hx, element_lt b y e hy)

module _ {ℓ} {A : Type ℓ} where
  both_or-ext :
      (f g : A → A → Bool) (o p : Option A) (rest : Bool)
      → ((x y : A) → o ≡ some x → p ≡ some y → f x y ≡ g x y)
      → both_or f o p rest ≡ both_or g o p rest
  both_or-ext f g (some a) (some b) rest h = h a b refl refl
  both_or-ext f g (some a) none rest h = refl
  both_or-ext f g none p rest h = refl

  both_or-rest :
      (f : A → A → Bool) (o p : Option A) (r s : Bool)
      → ((o ≡ none) ⊎ (p ≡ none) → r ≡ s)
      → both_or f o p r ≡ both_or f o p s
  both_or-rest f (some a) (some b) r s h = refl
  both_or-rest f (some a) none r s h = h (inr refl)
  both_or-rest f none p r s h = h (inl refl)

-- Only elements of types of which one has no OID are compared.
eq_body-ext :
    (f g : PgType → PgType → Bool) (a b : PgType) (soft : Bool)
    → ((x y : PgType)
        → try_array_element a ≡ some x
        → try_array_element b ≡ some y
        → depth x + depth y < depth a + depth b
        → f x y ≡ g x y)
    → eq_body f a b soft ≡ eq_body g a b soft
eq_body-ext f g a b soft h = both_or-rest ◌==◌ (try_oid a) (try_oid b) _ _ (λ no_oid.
    ap (λ r. if soft && (is_declare_with_oid a || is_declare_with_oid b) then true else r)
      (both_or-ext f g (try_array_element a) (try_array_element b) _
        (λ x y hx hy. h x y hx hy (elements_lt a b x y hx hy no_oid))))

pub eq_within-fuel :
    (n m : ℕ) (a b : PgType) (soft : Bool)
    → depth a + depth b < n
    → depth a + depth b < m
    → eq_within n a b soft ≡ eq_within m a b soft
unfolding eq_within
eq_within-fuel zero m a b soft hn hm = absurd (omega arith)
eq_within-fuel (suc n) zero a b soft hn hm = absurd (omega arith)
eq_within-fuel (suc n) (suc m) a b soft hn hm =
    eq_body-ext (λ x y. eq_within n x y true) (λ x y. eq_within m x y true) a b soft
      (λ x y hx hy lt. eq_within-fuel n m x y true (omega arith) (omega arith))

-- The bound on the calls is high enough: `eq_impl` is its own body, with `==` for the elements.
pub eq_impl_lem : (a b : PgType) (soft : Bool) → eq_impl a b soft ≡ eq_body eq a b soft
unfolding eq_impl eq
eq_impl_lem a b soft =
    unfold eq_within in
    eq_body-ext (λ x y. eq_within (depth a + depth b) x y true) eq a b soft
      (λ x y hx hy lt.
        eq_within-fuel (depth a + depth b) (suc (depth x + depth y)) x y true lt (omega arith))
