-- ===== src/Postgres/TypeInfo/Equality/Builtin.antt =====
-- sqlx-postgres/src/type_info.rs: which types `==` and `type_eq` take for the same.
use sqlx.Base.{
  subst, ℕ, zero, suc, ◌+◌, ◌<◌, ◌≡◌, refl, sym, ◌∙◌, ◌↔◌, inl, inr, Bool, true, false, ◌&&◌, ◌||◌,
  none, some, ◌∷◌, ◌==◌, if◌then◌else◌, arith, Bool-cases, Option-cases, ==_iff,
}
use sqlx.Base.Eq.{eq_refl, nat_eq}
use sqlx.Postgres.TypeInfo.{PgType, IsBuiltin}
use sqlx.Postgres.TypeInfo.Oids.{try_oid}
use sqlx.Postgres.TypeInfo.Tables.{try_from_oid-try_oid, name-array}
use sqlx.Postgres.TypeInfo.Names.{name}
use sqlx.Postgres.TypeInfo.Elements.{try_array_element, declare_element, strip_underscore}
use sqlx.Postgres.TypeInfo.Identifiers.{name_eq}
use sqlx.Postgres.TypeInfo.Identifiers.Laws.{name_eq_refl}
use sqlx.Postgres.TypeInfo.Equality.{is_declare_with_oid, both_or, depth, eq_within, eq_impl, eq}
use sqlx.Postgres.TypeInfo.Equality.Fuel.{elements_lt, eq_impl_lem}

try_oid-IsBuiltin : (t : PgType) → IsBuiltin t → (o : ℕ) × (try_oid t ≡ some o)
unfolding try_oid
try_oid-IsBuiltin (PgType.custom _ _ _) b = elim b [ ]
try_oid-IsBuiltin (PgType.declare_with_name _) b = elim b [ ]
try_oid-IsBuiltin (PgType.declare_with_oid _) b = elim b [ ]
try_oid-IsBuiltin (PgType.declare_array_of _) b = elim b [ ]
try_oid-IsBuiltin _ b = (_, refl)

is_declare_with_oid-IsBuiltin : (t : PgType) → IsBuiltin t → is_declare_with_oid t ≡ false
unfolding is_declare_with_oid
is_declare_with_oid-IsBuiltin (PgType.custom _ _ _) b = elim b [ ]
is_declare_with_oid-IsBuiltin (PgType.declare_with_name _) b = elim b [ ]
is_declare_with_oid-IsBuiltin (PgType.declare_with_oid _) b = elim b [ ]
is_declare_with_oid-IsBuiltin (PgType.declare_array_of _) b = elim b [ ]
is_declare_with_oid-IsBuiltin _ b = refl

-- The elements of the built-in arrays are built in, and no arrays.
element-IsBuiltin :
    (t e : PgType)
    → IsBuiltin t
    → try_array_element t ≡ some e
    → IsBuiltin e × (try_array_element e ≡ none)
unfolding try_array_element
element-IsBuiltin (PgType.custom _ _ _) e b h = elim b [ ]
element-IsBuiltin (PgType.declare_with_name _) e b h = elim b [ ]
element-IsBuiltin (PgType.declare_with_oid _) e b h = elim b [ ]
element-IsBuiltin (PgType.declare_array_of _) e b h = elim b [ ]
element-IsBuiltin _ e b h = ground arith

eq_within_refl :
    (n : ℕ) (t : PgType) (soft : Bool) → depth t + depth t < n → eq_within n t t soft ≡ true
unfolding eq_within
eq_within_refl zero t soft h = absurd (omega arith)
eq_within_refl (suc n) t soft h = elim (Option-cases (try_oid t)) [
  | inr (o, e) ↦ rw e (eq_refl o)
  | inl e ↦ elim (Bool-cases (soft && (is_declare_with_oid t || is_declare_with_oid t))) [
    | inl d ↦ rw (e, d) refl
    | inr d ↦ elim (Option-cases (try_array_element t)) [
      | inl lacks ↦ rw (e, d, lacks) (name_eq_refl (name t))
      | inr (x, has) ↦
          let lt = elements_lt t t x x has has (inl e) in
          rw (e, d, has) (eq_within_refl n x true (omega arith))
    ]
  ]
]

-- Every type equals itself, in both comparisons.
pub eq_impl_refl : (t : PgType) (soft : Bool) → eq_impl t t soft ≡ true
unfolding eq_impl
eq_impl_refl t soft = eq_within_refl (suc (depth t + depth t)) t soft (omega arith)

-- Built-in types are equal, in both comparisons, exactly when they are the same.
pub eq_impl-IsBuiltin :
    (a b : PgType) (soft : Bool) → IsBuiltin a → IsBuiltin b → (eq_impl a b soft ≡ true) ↔ (a ≡ b)
eq_impl-IsBuiltin a b soft ha hb =
    let (o, ea) = try_oid-IsBuiltin a ha in
    let (p, eb) = try_oid-IsBuiltin b hb in
    let test : eq_impl a b soft ≡ (o == p) = rw (eq_impl_lem a b soft, ea, eb) refl in
    (
      λ h.
          let same : o ≡ p = (==_iff o p).0 (sym test ∙ h) in
          let left = (try_from_oid-try_oid o a).1 (ha, ea) in
          let right = (try_from_oid-try_oid p b).1 (hb, eb) in cc,
      λ e. subst (λ t. eq_impl a t soft ≡ true) e (eq_impl_refl a soft),
    )

guarded : (soft r : Bool) → (if soft && false then true else r) ≡ r
guarded true r = refl
guarded false r = refl

-- What is compared where one type is known by name only.
eq_impl-named :
    (t u : PgType) (soft : Bool)
    → IsBuiltin t
    → try_oid u ≡ none
    → is_declare_with_oid u ≡ false
    → eq_impl t u soft
      ≡ both_or eq (try_array_element t) (try_array_element u) (name_eq (name t) (name u))
eq_impl-named t u soft b lacks d =
    let (o, e) = try_oid-IsBuiltin t b in
    rw (eq_impl_lem t u soft, e, lacks, is_declare_with_oid-IsBuiltin t b, d) (guarded soft _)

eq_impl-element :
    (e : PgType) (soft : Bool)
    → IsBuiltin e
    → try_array_element e ≡ none
    → eq_impl e (PgType.declare_with_name (name e)) soft ≡ true
unfolding try_oid is_declare_with_oid name
eq_impl-element e soft b h =
    eq_impl-named e (PgType.declare_with_name (name e)) soft b refl refl
    ∙ rw h (name_eq_refl (name e))

eq_impl-array :
    (t e u : PgType) (soft : Bool)
    → IsBuiltin t
    → try_array_element t ≡ some e
    → try_oid u ≡ none
    → is_declare_with_oid u ≡ false
    → try_array_element u ≡ some (PgType.declare_with_name (name e))
    → eq_impl t u soft ≡ true
unfolding eq
eq_impl-array t e u soft b has lacks d hu =
    let element = element-IsBuiltin t e b has in
    eq_impl-named t u soft b lacks d ∙ rw (has, hu) (eq_impl-element e true element.0 element.1)

-- A built-in type equals, in both comparisons, a type that is declared with its name, and a
-- built-in array type also one that is declared as an array of what the name of its element says.
pub eq_impl-declared :
    (t : PgType) (soft : Bool)
    → IsBuiltin t
    → (eq_impl t (PgType.declare_with_name (name t)) soft ≡ true)
      × ((e : PgType)
          → try_array_element t ≡ some e
          → eq_impl t (PgType.declare_array_of (name e)) soft ≡ true)
unfolding try_oid try_array_element declare_element strip_underscore is_declare_with_oid
eq_impl-declared t soft b = (
  elim (Option-cases (try_array_element t)) [
    | inl lacks ↦ eq_impl-element t soft b lacks
    | inr (e, has) ↦
        let prefixed : name t ≡ 95 ∷ name e = (name-array t e b has).0 in
        subst (λ n. eq_impl t (PgType.declare_with_name n) soft ≡ true) (sym prefixed)
          (eq_impl-array t e (PgType.declare_with_name (95 ∷ name e)) soft b has refl refl refl)
  ],
  λ e has. eq_impl-array t e (PgType.declare_array_of (name e)) soft b has refl refl refl,
)
