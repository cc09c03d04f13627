-- ===== src/Postgres/TypeInfo/Tables.antt =====
-- sqlx-postgres/src/type_info.rs: what the tables of the built-in types say of one another.
use sqlx.Base.{
  ℕ, subst, ◌≡◌, sym, ap, ◌∙◌, ◌↔◌, some, List, [], ◌∷◌, ◌++◌, ◌==◌, arith, Bool-cases, ==_iff, ok,
  inl, inr,
}
use sqlx.Base.Text.{codes}
use sqlx.Postgres.TypeInfo.{PgType, PgTypeKind, IsBuiltin, IsResolved, array_name}
use sqlx.Postgres.TypeInfo.Oids.{oid_arms, first_arm, try_from_oid, try_oid}
use sqlx.Postgres.TypeInfo.Names.{name, display_name}
use sqlx.Postgres.TypeInfo.Kinds.{kind}
use sqlx.Postgres.TypeInfo.Elements.{kind_element, try_array_element}

-- Arms that agree with `try_oid`.
abbrev Agree : List (ℕ × PgType) → Type 0
Agree [] = Unit
Agree ((o, t) ∷ arms) = IsBuiltin t × (try_oid t ≡ some o) × Agree arms

first_arm-Agree :
    (oid : ℕ) (arms : List (ℕ × PgType)) (t : PgType)
    → Agree arms
    → first_arm oid arms ≡ some t
    → IsBuiltin t × (try_oid t ≡ some oid)
unfolding first_arm
first_arm-Agree oid [] t a h = absurd (cc)
first_arm-Agree oid ((o, u) ∷ arms) t a h = elim (Bool-cases (oid == o)) [
  | inl e ↦
      let same : u ≡ t = cc in
      subst (λ v. IsBuiltin v × (try_oid v ≡ some oid)) same
        (a.0, a.1 ∙ ap some (sym ((==_iff oid o).0 e)))
  | inr e ↦ first_arm-Agree oid arms t a.2 (cc)
]

oid_arms-Agree : Agree oid_arms
unfolding try_oid
oid_arms-Agree = ground arith

try_oid-try_from_oid :
    (t : PgType) {oid : ℕ} → IsBuiltin t → try_oid t ≡ some oid → try_from_oid oid ≡ some t
unfolding try_oid try_from_oid first_arm
try_oid-try_from_oid (PgType.custom _ _ _) b h = elim b [ ]
try_oid-try_from_oid t b h = grind arith

-- A built-in or looked up type is an array by its kind exactly when it has an element, and the
-- element is the one that the kind names.
pub try_array_element-kind :
    (t e : PgType)
    → IsResolved t
    → (kind t ≡ ok (PgTypeKind.array e)) ↔ (try_array_element t ≡ some e)
unfolding kind try_array_element kind_element
try_array_element-kind (PgType.custom o n k) e r = (λ h. cc, λ h. ground arith)
try_array_element-kind (PgType.declare_with_name _) e r = elim r [ ]
try_array_element-kind (PgType.declare_with_oid _) e r = elim r [ ]
try_array_element-kind (PgType.declare_array_of _) e r = elim r [ ]
try_array_element-kind _ e r = (λ h. cc, λ h. cc)

-- The name of a built-in array type is that of its element with "_" in front, and the name shown to
-- the user is that of its element with "[]" behind.
pub name-array :
    (t e : PgType)
    → IsBuiltin t
    → try_array_element t ≡ some e
    → (name t ≡ codes "_" ++ name e) × (display_name t ≡ array_name (display_name e))
unfolding name display_name try_array_element
name-array PgType.bool e b h = cc
name-array _ e b h = ground arith

-- `try_from_oid` gives a type exactly when it is the built-in type with that OID.
pub try_from_oid-try_oid :
    (oid : ℕ) (t : PgType) → (try_from_oid oid ≡ some t) ↔ (IsBuiltin t × (try_oid t ≡ some oid))
unfolding try_from_oid
try_from_oid-try_oid oid t =
    (first_arm-Agree oid oid_arms t oid_arms-Agree, λ h. try_oid-try_from_oid t h.0 h.1)
