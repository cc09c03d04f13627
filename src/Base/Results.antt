-- ===== src/Base/Results.antt =====
-- What a Rust call can come to: a value, an `Err`, or a panic.
use mathlib.Core.Bool.{Bool, true, false}
use sqlx.Base.Tests.{if◌then◌else◌}
use mathlib.Core.Option.{Option, none, some}
use mathlib.Core.Path.{◌≡◌, refl}

pub data Outcome {ℓ κ} (E : Type ℓ) (A : Type κ) : Type (ℓ ⊔ κ) where
  ok : A → Outcome E A
  err : E → Outcome E A
  panic : Outcome E A

infixl 5 ◌>>=◌ ◌>>◌
abbrev pub ◌>>=◌ {ℓ κ η} :
    {E : Type ℓ} {A : Type κ} {B : Type η} → Outcome E A → (A → Outcome E B) → Outcome E B
ok a >>= f = f a
err e >>= f = err e
panic >>= f = panic

abbrev pub ◌>>◌ {ℓ κ} : {E : Type ℓ} {B : Type κ} → Outcome E (Unit {0}) → Outcome E B → Outcome E B
m >> k = m >>= λ _. k

-- `assert!`.
abbrev pub ensure {ℓ} : {E : Type ℓ} → Bool → Outcome E (Unit {0})
ensure true = ok tt
ensure false = panic

-- `ok_or`, and `expect`.
abbrev pub ok_or {ℓ κ} : {E : Type ℓ} {A : Type κ} → Option A → E → Outcome E A
ok_or none e = err e
ok_or (some a) e = ok a

abbrev pub expect {ℓ κ} : {E : Type ℓ} {A : Type κ} → Option A → Outcome E A
expect none = panic
expect (some a) = ok a

-- The value of an outcome, where there is one.
abbrev pub value? {ℓ κ} : {E : Type ℓ} {A : Type κ} → Outcome E A → Option A
value? (ok a) = some a
value? (err e) = none
value? panic = none

-- A call that returns no `Err`.
abbrev pub lift {ℓ κ} : {E : Type ℓ} {A : Type κ} → Outcome ⊥ A → Outcome E A
lift (ok a) = ok a
lift (err e) = absurd e
lift panic = panic

-- `map_err`.
abbrev pub map_err {ℓ κ η} :
    {E : Type ℓ} {F : Type κ} {A : Type η} → (E → F) → Outcome E A → Outcome F A
map_err f (ok a) = ok a
map_err f (err e) = err (f e)
map_err f panic = panic

-- No panic, and a value, where there is one, with the property.
abbrev pub Yields {ℓ κ} : {E : Type ℓ} {A : Type κ} → (A → Type 0) → Outcome E A → Type 0
Yields P (ok a) = P a
Yields P (err e) = Unit
Yields P panic = ⊥

module _ {ℓ κ} {E : Type ℓ} {A : Type κ} (P : A → Type 0) where
  pub Yields->>= {η} :
      {B : Type η} (Q : B → Type 0) (m : Outcome E A) (f : A → Outcome E B)
      → Yields P m
      → ((a : A) → P a → Yields Q (f a))
      → Yields Q (m >>= f)
  Yields->>= Q (ok a) f h k = k a h
  Yields->>= Q (err e) f h k = tt
  Yields->>= Q panic f h k = absurd h

  pub Yields-map_err {η} :
      {F : Type η} (g : E → F) (m : Outcome E A) → Yields P m → Yields P (map_err g m)
  Yields-map_err g (ok a) h = h
  Yields-map_err g (err e) h = tt
  Yields-map_err g panic h = absurd h

  pub Yields-if :
      (b : Bool) (x y : Outcome E A) → Yields P x → Yields P y → Yields P (if b then x else y)
  Yields-if true x y hx hy = hx
  Yields-if false x y hx hy = hy

-- What a chain returned came from a value of its first call.
module _ {ℓ κ η} {E : Type ℓ} {A : Type κ} {B : Type η} (next : A → Outcome E B) {last : B} where
  pub >>=-returned :
      (first : Outcome E A)
      → (first >>= next) ≡ ok last
      → (value : A) × (next value ≡ ok last) × (first ≡ ok value)
  >>=-returned panic h = cc
  >>=-returned (err e) h = cc
  >>=-returned (ok value) h = (value, h, refl)

pub ok_or-returned {ℓ κ} :
    {E : Type ℓ} {A : Type κ} (o : Option A) (e : E) {a : A} → ok_or o e ≡ ok a → o ≡ some a
ok_or-returned none e h = cc
ok_or-returned (some a) e h = cc
