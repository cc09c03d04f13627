-- ===== src/Base/Eq.antt =====
-- Rust's `Eq`: a Boolean equality that decides the paths.
use sqlx.Base.{ℕ, ◌≡◌, refl, ap, Bool, true, false, ◌↔◌, Option, none, some, ==_iff}
use sqlx.Base.Int.{ℤ, pos, negsuc}
use sqlx.Base.{List, [], ◌∷◌, ◌&&◌, arith}
use sqlx.Base.{◌==◌ as nat_beq}

pub record Eq {ℓ} (A : Type ℓ) : Type ℓ where
  pub beq : A → A → Bool
  pub beq_iff : (x y : A) → (beq x y ≡ true) ↔ (x ≡ y)

abbrev pub int_beq : ℤ → ℤ → Bool
int_beq (pos a) (pos b) = nat_beq a b
int_beq (pos a) (negsuc b) = false
int_beq (negsuc a) (pos b) = false
int_beq (negsuc a) (negsuc b) = nat_beq a b

pub int_beq_iff : (a b : ℤ) → (int_beq a b ≡ true) ↔ (a ≡ b)
int_beq_iff (pos a) (pos b) = (λ h. ap pos ((==_iff a b).0 h), λ h. (==_iff a b).1 (cc))
int_beq_iff (pos a) (negsuc b) = (λ h. cc, λ h. cc)
int_beq_iff (negsuc a) (pos b) = (λ h. cc, λ h. cc)
int_beq_iff (negsuc a) (negsuc b) = (λ h. ap negsuc ((==_iff a b).0 h), λ h. (==_iff a b).1 (cc))

infix 50 ◌==◌
abbrev pub ◌==◌ {ℓ} : {A : Type ℓ} ⦃e : Eq A⦄ → A → A → Bool
◌==◌ ⦃e⦄ = e.beq

module _ {ℓ} {A : Type ℓ} ⦃e : Eq A⦄ where
  pub eq_refl : (a : A) → (a == a) ≡ true
  eq_refl a = (e.beq_iff a a).1 refl

  -- The derived equality of `Option`.
  abbrev pub option_eq : Option A → Option A → Bool
  option_eq none none = true
  option_eq none (some b) = false
  option_eq (some a) none = false
  option_eq (some a) (some b) = a == b

  pub option_eq_iff : (a b : Option A) → (option_eq a b ≡ true) ↔ (a ≡ b)
  option_eq_iff none none = (λ _. refl, λ _. refl)
  option_eq_iff none (some b) = (λ h. cc, λ h. cc)
  option_eq_iff (some a) none = (λ h. cc, λ h. cc)
  option_eq_iff (some a) (some b) =
      (λ h. ap some ((e.beq_iff a b).0 h), λ h. (e.beq_iff a b).1 (cc))

instance abbrev pub nat_eq : Eq ℕ
nat_eq = record { beq = nat_beq; beq_iff = ==_iff }

instance abbrev pub int_eq : Eq ℤ
int_eq = record { beq = int_beq; beq_iff = int_beq_iff }

module _ {ℓ} {A : Type ℓ} ⦃e : Eq A⦄ where
  -- The equality of slices.
  abbrev pub list_eq : List A → List A → Bool
  list_eq [] [] = true
  list_eq [] (b ∷ ys) = false
  list_eq (a ∷ xs) [] = false
  list_eq (a ∷ xs) (b ∷ ys) = a == b && list_eq xs ys

  pub list_eq_iff : (xs ys : List A) → (list_eq xs ys ≡ true) ↔ (xs ≡ ys)
  list_eq_iff [] [] = (λ _. refl, λ _. refl)
  list_eq_iff [] (b ∷ ys) = (λ h. cc, λ h. cc)
  list_eq_iff (a ∷ xs) [] = (λ h. cc, λ h. cc)
  list_eq_iff (a ∷ xs) (b ∷ ys) = (
    λ h. ground (arith, (e.beq_iff a b).0, (list_eq_iff xs ys).0),
    λ h. rw ((e.beq_iff a b).1 (cc), (list_eq_iff xs ys).1 (cc)),
  )
