-- ===== src/Base/Runs.antt =====
-- Computations on a state, which keep the state where they fail.
use sqlx.Base.{Outcome, ok, err, panic, ◌≡◌, ap}

abbrev pub Exec : Type 0 → Type 0 → Type 0 → Type 0
Exec E S A = S → Outcome E A × S

abbrev pub resume : {E S A B : Type 0} → (A → Exec E S B) → Outcome E A → S → Outcome E B × S
resume f (ok a) s = f a s
resume f (err e) s = (err e, s)
resume f panic s = (panic, s)

infixl 5 ◌>>=◌ ◌>>◌
abbrev pub ◌>>=◌ : {E S A B : Type 0} → Exec E S A → (A → Exec E S B) → Exec E S B
◌>>=◌ m f s = resume f (m s).0 (m s).1

abbrev pub ◌>>◌ : {E S B : Type 0} → Exec E S (Unit {0}) → Exec E S B → Exec E S B
m >> k = m >>= λ _. k

abbrev pub return : {E S A : Type 0} → A → Exec E S A
return a s = (ok a, s)

-- A computation that does not touch the state.
abbrev pub pure_run : {E S A : Type 0} → Outcome E A → Exec E S A
pure_run r s = (r, s)

module _ {E S A B : Type 0} where
  -- A computation that ends well goes on from its value and state.
  pub >>=-ok :
      (m : Exec E S A) (k : A → Exec E S B) (s : S) (a : A) (t : S)
      → m s ≡ (ok a, t)
      → (m >>= k) s ≡ k a t
  >>=-ok m k s a t h = ap (λ r. resume k r.0 r.1) h
