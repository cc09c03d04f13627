-- ===== src/Sqlite/IntMap/Equality.antt =====
-- `PartialEq` and `Hash` of IntMap against what lookups see.
use sqlx.Base.{
  ℕ, zero, suc, ◌≤◌, ◌≡◌, refl, sym, ap, Bool, true, ◌&&◌, ◌⊎◌, inl, inr, ◌↔◌, Option, none, some,
  List, [], ◌∷◌, arith, length, take, drop, ok,
}
use sqlx.Base.Int.{ℤ, pos, negsuc}
use sqlx.Base.Eq.{Eq, option_eq, option_eq_iff}
use sqlx.Sqlite.IntMap.{IntMap, at, get, compact, values, slots_eq, all_none, int_map_eq}

abbrev pub Agree {ℓ} : {V : Type ℓ} → List (Option V) → List (Option V) → Type ℓ
Agree xs ys = (i : ℕ) → at xs i ≡ at ys i

module _ {ℓ} {V : Type ℓ} where
  Agree-empty_cons : (x : Option V) (xs : List (Option V)) → Agree [] (x ∷ xs) → x ≡ none
  Agree-empty_cons x xs h = sym (h 0)

  compact-empty : (xs : List (Option V)) → Agree [] xs → compact xs ≡ []
  unfolding compact
  compact-empty [] h = refl
  compact-empty (none ∷ xs) h = compact-empty xs (λ i. h (suc i))
  compact-empty (some v ∷ xs) h = cc (h 0)

  compact-Agree : (xs ys : List (Option V)) → Agree xs ys → compact xs ≡ compact ys
  unfolding compact
  compact-Agree [] ys h = sym (compact-empty ys h)
  compact-Agree (x ∷ xs) [] h = compact-empty (x ∷ xs) (λ i. sym (h i))
  compact-Agree (none ∷ xs) (none ∷ ys) h = compact-Agree xs ys (λ i. h (suc i))
  compact-Agree (none ∷ xs) (some w ∷ ys) h = cc (h 0)
  compact-Agree (some v ∷ xs) (none ∷ ys) h = cc (h 0)
  compact-Agree (some v ∷ xs) (some w ∷ ys) h = cc (h 0, compact-Agree xs ys (λ i. h (suc i)))

and-split : (a b : Bool) → (a && b) ≡ true → (a ≡ true) × (b ≡ true)
and-split a b h = ground arith

module _ {ℓ} {V : Type ℓ} ⦃e : Eq V⦄ where
  all_none_iff : (xs : List (Option V)) → (all_none xs ≡ true) ↔ Agree xs []
  unfolding all_none
  all_none_iff [] = (λ _ i. refl, λ _. refl)
  all_none_iff (none ∷ xs) = (
    λ h. elim [ zero ↦ refl | suc i ↦ (all_none_iff xs).0 h i ],
    λ h. (all_none_iff xs).1 (λ i. h (suc i)),
  )
  all_none_iff (some v ∷ xs) = (λ h. cc, λ h. cc (h 0))

  -- What the source compares when `ys` is the shorter side.
  abbrev covers : List (Option V) → List (Option V) → Bool
  covers xs ys = slots_eq (take (length ys) xs) ys && all_none (drop (length ys) xs)

  covers_cons :
      (x y : Option V) (xs ys : List (Option V))
      → covers (x ∷ xs) (y ∷ ys) ≡ (option_eq x y && covers xs ys)
  unfolding slots_eq
  covers_cons x y xs ys = ground arith

  covers_step :
      (x y : Option V) (xs ys : List (Option V))
      → (covers xs ys ≡ true) ↔ Agree xs ys
      → (covers (x ∷ xs) (y ∷ ys) ≡ true) ↔ Agree (x ∷ xs) (y ∷ ys)
  covers_step x y xs ys step = (to, from)
    where
      to : covers (x ∷ xs) (y ∷ ys) ≡ true → Agree (x ∷ xs) (y ∷ ys)
      to t = elim [
        | zero ↦ (option_eq_iff x y).0 (and-split _ _ (rw covers_cons at t)).0
        | suc i ↦ step.0 (and-split _ _ (rw covers_cons at t)).1 i
      ]

      from : Agree (x ∷ xs) (y ∷ ys) → covers (x ∷ xs) (y ∷ ys) ≡ true
      from t = rw (covers_cons, (option_eq_iff x y).1 (t 0)) (step.1 (λ i. t (suc i)))

  covers_iff :
      (xs ys : List (Option V)) → length ys ≤ length xs → (covers xs ys ≡ true) ↔ Agree xs ys
  covers_iff xs [] h = unfold slots_eq in all_none_iff xs
  covers_iff [] (y ∷ ys) h = elim h [ ]
  covers_iff (x ∷ xs) (y ∷ ys) h = covers_step x y xs ys (covers_iff xs ys (omega arith))

  covers-same_length :
      (xs ys : List (Option V)) → length xs ≡ length ys → slots_eq xs ys ≡ covers xs ys
  unfolding slots_eq all_none
  covers-same_length [] [] h = refl
  covers-same_length [] (y ∷ ys) h = absurd (omega arith)
  covers-same_length (x ∷ xs) [] h = absurd (omega arith)
  covers-same_length (x ∷ xs) (y ∷ ys) h = ground (arith, covers-same_length xs ys (omega arith))

  slots_cases :
      (xs ys : List (Option V))
      → ((length ys ≤ length xs)
          × (int_map_eq (record { slots = xs }) (record { slots = ys }) ≡ covers xs ys))
        ⊎ ((length xs ≤ length ys)
            × (int_map_eq (record { slots = xs }) (record { slots = ys }) ≡ covers ys xs))
  unfolding int_map_eq
  slots_cases xs ys = ground (arith, covers-same_length xs ys)

  -- `==` holds of exactly the maps that answer every lookup alike.
  pub int_map_eq_iff : (m n : IntMap V) → (int_map_eq m n ≡ true) ↔ ((k : ℤ) → get m k ≡ get n k)
  unfolding get
  int_map_eq_iff m n = (
    λ h. elim [ pos i ↦ ap ok (agree.0 h i) | negsuc i ↦ refl ],
    λ h. agree.1 (λ i. cc (h (pos i))),
  )
    where
      agree : (int_map_eq m n ≡ true) ↔ Agree m.slots n.slots
      agree = elim (slots_cases m.slots n.slots) [
        | inl (le, c) ↦ rw c (covers_iff m.slots n.slots le)
        | inr (le, c) ↦ rw c (
          λ h i. sym ((covers_iff n.slots m.slots le).0 h i),
          λ h. (covers_iff n.slots m.slots le).1 (λ i. sym (h i)),
        )
      ]

  -- Maps that are equal feed the same values to a hasher, in the same order.
  pub int_map_eq-values : (m n : IntMap V) → int_map_eq m n ≡ true → values m ≡ values n
  unfolding values get
  int_map_eq-values m n h =
      compact-Agree m.slots n.slots (λ i. cc ((int_map_eq_iff m n).0 h (pos i)))
