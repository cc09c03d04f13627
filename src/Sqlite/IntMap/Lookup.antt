-- ===== src/Sqlite/IntMap/Lookup.antt =====
-- What a lookup finds after each operation that changes the map.
use sqlx.Base.{ℕ, suc, ◌≡◌, refl, ap, sym, Option, none, some, arith, ◌==◌, if◌then◌else◌, ok}
use sqlx.Base.Int.{pos}
use sqlx.Sqlite.IntMap.{IntMap, expand, get, insert, remove}
use sqlx.Sqlite.IntMap.Slots.{at-grow, at-set-none, at-set-grow}

module _ {ℓ} {V : Type ℓ} where
  -- `insert` at an index that is not negative always returns; it hands back what a lookup at the
  -- index found, and afterwards a lookup finds the new value there and what it found before
  -- anywhere else.
  pub get-insert :
      (m : IntMap V) (i : ℕ) (v : V)
      → (r : IntMap V × Option V) × (insert m (pos i) v ≡ ok r)
        × (get m (pos i) ≡ ok r.1)
        × ((j : ℕ) → get r.0 (pos j) ≡ (if i == j then ok (some v) else get m (pos j)))
  unfolding insert expand get
  get-insert m i v = (
    _,
    refl,
    ap ok (sym (at-grow (suc i) i m.slots i)),
    λ j. ground (arith, at-set-grow i j m.slots (some v)),
  )

  -- `remove` at an index that is not negative always returns; it hands back what a lookup at the
  -- index found, and afterwards a lookup finds nothing there and what it found before anywhere
  -- else.
  pub get-remove :
      (m : IntMap V) (i : ℕ)
      → (r : IntMap V × Option V) × (remove m (pos i) ≡ ok r)
        × (get m (pos i) ≡ ok r.1)
        × ((j : ℕ) → get r.0 (pos j) ≡ (if i == j then ok none else get m (pos j)))
  unfolding remove get
  get-remove m i = (_, refl, refl, λ j. ground (arith, at-set-none m.slots i j))
