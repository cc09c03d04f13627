-- ===== src/Sqlite/IntMap/Entries.antt =====
-- The iterators of IntMap, and the maps made from sequences.
use sqlx.Base.{
  ℕ, zero, suc, ◌+◌, ◌<◌, ◌≤◌, ◌≡◌, refl, sym, ap, ◌∙◌, inl, inr, Option, none, some, List, [], ◌∷◌,
  map, arith, ◌==◌, ==_iff, if◌then◌else◌, Bool-cases, set, ok,
}
use mathlib.Core.Option
use sqlx.Base.Int.{ℤ, pos, negsuc}
use sqlx.Sqlite.IntMap.{
  IntMap, at, get, expand, entries_from, iter_entries, rposition, later, grow, last_index,
  from_pairs, from_iter, new, set_default, get_mut_or_default,
}
use sqlx.Sqlite.IntMap.Slots.{at-set-grow, at-grow}

-- The value beside a key in a list of entries.
abbrev pub entry_at {ℓ} : {V : Type ℓ} → ℕ → List (ℤ × V) → Option V
entry_at j [] = none
entry_at j ((pos i, v) ∷ es) = if i == j then some v else entry_at j es
entry_at j ((negsuc i, v) ∷ es) = entry_at j es

-- The keys are not negative and rise strictly, from `n` on.
abbrev pub Rising {ℓ} : {V : Type ℓ} → ℕ → List (ℤ × V) → Type 0
Rising n [] = Unit
Rising n ((pos i, v) ∷ es) = (n ≤ i) × Rising (suc i) es
Rising n ((negsuc i, v) ∷ es) = ⊥

Rising-weaken {ℓ} : {V : Type ℓ} (m n : ℕ) (es : List (ℤ × V)) → m ≤ n → Rising n es → Rising m es
Rising-weaken m n [] h a = tt
Rising-weaken m n ((pos i, v) ∷ es) h a = (omega arith, a.1)
Rising-weaken m n ((negsuc i, v) ∷ es) h a = a

entry_at-below {ℓ} :
    {V : Type ℓ} (j n : ℕ) (es : List (ℤ × V)) → j < n → Rising n es → entry_at j es ≡ none
entry_at-below j n [] h a = refl
entry_at-below j n ((pos i, v) ∷ es) h a =
    ground (arith, entry_at-below j (suc i) es (omega arith) a.1)
entry_at-below j n ((negsuc i, v) ∷ es) h a = absurd a

at-here {ℓ} :
    {V : Type ℓ} (i j : ℕ) (xs : List (Option V)) (v : V)
    → at xs i ≡ some v
    → at xs j ≡ (if i == j then some v else at xs j)
at-here i j xs v h = elim (Bool-cases (i == j)) [
  | inl e ↦ rw e (ap (at xs) (sym ((==_iff i j).0 e)) ∙ h)
  | inr e ↦ rw e
]

module _ {ℓ} {V : Type ℓ} where
  entries_from-Rising : (i : ℕ) (xs : List (Option V)) → Rising i (entries_from i xs)
  unfolding entries_from
  entries_from-Rising i [] = tt
  entries_from-Rising i (none ∷ xs) =
      Rising-weaken i (suc i) (entries_from (suc i) xs) (omega arith)
        (entries_from-Rising (suc i) xs)
  entries_from-Rising i (some v ∷ xs) = (omega arith, entries_from-Rising (suc i) xs)

  entry_at-entries_from :
      (i j : ℕ) (xs : List (Option V)) → entry_at (i + j) (entries_from i xs) ≡ at xs j
  unfolding entries_from
  entry_at-entries_from i j [] = refl
  entry_at-entries_from i zero (none ∷ xs) = ground (
    arith,
    entry_at-below i (suc i) (entries_from (suc i) xs) (omega arith)
        (entries_from-Rising (suc i) xs),
  )
  entry_at-entries_from i zero (some v ∷ xs) = ground arith
  entry_at-entries_from i (suc j) (none ∷ xs) = ground (arith, entry_at-entries_from (suc i) j xs)
  entry_at-entries_from i (suc j) (some v ∷ xs) = ground (arith, entry_at-entries_from (suc i) j xs)

  -- `iter_entries` gives each entry of the map once, in rising order of keys.
  pub iter_entries_lem :
      (m : IntMap V)
      → Rising 0 (iter_entries m) × ((j : ℕ) → ok (entry_at j (iter_entries m)) ≡ get m (pos j))
  unfolding iter_entries get
  iter_entries_lem m = (
    entries_from-Rising 0 m.slots,
    λ j. ap ok (ground (arith, entry_at-entries_from 0 j m.slots)),
  )

  -- `i` is the last position that holds a value.
  abbrev IsLast : List (Option V) → Option ℕ → Type ℓ
  IsLast xs none = (j : ℕ) → at xs j ≡ none
  IsLast xs (some i) = (v : V) × (at xs i ≡ some v) × ((j : ℕ) → i < j → at xs j ≡ none)

  later-IsLast :
      (x : Option V) (xs : List (Option V)) (r : Option ℕ)
      → IsLast xs r
      → IsLast (x ∷ xs) (later x r)
  unfolding later
  later-IsLast x xs (some i) (v, here, after) =
      (v, here, elim [ zero ↦ λ h. elim h [ ] | suc j ↦ λ h. after j (omega arith) ])
  later-IsLast (some v) xs none h = (v, refl, elim [ zero ↦ λ k. elim k [ ] | suc j ↦ λ _. h j ])
  later-IsLast none xs none h = elim [ zero ↦ refl | suc j ↦ h j ]

  rposition-IsLast : (xs : List (Option V)) → IsLast xs (rposition xs)
  unfolding rposition
  rposition-IsLast [] = λ j. refl
  rposition-IsLast (x ∷ xs) = later-IsLast x xs (rposition xs) (rposition-IsLast xs)

  -- `r` is the largest index at which a lookup finds a value.
  abbrev pub IsLastIndex : IntMap V → Option ℕ → Type ℓ
  IsLastIndex m none = (j : ℕ) → get m (pos j) ≡ ok none
  IsLastIndex m (some i) =
      (v : V) × (get m (pos i) ≡ ok (some v)) × ((j : ℕ) → i < j → get m (pos j) ≡ ok none)

  IsLast-IsLastIndex : (m : IntMap V) (r : Option ℕ) → IsLast m.slots r → IsLastIndex m r
  unfolding get
  IsLast-IsLastIndex m none h = λ j. ap ok (h j)
  IsLast-IsLastIndex m (some i) (v, here, after) = (v, ap ok here, λ j k. ap ok (after j k))

  -- `last_index` is the largest key with a value, and `None` exactly when no key has one.
  pub last_index_lem :
      (m : IntMap V) → (r : Option ℕ) × (last_index m ≡ Option.map pos r) × IsLastIndex m r
  unfolding last_index
  last_index_lem m =
      (rposition m.slots, refl, IsLast-IsLastIndex m (rposition m.slots) (rposition-IsLast m.slots))

  -- The value of the last pair for a key, `d` if there is none.
  abbrev pub last_for : Option V → ℕ → List (ℕ × V) → Option V
  last_for d j [] = d
  last_for d j ((i, v) ∷ ps) = last_for (if i == j then some v else d) j ps

  abbrev signed_keys : List (ℕ × V) → List (ℤ × V)
  signed_keys = map λ p. (pos p.0, p.1)

  get-from_pairs :
      (m : IntMap V) (ps : List (ℕ × V))
      → (r : IntMap V) × (from_pairs m (signed_keys ps) ≡ ok r)
        × ((j : ℕ) → get r (pos j) ≡ ok (last_for (at m.slots j) j ps))
  unfolding from_pairs expand get
  get-from_pairs m [] = (m, refl, λ j. refl)
  get-from_pairs m ((i, v) ∷ ps) =
      let m' : IntMap V = record { slots = set (grow (suc i) i m.slots) i (some v) } in
      let (r, done, found) = get-from_pairs m' ps in
      (r, done, λ j. found j ∙ ap (λ d. ok (last_for d j ps)) (at-set-grow i j m.slots (some v)))

  -- A map collected from pairs with keys that are not negative holds, at each key, the value of
  -- the last pair for it, and nothing at a key of no pair; the collection always returns.
  pub get-from_iter :
      (ps : List (ℕ × V))
      → (r : IntMap V) × (from_iter (signed_keys ps) ≡ ok r)
        × ((j : ℕ) → get r (pos j) ≡ ok (last_for none j ps))
  unfolding from_iter new
  get-from_iter ps = get-from_pairs new ps

  get-set_default :
      (d : V) (i : ℕ) (xs : List (Option V)) (o : Option V)
      → at xs i ≡ o
      → ((j : ℕ) → at (set xs i (some d)) j ≡ (if i == j then some d else at xs j))
      → ((set_default d i xs o).1 ≡ Option.get_or o d)
        × ((j : ℕ)
            → at (set_default d i xs o).0.slots j
              ≡ (if i == j then some (Option.get_or o d) else at xs j))
  unfolding set_default
  get-set_default d i xs none h written = (refl, written)
  get-set_default d i xs (some v) h written = (refl, λ j. at-here i j xs v h)

  -- `get_mut_or_default` at an index that is not negative always returns; what it hands out is the
  -- value that stood there, the default if there was none; afterwards a lookup finds that value
  -- there, and what it found before anywhere else.
  pub get-get_mut_or_default :
      (d : V) (m : IntMap V) (i : ℕ)
      → (r : IntMap V × V) × (get_mut_or_default d m (pos i) ≡ ok r)
        × (r.1 ≡ Option.get_or (at m.slots i) d)
        × ((j : ℕ) → get r.0 (pos j) ≡ (if i == j then ok (some r.1) else get m (pos j)))
  unfolding get_mut_or_default expand get
  get-get_mut_or_default d m i =
      let xs : List (Option V) = grow (suc i) i m.slots in
      let old : at xs i ≡ at m.slots i = at-grow (suc i) i m.slots i in
      let (value, found) = get-set_default d i xs (at xs i) refl (λ j.
        at-set-grow i j m.slots (some d)
        ∙ ap (λ r. if i == j then some d else r) (sym (at-grow (suc i) i m.slots j))) in
      (
        set_default d i xs (at xs i),
        refl,
        value ∙ ap (λ o. Option.get_or o d) old,
        λ j. ground (arith, found j, value, at-grow (suc i) i m.slots j),
      )
