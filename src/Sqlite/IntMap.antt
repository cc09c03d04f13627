-- ===== src/Sqlite/IntMap.antt =====
-- sqlx-sqlite/src/connection/intmap.rs: a map from column indices to values, kept as a vector of
-- options. A negative index panics where the source says `expect`; an index is an `i64`, so each
-- fits a 64-bit `usize`.
pub mod Slots
pub mod Lookup
pub mod Equality
pub mod Diff
pub mod Entries
mod Tests
use sqlx.Base.{
  ℕ, zero, suc, ◌-◌, Bool, true, false, ◌&&◌, Option, none, some, List, [], ◌∷◌, ◌++◌, ltb, leb,
  if◌then◌else◌, Outcome, ok, panic, ◌>>=◌, length, get_elem?, set, take, drop, replicate,
}
use mathlib.Core.Option
use sqlx.Base.Int.{ℤ, pos, negsuc}
use sqlx.Base.Eq.{Eq, option_eq}

pub record IntMap {ℓ} (V : Type ℓ) : Type ℓ where
  pub slots : List (Option V)

-- `i64::try_into::<usize>().expect(..)`.
abbrev pub to_index : ℤ → Outcome ⊥ ℕ
to_index (pos n) = ok n
to_index (negsuc n) = panic

module _ {ℓ} {V : Type ℓ} where
  -- `while self.0.len() <= idx { self.0.push(None) }`, with `fuel` rounds at most.
  unfoldable pub grow : ℕ → ℕ → List (Option V) → List (Option V)
  grow zero idx xs = xs
  grow (suc fuel) idx xs =
      let rest = grow fuel idx (xs ++ none ∷ []) in if leb (length xs) idx then rest else xs

  unfoldable pub new : IntMap V
  new = record { slots = [] }

  unfoldable pub expand : IntMap V → ℤ → Outcome ⊥ (ℕ × IntMap V)
  expand m size = do idx ← to_index size; ok (idx, record { slots = grow (suc idx) idx m.slots })

  -- `Some(Some(v)) => Some(v), _ => None`.
  abbrev pub slot : Option (Option V) → Option V
  slot none = none
  slot (some o) = o

  abbrev pub at : List (Option V) → ℕ → Option V
  at xs i = slot (get_elem? xs i)

  unfoldable pub get : IntMap V → ℤ → Outcome ⊥ (Option V)
  get m key = do idx ← to_index key; ok (at m.slots idx)

  -- The map after, and the value that stood there.
  unfoldable pub insert : IntMap V → ℤ → V → Outcome ⊥ (IntMap V × Option V)
  insert m key v = do
    r ← expand m key
    ok (record { slots = set r.1.slots r.0 (some v) }, at r.1.slots r.0)

  unfoldable pub remove : IntMap V → ℤ → Outcome ⊥ (IntMap V × Option V)
  remove m key = do idx ← to_index key; ok (record { slots = set m.slots idx none }, at m.slots idx)

  -- `if item.is_none() { *item = Some(V::default()) }`, and the value that then stands there.
  set_default : V → ℕ → List (Option V) → Option V → IntMap V × V
  set_default d idx xs none = (record { slots = set xs idx (some d) }, d)
  set_default d idx xs (some v) = (record { slots = xs }, v)

  -- `V::default()` is the argument `d`. The reference that the source returns reads the value.
  pub get_mut_or_default : V → IntMap V → ℤ → Outcome ⊥ (IntMap V × V)
  get_mut_or_default d m key = do
    r ← expand m key
    ok (set_default d r.0 r.1.slots (at r.1.slots r.0))

  compact : List (Option V) → List V
  compact [] = []
  compact (none ∷ xs) = compact xs
  compact (some v ∷ xs) = v ∷ compact xs

  pub values : IntMap V → List V
  values m = compact m.slots

  pub entries_from : ℕ → List (Option V) → List (ℤ × V)
  entries_from i [] = []
  entries_from i (none ∷ xs) = entries_from (suc i) xs
  entries_from i (some v ∷ xs) = (pos i, v) ∷ entries_from (suc i) xs

  pub iter_entries : IntMap V → List (ℤ × V)
  iter_entries m = entries_from 0 m.slots

  -- `rposition(|v| v.is_some())`: the last position that holds a value.
  later : Option V → Option ℕ → Option ℕ
  later o (some i) = some (suc i)
  later (some v) none = some 0
  later none none = none

  pub rposition : List (Option V) → Option ℕ
  rposition [] = none
  rposition (x ∷ xs) = later x (rposition xs)

  pub last_index : IntMap V → Option ℤ
  last_index m = Option.map pos (rposition m.slots)

  unfoldable pub from_elem : V → ℕ → IntMap V
  from_elem v len = record { slots = replicate len (some v) }

  unfoldable pub dense : List V → List (Option V)
  dense [] = []
  dense (v ∷ vs) = some v ∷ dense vs

  unfoldable pub from_dense_record : List V → IntMap V
  from_dense_record vs = record { slots = dense vs }

  from_pairs : IntMap V → List (ℤ × V) → Outcome ⊥ (IntMap V)
  from_pairs m [] = ok m
  from_pairs m ((key, v) ∷ rest) = do
    r ← expand m key
    from_pairs (record { slots = set r.1.slots r.0 (some v) }) rest

  pub from_iter : List (ℤ × V) → Outcome ⊥ (IntMap V)
  from_iter items = from_pairs new items

module _ {ℓ} {V : Type ℓ} ⦃e : Eq V⦄ where
  pub slots_eq : List (Option V) → List (Option V) → Bool
  slots_eq [] [] = true
  slots_eq [] (y ∷ ys) = false
  slots_eq (x ∷ xs) [] = false
  slots_eq (x ∷ xs) (y ∷ ys) = option_eq x y && slots_eq xs ys

  pub all_none : List (Option V) → Bool
  all_none [] = true
  all_none (none ∷ xs) = all_none xs
  all_none (some v ∷ xs) = false

  -- `PartialEq`: the longer side may only have empty slots beyond the shorter.
  pub int_map_eq : IntMap V → IntMap V → Bool
  int_map_eq m n =
      let k = length m.slots in
      let l = length n.slots in
      if ltb l k
      then slots_eq (take l m.slots) n.slots && all_none (drop l m.slots)
      else if ltb k l
      then slots_eq (take k n.slots) m.slots && all_none (drop k n.slots)
      else slots_eq m.slots n.slots

  -- `zip` with a side that goes on for ever with `None`, `enumerate`, `filter` and `map`.
  pub changes_from : ℕ → List (Option V) → List (Option V) → List (ℕ × Option V)
  changes_from i [] ps = []
  changes_from i (x ∷ xs) [] =
      let rest = changes_from (suc i) xs [] in if option_eq x none then rest else (i, x) ∷ rest
  changes_from i (x ∷ xs) (p ∷ ps) =
      let rest = changes_from (suc i) xs ps in if option_eq x p then rest else (i, x) ∷ rest

  pub diff : IntMap V → IntMap V → List (ℕ × Option V)
  diff m prev =
      let k = length m.slots in
      let l = length prev.slots in
      let self_pad : ℕ = if ltb k l then l - k else 0 in
      changes_from 0 (m.slots ++ replicate self_pad none) prev.slots
