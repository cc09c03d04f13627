-- ===== src/Sqlite/IntMap/Tests.antt =====
-- IntMap on small maps, and its theorems at concrete inputs.
use sqlx.Base.{ℕ, ◌≡◌, refl, ◌↔◌, true, none, some, [], ◌∷◌, ok, panic}
use sqlx.Base.Int.{ℤ, pos, negsuc}
use sqlx.Base.Eq.{nat_eq}
use sqlx.Sqlite.IntMap.{
  IntMap, grow, get, insert, expand, iter_entries, entries_from, int_map_eq, slots_eq, all_none,
  diff, changes_from,
}
use sqlx.Sqlite.IntMap.Equality.{int_map_eq_iff}

abbrev sparse : IntMap ℕ
sparse = record { slots = none ∷ some 7 ∷ [] }

abbrev padded : IntMap ℕ
padded = record { slots = none ∷ some 7 ∷ none ∷ none ∷ [] }

insert_beyond :
    insert sparse (pos 3) 9 ≡ ok (record { slots = none ∷ some 7 ∷ none ∷ some 9 ∷ [] }, none)
unfolding insert expand grow
insert_beyond = refl

insert_negative : insert sparse (negsuc 0) 9 ≡ panic
unfolding insert expand
insert_negative = refl

diff_shrunk :
    diff sparse (record { slots = some 1 ∷ some 7 ∷ some 2 ∷ [] }) ≡ (0, none) ∷ (2, none) ∷ []
unfolding diff changes_from
diff_shrunk = refl

entries_of_sparse : iter_entries padded ≡ (pos 1, 7) ∷ []
unfolding iter_entries entries_from
entries_of_sparse = refl

padded_equal : int_map_eq sparse padded ≡ true
unfolding int_map_eq slots_eq all_none
padded_equal = refl

int_map_eq_iff_example : (int_map_eq sparse padded ≡ true) ↔ ((k : ℤ) → get sparse k ≡ get padded k)
int_map_eq_iff_example = int_map_eq_iff sparse padded
