-- ===== src/Sqlite/Explain/Merging.antt =====
-- sqlx-sqlite/src/connection/explain.rs: the columns of the output, by the rows that reach them.
use sqlx.Base.{
  ℕ, zero, suc, ◌≡◌, refl, ap, ◌∙◌, Bool, true, false, ◌||◌, Option, none, some, List, [], ◌∷◌, map,
  get_elem?, if◌then◌else◌, arith,
}
use mathlib.Core.Option.{map as map_option}
use sqlx.Sqlite.Explain.Types.{DataType, null, ColumnType, column_datatype, column_nullable}
use sqlx.Sqlite.Explain.Branches.{Explorer}
use sqlx.Sqlite.Explain.Output.{
  Column, merge_type, merge_nullable, merge_row, merge_all, or_null, finish,
}

-- The columns with a number, of the rows that have it.
abbrev pub nth_of : Option ColumnType → List ColumnType → List ColumnType
nth_of none cs = cs
nth_of (some c) cs = c ∷ cs

pub column_values : ℕ → List (List ColumnType) → List ColumnType
column_values j [] = []
column_values j (row ∷ rows) = nth_of (get_elem? row j) (column_values j rows)

-- The first type that is not that of NULL.
abbrev pub type_or : DataType → DataType → DataType
type_or null d = d
type_or t d = t

pub first_type : List ColumnType → DataType
first_type [] = null
first_type (c ∷ cs) = type_or (column_datatype c) (first_type cs)

-- Whether some row may have a NULL there, and whether some row is known not to have one.
abbrev is_true : Option Bool → Bool
is_true (some true) = true
is_true (some false) = false
is_true none = false

abbrev is_false : Option Bool → Bool
is_false (some false) = true
is_false (some true) = false
is_false none = false

pub any_nullable : List ColumnType → Bool
any_nullable [] = false
any_nullable (c ∷ cs) = is_true (column_nullable c) || any_nullable cs

pub any_not_null : List ColumnType → Bool
any_not_null [] = false
any_not_null (c ∷ cs) = is_false (column_nullable c) || any_not_null cs

abbrev pub nullability : List ColumnType → Option Bool
nullability cs = if any_nullable cs then some true else if any_not_null cs then some false else none

-- What a column is to come to.
abbrev pub summary : List ColumnType → Option (DataType × Option Bool)
summary [] = none
summary (c ∷ cs) = some (first_type (c ∷ cs), nullability (c ∷ cs))

-- A column so far, and the rows that are still to be merged.
later_types : Option DataType → List ColumnType → Option DataType
later_types o [] = o
later_types o (c ∷ cs) = later_types (merge_type o (column_datatype c)) cs

later_nullable : Option Bool → List ColumnType → Option Bool
later_nullable o [] = o
later_nullable o (c ∷ cs) = later_nullable (merge_nullable o (column_nullable c)) cs

continued : Option Column → List ColumnType → Option Column
continued none [] = none
continued none (c ∷ cs) = some (record {
  output = later_types (some (column_datatype c)) cs;
  nullable = later_nullable (column_nullable c) cs;
})
continued (some col) cs =
    some (record { output = later_types col.output cs; nullable = later_nullable col.nullable cs })

abbrev merge_one : Option Column → Option ColumnType → Option Column
merge_one o none = o
merge_one none (some c) =
    some (record { output = some (column_datatype c); nullable = column_nullable c })
merge_one (some col) (some c) = some (record {
  output = merge_type col.output (column_datatype c);
  nullable = merge_nullable col.nullable (column_nullable c);
})

get_elem?-merge_row :
    (row : List ColumnType) (cols : List Column) (j : ℕ)
    → get_elem? (merge_row row cols) j ≡ merge_one (get_elem? cols j) (get_elem? row j)
unfolding merge_row
get_elem?-merge_row [] cols j = refl
get_elem?-merge_row (c ∷ cs) [] zero = refl
get_elem?-merge_row (c ∷ cs) [] (suc j) = get_elem?-merge_row cs [] j
get_elem?-merge_row (c ∷ cs) (col ∷ cols) zero = refl
get_elem?-merge_row (c ∷ cs) (col ∷ cols) (suc j) = get_elem?-merge_row cs cols j

continued-merge_one :
    (o : Option Column) (c : Option ColumnType) (cs : List ColumnType)
    → continued (merge_one o c) cs ≡ continued o (nth_of c cs)
unfolding continued later_types later_nullable
continued-merge_one none none cs = refl
continued-merge_one none (some c) cs = refl
continued-merge_one (some col) none cs = refl
continued-merge_one (some col) (some c) cs = refl

get_elem?-merge_all :
    (rows : List (List ColumnType)) (cols : List Column) (j : ℕ)
    → get_elem? (merge_all rows cols) j ≡ continued (get_elem? cols j) (column_values j rows)
unfolding merge_all column_values continued later_types later_nullable
get_elem?-merge_all [] cols j = whole (get_elem? cols j)
  where
    whole : (o : Option Column) → o ≡ continued o []
    whole none = refl
    whole (some col) = refl
get_elem?-merge_all (row ∷ rows) cols j =
    get_elem?-merge_all rows (merge_row row cols) j
    ∙ ap (λ o. continued o (column_values j rows)) (get_elem?-merge_row row cols j)
    ∙ continued-merge_one (get_elem? cols j) (get_elem? row j) (column_values j rows)

later_types_lem :
    (d : DataType) (cs : List ColumnType)
    → later_types (some d) cs ≡ some (type_or d (first_type cs))
unfolding later_types first_type
later_types_lem DataType.null [] = refl
later_types_lem d [] = refl
later_types_lem DataType.null (c ∷ cs) = later_types_lem (column_datatype c) cs
later_types_lem d (c ∷ cs) = later_types_lem d cs

later_nullable_lem :
    (o : Option Bool) (cs : List ColumnType)
    → later_nullable o cs ≡ (
        if is_true o || any_nullable cs
        then some true
        else if is_false o || any_not_null cs
        then some false
        else none)
unfolding later_nullable any_nullable any_not_null
later_nullable_lem none [] = refl
later_nullable_lem (some true) [] = refl
later_nullable_lem (some false) [] = refl
later_nullable_lem none (c ∷ cs) = later_nullable_lem (column_nullable c) cs
later_nullable_lem (some b) (c ∷ cs) =
    later_nullable_lem (merge_nullable (some b) (column_nullable c)) cs ∙ ground arith

get_elem?-map {ℓ κ} :
    {A : Type ℓ} {B : Type κ} (f : A → B) (xs : List A) (j : ℕ)
    → get_elem? (map f xs) j ≡ map_option f (get_elem? xs j)
get_elem?-map f [] j = refl
get_elem?-map f (x ∷ xs) zero = refl
get_elem?-map f (x ∷ xs) (suc j) = get_elem?-map f xs j

-- A column of the output is there if some branch has returned a row that reaches it. Its type is the
-- first one of these rows, from the last to the first that was returned, that is not that of NULL. It
-- may be NULL if one of them may; otherwise it is not NULL if one of them is not; and otherwise it is
-- not known.
pub finish_lem :
    (ex : Explorer) (j : ℕ) → get_elem? (finish ex) j ≡ summary (column_values j ex.result_states)
unfolding finish first_type any_nullable any_not_null continued
finish_lem ex j =
    get_elem?-map _ (merge_all ex.result_states []) j
    ∙ ap (map_option _) (get_elem?-merge_all ex.result_states [] j)
    ∙ described (column_values j ex.result_states)
  where
    described :
        (cs : List ColumnType)
        → map_option (λ (c : Column). (or_null c.output, c.nullable)) (continued none cs)
          ≡ summary cs
    described [] = refl
    described (c ∷ cs) =
        rw (later_types_lem (column_datatype c) cs, later_nullable_lem (column_nullable c) cs) refl
