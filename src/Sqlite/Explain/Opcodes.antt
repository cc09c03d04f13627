-- ===== src/Sqlite/Explain/Opcodes.antt =====
-- sqlx-sqlite/src/connection/explain.rs: the names of the instructions, the arms of the match on
-- them, and the types that a name or an affinity stands for.
use sqlx.Base.{ℕ, ◌∷◌, [], List, Bool, false, ◌||◌, ◌==◌, if◌then◌else◌}
use sqlx.Base.Eq.{list_eq, nat_eq}
use sqlx.Base.Text.{codes}
use sqlx.Sqlite.Explain.Types.{DataType, null, integer, float, text, blob, numeric, bool}

-- The arms of the match in `explain`, in its order; the last is that of all other names.
pub data Arm : Type 0 where
  init goto go_sub fk_if_zero either is_null not_null must_be_int if_true if_pos rewind
        init_coroutine end_coroutine return_ yield_ jump column sequence row_data make_record
        insert_row delete open_pseudo open_dup open_read open_ephemeral variable halt_if_null
        function null_row agg_step agg_final cast scopy copy move_ load_integer constant not_
        load_null arithmetic offset_limit result_row halt unknown :
      Arm

-- One of the alternatives of a pattern.
abbrev pub one_of : List ℕ → List (List ℕ) → Bool
one_of s [] = false
one_of s (t ∷ ts) = list_eq s t || one_of s ts

abbrev either_names : List (List ℕ)
either_names =
    codes "DecrJumpZero"
    ∷ codes "ElseEq"
    ∷ codes "Eq"
    ∷ codes "Filter"
    ∷ codes "Found"
    ∷ codes "Ge"
    ∷ codes "Gt"
    ∷ codes "IdxGE"
    ∷ codes "IdxGT"
    ∷ codes "IdxLE"
    ∷ codes "IdxLT"
    ∷ codes "IfNoHope"
    ∷ codes "IfNot"
    ∷ codes "IfNotOpen"
    ∷ codes "IfNotZero"
    ∷ codes "IfNullRow"
    ∷ codes "IfSmaller"
    ∷ codes "IncrVacuum"
    ∷ codes "IsNullOrType"
    ∷ codes "Le"
    ∷ codes "Lt"
    ∷ codes "Ne"
    ∷ codes "Next"
    ∷ codes "NoConflict"
    ∷ codes "NotExists"
    ∷ codes "Once"
    ∷ codes "Prev"
    ∷ codes "Program"
    ∷ codes "RowSetRead"
    ∷ codes "RowSetTest"
    ∷ codes "SeekGE"
    ∷ codes "SeekGT"
    ∷ codes "SeekLE"
    ∷ codes "SeekLT"
    ∷ codes "SeekRowid"
    ∷ codes "SeekScan"
    ∷ codes "SequenceTest"
    ∷ codes "SorterNext"
    ∷ codes "VFilter"
    ∷ codes "VNext"
    ∷ []

unfoldable pub arm_of : List ℕ → Arm
arm_of op =
    if list_eq op (codes "Init")
    then init
    else if list_eq op (codes "Goto")
    then goto
    else if list_eq op (codes "Gosub")
    then go_sub
    else if list_eq op (codes "FkIfZero")
    then fk_if_zero
    else if one_of op either_names
    then either
    else if list_eq op (codes "IsNull")
    then is_null
    else if list_eq op (codes "NotNull")
    then not_null
    else if list_eq op (codes "MustBeInt")
    then must_be_int
    else if list_eq op (codes "If")
    then if_true
    else if list_eq op (codes "IfPos")
    then if_pos
    else if one_of op (codes "Rewind" ∷ codes "Last" ∷ codes "Sort" ∷ codes "SorterSort" ∷ [])
    then rewind
    else if list_eq op (codes "InitCoroutine")
    then init_coroutine
    else if list_eq op (codes "EndCoroutine")
    then end_coroutine
    else if list_eq op (codes "Return")
    then return_
    else if list_eq op (codes "Yield")
    then yield_
    else if list_eq op (codes "Jump")
    then jump
    else if list_eq op (codes "Column")
    then column
    else if list_eq op (codes "Sequence")
    then sequence
    else if one_of op (codes "RowData" ∷ codes "SorterData" ∷ [])
    then row_data
    else if list_eq op (codes "MakeRecord")
    then make_record
    else if one_of op (codes "Insert" ∷ codes "IdxInsert" ∷ codes "SorterInsert" ∷ [])
    then insert_row
    else if list_eq op (codes "Delete")
    then delete
    else if list_eq op (codes "OpenPseudo")
    then open_pseudo
    else if list_eq op (codes "OpenDup")
    then open_dup
    else if one_of op (codes "OpenRead" ∷ codes "OpenWrite" ∷ [])
    then open_read
    else if one_of op (codes "OpenEphemeral" ∷ codes "OpenAutoindex" ∷ codes "SorterOpen" ∷ [])
    then open_ephemeral
    else if list_eq op (codes "Variable")
    then variable
    else if list_eq op (codes "HaltIfNull")
    then halt_if_null
    else if list_eq op (codes "Function")
    then function
    else if list_eq op (codes "NullRow")
    then null_row
    else if one_of op (codes "AggStep" ∷ codes "AggValue" ∷ [])
    then agg_step
    else if list_eq op (codes "AggFinal")
    then agg_final
    else if list_eq op (codes "Cast")
    then cast
    else if one_of op (codes "SCopy" ∷ codes "IntCopy" ∷ [])
    then scopy
    else if list_eq op (codes "Copy")
    then copy
    else if list_eq op (codes "Move")
    then move_
    else if list_eq op (codes "Integer")
    then load_integer
    else if one_of op (
        codes "Blob"
        ∷ codes "Count"
        ∷ codes "Real"
        ∷ codes "String8"
        ∷ codes "Rowid"
        ∷ codes "NewRowid"
        ∷ [])
    then constant
    else if list_eq op (codes "Not")
    then not_
    else if list_eq op (codes "Null")
    then load_null
    else if one_of op (
        codes "Or"
        ∷ codes "And"
        ∷ codes "BitAnd"
        ∷ codes "BitOr"
        ∷ codes "ShiftLeft"
        ∷ codes "ShiftRight"
        ∷ codes "Add"
        ∷ codes "Subtract"
        ∷ codes "Multiply"
        ∷ codes "Divide"
        ∷ codes "Remainder"
        ∷ codes "Concat"
        ∷ [])
    then arithmetic
    else if list_eq op (codes "OffsetLimit")
    then offset_limit
    else if list_eq op (codes "ResultRow")
    then result_row
    else if list_eq op (codes "Halt")
    then halt
    else unknown

-- `@`, `A`, `B`, `C`, `D` and `E`; any other affinity is that of `@`.
unfoldable pub affinity_to_type : ℕ → DataType
affinity_to_type affinity =
    if affinity == 65
    then blob
    else if affinity == 68
    then integer
    else if affinity == 67
    then numeric
    else if affinity == 69
    then float
    else if affinity == 66
    then text
    else null

unfoldable pub opcode_to_type : List ℕ → DataType
opcode_to_type op =
    if list_eq op (codes "Real")
    then float
    else if list_eq op (codes "Blob")
    then blob
    else if one_of op (codes "And" ∷ codes "Or" ∷ [])
    then bool
    else if one_of op
        (codes "NewRowid" ∷ codes "Rowid" ∷ codes "Count" ∷ codes "Int64" ∷ codes "Integer" ∷ [])
    then integer
    else if list_eq op (codes "String8")
    then text
    else null
