-- ===== src/Expressions/Tests.antt =====
-- The theorems on expressions over a symbolic array and a constant one.
use learch.Prelude.{
  ℕ, ◌+◌, ◌/◌, ◌%◌, zero, suc, ◌^◌, ◌≡◌, refl, [], ◌∷◌, some, true, false, not, ◌==◌, ◌||◌, arith,
  none≢some, some_injective,
}
use learch.Expressions.{
  Array, Globals, Expr, Updates, constant, read, select, concat, extract, sext, arithmetic,
  comparison, add, eq, ult, no_update, update, get_width,
}
use learch.Expressions.{as_constant}
use learch.Expressions.Constants.{create_with_partials, fold_comparison}
use learch.Expressions.Equal.{create_eq, eq_partial_r, eq_create}
use learch.Expressions.Sums.{chain}
use learch.Expressions.Reads.{find_write}
use learch.Expressions.Reads.Laws.{ArraysFit}
use learch.Expressions.Slicing.{slices, concat_create, merge_extracts, as_extract}
use learch.Expressions.Queries.{negate_expr_lem}
use learch.Expressions.ApInt.Machine.{machine}
use learch.Expressions.Meaning.{Assignment, number, well_typed, initial_value, value, Means}
use learch.Expressions.Creation.{
  create_comparison, create_arithmetic, create_comparison-Means, create_arithmetic_lem,
}
use learch.Expressions.Slicing.{create_extract, create_concat, create_sext}
use learch.Expressions.Slicing.Laws.{create_extract_lem, create_concat_lem}
use learch.Expressions.Slicing.Extension.{resized, create_sext_lem}
use learch.Expressions.Choice.{create_select, create_implies}
use learch.Expressions.Choice.Laws.{create_select-Means}
use learch.Expressions.Choice.Complement.{create_implies_lem}
use learch.Expressions.Reads.{create_read}
use learch.Expressions.Reads.Laws.{create_read-Means}
use learch.Expressions.Temporary.{int32, bits, create_temp_read, create_concat4}
use learch.Expressions.Reads.{shortened, constant_element}
use learch.Expressions.Constants.{fold_concat}
use learch.Expressions.Temporary.Laws.{little_endian, create_temp_read_lem}
use learch.Expressions.Same.{same, same→≡, arithmetic_kind}
use learch.Expressions.Queries.{is_boolean, holds_in}
use learch.Expressions.Equal.{create_is_zero}

abbrev array_of : ℕ → Array
array_of zero = record { size = 4; domain = 32; range = 8; constant_values = [] }
array_of (suc _) = record { size = 3; domain = 32; range = 8; constant_values = 5 ∷ 6 ∷ 7 ∷ [] }

abbrev globals : Globals
globals = record { arrays = array_of; const_array_opt = false }

-- Two bytes of input, a constant index and a write to the first byte.
abbrev first : Expr
first = read 0 no_update (constant 32 0)

abbrev second : Expr
second = read 0 no_update (constant 32 1)

abbrev sum : Expr
sum = arithmetic add (constant 8 3) first

abbrev small_first : Expr
small_first = comparison ult first (constant 8 9)

abbrev writes : Updates
writes = update (constant 32 1) (constant 8 7) (update (constant 32 0) second no_update)

abbrev zeros : Assignment
zeros _ _ = 0

-- A constant moves to the other side.
moved_constant :
    create_comparison globals machine eq (constant 8 5) sum ≡ comparison eq (constant 8 2) first
unfolding create_comparison create_eq create_with_partials as_constant eq_partial_r eq_create same
moved_constant = refl

-- The most recent write to the index is found past a write elsewhere.
found_write : create_read globals machine 0 writes (constant 32 0) ≡ second
unfolding create_read find_write create_eq create_with_partials as_constant fold_comparison
found_write = refl

-- Neighbouring slices merge.
whole_again : create_concat globals machine 2 (extract sum 3 5) (extract sum 0 3) ≡ some sum
unfolding create_concat concat_create merge_extracts as_constant as_extract same arithmetic_kind
    create_extract get_width
whole_again = refl

create_comparison-Means_example :
    Means globals machine
      (create_comparison globals machine eq (constant 8 5) sum)
      (comparison eq (constant 8 5) sum)
unfolding well_typed get_width
create_comparison-Means_example =
    create_comparison-Means globals machine refl eq (constant 8 5) sum refl

create_arithmetic_lem_example :
    (e : Expr) × (create_arithmetic globals machine 2 add sum second ≡ some e)
    × (well_typed globals e ≡ true)
    × (get_width globals e ≡ get_width globals (arithmetic add sum second))
    × (value globals machine zeros e ≡ value globals machine zeros (arithmetic add sum second))
unfolding well_typed get_width chain
create_arithmetic_lem_example =
    create_arithmetic_lem globals machine refl 2 add sum second zeros (omega arith) refl refl

create_extract_lem_example :
    (x : Expr) × (create_extract globals machine 2 (concat first second) 4 8 ≡ some x)
    × Means globals machine x (extract (concat first second) 4 8)
unfolding well_typed get_width slices
create_extract_lem_example =
    create_extract_lem globals machine 2 (concat first second) 4 8 (omega arith) refl

create_concat_lem_example :
    (x : Expr) × (create_concat globals machine 2 (extract sum 3 5) (extract sum 0 3) ≡ some x)
    × Means globals machine x (concat (extract sum 3 5) (extract sum 0 3))
unfolding well_typed get_width slices
create_concat_lem_example =
    create_concat_lem globals machine 2 (extract sum 3 5) (extract sum 0 3) (omega arith) refl

create_sext_lem_example :
    (x : Expr) × (create_sext globals machine 1 first 32 ≡ some x)
    × Means globals machine x (resized globals machine sext first 32)
unfolding well_typed get_width slices
create_sext_lem_example =
    create_sext_lem globals machine 1 first 32 (omega arith) refl (omega arith)

create_select-Means_example :
    Means globals machine
      (create_select globals machine small_first (constant 1 0) (comparison eq first second))
      (select small_first (constant 1 0) (comparison eq first second))
unfolding well_typed get_width
create_select-Means_example =
    create_select-Means globals machine refl small_first (constant 1 0) (comparison eq first second)
      refl

create_implies_lem_example :
    (well_typed globals (create_implies globals machine small_first small_first) ≡ true)
    × ((s : Assignment)
        → value globals machine s (create_implies globals machine small_first small_first)
          ≡ number (
              not (value globals machine s small_first == 1)
              || value globals machine s small_first == 1))
unfolding well_typed get_width
create_implies_lem_example =
    create_implies_lem globals machine refl small_first small_first refl refl refl refl

arrays_fit : ArraysFit globals
arrays_fit zero i v e = absurd (none≢some e)
arrays_fit (suc id) zero v e = let same = some_injective e in omega (arith, same)
arrays_fit (suc id) (suc zero) v e = let same = some_injective e in omega (arith, same)
arrays_fit (suc id) (suc (suc zero)) v e = let same = some_injective e in omega (arith, same)
arrays_fit (suc id) (suc (suc (suc i))) v e = absurd (none≢some e)

create_read-Means_example :
    Means globals machine
      (create_read globals machine 0 writes (constant 32 0))
      (read 0 writes (constant 32 0))
unfolding well_typed get_width
create_read-Means_example =
    create_read-Means globals machine refl 0 (constant 32 0) writes refl arrays_fit

create_temp_read_lem_example :
    (x : Expr) × (create_temp_read globals machine 1 1 int32 ≡ some x)
    × (well_typed globals x ≡ true)
    × (get_width globals x ≡ bits int32)
    × ((s : Assignment)
        → value globals machine s x
          ≡ little_endian (initial_value globals s 1) ((bits int32 + 7) / 8) % 2 ^ bits int32)
create_temp_read_lem_example =
    create_temp_read_lem globals machine 1 1 refl arrays_fit refl refl (omega arith) int32

-- The constant array has three bytes, so that the fourth stays a read.
temp_read_run :
    create_temp_read globals machine 1 1 int32
    ≡ some (concat (read 1 no_update (constant 32 3)) (constant 24 460293))
unfolding create_temp_read create_concat4 create_concat create_extract concat_create as_constant
    create_read find_write shortened constant_element merge_extracts as_extract fold_concat
    learch.Expressions.ApInt.Bitwise.bits
temp_read_run = refl

same→≡_example : sum ≡ sum
unfolding same arithmetic_kind
same→≡_example = same→≡ sum sum refl

negate_expr_lem_example :
    (is_boolean globals (create_is_zero globals machine small_first) ≡ true)
    × (holds_in globals machine (create_is_zero globals machine small_first) zeros
        ≡ not (holds_in globals machine small_first zeros))
unfolding is_boolean well_typed get_width
negate_expr_lem_example = negate_expr_lem globals machine refl small_first zeros refl
