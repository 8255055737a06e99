-- ===== src/Expressions/Reads.antt =====
-- ReadExpr::create of klee/lib/Expr/Expr.cpp, with the search of the update list.
pub mod Search
pub mod Laws
use learch.Prelude.{
  ℕ, List, [], ◌∷◌, Option, none, some, Bool, true, false, not, ltb, ◌==◌, ◌&&◌, if◌then◌else◌,
  get_elem?,
}
use learch.Expressions.{Globals, Expr, Updates, constant, read, no_update, update, as_constant}
use learch.Expressions.ApInt.{ApInt}
use learch.Expressions.Equal.{is_true, create_eq, is_symbolic_array}

-- Where the search of the update list ended: at a write to this index, at the end of the list, or at
-- a write whose index may be this one, the rest of the list being what `un` points to.
pub data Found : Type 0 where
  written : Expr → Found
  exhausted : Found
  symbolic_write : Updates → Found

module _ (g : Globals) (m : ApInt) where
  -- The loop over the update nodes, which goes on past the writes to other indices.
  unfoldable pub find_write : Expr → Updates → Found
  find_write index no_update = exhausted
  find_write index (update i v next) =
      let rest = find_write index next in
      elim (as_constant (create_eq g m index i)) [
        | some (_, c) ↦ if is_true c then written v else rest
        | none ↦ symbolic_write (update i v next)
      ]

  -- The value of a constant array at a constant index.
  unfoldable pub constant_element : ℕ → Expr → Option Expr
  constant_element id index = elim (as_constant index) [
    | some (_, i) ↦
        if ltb i (g.arrays id).size
        then elim (get_elem? (g.arrays id).constant_values i) [
          | some v ↦ some (constant (g.arrays id).range v)
          | none ↦ none
        ]
        else none
    | none ↦ none
  ]

  -- The read of the array under the updates from `un` on, if the index is a constant within the
  -- array, and else under all of them.
  unfoldable pub shortened : ℕ → Updates → Updates → Expr → Expr
  shortened id all un index = elim (as_constant index) [
    | some (_, i) ↦ if ltb i (g.arrays id).size then read id un index else read id all index
    | none ↦ read id all index
  ]

  unfoldable pub create_read : ℕ → Updates → Expr → Expr
  create_read id us index = elim (find_write index us) [
    | written v ↦ v
    | symbolic_write un ↦ shortened id us un index
    | exhausted ↦
        if is_symbolic_array (g.arrays id).constant_values
        then shortened id us no_update index
        else elim (constant_element id index) [
          | some e ↦ e
          | none ↦ shortened id us no_update index
        ]
  ]
