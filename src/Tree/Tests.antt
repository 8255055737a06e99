-- ===== src/Tree/Tests.antt =====
-- Runs of the tree over natural numbers, and the theorems at concrete trees.
use learch.Prelude.{ℕ, ◌≡◌, refl, List, [], ◌∷◌, none, some, arith, ltb}
use learch.Tree.{
  Node, terminator, height, new_node, balance, insert, replace, remove, lookup, lookup_previous,
  pop_min?,
}
use learch.Tree.Heights.{Joins, Shifts, balance-Joins, insert-Shifts, replace-Shifts, remove-Shifts}
use learch.Tree.Inorder.{to_list, balance-to_list, pop_min?-to_list}
use learch.Tree.Order.{numbers, IsSorted, previous}
use learch.Tree.Refine.{
  lookup-insert, lookup-replace, lookup-remove, lookup_previous-to_list, insert-IsSorted,
  remove-IsSorted,
}

-- Keys with values, so that equal keys can be told apart.
abbrev key : ℕ × ℕ → ℕ
key (k, v) = k

abbrev leaf : ℕ → ℕ → Node (ℕ × ℕ)
leaf k v = new_node terminator terminator (k, v)

-- 1, 2, 3, with 2 at the root.
abbrev three : Node (ℕ × ℕ)
three = new_node (leaf 1 10) (leaf 3 30) (2, 20)

abbrev chain : List ℕ → Node ℕ → Node ℕ
chain [] t = t
chain (x ∷ xs) t = chain xs (insert (λ k. k) ltb x t)

-- Eight ascending insertions are rotated into a tree of height four.
ascending : height (chain (1 ∷ 2 ∷ 3 ∷ 4 ∷ 5 ∷ 6 ∷ 7 ∷ 8 ∷ []) terminator) ≡ 4
unfolding insert balance
ascending = refl

ascending_values : to_list (chain (3 ∷ 1 ∷ 2 ∷ 5 ∷ 4 ∷ []) terminator) ≡ 1 ∷ 2 ∷ 3 ∷ 4 ∷ 5 ∷ []
unfolding insert balance to_list
ascending_values = refl

balance-Joins_example : Joins (leaf 1 10) (leaf 3 30) (balance (leaf 1 10) (2, 20) (leaf 3 30))
balance-Joins_example =
    balance-Joins (leaf 1 10) (2, 20) (leaf 3 30) (omega arith) (omega arith) (omega arith)
      (omega arith)

insert-Shifts_example : Shifts 1 0 three (insert key ltb (4, 40) three)
insert-Shifts_example = insert-Shifts key ltb (4, 40) three (omega arith)

replace-Shifts_example : Shifts 1 0 three (replace key ltb (2, 21) three)
replace-Shifts_example = replace-Shifts key ltb (2, 21) three (omega arith)

remove-Shifts_example : Shifts 0 1 three (remove key ltb 2 three)
remove-Shifts_example = remove-Shifts key ltb 2 three (omega arith)

balance-to_list_example : to_list (balance terminator (1, 10) (leaf 3 30)) ≡ (1, 10) ∷ (3, 30) ∷ []
unfolding to_list
balance-to_list_example = balance-to_list terminator (1, 10) (leaf 3 30)

three-IsSorted : IsSorted numbers key (to_list three)
unfolding to_list
three-IsSorted = ((refl, (refl, tt)), ((refl, tt), (tt, tt)))

lookup-insert_example : lookup key ltb 2 (insert key ltb (2, 99) three) ≡ some (2, 20)
unfolding lookup
lookup-insert_example = lookup-insert numbers key 2 (2, 99) three three-IsSorted

lookup-replace_example : lookup key ltb 2 (replace key ltb (2, 99) three) ≡ some (2, 99)
lookup-replace_example = lookup-replace numbers key 2 (2, 99) three three-IsSorted

lookup-remove_example : lookup key ltb 3 (remove key ltb 2 three) ≡ some (3, 30)
unfolding lookup
lookup-remove_example = lookup-remove numbers key 3 2 three three-IsSorted

insert-IsSorted_example : IsSorted numbers key (to_list (insert key ltb (0, 5) three))
insert-IsSorted_example = insert-IsSorted numbers key (0, 5) three three-IsSorted

remove-IsSorted_example : IsSorted numbers key (to_list (remove key ltb 1 three))
remove-IsSorted_example = remove-IsSorted numbers key 1 three three-IsSorted

lookup_previous-to_list_example : lookup_previous key ltb 9 three ≡ some (3, 30)
unfolding to_list previous
lookup_previous-to_list_example = lookup_previous-to_list numbers key 9 three three-IsSorted

pop_min?-to_list_example :
    (1, 10) ∷ (2, 20) ∷ (3, 30) ∷ []
    ≡ elim (pop_min? three) [ none ↦ [] | some (m, rest) ↦ m ∷ to_list rest ]
unfolding to_list
pop_min?-to_list_example = pop_min?-to_list three
