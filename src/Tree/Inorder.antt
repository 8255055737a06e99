-- ===== src/Tree/Inorder.antt =====
-- The values of the tree of ImmutableTree.h in order.
use mathlib.Core.List.{append_assoc}
use learch.Prelude.{
  ◌+◌, ◌≡◌, refl, sym, ap, ◌∙◌, List, [], ◌∷◌, ◌++◌, Option, none, some, arith, ltb, leb,
  Bool-cases, inl, inr, length, length-append,
}
use learch.Tree.{
  Node, terminator, node, height, rotate_left_right, rotate_right, rotate_right_left, rotate_left,
  balance, size, pop_min, pop_max, pop_min?, pop_max?, min, max_value,
}

module _ {ℓ} {V : Type ℓ} where
  unfoldable pub to_list : Node V → List V
  to_list terminator = []
  to_list (node l r v h) = to_list l ++ v ∷ to_list r

  rotate_left_right-to_list :
      (ll lr : Node V) (lv v : V) (r : Node V)
      → to_list (rotate_left_right ll lr lv v r) ≡ (to_list ll ++ lv ∷ to_list lr) ++ v ∷ to_list r
  unfolding rotate_left_right to_list
  rotate_left_right-to_list ll terminator lv v r = simp append_assoc
  rotate_left_right-to_list ll (node lrl lrr lrv h) lv v r = simp append_assoc

  rotate_right-to_list :
      (l : Node V) (v : V) (r : Node V) → to_list (rotate_right l v r) ≡ to_list l ++ v ∷ to_list r
  unfolding rotate_right to_list
  rotate_right-to_list terminator v r = refl
  rotate_right-to_list (node ll lr lv h) v r = elim (Bool-cases (leb (height lr) (height ll))) [
    | inl single ↦ rw (single, rotate_right) (simp append_assoc)
    | inr double ↦ rw (double, rotate_right) (rotate_left_right-to_list ll lr lv v r)
  ]

  rotate_right_left-to_list :
      (l : Node V) (v : V) (rl rr : Node V) (rv : V)
      → to_list (rotate_right_left l v rl rr rv) ≡ to_list l ++ v ∷ to_list rl ++ rv ∷ to_list rr
  unfolding rotate_right_left to_list
  rotate_right_left-to_list l v terminator rr rv = simp append_assoc
  rotate_right_left-to_list l v (node rll rlr rlv h) rr rv = simp append_assoc

  rotate_left-to_list :
      (l : Node V) (v : V) (r : Node V) → to_list (rotate_left l v r) ≡ to_list l ++ v ∷ to_list r
  unfolding rotate_left to_list
  rotate_left-to_list l v terminator = refl
  rotate_left-to_list l v (node rl rr rv h) = elim (Bool-cases (leb (height rl) (height rr))) [
    | inl single ↦ rw (single, rotate_left) (simp append_assoc)
    | inr double ↦
        rw (double, rotate_left) (rotate_right_left-to_list l v rl rr rv ∙ simp append_assoc)
  ]

  -- `balance` puts the value between its two sides.
  pub balance-to_list :
      (l : Node V) (v : V) (r : Node V) → to_list (balance l v r) ≡ to_list l ++ v ∷ to_list r
  unfolding balance
  balance-to_list l v r = elim (Bool-cases (ltb (height r + 2) (height l))) [
    | inl left ↦ rw left (rotate_right-to_list l v r)
    | inr even ↦ rw even (elim (Bool-cases (ltb (height l + 2) (height r))) [
      | inl right ↦ rw right (rotate_left-to_list l v r)
      | inr level ↦ rw level (unfold to_list in refl)
    ])
  ]

  pub size-to_list : (t : Node V) → size t ≡ length (to_list t)
  unfolding size to_list
  size-to_list terminator = refl
  size-to_list (node l r v h) =
      omega (arith, size-to_list l, size-to_list r, length-append (to_list l) (v ∷ to_list r))

  pub pop_min-to_list :
      (l : Node V) (v : V) (r : Node V)
      → (pop_min l v r).0 ∷ to_list (pop_min l v r).1 ≡ to_list l ++ v ∷ to_list r
  unfolding pop_min to_list
  pop_min-to_list terminator v r = refl
  pop_min-to_list (node ll lr lv lh) v r =
      rw (balance-to_list (pop_min ll lv lr).1 v r)
        (ap (λ xs. xs ++ v ∷ to_list r) (pop_min-to_list ll lv lr))

  pub pop_max-to_list :
      (l : Node V) (v : V) (r : Node V)
      → to_list (pop_max l v r).1 ++ (pop_max l v r).0 ∷ [] ≡ to_list l ++ v ∷ to_list r
  unfolding pop_max to_list
  pop_max-to_list l v terminator = refl
  pop_max-to_list l v (node rl rr rv rh) =
      rw (balance-to_list l v (pop_max rl rv rr).1, append_assoc)
        (ap (λ xs. to_list l ++ v ∷ xs) (pop_max-to_list rl rv rr))

  abbrev head? : List V → Option V
  head? [] = none
  head? (x ∷ xs) = some x

  head?-append :
      (xs : List V) (y : V) (ys zs : List V) → head? (xs ++ y ∷ ys ++ zs) ≡ head? (xs ++ y ∷ ys)
  head?-append [] y ys zs = refl
  head?-append (x ∷ xs) y ys zs = refl

  -- `popMin` takes the first value in order, and leaves a tree of the others in their order; it
  -- takes nothing exactly from the empty tree.
  pub pop_min?-to_list :
      (t : Node V) → to_list t ≡ elim (pop_min? t) [ none ↦ [] | some (m, rest) ↦ m ∷ to_list rest ]
  unfolding pop_min? to_list
  pop_min?-to_list terminator = refl
  pop_min?-to_list (node l r v h) = sym (pop_min-to_list l v r)

  pub min-pop_min? :
      (t : Node V) → min t ≡ elim (pop_min? t) [ none ↦ none | some (m, rest) ↦ some m ]
  unfolding min pop_min? pop_min
  min-pop_min? terminator = refl
  min-pop_min? (node terminator r v h) = refl
  min-pop_min? (node (node ll lr lv lh) r v h) = min-pop_min? (node ll lr lv lh)

  pub pop_max?-to_list :
      (t : Node V)
      → to_list t ≡ elim (pop_max? t) [ none ↦ [] | some (m, rest) ↦ to_list rest ++ m ∷ [] ]
  unfolding pop_max? to_list
  pop_max?-to_list terminator = refl
  pop_max?-to_list (node l r v h) = sym (pop_max-to_list l v r)

  pub max-pop_max? :
      (t : Node V) → max_value t ≡ elim (pop_max? t) [ none ↦ none | some (m, rest) ↦ some m ]
  unfolding max_value pop_max? pop_max
  max-pop_max? terminator = refl
  max-pop_max? (node l terminator v h) = refl
  max-pop_max? (node l (node rl rr rv rh) v h) = max-pop_max? (node rl rr rv rh)
