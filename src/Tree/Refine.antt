-- ===== src/Tree/Refine.antt =====
-- The operations of ImmutableTree.h against those of the sorted list of its values.
use mathlib.Core.List.{append-nil}
use learch.Prelude.{◌≡◌, refl, sym, ap, ◌∙◌, ◌++◌, Option, none, some, if◌then◌else◌}
use learch.Tree.{Node, terminator, node, remove_root, previous_from}
use learch.Tree
use learch.Tree.Inorder.{to_list, balance-to_list, pop_min-to_list}
use learch.Tree.Order.{
  Compare, Above, Below, IsSorted, IsSorted-append, Above-same, previous, compared, less, more,
  same, edit, edit_left, edit_right, edit_same, lookup_left, lookup_right, lookup_same,
  previous_left, previous_right, previous-Above,
}
use learch.Tree.Order
use learch.Tree.Laws.{Keyed, equivalent, edit-IsSorted, lookup-edit}

module _ {ℓ κ} {K : Type κ} {V : Type ℓ} (cmp : Compare K) (key : V → K) where
  open cmp use {lt, lt_irrefl, lt_trans, lt_cotrans}

  pub insert-to_list :
      (v : V) (t : Node V)
      → IsSorted cmp key (to_list t)
      → to_list (Tree.insert key lt v t) ≡ Order.insert cmp key v (to_list t)
  unfolding Tree.insert to_list edit
  insert-to_list v terminator s = refl
  insert-to_list v (node l r w h) s =
      let p = IsSorted-append cmp key (to_list l) w (to_list r) s in
      elim (compared lt (key v) (key w)) [
        | less e ↦ rw e (
            rw (balance-to_list, insert-to_list v l p.0)
              (sym (edit_left cmp key (key v) (some v) some (to_list l) w (to_list r) e)))
        | more e f ↦
            rw (e, f)
              (rw (balance-to_list, insert-to_list v r p.3)
                (sym (edit_right cmp key (key v) (some v) some (to_list l) w (to_list r) f p.1)))
        | same e f ↦
            rw (e, f)
              (sym (edit_same cmp key (key v) (some v) some (to_list l) w (to_list r) e f p.1))
      ]

  pub replace-to_list :
      (v : V) (t : Node V)
      → IsSorted cmp key (to_list t)
      → to_list (Tree.replace key lt v t) ≡ Order.replace cmp key v (to_list t)
  unfolding Tree.replace to_list edit
  replace-to_list v terminator s = refl
  replace-to_list v (node l r w h) s =
      let p = IsSorted-append cmp key (to_list l) w (to_list r) s in
      elim (compared lt (key v) (key w)) [
        | less e ↦ rw e (
            rw (balance-to_list, replace-to_list v l p.0)
              (sym (edit_left cmp key (key v) (some v) (λ _. some v) (to_list l) w (to_list r) e)))
        | more e f ↦
            rw (e, f)
              (rw (balance-to_list, replace-to_list v r p.3)
                (sym (
                  edit_right cmp key (key v) (some v) (λ _. some v) (to_list l) w (to_list r) f
                    p.1)))
        | same e f ↦
            rw (e, f)
              (sym (
                edit_same cmp key (key v) (some v) (λ _. some v) (to_list l) w (to_list r) e f p.1))
      ]

  remove_root-to_list : (l r : Node V) → to_list (remove_root key lt l r) ≡ to_list l ++ to_list r
  unfolding remove_root to_list
  remove_root-to_list terminator r = refl
  remove_root-to_list (node ll lr lv lh) terminator = sym (append-nil _)
  remove_root-to_list (node ll lr lv lh) (node rl rr rv rh) =
      rw (balance-to_list, pop_min-to_list rl rv rr)

  pub remove-to_list :
      (k : K) (t : Node V)
      → IsSorted cmp key (to_list t)
      → to_list (Tree.remove key lt k t) ≡ Order.remove cmp key k (to_list t)
  unfolding Tree.remove to_list edit
  remove-to_list k terminator s = refl
  remove-to_list k (node l r w h) s =
      let p = IsSorted-append cmp key (to_list l) w (to_list r) s in
      elim (compared lt k (key w)) [
        | less e ↦ rw e (
            rw (balance-to_list, remove-to_list k l p.0)
              (sym (edit_left cmp key k none (λ _. none) (to_list l) w (to_list r) e)))
        | more e f ↦
            rw (e, f)
              (rw (balance-to_list, remove-to_list k r p.3)
                (sym (edit_right cmp key k none (λ _. none) (to_list l) w (to_list r) f p.1)))
        | same e f ↦
            rw (e, f)
              (remove_root-to_list l r
                ∙ sym (edit_same cmp key k none (λ _. none) (to_list l) w (to_list r) e f p.1))
      ]

  pub lookup-to_list :
      (k : K) (t : Node V)
      → IsSorted cmp key (to_list t)
      → Tree.lookup key lt k t ≡ Order.lookup cmp key k (to_list t)
  unfolding Tree.lookup to_list
  lookup-to_list k terminator s = unfold Order.lookup in refl
  lookup-to_list k (node l r w h) s =
      let p = IsSorted-append cmp key (to_list l) w (to_list r) s in
      elim (compared lt k (key w)) [
        | less e ↦
            rw e (lookup-to_list k l p.0 ∙ sym (lookup_left cmp key k (to_list l) w (to_list r) e))
        | more e f ↦
            rw (e, f)
              (lookup-to_list k r p.3
                ∙ sym (lookup_right cmp key k (to_list l) w (to_list r) f p.1))
        | same e f ↦ rw (e, f) (sym (lookup_same cmp key k (to_list l) w (to_list r) e f p.1))
      ]

  pub count-lookup :
      (k : K) (t : Node V)
      → Tree.count key lt k t ≡ elim (Tree.lookup key lt k t) [ none ↦ 0 | some _ ↦ 1 ]
  unfolding Tree.count Tree.lookup
  count-lookup k terminator = refl
  count-lookup k (node l r w h) = elim (compared lt k (key w)) [
    | less e ↦ rw e (count-lookup k l)
    | more e f ↦ rw (e, f) (count-lookup k r)
    | same e f ↦ rw (e, f)
  ]

  previous_from-to_list :
      (k : K) (t : Node V) (best : Option V)
      → IsSorted cmp key (to_list t)
      → previous_from key lt k t best ≡ previous cmp key k (to_list t) best
  unfolding previous_from to_list
  previous_from-to_list k terminator best s = unfold previous in refl
  previous_from-to_list k (node l r w h) best s =
      let p = IsSorted-append cmp key (to_list l) w (to_list r) s in
      elim (compared lt k (key w)) [
        | less e ↦ rw e (
            previous_from-to_list k l best p.0
            ∙ sym (previous_left cmp key k (to_list l) w (to_list r) best e))
        | more e f ↦
            rw (e, f)
              (previous_from-to_list k r (some w) p.3
                ∙ sym (previous_right cmp key k (to_list l) w (to_list r) best e p.1))
        | same e f ↦
            rw (e, f)
              (sym (
                previous_right cmp key k (to_list l) w (to_list r) best e p.1
                ∙ previous-Above cmp key k (to_list r) (some w)
                    (Above-same cmp key k (key w) (to_list r) e f p.2)))
      ]

  -- In a sorted tree, `lookup_previous` finds the last value in order whose key is not above `k`,
  -- or nothing where all are above.
  pub lookup_previous-to_list :
      (k : K) (t : Node V)
      → IsSorted cmp key (to_list t)
      → Tree.lookup_previous key lt k t ≡ previous cmp key k (to_list t) none
  unfolding Tree.lookup_previous
  lookup_previous-to_list k t s = previous_from-to_list k t none s

  abbrev pub get_or : Option V → V → V
  get_or none d = d
  get_or (some x) d = x

  own_key : (v : V) → Keyed cmp key (key v) (some v)
  own_key v = (lt_irrefl (key v), lt_irrefl (key v))

  always : (o p : Option V) → (elim p [ none ↦ o | some x ↦ o ]) ≡ o
  always o none = refl
  always o (some x) = refl

  some-get_or :
      (p : Option V) (v : V) → (elim p [ none ↦ some v | some x ↦ some x ]) ≡ some (get_or p v)
  some-get_or none v = refl
  some-get_or (some x) v = refl

  pub insert-IsSorted :
      (v : V) (t : Node V)
      → IsSorted cmp key (to_list t)
      → IsSorted cmp key (to_list (Tree.insert key lt v t))
  insert-IsSorted v t s =
      rw (insert-to_list v t s)
        (edit-IsSorted cmp key (key v) (some v) some (own_key v) (λ x e f. (e, f)) (to_list t) s)

  pub replace-IsSorted :
      (v : V) (t : Node V)
      → IsSorted cmp key (to_list t)
      → IsSorted cmp key (to_list (Tree.replace key lt v t))
  replace-IsSorted v t s = rw (replace-to_list v t s) (
      edit-IsSorted cmp key (key v) (some v) (λ _. some v) (own_key v) (λ x e f. own_key v)
        (to_list t) s)

  -- Removing a key from a sorted tree leaves a sorted tree.
  pub remove-IsSorted :
      (k : K) (t : Node V)
      → IsSorted cmp key (to_list t)
      → IsSorted cmp key (to_list (Tree.remove key lt k t))
  remove-IsSorted k t s =
      rw (remove-to_list k t s)
        (edit-IsSorted cmp key k none (λ _. none) tt (λ x e f. tt) (to_list t) s)

  -- In a sorted tree, a lookup after `insert v` finds at the key of `v` the value that was there
  -- before, or `v` where there was none, and at any other key what it found before.
  pub lookup-insert :
      (q : K) (v : V) (t : Node V)
      → IsSorted cmp key (to_list t)
      → Tree.lookup key lt q (Tree.insert key lt v t) ≡ (
          if equivalent cmp key q (key v)
          then some (get_or (Tree.lookup key lt (key v) t) v)
          else Tree.lookup key lt q t)
  lookup-insert q v t s =
      rw
        (
          lookup-to_list q _ (insert-IsSorted v t s),
          insert-to_list v t s,
          lookup-to_list q t s,
          lookup-to_list (key v) t s,
        )
        (lookup-edit cmp key (key v) (some v) some (own_key v) (λ x e f. (e, f)) q (to_list t) s
          ∙ ap (λ o. if equivalent cmp key q (key v) then o else Order.lookup cmp key q (to_list t))
              (some-get_or (Order.lookup cmp key (key v) (to_list t)) v))

  -- In a sorted tree, a lookup after `replace v` finds `v` at a key equivalent to that of `v`, and
  -- at any other key what it found before.
  pub lookup-replace :
      (q : K) (v : V) (t : Node V)
      → IsSorted cmp key (to_list t)
      → Tree.lookup key lt q (Tree.replace key lt v t)
        ≡ (if equivalent cmp key q (key v) then some v else Tree.lookup key lt q t)
  lookup-replace q v t s =
      rw (lookup-to_list q _ (replace-IsSorted v t s), replace-to_list v t s, lookup-to_list q t s)
        (lookup-edit cmp key (key v) (some v) (λ _. some v) (own_key v) (λ x e f. own_key v) q
            (to_list t) s
          ∙ ap (λ o. if equivalent cmp key q (key v) then o else Order.lookup cmp key q (to_list t))
              (always (some v) (Order.lookup cmp key (key v) (to_list t))))

  -- In a sorted tree, a lookup after `remove k` finds nothing at a key equivalent to `k`, and at
  -- any other key what it found before.
  pub lookup-remove :
      (q k : K) (t : Node V)
      → IsSorted cmp key (to_list t)
      → Tree.lookup key lt q (Tree.remove key lt k t)
        ≡ (if equivalent cmp key q k then none else Tree.lookup key lt q t)
  lookup-remove q k t s =
      rw (lookup-to_list q _ (remove-IsSorted k t s), remove-to_list k t s, lookup-to_list q t s)
        (lookup-edit cmp key k none (λ _. none) tt (λ x e f. tt) q (to_list t) s
          ∙ ap (λ o. if equivalent cmp key q k then o else Order.lookup cmp key q (to_list t))
              (always none (Order.lookup cmp key k (to_list t))))
