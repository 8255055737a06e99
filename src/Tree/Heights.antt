-- ===== src/Tree/Heights.antt =====
-- Cached heights, and the balance of the tree of ImmutableTree.h.
use Prim.Native.Nat.{max}
use learch.Prelude.{
  ℕ, ◌+◌, ◌≤◌, ◌<◌, ◌≡◌, refl, ◌⊎◌, Bool, arith, ltb, leb, tests, leb→lt, Bool-cases, inl, inr,
}
use learch.Tree.Order.{compared, less, more, same}
use learch.Tree.{
  Node, terminator, node, height, new_node, rotate_left_right, rotate_right, rotate_right_left,
  rotate_left, balance, pop_min, pop_max, remove_root, insert, replace, remove,
}

module _ {ℓ} {V : Type ℓ} where
  abbrev pub IsBalanced : Node V → Type 0
  IsBalanced terminator = Unit {0}
  IsBalanced (node l r v h) =
      (h ≡ max (height l) (height r) + 1)
      × (height l ≤ height r + 2)
      × (height r ≤ height l + 2)
      × IsBalanced l
      × IsBalanced r

  -- What `balance` makes of two sides: a balanced tree that is at most one higher than the higher
  -- side, and exactly one higher where nothing had to be rotated.
  pub record Joins (l r b : Node V) : Type 0 where
    pub valid : IsBalanced b
    pub low : max (height l) (height r) ≤ height b
    pub high : height b ≤ max (height l) (height r) + 1
    pub exact :
        (height b ≡ max (height l) (height r) + 1)
        ⊎ ((height l ≡ height r + 3) ⊎ (height r ≡ height l + 3))

  -- One node over two balanced sides that differ by at most two.
  new_node-IsBalanced :
      (l r : Node V) (v : V)
      → IsBalanced l
      → IsBalanced r
      → height l ≤ height r + 2
      → height r ≤ height l + 2
      → IsBalanced (new_node l r v)
  new_node-IsBalanced l r v bl br h k = (refl, h, k, bl, br)

  rotate_left_right-Joins :
      (ll lr : Node V) (lv v : V) (r : Node V) (h : ℕ)
      → IsBalanced (node ll lr lv h)
      → IsBalanced r
      → h ≡ height r + 3
      → height ll < height lr
      → Joins (node ll lr lv h) r (rotate_left_right ll lr lv v r)
  unfolding rotate_left_right
  rotate_left_right-Joins ll terminator lv v r h bl br d c = absurd (omega arith)
  rotate_left_right-Joins ll (node lrl lrr lrv k) lv v r h (e, a, b, bll, (f, p, q, blrl, blrr)) br
        d c =
      record {
        valid = (
          refl,
          omega arith,
          omega arith,
          (refl, omega arith, omega arith, bll, blrl),
          (refl, omega arith, omega arith, blrr, br),
        );
        low = omega arith;
        high = omega arith;
        exact = inr (inl d);
      }

  rotate_right-Joins :
      (l : Node V) (v : V) (r : Node V)
      → IsBalanced l
      → IsBalanced r
      → height l ≡ height r + 3
      → Joins l r (rotate_right l v r)
  unfolding rotate_right
  rotate_right-Joins terminator v r bl br d = absurd (omega arith)
  rotate_right-Joins (node ll lr lv h) v r (e, a, b, bll, blr) br d =
      elim (Bool-cases (leb (height lr) (height ll))) [
        | inl single ↦
            rw (single, rotate_right)
              (record {
                valid = (
                  refl,
                  omega tests,
                  omega tests,
                  bll,
                  (refl, omega tests, omega tests, blr, br),
                );
                low = omega tests;
                high = omega tests;
                exact = inr (inl d);
              })
        | inr double ↦
            rw (double, rotate_right)
              (rotate_left_right-Joins ll lr lv v r h (e, a, b, bll, blr) br d (leb→lt _ _ double))
      ]

  rotate_right_left-Joins :
      (l : Node V) (v : V) (rl rr : Node V) (rv : V) (h : ℕ)
      → IsBalanced l
      → IsBalanced (node rl rr rv h)
      → h ≡ height l + 3
      → height rr < height rl
      → Joins l (node rl rr rv h) (rotate_right_left l v rl rr rv)
  unfolding rotate_right_left
  rotate_right_left-Joins l v terminator rr rv h bl br d c = absurd (omega arith)
  rotate_right_left-Joins l v (node rll rlr rlv k) rr rv h bl (e, a, b, (f, p, q, brll, brlr), brr)
        d c =
      record {
        valid = (
          refl,
          omega arith,
          omega arith,
          (refl, omega arith, omega arith, bl, brll),
          (refl, omega arith, omega arith, brlr, brr),
        );
        low = omega arith;
        high = omega arith;
        exact = inr (inr d);
      }

  rotate_left-Joins :
      (l : Node V) (v : V) (r : Node V)
      → IsBalanced l
      → IsBalanced r
      → height r ≡ height l + 3
      → Joins l r (rotate_left l v r)
  unfolding rotate_left
  rotate_left-Joins l v terminator bl br d = absurd (omega arith)
  rotate_left-Joins l v (node rl rr rv h) bl (e, a, b, brl, brr) d =
      elim (Bool-cases (leb (height rl) (height rr))) [
        | inl single ↦
            rw (single, rotate_left)
              (record {
                valid = (
                  refl,
                  omega tests,
                  omega tests,
                  (refl, omega tests, omega tests, bl, brl),
                  brr,
                );
                low = omega tests;
                high = omega tests;
                exact = inr (inr d);
              })
        | inr double ↦
            rw (double, rotate_left)
              (rotate_right_left-Joins l v rl rr rv h bl (e, a, b, brl, brr) d (leb→lt _ _ double))
      ]

  -- From two balanced sides whose heights differ by at most three, `balance` makes a balanced tree
  -- that is as high as the higher side or one more, and exactly one more unless the heights differ
  -- by three.
  pub balance-Joins :
      (l : Node V) (v : V) (r : Node V)
      → IsBalanced l
      → IsBalanced r
      → height l ≤ height r + 3
      → height r ≤ height l + 3
      → Joins l r (balance l v r)
  unfolding balance
  balance-Joins l v r bl br h k = elim (Bool-cases (ltb (height r + 2) (height l))) [
    | inl left ↦ rw left (rotate_right-Joins l v r bl br (omega tests))
    | inr even ↦ rw even (elim (Bool-cases (ltb (height l + 2) (height r))) [
      | inl right ↦ rw right (rotate_left-Joins l v r bl br (omega tests))
      | inr level ↦ rw level (record {
        valid = (refl, omega tests, omega tests, bl, br);
        low = omega arith;
        high = omega arith;
        exact = inl refl;
      })
    ])
  ]

  -- `u` is balanced, at most `up` higher and at most `down` lower than `t`.
  pub record Shifts (up down : ℕ) (t u : Node V) : Type 0 where
    pub valid : IsBalanced u
    pub high : height u ≤ height t + up
    pub low : height t ≤ height u + down

  module _ {up down : ℕ} (small : up + down ≤ 1) {l r : Node V} {w : V} {h : ℕ}
      (b : IsBalanced (node l r w h)) where
    pub balance-Shifts_left :
        {l' : Node V} → Shifts up down l l' → Shifts up down (node l r w h) (balance l' w r)
    balance-Shifts_left {l'} s =
        let j = balance-Joins l' w r s.valid b.4 (omega arith) (omega arith) in
        let e : height (node l r w h) ≡ h = refl in
        record { valid = j.valid; high = omega arith; low = omega arith }

    pub balance-Shifts_right :
        {r' : Node V} → Shifts up down r r' → Shifts up down (node l r w h) (balance l w r')
    balance-Shifts_right {r'} s =
        let j = balance-Joins l w r' b.3 s.valid (omega arith) (omega arith) in
        let e : height (node l r w h) ≡ h = refl in
        record { valid = j.valid; high = omega arith; low = omega arith }

  pop_min-Shifts :
      (l : Node V) (v : V) (r : Node V) (h : ℕ)
      → IsBalanced (node l r v h)
      → Shifts 0 1 (node l r v h) (pop_min l v r).1
  unfolding pop_min
  pop_min-Shifts terminator v r h b = record { valid = b.4; high = omega arith; low = omega arith }
  pop_min-Shifts (node ll lr lv lh) v r h b =
      balance-Shifts_left (omega arith) b (pop_min-Shifts ll lv lr lh b.3)

  pop_max-Shifts :
      (l : Node V) (v : V) (r : Node V) (h : ℕ)
      → IsBalanced (node l r v h)
      → Shifts 0 1 (node l r v h) (pop_max l v r).1
  unfolding pop_max
  pop_max-Shifts l v terminator h b = record { valid = b.3; high = omega arith; low = omega arith }
  pop_max-Shifts l v (node rl rr rv rh) h b =
      balance-Shifts_right (omega arith) b (pop_max-Shifts rl rv rr rh b.4)

module _ {ℓ κ} {K : Type κ} {V : Type ℓ} (key : V → K) (lt : K → K → Bool) where
  -- From a balanced tree, `insert` makes a balanced tree that is no lower and at most one higher.
  pub insert-Shifts : (v : V) (t : Node V) → IsBalanced t → Shifts 1 0 t (insert key lt v t)
  unfolding insert
  insert-Shifts v terminator b = record {
    valid = (refl, omega arith, omega arith, tt, tt);
    high = omega arith;
    low = omega arith;
  }
  insert-Shifts v (node l r w h) b = elim (compared lt (key v) (key w)) [
    | less e ↦ rw e (balance-Shifts_left (omega arith) b (insert-Shifts v l b.3))
    | more e f ↦ rw (e, f) (balance-Shifts_right (omega arith) b (insert-Shifts v r b.4))
    | same e f ↦ rw (e, f) (record { valid = b; high = omega arith; low = omega arith })
  ]

  pub replace-Shifts : (v : V) (t : Node V) → IsBalanced t → Shifts 1 0 t (replace key lt v t)
  unfolding replace
  replace-Shifts v terminator b = record {
    valid = (refl, omega arith, omega arith, tt, tt);
    high = omega arith;
    low = omega arith;
  }
  replace-Shifts v (node l r w h) b = elim (compared lt (key v) (key w)) [
    | less e ↦ rw e (balance-Shifts_left (omega arith) b (replace-Shifts v l b.3))
    | more e f ↦ rw (e, f) (balance-Shifts_right (omega arith) b (replace-Shifts v r b.4))
    | same e f ↦
        rw (e, f)
          (record { valid = (refl, b.1, b.2, b.3, b.4); high = omega arith; low = omega arith })
  ]

  remove_root-Shifts :
      (l r : Node V) (w : V) (h : ℕ)
      → IsBalanced (node l r w h)
      → Shifts 0 1 (node l r w h) (remove_root key lt l r)
  unfolding remove_root
  remove_root-Shifts terminator r w h b = record {
    valid = b.4;
    high = omega arith;
    low = omega arith;
  }
  remove_root-Shifts (node ll lr lv lh) terminator w h b = record {
    valid = b.3;
    high = omega arith;
    low = omega arith;
  }
  remove_root-Shifts (node ll lr lv lh) (node rl rr rv rh) w h b =
      let s =
        balance-Shifts_right (omega arith) {w = (pop_min rl rv rr).0} b
          (pop_min-Shifts rl rv rr rh b.4) in
      record { valid = s.valid; high = s.high; low = s.low }

  -- From a balanced tree, `remove` makes a balanced tree that is no higher and at most one lower.
  pub remove-Shifts : (k : K) (t : Node V) → IsBalanced t → Shifts 0 1 t (remove key lt k t)
  unfolding remove
  remove-Shifts k terminator b = record { valid = tt; high = omega arith; low = omega arith }
  remove-Shifts k (node l r w h) b = elim (compared lt k (key w)) [
    | less e ↦ rw e (balance-Shifts_left (omega arith) b (remove-Shifts k l b.3))
    | more e f ↦ rw (e, f) (balance-Shifts_right (omega arith) b (remove-Shifts k r b.4))
    | same e f ↦ rw (e, f) (remove_root-Shifts l r w h b)
  ]
