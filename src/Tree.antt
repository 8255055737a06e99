-- ===== src/Tree.antt =====
-- The persistent search tree of klee/include/klee/Internal/ADT/ImmutableTree.h: a search tree whose
-- nodes cache their height and whose sides may differ in height by two. The class's parameters
-- KOV and CMP are the arguments `key` and `lt`. Reference counts are not modelled: they decide when
-- a node is freed and never what an operation returns.
pub mod Heights
pub mod Inorder
pub mod Order
pub mod Laws
pub mod Refine
mod Tests
use Prim.Native.Nat.{max}
use learch.Prelude.{ℕ, ◌+◌, Bool, true, false, Option, none, some, ltb, leb, if◌then◌else◌}

-- `terminator` is the static node of height 0 that stands for the empty tree.
pub data Node {ℓ} (V : Type ℓ) : Type ℓ where
  terminator : Node V
  node : (left right : Node V) (value : V) (height : ℕ) → Node V

module _ {ℓ} {V : Type ℓ} where
  abbrev pub height : Node V → ℕ
  height terminator = 0
  height (node l r v h) = h

  abbrev pub is_terminator : Node V → Bool
  is_terminator terminator = true
  is_terminator (node l r v h) = false

  -- The constructor `Node(left, right, value)`.
  abbrev pub new_node : Node V → Node V → V → Node V
  new_node l r v = node l r v (max (height l) (height r) + 1)

  -- The double rotation to the right; `lr` is no terminator where `balance` comes here.
  rotate_left_right : Node V → Node V → V → V → Node V → Node V
  rotate_left_right ll terminator lv v right = new_node ll (new_node terminator right v) lv
  rotate_left_right ll (node lrl lrr lrv h) lv v right =
      new_node (new_node ll lrl lv) (new_node lrr right v) lrv

  -- `left` is higher by more than two, so it is no terminator.
  rotate_right : Node V → V → Node V → Node V
  unfolding rotate_left_right
  rotate_right terminator v right = new_node terminator right v
  rotate_right (node ll lr lv h) v right =
      if leb (height lr) (height ll)
      then new_node ll (new_node lr right v) lv
      else rotate_left_right ll lr lv v right

  rotate_right_left : Node V → V → Node V → Node V → V → Node V
  rotate_right_left left v terminator rr rv = new_node (new_node left terminator v) rr rv
  rotate_right_left left v (node rll rlr rlv h) rr rv =
      new_node (new_node left rll v) (new_node rlr rr rv) rlv

  rotate_left : Node V → V → Node V → Node V
  unfolding rotate_right_left
  rotate_left left v terminator = new_node left terminator v
  rotate_left left v (node rl rr rv h) =
      if leb (height rl) (height rr)
      then new_node (new_node left rl v) rr rv
      else rotate_right_left left v rl rr rv

  unfoldable pub balance : Node V → V → Node V → Node V
  unfolding rotate_right rotate_left
  balance left v right =
      if ltb (height right + 2) (height left)
      then rotate_right left v right
      else if ltb (height left + 2) (height right)
      then rotate_left left v right
      else new_node left right v

  unfoldable pub size : Node V → ℕ
  size terminator = 0
  size (node l r v h) = size l + 1 + size r

  -- Both are called on a node only; the value comes back beside the tree that is left.
  unfoldable pub pop_min : Node V → V → Node V → V × Node V
  pop_min terminator v right = (v, right)
  pop_min (node l r w h) v right = let (m, rest) = pop_min l w r in (m, balance rest v right)

  unfoldable pub pop_max : Node V → V → Node V → V × Node V
  pop_max left v terminator = (v, left)
  pop_max left v (node l r w h) = let (m, rest) = pop_max l w r in (m, balance left v rest)

  -- `ImmutableTree::popMin` and `popMax`; the code does not allow them on the empty tree.
  unfoldable pub pop_min? : Node V → Option (V × Node V)
  pop_min? terminator = none
  pop_min? (node l r v h) = some (pop_min l v r)

  unfoldable pub pop_max? : Node V → Option (V × Node V)
  pop_max? terminator = none
  pop_max? (node l r v h) = some (pop_max l v r)

  -- The loops of `min` and `max`, which assert that the tree is not empty.
  unfoldable pub min : Node V → Option V
  min terminator = none
  min (node terminator r v h) = some v
  min (node (node ll lr lv lh) r v h) = min (node ll lr lv lh)

  unfoldable pub max_value : Node V → Option V
  max_value terminator = none
  max_value (node l terminator v h) = some v
  max_value (node l (node rl rr rv rh) v h) = max_value (node rl rr rv rh)

module _ {ℓ κ} {K : Type κ} {V : Type ℓ} (key : V → K) (lt : K → K → Bool) where
  unfoldable pub insert : V → Node V → Node V
  insert v terminator = new_node terminator terminator v
  insert v (node l r w h) =
      if lt (key v) (key w)
      then balance (insert v l) w r
      else if lt (key w) (key v)
      then balance l w (insert v r)
      else node l r w h

  unfoldable pub replace : V → Node V → Node V
  replace v terminator = new_node terminator terminator v
  replace v (node l r w h) =
      if lt (key v) (key w)
      then balance (replace v l) w r
      else if lt (key w) (key v)
      then balance l w (replace v r)
      else new_node l r v

  -- The last branch of `remove`: the node itself goes.
  remove_root : Node V → Node V → Node V
  remove_root terminator r = r
  remove_root (node ll lr lv lh) terminator = node ll lr lv lh
  remove_root (node ll lr lv lh) (node rl rr rv rh) =
      let (m, rest) = pop_min rl rv rr in balance (node ll lr lv lh) m rest

  unfoldable pub remove : K → Node V → Node V
  unfolding remove_root
  remove k terminator = terminator
  remove k (node l r w h) =
      if lt k (key w)
      then balance (remove k l) w r
      else if lt (key w) k
      then balance l w (remove k r)
      else remove_root l r

  -- The loops of the queries, each a walk down from the root.
  unfoldable pub lookup : K → Node V → Option V
  lookup k terminator = none
  lookup k (node l r w h) =
      if lt k (key w) then lookup k l else if lt (key w) k then lookup k r else some w

  unfoldable pub count : K → Node V → ℕ
  count k terminator = 0
  count k (node l r w h) = if lt k (key w) then count k l else if lt (key w) k then count k r else 1

  -- `result` is the last node on the walk whose key is less than `k`.
  previous_from : K → Node V → Option V → Option V
  previous_from k terminator result = result
  previous_from k (node l r w h) result =
      if lt k (key w)
      then previous_from k l result
      else if lt (key w) k
      then previous_from k r (some w)
      else some w

  unfoldable pub lookup_previous : K → Node V → Option V
  unfolding previous_from
  lookup_previous k n = previous_from k n none
