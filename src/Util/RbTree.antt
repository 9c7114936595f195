-- ===== src/Util/RbTree.antt =====
-- src/co/util/rbtree.c.h: the left-leaning red-black tree, in its 2-3-4 variant.
-- A node pointer is a value of `RbNode`, with `null` for NULL. The functions own the tree that they
-- are given, so that an in-place update is the node built again. `mem` says whether RBAllocNode
-- returns a node: it is NULL when the memory is used up.
pub mod Step
pub mod Inorder
pub mod Insertion
pub mod Lookup
pub mod Colour
pub mod ColourInsert
pub mod Height
pub mod KeySet
pub mod Delete
use Prim.Native.Nat.{Ordering}
use Prim.Native.Nat.Ordering.{lt, eq, gt}
use colang.Prelude.{ℕ, ◌+◌, Bool, true, false, not, ◌&&◌, Option, none, some, if◌then◌else◌}
use colang.Util.KeyOrder.{KeyOrder}

pub data RbNode {ℓ κ} (K : Type ℓ) (V : Type κ) : Type (ℓ ⊔ κ) where
  null : RbNode K V
  node : Bool → RbNode K V → K → V → RbNode K V → RbNode K V

-- What flipColor leaves of a colour, where it is called under a test.
abbrev pub toggle_if : Bool → Bool → Bool
toggle_if test c = if test then not c else c

-- `if (!…) return false;`
abbrev pub keep_going {μ} : {S : Type μ} → S × Bool → (S → S × Bool) → S × Bool
keep_going (s, true) next = next s
keep_going (s, false) next = (s, false)

module _ {ℓ κ} {K : Type ℓ} {V : Type κ} where
  unfoldable pub rb_new_node : Bool → K → V → RbNode K V
  rb_new_node mem k v = if mem then node true null k v null else null

  abbrev pub isred : RbNode K V → Bool
  isred null = false
  isred (node c l k v r) = c

  -- `n->isred = c`
  abbrev pub set_red : Bool → RbNode K V → RbNode K V
  set_red c null = null
  set_red c (node _ l k v r) = node c l k v r

  -- `n->isred = !n->isred`
  abbrev pub toggle : RbNode K V → RbNode K V
  toggle null = null
  toggle (node c l k v r) = node (not c) l k v r

  unfoldable pub flip_color : RbNode K V → RbNode K V
  flip_color null = null
  flip_color (node c l k v r) = node (not c) (toggle l) k v (toggle r)

  -- The code calls the rotations where the child that moves up is red, so that it is there.
  unfoldable pub rotate_left : RbNode K V → RbNode K V
  rotate_left (node c l k v (node _ rl rk rv rr)) = node c (node true l k v rl) rk rv rr
  rotate_left t = t

  unfoldable pub rotate_right : RbNode K V → RbNode K V
  rotate_right (node c (node _ ll lk lv lr) k v r) = node c ll lk lv (node true lr k v r)
  rotate_right t = t

  abbrev pub left_of : RbNode K V → RbNode K V
  left_of null = null
  left_of (node c l k v r) = l

  abbrev pub right_of : RbNode K V → RbNode K V
  right_of null = null
  right_of (node c l k v r) = r

  unfoldable pub lean_left : RbNode K V → RbNode K V
  lean_left t = if isred (right_of t) && not (isred (left_of t)) then rotate_left t else t

  unfoldable pub lift_left : RbNode K V → RbNode K V
  lift_left t = if isred (left_of t) && isred (left_of (left_of t)) then rotate_right t else t

  -- The two rotations at the end of rbInsert.
  unfoldable pub rebalance : RbNode K V → RbNode K V
  rebalance t = lift_left (lean_left t)

  -- RBCount: the code starts at a node, never at NULL.
  unfoldable pub rb_count : RbNode K V → ℕ
  rb_count null = 0
  rb_count (node c l k v r) = 1 + rb_count l + rb_count r

  -- RBIter with its callback, which also changes the user's data: the nodes in the order in which it
  -- visits them, until the callback returns false. The second part is what RBIter returns.
  unfoldable pub rb_iter {μ} : {S : Type μ} → (K → V → S → S × Bool) → RbNode K V → S → S × Bool
  rb_iter f null s = (s, true)
  rb_iter f (node c l k v r) s =
      keep_going (f k v s) (λ s'. keep_going (rb_iter f l s') (λ s''. rb_iter f r s''))

module _ {ℓ κ} {K : Type ℓ} {V : Type κ} ⦃o : KeyOrder K⦄ where
  -- RBHas and RBGet. The loop of the code starts at a node: at NULL it would read through it.
  unfoldable pub rb_has : RbNode K V → K → Bool
  rb_has null q = false
  rb_has (node c l k v r) q = elim (o.cmp q k) [ eq ↦ true | lt ↦ rb_has l q | gt ↦ rb_has r q ]

  -- RBGet reads through NULL where it is called on an empty tree; that is `none` here.
  unfoldable pub rb_get : RbNode K V → K → Option V
  rb_get null q = none
  rb_get (node c l k v r) q = elim (o.cmp q k) [ eq ↦ some v | lt ↦ rb_get l q | gt ↦ rb_get r q ]

  -- rbInsert, at a node whose colour is now `c`: the caller's flipColor may have changed it just
  -- before the call, so the colour stands beside the node and the one inside is not read.
  -- `rb_insert_node_lem` states the recursion in the words of the source.
  unfoldable pub rb_insert : Bool → Bool → RbNode K V → K → V → RbNode K V
  rb_insert mem c null q w = rb_new_node mem q w
  rb_insert mem c (node _ l k v r) q w =
      let four = isred l && isred r in
      let lc = toggle_if four (isred l) in
      let rc = toggle_if four (isred r) in
      elim (o.cmp q k) [
        | lt ↦ rebalance (node (toggle_if four c) (rb_insert mem lc l q w) k v (set_red rc r))
        | eq ↦ rebalance (node (toggle_if four c) (set_red lc l) k w (set_red rc r))
        | gt ↦ rebalance (node (toggle_if four c) (set_red lc l) k v (rb_insert mem rc r q w))
      ]

  abbrev pub rb_insert_node : Bool → RbNode K V → K → V → RbNode K V
  rb_insert_node mem t q w = rb_insert mem (isred t) t q w

  unfoldable pub rb_set : Bool → RbNode K V → K → V → RbNode K V
  rb_set mem root q w = set_red false (rb_insert_node mem root q w)

  -- RBAdd. It asks RBHas first, which reads the key of the root: `none` is the read through NULL.
  unfoldable pub rb_add : Bool → RbNode K V → K → V → Option (RbNode K V × Bool)
  rb_add mem null q w = none
  rb_add mem (node c l k v r) q w =
      let root = node c l k v r in
      some (if rb_has root q then (root, false) else (rb_set mem root q w, true))
