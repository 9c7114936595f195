-- ===== src/Util/RbTree/Delete.antt =====
-- src/co/util/rbtree.c.h: RBDelete and its helpers.
-- The code asserts what it needs of the shape of the tree. `fault` stands for an assertion that
-- fails and for a read through NULL. The recursion follows a tree that was turned around, so it
-- takes fuel; RBDelete gives one more than the number of nodes.
pub mod Moves
pub mod Min
pub mod Entries
pub mod Sides
pub mod Remove
pub mod Ready
pub mod Fit
pub mod Runs
pub mod Ways
pub mod Present
use Prim.Native.Nat.{Ordering}
use Prim.Native.Nat.Ordering.{lt, eq, gt}
use colang.Prelude.{
  ℕ, zero, suc, ◌+◌, Bool, true, false, not, ◌&&◌, Option, none, some, if◌then◌else◌,
}
use colang.Util.KeyOrder.{KeyOrder}
use colang.Util.RbTree.{
  RbNode, null, node, isred, set_red, left_of, right_of, flip_color, rotate_left, rotate_right,
  lift_left, rb_count,
}

pub data Run {ℓ} (A : Type ℓ) : Type ℓ where
  done : A → Run A
  fault : Run A
  out_of_fuel : Run A

infixl 5 ◌>>=◌
abbrev pub ◌>>=◌ {ℓ κ} : {A : Type ℓ} {B : Type κ} → Run A → (A → Run B) → Run B
done a >>= f = f a
fault >>= f = fault
out_of_fuel >>= f = out_of_fuel

module _ {ℓ κ} {K : Type ℓ} {V : Type κ} where
  -- flipColor reads both children.
  unfoldable pub flip_children : RbNode K V → Run (RbNode K V)
  unfolding flip_color
  flip_children (node c (node lc ll lk lv lr) k v (node rc rl rk rv rr)) =
      done (flip_color (node c (node lc ll lk lv lr) k v (node rc rl rk rv rr)))
  flip_children (node c (node lc ll lk lv lr) k v null) = fault
  flip_children (node c null k v r) = fault
  flip_children null = fault

  -- `node->right = rotateRight(node->right)`
  abbrev pub rotate_right_child : RbNode K V → RbNode K V
  rotate_right_child null = null
  rotate_right_child (node c l k v r) = node c l k v (rotate_right r)

  unfoldable pub fix_up : RbNode K V → RbNode K V
  fix_up t =
      let turned = lift_left (if isred (right_of t) then rotate_left t else t) in
      if isred (left_of turned) && isred (right_of turned) then flip_color turned else turned

  unfoldable pub move_red_left : RbNode K V → Run (RbNode K V)
  unfolding flip_children
  move_red_left t = do
    flipped ← flip_children t
    if isred (left_of (right_of flipped))
        then flip_children (rotate_left (rotate_right_child flipped))
        else done flipped

  unfoldable pub move_red_right : RbNode K V → Run (RbNode K V)
  unfolding flip_children
  move_red_right t = do
    flipped ← flip_children t
    if isred (left_of (left_of flipped)) then flip_children (rotate_right flipped) else done flipped

  unfoldable pub min_node : RbNode K V → Option (K × V)
  min_node null = none
  min_node (node c null k v r) = some (k, v)
  min_node (node c (node lc ll lk lv lr) k v r) = min_node (node lc ll lk lv lr)

  -- The test before the code goes down on one side, of the child there.
  abbrev pub is_two_node : RbNode K V → Bool
  is_two_node t = not (isred t) && not (isred (left_of t))

  unfoldable pub leave_left : RbNode K V → Run (RbNode K V)
  leave_left t = if is_two_node (left_of t) then move_red_left t else done t

  unfoldable pub leave_right : RbNode K V → Run (RbNode K V)
  leave_right t = if is_two_node (right_of t) then move_red_right t else done t

  -- `node->left = go(node->left); return fixUp(node);`
  unfoldable pub down_left : (RbNode K V → Run (RbNode K V)) → RbNode K V → Run (RbNode K V)
  down_left go null = fault
  down_left go (node c l k v r) = do l' ← go l; done (fix_up (node c l' k v r))

  unfoldable pub down_right : (RbNode K V → Run (RbNode K V)) → RbNode K V → Run (RbNode K V)
  down_right go null = fault
  down_right go (node c l k v r) = do r' ← go r; done (fix_up (node c l k v r'))

  unfoldable pub rb_delete_min : ℕ → RbNode K V → Run (RbNode K V)
  rb_delete_min zero t = out_of_fuel
  rb_delete_min (suc fuel) null = fault
  rb_delete_min (suc fuel) (node c null k v null) = done null
  rb_delete_min (suc fuel) (node c null k v (node rc rl rk rv rr)) = fault
  rb_delete_min (suc fuel) (node c (node lc ll lk lv lr) k v r) =
      let t : RbNode K V = node c (node lc ll lk lv lr) k v r in
      leave_left t >>= down_left (rb_delete_min fuel)

  -- `node->key = m->key; node->value = m->value;`, and the least node of the right side goes.
  unfoldable pub put_min :
      (RbNode K V → Run (RbNode K V)) → Bool → RbNode K V → RbNode K V → Run (RbNode K V)
  put_min delete_min c l r = elim (min_node r) [
    | none ↦ fault
    | some (k, v) ↦ down_right delete_min (node c l k v r)
  ]

module _ {ℓ κ} {K : Type ℓ} {V : Type κ} ⦃o : KeyOrder K⦄ where
  -- The key is at this node, or to the right of it.
  unfoldable pub delete_here :
      (RbNode K V → Run (RbNode K V))
      → (RbNode K V → Run (RbNode K V))
      → K
      → RbNode K V
      → Run (RbNode K V)
  delete_here go delete_min q null = fault
  delete_here go delete_min q (node c l k v r) = elim (o.cmp q k) [
    | eq ↦ put_min delete_min c l r
    | lt ↦ down_right go (node c l k v r)
    | gt ↦ down_right go (node c l k v r)
  ]

  unfoldable pub delete_right :
      (RbNode K V → Run (RbNode K V))
      → (RbNode K V → Run (RbNode K V))
      → K
      → RbNode K V
      → Run (RbNode K V)
  delete_right go delete_min q null = fault
  delete_right go delete_min q (node c null k v null) = elim (o.cmp q k) [
    | eq ↦ done null
    | lt ↦ fault
    | gt ↦ fault
  ]
  delete_right go delete_min q (node c (node lc ll lk lv lr) k v null) = fault
  delete_right go delete_min q (node c l k v (node rc rl rk rv rr)) =
      leave_right (node c l k v (node rc rl rk rv rr)) >>= delete_here go delete_min q

  unfoldable pub delete_left : (RbNode K V → Run (RbNode K V)) → RbNode K V → Run (RbNode K V)
  delete_left go null = fault
  delete_left go (node c null k v r) = fault
  delete_left go (node c (node lc ll lk lv lr) k v r) =
      leave_left (node c (node lc ll lk lv lr) k v r) >>= down_left go

  unfoldable pub rb_delete_node : ℕ → RbNode K V → K → Run (RbNode K V)
  rb_delete_node zero t q = out_of_fuel
  rb_delete_node (suc fuel) null q = fault
  rb_delete_node (suc fuel) (node c l k v r) q =
      let go = λ (t : RbNode K V). rb_delete_node fuel t q in
      let t : RbNode K V = node c l k v r in
      let turned : RbNode K V = if isred l then rotate_right t else t in
      elim (o.cmp q k) [
        | lt ↦ delete_left go t
        | eq ↦ delete_right go (rb_delete_min fuel) q turned
        | gt ↦ delete_right go (rb_delete_min fuel) q turned
      ]

  unfoldable pub rb_delete : RbNode K V → K → Run (RbNode K V)
  rb_delete null q = done null
  rb_delete (node c l k v r) q = do
    t ← rb_delete_node (suc (rb_count (node c l k v r))) (node c l k v r) q
    done (set_red false t)
