-- ===== src/Util/RbTree/Step.antt =====
-- One level of rbInsert, branch by branch, and as the text of the source has it.
use Prim.Native.Nat.Ordering.{lt, eq, gt}
use colang.Prelude.{◌≡◌, refl, Bool, ◌&&◌, arith, if◌then◌else◌, inl, inr}
use colang.Util.KeyOrder.{KeyOrder, Ordering-cases}
use colang.Util.RbTree.{
  RbNode, null, node, isred, toggle_if, set_red, flip_color, rebalance, rb_insert, rb_insert_node,
}

module _ {ℓ κ} {K : Type ℓ} {V : Type κ} ⦃o : KeyOrder K⦄ where
  module _ (mem c d : Bool) (l : RbNode K V) (k : K) (v : V) (r : RbNode K V) (q : K) (w : V) where
    pub rb_insert-lt :
        o.cmp q k ≡ lt
        → let four = isred l && isred r in
          rb_insert mem c (node d l k v r) q w
          ≡ rebalance (
              node
                (toggle_if four c)
                (rb_insert mem (toggle_if four (isred l)) l q w)
                k
                v
                (set_red (toggle_if four (isred r)) r))
    unfolding rb_insert
    rb_insert-lt h = rw (h, rb_insert)

    pub rb_insert-eq :
        o.cmp q k ≡ eq
        → let four = isred l && isred r in
          rb_insert mem c (node d l k v r) q w
          ≡ rebalance (
              node
                (toggle_if four c)
                (set_red (toggle_if four (isred l)) l)
                k
                w
                (set_red (toggle_if four (isred r)) r))
    unfolding rb_insert
    rb_insert-eq h = rw (h, rb_insert)

    pub rb_insert-gt :
        o.cmp q k ≡ gt
        → let four = isred l && isred r in
          rb_insert mem c (node d l k v r) q w
          ≡ rebalance (
              node
                (toggle_if four c)
                (set_red (toggle_if four (isred l)) l)
                k
                v
                (rb_insert mem (toggle_if four (isred r)) r q w))
    unfolding rb_insert
    rb_insert-gt h = rw (h, rb_insert)

  -- `if (isred(node->left) && isred(node->right)) { flipColor(node); }`
  pub split_four : RbNode K V → RbNode K V
  split_four null = null
  split_four (node c l k v r) =
      if isred l && isred r then flip_color (node c l k v r) else node c l k v r

  -- The comparison and the recursive call.
  pub descend : Bool → RbNode K V → K → V → RbNode K V
  descend mem null q w = null
  descend mem (node c l k v r) q w = elim (o.cmp q k) [
    | lt ↦ node c (rb_insert_node mem l q w) k v r
    | eq ↦ node c l k w r
    | gt ↦ node c l k v (rb_insert_node mem r q w)
  ]

  -- The colours after the split, written out.
  split_four-node :
      (c : Bool) (l : RbNode K V) (k : K) (v : V) (r : RbNode K V)
      → let four = isred l && isred r in
        split_four (node c l k v r)
        ≡ node
            (toggle_if four c)
            (set_red (toggle_if four (isred l)) l)
            k
            v
            (set_red (toggle_if four (isred r)) r)
  unfolding split_four flip_color
  split_four-node c null k v null = ground arith
  split_four-node c null k v (node d rl rk rv rr) = ground arith
  split_four-node c (node b ll lk lv lr) k v null = ground arith
  split_four-node c (node b ll lk lv lr) k v (node d rl rk rv rr) = ground arith

  rb_insert_node-set_red :
      (mem c : Bool) (t : RbNode K V) (q : K) (w : V)
      → rb_insert_node mem (set_red c t) q w ≡ rb_insert mem c t q w
  unfolding rb_insert
  rb_insert_node-set_red mem c null q w = refl
  rb_insert_node-set_red mem c (node d l k v r) q w = refl

  -- rbInsert on a node that is there is three steps, one after the other: split a 4-node, insert
  -- below or replace the value, rebalance.
  pub rb_insert_node_lem :
      (mem : Bool) (c : Bool) (l : RbNode K V) (k : K) (v : V) (r : RbNode K V) (q : K) (w : V)
      → rb_insert_node mem (node c l k v r) q w
        ≡ rebalance (descend mem (split_four (node c l k v r)) q w)
  unfolding descend
  rb_insert_node_lem mem c l k v r q w = elim (Ordering-cases (o.cmp q k)) [
    | inl h ↦
        rw (rb_insert-lt mem c c l k v r q w h, split_four-node, h, descend, rb_insert_node-set_red)
          refl
    | inr (inl h) ↦ rw (rb_insert-eq mem c c l k v r q w h, split_four-node, h, descend) refl
    | inr (inr h) ↦
        rw (rb_insert-gt mem c c l k v r q w h, split_four-node, h, descend, rb_insert_node-set_red)
          refl
  ]
