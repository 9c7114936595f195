-- ===== src/Util/RbTree/KeySet.antt =====
-- The tree without RBVALUE, a set of keys: RBInsert tells whether the key was new. A key is a
-- pointer: `K` stands for what RBCmp reads through it and `V` for the pointer itself, which stays
-- in place when an equal key is there already.
use Prim.Native.Nat.Ordering.{lt, eq, gt}
use colang.Prelude.{◌≡◌, refl, Bool, true, false, ◌&&◌, if◌then◌else◌, Option, none, some, arith}
use colang.Util.KeyOrder.{KeyOrder}
use colang.Util.RbTree.{
  RbNode, null, node, isred, toggle_if, set_red, rebalance, rb_new_node, rb_insert, rb_set, rb_get,
  rb_has,
}

abbrev pub kept {κ} : {V : Type κ} → Option V → V → V
kept none w = w
kept (some v) w = v

module _ {ℓ κ} {K : Type ℓ} {V : Type κ} ⦃o : KeyOrder K⦄ where
  -- rbInsert, and `*added` after it.
  rb_insert_key : Bool → Bool → RbNode K V → K → V → Bool → RbNode K V × Bool
  rb_insert_key mem c null q w added = (rb_new_node mem q w, added)
  rb_insert_key mem c (node _ l k v r) q w added =
      let four = isred l && isred r in
      let lc = toggle_if four (isred l) in
      let rc = toggle_if four (isred r) in
      elim (o.cmp q k) [
        | lt ↦
            let (l', added') = rb_insert_key mem lc l q w added in
            (rebalance (node (toggle_if four c) l' k v (set_red rc r)), added')
        | eq ↦ (rebalance (node (toggle_if four c) (set_red lc l) k v (set_red rc r)), false)
        | gt ↦
            let (r', added') = rb_insert_key mem rc r q w added in
            (rebalance (node (toggle_if four c) (set_red lc l) k v r'), added')
      ]

  -- RBInsert
  unfoldable pub rb_add_key : Bool → RbNode K V → K → V → RbNode K V × Bool
  unfolding rb_insert_key
  rb_add_key mem root q w =
      let (root', added) = rb_insert_key mem (isred root) root q w true in
      (set_red false root', added)

  -- What a member of the tree reads as stays; only `added` tells the two apart.
  rb_insert_key_lem :
      (mem c : Bool) (t : RbNode K V) (q : K) (w : V) (added : Bool)
      → rb_insert_key mem c t q w added
        ≡ (rb_insert mem c t q (kept (rb_get t q) w), if rb_has t q then false else added)
  unfolding rb_insert_key rb_insert rb_get rb_has
  rb_insert_key_lem mem c null q w added = refl
  rb_insert_key_lem mem c (node d l k v r) q w added =
      let four = isred l && isred r in
      ground (
        arith,
        rb_insert_key_lem mem (toggle_if four (isred l)) l q w added,
        rb_insert_key_lem mem (toggle_if four (isred r)) r q w added,
      )

  -- RBInsert, the operation of trees without values, gives the tree of RBSet with the member that
  -- is there already if there is one, and `added` is true just when RBHas does not find the key.
  pub rb_add_key_lem :
      (mem : Bool) (t : RbNode K V) (q : K) (w : V)
      → rb_add_key mem t q w
        ≡ (rb_set mem t q (kept (rb_get t q) w), if rb_has t q then false else true)
  unfolding rb_add_key rb_set
  rb_add_key_lem mem t q w = rw (rb_insert_key_lem mem (isred t) t q w true) refl
