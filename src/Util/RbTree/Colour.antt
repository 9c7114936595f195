-- ===== src/Util/RbTree/Colour.antt =====
-- The colours of a left-leaning red-black tree: no red node has a red child, and a right child is
-- red only beside a red left one (so that a black node with its red children is a 2-, 3- or 4-node).
use colang.Prelude.{◌≡◌, Bool, true, false, not, ◌&&◌, ◌||◌, arith}
use colang.Util.RbTree.{
  RbNode, null, node, isred, rotate_left, rotate_right, lean_left, lift_left, rebalance,
}

-- The colours of a node and its children.
abbrev pub colours_ok : Bool → Bool → Bool → Bool
colours_ok c a b = (not c || not a && not b) && (not b || a)

-- The same for a node that the caller may still have to mend: it may be red above a red left child.
abbrev pub nearly_ok : Bool → Bool → Bool → Bool
nearly_ok c a b = not b || a && not c

module _ {ℓ κ} {K : Type ℓ} {V : Type κ} where
  abbrev pub IsLlrb : RbNode K V → Type 0
  IsLlrb null = Unit
  IsLlrb (node c l k v r) = (colours_ok c (isred l) (isred r) ≡ true) × IsLlrb l × IsLlrb r

  abbrev pub IsNearly : RbNode K V → Type 0
  IsNearly null = Unit
  IsNearly (node c l k v r) = (nearly_ok c (isred l) (isred r) ≡ true) × IsLlrb l × IsLlrb r

  pub IsLlrb-IsNearly : (t : RbNode K V) → IsLlrb t → IsNearly t
  IsLlrb-IsNearly null h = tt
  IsLlrb-IsNearly (node c l k v r) h = ground arith

  -- The tree would be in order if its root had the colour `c`.
  abbrev pub IsLlrbAs : Bool → RbNode K V → Type 0
  IsLlrbAs c null = c ≡ false
  IsLlrbAs c (node _ l k v r) = (colours_ok c (isred l) (isred r) ≡ true) × IsLlrb l × IsLlrb r

  -- A red or black child is rebalanced into a black node.
  pub mend_left :
      (l : RbNode K V) (k : K) (v : V) (r : RbNode K V)
      → isred r ≡ false
      → IsLlrb r
      → IsNearly l
      → (isred l ≡ false → IsLlrb l)
      → IsLlrb (rebalance (node false l k v r)) × (isred (rebalance (node false l k v r)) ≡ false)
  unfolding rebalance lean_left lift_left rotate_left rotate_right
  mend_left null k v r hr gr gl bl = ground arith
  mend_left (node c null lk lv lr) k v r hr gr gl bl = ground arith
  mend_left (node c (node d lll llk llv llr) lk lv lr) k v r hr gr gl bl = ground arith

  pub rebalance_still :
      (c : Bool) (l : RbNode K V) (k : K) (v : V) (r : RbNode K V)
      → isred r ≡ false
      → IsLlrb l
      → rebalance (node c l k v r) ≡ node c l k v r
  unfolding rebalance lean_left lift_left
  rebalance_still c null k v r hr gl = ground arith
  rebalance_still c (node d null lk lv lr) k v r hr gl = ground arith
  rebalance_still c (node d (node e lll llk llv llr) lk lv lr) k v r hr gl = ground arith

  pub mend_right :
      (c : Bool) (l : RbNode K V) (k : K) (v : V) (r : RbNode K V)
      → IsLlrb l
      → IsLlrb r
      → (c && isred l) ≡ false
      → IsNearly (rebalance (node c l k v r))
        × (c ≡ false → IsLlrb (rebalance (node c l k v r)))
        × (isred (rebalance (node c l k v r)) ≡ c)
  unfolding rebalance lean_left lift_left rotate_left rotate_right
  mend_right c null k v null gl gr h = ground arith
  mend_right c null k v (node e rl rk rv rr) gl gr h = ground arith
  mend_right c (node d null lk lv lr) k v null gl gr h = ground arith
  mend_right c (node d null lk lv lr) k v (node e rl rk rv rr) gl gr h = ground arith
  mend_right c (node d (node f lll llk llv llr) lk lv lr) k v null gl gr h = ground arith
  mend_right c (node d (node f lll llk llv llr) lk lv lr) k v (node e rl rk rv rr) gl gr h =
      ground arith
