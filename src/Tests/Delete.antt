-- ===== src/Tests/Delete.antt =====
-- RBDelete on small trees.
use colang.Prelude.{ℕ, ◌+◌, ◌≡◌, refl, true, some, List, [], ◌∷◌}
use colang.Util.KeyOrder.{word_order}
use colang.Util.RbTree.{
  RbNode, null, rb_get, rb_set, rb_insert, rb_new_node, rebalance, lean_left, lift_left,
  rotate_left, rotate_right, flip_color, rb_count,
}
use colang.Util.RbTree.Lookup.{IsOrdered, rb_set-IsOrdered}
use colang.Util.RbTree.Delete.{
  done, fault, ◌>>=◌, rb_delete, rb_delete_node, delete_left, delete_right, delete_here, down_left,
  down_right, put_min, min_node, rb_delete_min, leave_left, leave_right, move_red_left,
  move_red_right, flip_children, fix_up,
}
use colang.Util.RbTree.Height.{IsRedBlack, rb_set-IsRedBlack}
use colang.Util.RbTree.Delete.Present.{IsWithout, rb_delete-IsWithout}

abbrev with_keys : List ℕ → RbNode ℕ ℕ → RbNode ℕ ℕ
with_keys [] t = t
with_keys (k ∷ ks) t = with_keys ks (rb_set true t k (k + 10))

abbrev five_keys : RbNode ℕ ℕ
five_keys = with_keys (1 ∷ 2 ∷ 0 ∷ 3 ∷ 4 ∷ []) null

five_keys-IsOrdered : IsOrdered five_keys
five_keys-IsOrdered = rb_set-IsOrdered (with_keys (1 ∷ 2 ∷ 0 ∷ 3 ∷ []) null) 4 14 (
    rb_set-IsOrdered (with_keys (1 ∷ 2 ∷ 0 ∷ []) null) 3 13 (
      rb_set-IsOrdered (with_keys (1 ∷ 2 ∷ []) null) 0 10
        (rb_set-IsOrdered (with_keys (1 ∷ []) null) 2 12 (rb_set-IsOrdered null 1 11 tt))))

empty-IsRedBlack : IsRedBlack {K = ℕ} {V = ℕ} null
empty-IsRedBlack = record { root_black = refl; coloured = tt; balanced = tt }

five_keys-IsRedBlack : IsRedBlack five_keys
five_keys-IsRedBlack = rb_set-IsRedBlack true (with_keys (1 ∷ 2 ∷ 0 ∷ 3 ∷ []) null) 4 14 (
    rb_set-IsRedBlack true (with_keys (1 ∷ 2 ∷ 0 ∷ []) null) 3 13 (
      rb_set-IsRedBlack true (with_keys (1 ∷ 2 ∷ []) null) 0 10 (
        rb_set-IsRedBlack true (with_keys (1 ∷ []) null) 2 12
          (rb_set-IsRedBlack true null 1 11 empty-IsRedBlack))))

three_there : rb_get five_keys 3 ≡ some 13
unfolding rb_get rb_set rb_insert rb_new_node rebalance lean_left lift_left rotate_left rotate_right
three_there = refl

rb_delete-IsWithout_example :
    (t : RbNode ℕ ℕ) × (rb_delete five_keys 3 ≡ done t) × IsWithout 3 five_keys t
rb_delete-IsWithout_example =
    rb_delete-IsWithout five_keys 3 13 five_keys-IsOrdered five_keys-IsRedBlack three_there

-- The first deletion leaves a red node on the right alone, at which the second fails an assertion.
second_delete_faults : (rb_delete five_keys 0 >>= λ t. rb_delete t 2) ≡ fault
unfolding rb_delete rb_set rb_insert rb_new_node rebalance lean_left lift_left rotate_left
    rotate_right flip_color rb_delete_node delete_left delete_right delete_here down_left down_right
    put_min min_node rb_delete_min leave_left leave_right move_red_left move_red_right flip_children
    fix_up rb_count
second_delete_faults = refl
