-- ===== src/Util/RbTree/Lookup.antt =====
-- RBHas, RBGet, RBSet and RBAdd against a map from keys to values.
use colang.Prelude.{is_some, ◌+◌, ◌≡◌, refl, ◌∙◌, sym, true, false, arith, if◌then◌else◌, inl, inr}
use colang.Util.KeyOrder.{KeyOrder, Ordering-cases}
use colang.Util.RbTree.Inorder.{
  inorder, written, IsSorted, IsSorted-append_parts, find_entry, insert_entry, find_entry-before,
  find_entry-at, find_entry-after, length-insert_entry, inorder-rb_insert, inorder-set_red,
  length-inorder,
}
use colang.Util.RbTree.Insertion.{insert_entry-IsSorted, find_entry-insert_entry}
use colang.Util.RbTree.{RbNode, null, node, isred, rb_get, rb_has, rb_set, rb_count, rb_insert_node}

module _ {ℓ κ} {K : Type ℓ} {V : Type κ} ⦃o : KeyOrder K⦄ where
  -- The search-tree invariant: the keys grow from left to right.
  abbrev pub IsOrdered : RbNode K V → Type 0
  IsOrdered t = IsSorted (inorder t)

  -- The walk down one branch finds what a search of all entries would.
  pub rb_get-find_entry :
      (t : RbNode K V) (q : K) → IsOrdered t → rb_get t q ≡ find_entry q (inorder t)
  unfolding rb_get
  rb_get-find_entry null q s = refl
  rb_get-find_entry (node c l k v r) q s =
      let parts = IsSorted-append_parts (inorder l) k v (inorder r) s in
      elim (Ordering-cases (o.cmp q k)) [
        | inl h ↦
            rw (h, rb_get)
              (rb_get-find_entry l q parts.0
                ∙ sym (find_entry-before q (inorder l) k v (inorder r) h))
        | inr (inl h) ↦ rw (h, rb_get) (sym (find_entry-at q (inorder l) k v (inorder r) h parts.1))
        | inr (inr h) ↦
            rw (h, rb_get)
              (rb_get-find_entry r q parts.3
                ∙ sym (find_entry-after q (inorder l) k v (inorder r) h parts.1))
      ]

  -- RBHas and RBGet walk the same way.
  pub rb_has-rb_get : (t : RbNode K V) (q : K) → rb_has t q ≡ is_some (rb_get t q)
  unfolding rb_get rb_has
  rb_has-rb_get null q = refl
  rb_has-rb_get (node c l k v r) q = ground (arith, rb_has-rb_get l q, rb_has-rb_get r q)

  inorder-rb_set :
      (t : RbNode K V) (q : K) (w : V)
      → IsOrdered t
      → inorder (rb_set true t q w) ≡ insert_entry q w (inorder t)
  unfolding rb_set
  inorder-rb_set t q w s =
      inorder-set_red false (rb_insert_node true t q w) ∙ inorder-rb_insert (isred t) t q w s

  -- RBSet, with a node to be had from the allocator, keeps an ordered tree ordered.
  pub rb_set-IsOrdered :
      (t : RbNode K V) (q : K) (w : V) → IsOrdered t → IsOrdered (rb_set true t q w)
  rb_set-IsOrdered t q w s = rw (inorder-rb_set t q w s) (insert_entry-IsSorted q w (inorder t) s)

  -- After RBSet on an ordered tree, with a node to be had from the allocator, RBGet of a key gives
  -- the new value where RBCmp says that the key is the one that was set, and otherwise what it
  -- gave before.
  pub rb_get-rb_set :
      (t : RbNode K V) (q p : K) (w : V)
      → IsOrdered t
      → rb_get (rb_set true t q w) p ≡ written (o.cmp p q) w (rb_get t p)
  rb_get-rb_set t q p w s =
      rw
        (
          rb_get-find_entry (rb_set true t q w) p (rb_set-IsOrdered t q w s),
          rb_get-find_entry t p s,
          inorder-rb_set t q w s,
        )
        (find_entry-insert_entry q p w (inorder t))

  -- On an ordered tree, with a node to be had from the allocator, RBSet leaves RBCount as it is
  -- where RBHas finds the key, and otherwise adds one.
  pub rb_count-rb_set :
      (t : RbNode K V) (q : K) (w : V)
      → IsOrdered t
      → rb_count (rb_set true t q w) ≡ (if rb_has t q then rb_count t else rb_count t + 1)
  rb_count-rb_set t q w s =
      rw
        (
          ← length-inorder (rb_set true t q w),
          ← length-inorder t,
          rb_has-rb_get t q,
          rb_get-find_entry t q s,
          inorder-rb_set t q w s,
        )
        (length-insert_entry q w (inorder t))
