-- ===== src/Util/RbTree/Delete/Present.antt =====
-- RBDelete of a key that is in a red-black tree.
use colang.Prelude.{ℕ, zero, suc, ◌≡◌, refl, false, some, arith, inl, inr}
use colang.Util.KeyOrder.{KeyOrder, Ordering-cases}
use colang.Util.RbTree.{RbNode, null, node, rb_get, rb_count, set_red}
use colang.Util.RbTree.Inorder.{inorder, IsSorted}
use colang.Util.RbTree.Lookup.{IsOrdered}
use colang.Util.RbTree.Colour.{IsLlrb}
use colang.Util.RbTree.Height.{IsRedBlack}
use colang.Util.RbTree.Delete.{
  Run, done, fault, out_of_fuel, rb_delete_min, rb_delete_node, rb_delete,
}
use colang.Util.RbTree.Delete.Entries.{unless_eq, remove_entry}
use colang.Util.RbTree.Delete.Remove.{eq-ne-lt, gt-ne-lt, IsDeleted, rb_delete-IsDeleted}
use colang.Util.RbTree.Delete.Ready.{IsLean, IsNode, Found, here, on_left, on_right}
use colang.Util.RbTree.Delete.Fit.{IsFit, IsReady-IsFit}
use colang.Util.RbTree.Delete.Runs.{NoFault, NoFault-then, rb_delete_min-NoFault}
use colang.Util.RbTree.Delete.Ways.{right-NoFault, delete_left-NoFault}

module _ {ℓ κ} {K : Type ℓ} {V : Type κ} ⦃o : KeyOrder K⦄ where
  rb_delete_node-NoFault :
      (q : K) (fuel : ℕ) (t : RbNode K V)
      → IsFit q t
      → Found q t
      → IsSorted (inorder t)
      → NoFault (rb_delete_node fuel t q)
  unfolding rb_delete_node
  rb_delete_node-NoFault q zero t h f s = tt
  rb_delete_node-NoFault q (suc fuel) null h f s = absurd h
  rb_delete_node-NoFault q (suc fuel) (node c l k v r) h f s =
      let go = λ (t : RbNode K V). rb_delete_node fuel t q in
      elim (Ordering-cases (o.cmp q k)) [
        | inl e ↦
            rw (e, rb_delete_node)
              (delete_left-NoFault q go (rb_delete_min fuel) (rb_delete_node-NoFault q fuel)
                (rb_delete_min-NoFault fuel) c l k v r e s h f)
        | inr (inl e) ↦
            rw (e, rb_delete_node)
              (right-NoFault q go (rb_delete_min fuel) (rb_delete_node-NoFault q fuel)
                (rb_delete_min-NoFault fuel) c l k v r (eq-ne-lt (o.cmp q k) e) s h f)
        | inr (inr e) ↦
            rw (e, rb_delete_node)
              (right-NoFault q go (rb_delete_min fuel) (rb_delete_node-NoFault q fuel)
                (rb_delete_min-NoFault fuel) c l k v r (gt-ne-lt (o.cmp q k) e) s h f)
      ]

  rb_get-Found : (q : K) (t : RbNode K V) (v : V) → rb_get t q ≡ some v → Found q t
  unfolding rb_get
  rb_get-Found q null v e = absurd (cc)
  rb_get-Found q (node c l k w r) v e = elim (Ordering-cases (o.cmp q k)) [
    | inl h ↦ on_left h (rb_get-Found q l v (rw (h, rb_get) at e))
    | inr (inl h) ↦ here h
    | inr (inr h) ↦ on_right h (rb_get-Found q r v (rw (h, rb_get) at e))
  ]

  IsLlrb-IsLean : (t : RbNode K V) → IsLlrb t → IsLean t
  IsLlrb-IsLean null g = tt
  IsLlrb-IsLean (node c l k v r) g = (ground (arith, g.0), IsLlrb-IsLean l g.1, IsLlrb-IsLean r g.2)

  -- The tree is in order and its entries are those of before but the one of the key; where it is
  -- not empty, RBGet finds what it found before, and nothing for the key.
  abbrev pub IsWithout : K → RbNode K V → RbNode K V → Type (ℓ ⊔ κ)
  IsWithout q t t' =
      IsOrdered t'
      × (inorder t' ≡ remove_entry q (inorder t))
      × (IsNode t' → (p : K) → rb_get t' p ≡ unless_eq (o.cmp p q) (rb_get t p))

  returns :
      (q : K) (t : RbNode K V) (run : Run (RbNode K V))
      → NoFault run
      → IsDeleted q t run
      → (t' : RbNode K V) × (run ≡ done t') × IsWithout q t t'
  returns q t (done t') h d = (t', refl, (d.0, d.1, λ n p. d.2 p))
  returns q t fault h d = absurd h
  returns q t out_of_fuel h d = elim d [ ]

  -- RBDelete of a key that RBGet finds in an ordered red-black tree, as RBSet leaves it, returns:
  -- no assertion fails, and nothing is read through NULL. The new tree is in order and has the
  -- entries of before but that of the key; where it is not empty, RBGet finds nothing for the key
  -- in it, and for every other key what it found before.
  pub rb_delete-IsWithout :
      (t : RbNode K V) (q : K) (v : V)
      → IsOrdered t
      → IsRedBlack t
      → rb_get t q ≡ some v
      → (t' : RbNode K V) × (rb_delete t q ≡ done t') × IsWithout q t t'
  unfolding rb_delete rb_get
  rb_delete-IsWithout null q v s h e = absurd (cc)
  rb_delete-IsWithout (node c l k w r) q v s h e =
      let t : RbNode K V = node c l k w r in
      let fit = IsReady-IsFit q t (tt, h.balanced, IsLlrb-IsLean t h.coloured) in
      returns q t (rb_delete t q)
        (NoFault-then (rb_delete_node (suc (rb_count t)) t q) (set_red false)
          (rb_delete_node-NoFault q (suc (rb_count t)) t fit (rb_get-Found q t v e) s))
        (rb_delete-IsDeleted q t s)
