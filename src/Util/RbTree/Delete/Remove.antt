-- ===== src/Util/RbTree/Delete/Remove.antt =====
-- RBDelete against a map from keys to values.
use Prim.Native.Nat.{Ordering}
use Prim.Native.Nat.Ordering.{lt, eq, gt}
use colang.Prelude.{
  ℕ, zero, suc, ◌<◌, ◌≡◌, ◌≢◌, refl, sym, subst, ◌∙◌, Bool, true, false, arith, length,
  if◌then◌else◌, inl, inr,
}
use colang.Util.KeyOrder.{KeyOrder, Ordering-cases}
use colang.Util.RbTree.{RbNode, null, node, isred, set_red, rotate_right, rb_get, rb_count}
use colang.Util.RbTree.Inorder.{
  inorder, IsSorted, inorder-set_red, inorder-rotate_right, length-inorder,
}
use colang.Util.RbTree.Lookup.{IsOrdered, rb_get-find_entry}
use colang.Util.RbTree.Delete.{
  Run, done, fault, out_of_fuel, ◌>>=◌, rb_delete_min, delete_right, rb_delete_node, rb_delete,
}
use colang.Util.RbTree.Delete.Moves.{Never, NotUnder, rotate_right-NotUnder}
use colang.Util.RbTree.Delete.Min.{rb_delete_min-MinGone}
use colang.Util.RbTree.Delete.Entries.{
  unless_eq, unless_eq-none, remove_entry, remove_entry-IsSorted, find_entry-remove_entry,
}
use colang.Util.RbTree.Delete.Sides.{Holds, Removed, delete_left-Removed, delete_right-Removed}

pub eq-ne-lt : (c : Ordering) → c ≡ eq → c ≢ lt
eq-ne-lt c e f = absurd (cc)

pub gt-ne-lt : (c : Ordering) → c ≡ gt → c ≢ lt
gt-ne-lt c e f = absurd (cc)

module _ {ℓ κ} {K : Type ℓ} {V : Type κ} ⦃o : KeyOrder K⦄ (q : K) where
  turned : Bool → RbNode K V → RbNode K V
  turned b t = if b then rotate_right t else t

  inorder-turned : (b : Bool) (t : RbNode K V) → inorder (turned b t) ≡ inorder t
  unfolding turned
  inorder-turned true t = inorder-rotate_right t
  inorder-turned false t = refl

  turned-NotUnder :
      (b : Bool) (t : RbNode K V) → IsSorted (inorder t) → NotUnder q t → NotUnder q (turned b t)
  unfolding turned
  turned-NotUnder true t s u = rotate_right-NotUnder q t s u
  turned-NotUnder false t s u = u

  rb_delete_node-Removed :
      (fuel : ℕ) (t : RbNode K V)
      → IsSorted (inorder t)
      → length (inorder t) < fuel
      → Removed q t (rb_delete_node fuel t q)
  unfolding rb_delete_node turned
  rb_delete_node-Removed zero t s h = elim h [ ]
  rb_delete_node-Removed (suc fuel) null s h = tt
  rb_delete_node-Removed (suc fuel) (node c l k v r) s h =
      let t : RbNode K V = node c l k v r in
      let go = λ (t : RbNode K V). rb_delete_node fuel t q in
      let right : (o.cmp q k ≢ lt)
          → Removed q t (delete_right go (rb_delete_min fuel) q (turned (isred l) t)) =
        λ u.
          subst
            (λ es.
              Holds (remove_entry q es)
                (delete_right go (rb_delete_min fuel) q (turned (isred l) t)))
            (inorder-turned (isred l) t)
            (delete_right-Removed q fuel go (rb_delete_min fuel) (rb_delete_node-Removed fuel)
              (rb_delete_min-MinGone fuel) (turned (isred l) t) (rw (inorder-turned (isred l) t) s)
              (rw (inorder-turned (isred l) t) h) (turned-NotUnder (isred l) t s u)) in
      elim (Ordering-cases (o.cmp q k)) [
        | inl e ↦
            rw (e, rb_delete_node)
              (delete_left-Removed q fuel go (rb_delete_min fuel) (rb_delete_node-Removed fuel)
                (rb_delete_min-MinGone fuel) t s h e)
        | inr (inl e) ↦ rw (e, rb_delete_node) (right (eq-ne-lt (o.cmp q k) e))
        | inr (inr e) ↦ rw (e, rb_delete_node) (right (gt-ne-lt (o.cmp q k) e))
      ]

  -- Where RBDelete comes to an end without a failed assertion, the tree is in order and has all
  -- but the key.
  abbrev pub IsDeleted : RbNode K V → Run (RbNode K V) → Type (ℓ ⊔ κ)
  IsDeleted t (done t') =
      IsOrdered t'
      × (inorder t' ≡ remove_entry q (inorder t))
      × ((p : K) → rb_get t' p ≡ unless_eq (o.cmp p q) (rb_get t p))
  IsDeleted t fault = Unit
  IsDeleted t out_of_fuel = Never

  IsDeleted-from :
      (t : RbNode K V) (run : Run (RbNode K V))
      → IsOrdered t
      → Removed q t run
      → IsDeleted t (run >>= λ t'. done (set_red false t'))
  IsDeleted-from t (done t') s h =
      let same : inorder (set_red false t') ≡ remove_entry q (inorder t) =
        inorder-set_red false t' ∙ h in
      let ordered : IsOrdered (set_red false t') =
        rw same (remove_entry-IsSorted q (inorder t) s) in
      (
        ordered,
        same,
        λ p.
            rw (rb_get-find_entry (set_red false t') p ordered, rb_get-find_entry t p s, same)
              (find_entry-remove_entry q p (inorder t) s),
      )
  IsDeleted-from t fault s h = tt
  IsDeleted-from t out_of_fuel s h = h

  -- RBDelete of an ordered tree has fuel enough, and where no assertion fails it gives what
  -- IsDeleted says.
  pub rb_delete-IsDeleted : (t : RbNode K V) → IsOrdered t → IsDeleted t (rb_delete t q)
  unfolding rb_delete rb_get
  rb_delete-IsDeleted null s = (tt, refl, λ p. sym (unless_eq-none (o.cmp p q)))
  rb_delete-IsDeleted (node c l k v r) s =
      let t : RbNode K V = node c l k v r in
      IsDeleted-from t (rb_delete_node (suc (rb_count t)) t q) s
        (rb_delete_node-Removed (suc (rb_count t)) t s (omega (arith, length-inorder t)))
