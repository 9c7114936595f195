-- ===== src/Util/RbTree/Delete/Fit.antt =====
-- What the moves of RBDelete leave for the way down to the right, in a balanced tree.
use Prim.Native.Nat.Ordering.{lt, eq, gt}
use colang.Prelude.{◌≡◌, ◌≢◌, sym, subst, Bool, true, false, not, ◌||◌, arith, Bool-cases, inl, inr}
use colang.Util.KeyOrder.{KeyOrder, Ordering-cases}
use colang.Util.RbTree.{RbNode, null, node, isred, flip_color, rotate_right}
use colang.Util.RbTree.Height.{IsBalanced}
use colang.Util.RbTree.Inorder.{inorder, IsSorted, IsSorted-append_parts}
use colang.Util.RbTree.Delete.{
  Run, done, fault, out_of_fuel, flip_children, move_red_right, leave_right,
}
use colang.Util.RbTree.Delete.Moves.{Never, Below-middle}
use colang.Util.RbTree.Delete.Ready.{
  IsLean, IsNode, IsReady, Found, here, on_left, on_right, recoloured,
}

module _ {ℓ} {K : Type ℓ} ⦃o : KeyOrder K⦄ where
  past_left : (q j k : K) → o.cmp j k ≡ lt → o.cmp q k ≢ lt → o.cmp q j ≡ gt
  past_left q j k below h = elim (Ordering-cases (o.cmp q j)) [
    | inl e ↦ absurd (h (o.lt_trans q j k e below))
    | inr (inl e) ↦ absurd (h (subst (λ x. o.cmp x k ≡ lt) (sym (o.eq_of_cmp q j e)) below))
    | inr (inr e) ↦ e
  ]

  not_eq : (q j : K) → o.cmp q j ≡ gt → o.cmp q j ≢ eq
  not_eq q j e f = absurd (cc)

  not_lt : (q j : K) → o.cmp q j ≡ gt → o.cmp q j ≢ lt
  not_lt q j e f = absurd (cc)

module _ {ℓ κ} {K : Type ℓ} {V : Type κ} ⦃o : KeyOrder K⦄ where
  -- A side for the deletion of `q`: its root may have a red right child alone where `q` is not
  -- under it.
  abbrev pub IsFit : K → RbNode K V → Type 0
  IsFit q null = ⊥
  IsFit q (node c l k v r) =
      IsBalanced (node c l k v r)
      × IsLean l
      × IsLean r
      × (o.cmp q k ≡ lt → (not (isred r) || isred l) ≡ true)

  pub IsReady-IsFit : (q : K) (t : RbNode K V) → IsReady t → IsFit q t
  IsReady-IsFit q null h = h.0
  IsReady-IsFit q (node c l k v r) h = (h.1, h.2.1, h.2.2, λ e. h.2.0)

  -- The right side is ready where the key is at the node, and fit where it is on the right.
  abbrev pub RightReady : K → Run (RbNode K V) → Type (ℓ ⊔ κ)
  RightReady q (done (node c l k v r)) =
      (o.cmp q k ≢ lt) × (o.cmp q k ≡ eq → IsReady r) × (o.cmp q k ≡ gt → IsFit q r × Found q r)
  RightReady q (done null) = Never
  RightReady q fault = Never
  RightReady q out_of_fuel = Unit

  Found-right :
      (q : K) (c : Bool) (l : RbNode K V) (k : K) (v : V) (r : RbNode K V)
      → o.cmp q k ≡ gt
      → Found q (node c l k v r)
      → Found q r
  Found-right q c l k v r e (here f) = absurd (cc)
  Found-right q c l k v r e (on_left f h) = absurd (cc)
  Found-right q c l k v r e (on_right f h) = h

  stays_right :
      (q : K) (c : Bool) (l : RbNode K V) (k : K) (v : V) (r : RbNode K V)
      → o.cmp q k ≢ lt
      → IsReady r
      → Found q (node c l k v r)
      → RightReady q (done (node c l k v r))
  stays_right q c l k v r u h f =
      (u, (λ e. h), λ e. (IsReady-IsFit q r h, Found-right q c l k v r e f))

  not_under-Found :
      (q : K) (c d : Bool) (l m : RbNode K V) (k : K) (v : V) (r s : RbNode K V)
      → o.cmp q k ≢ lt
      → (Found q r → Found q s)
      → Found q (node c l k v r)
      → Found q (node d m k v s)
  not_under-Found q c d l m k v r s u move (here e) = here e
  not_under-Found q c d l m k v r s u move (on_left e f) = absurd (u e)
  not_under-Found q c d l m k v r s u move (on_right e f) = on_right e (move f)

  -- The node that rotateRight puts on the right, below the key `j` that moves up.
  turned-RightReady :
      (q : K) (c d a : Bool) (ll : RbNode K V) (lk : K) (lv : V) (m : RbNode K V) (k : K) (v : V)
      (r s : RbNode K V)
      → o.cmp q k ≢ lt
      → o.cmp lk k ≡ lt
      → IsBalanced (node a m k v s)
      → IsLean m
      → IsLean s
      → Found q (node c (node d ll lk lv m) k v r)
      → (Found q r → Found q s)
      → (e : Bool) (x : RbNode K V) → RightReady q (done (node e x lk lv (node a m k v s)))
  turned-RightReady q c d a ll lk lv m k v r s u below b gm gs f move e x =
      let past = past_left q lk k below u in
      (
        not_lt q lk past,
        (λ g. absurd (not_eq q lk past g)),
        λ g. (
          (b, gm, gs, λ h. absurd (u h)),
          not_under-Found q c a (node d ll lk lv m) m k v r s u move f,
        ),
      )

  move_red_right-RightReady :
      (q : K) (c : Bool) (l : RbNode K V) (k : K) (v : V) (rl : RbNode K V) (rk : K) (rv : V)
      (rr : RbNode K V)
      → isred l ≡ false
      → o.cmp q k ≢ lt
      → IsSorted (inorder (node c l k v (node false rl rk rv rr)))
      → IsFit q (node c l k v (node false rl rk rv rr))
      → Found q (node c l k v (node false rl rk rv rr))
      → RightReady q (move_red_right (node c l k v (node false rl rk rv rr)))
  unfolding move_red_right flip_children flip_color rotate_right
  move_red_right-RightReady q c null k v rl rk rv rr black u s h f = absurd (omega (arith, h.0.0))
  move_red_right-RightReady q c (node true ll lk lv lr) k v rl rk rv rr black u s h f =
      absurd (ground arith)
  move_red_right-RightReady q c (node false null lk lv lr) k v rl rk rv rr black u s h f =
      stays_right q (not c) (node true null lk lv lr) k v (node true rl rk rv rr) u (tt, h.0.2, h.2)
        (not_under-Found q c (not c) _ _ k v _ _ u (λ g. recoloured q false true rl rk rv rr g) f)
  move_red_right-RightReady q c (node false (node false x xk xv y) lk lv lr) k v rl rk rv rr black u
        s h f =
      stays_right q (not c) (node true (node false x xk xv y) lk lv lr) k v (node true rl rk rv rr)
        u (tt, h.0.2, h.2)
        (not_under-Found q c (not c) _ _ k v _ _ u (λ g. recoloured q false true rl rk rv rr g) f)
  move_red_right-RightReady q c (node false (node true x xk xv y) lk lv lr) k v rl rk rv rr black u
        s h f =
      let l : RbNode K V = node false (node true x xk xv y) lk lv lr in
      let parts = IsSorted-append_parts (inorder l) k v (inorder (node false rl rk rv rr)) s in
      let below = Below-middle k (inorder (node true x xk xv y)) lk lv (inorder lr) parts.1 in
      turned-RightReady q c false false (node true x xk xv y) lk lv lr k v (node false rl rk rv rr)
        (node true rl rk rv rr) u below (omega (arith, h.0.0, h.0.1.0), h.0.1.2, h.0.2) h.1.2 h.2 f
        (λ g. recoloured q false true rl rk rv rr g) c lr

  -- A tree whose left child is not red.
  pub leave_right-RightReady :
      (q : K) (c : Bool) (l : RbNode K V) (k : K) (v : V) (r : RbNode K V)
      → isred l ≡ false
      → IsNode r
      → o.cmp q k ≢ lt
      → IsSorted (inorder (node c l k v r))
      → IsFit q (node c l k v r)
      → Found q (node c l k v r)
      → RightReady q (leave_right (node c l k v r))
  unfolding leave_right
  leave_right-RightReady q c l k v null black n u s h f = absurd n
  leave_right-RightReady q c l k v (node true rl rk rv rr) black n u s h f =
      stays_right q c l k v (node true rl rk rv rr) u (tt, h.0.2, h.2) f
  leave_right-RightReady q c l k v (node false rl rk rv rr) black n u s h f =
      elim (Bool-cases (isred rl)) [
        | inl e ↦ rw e (stays_right q c l k v (node false rl rk rv rr) u (tt, h.0.2, h.2) f)
        | inr e ↦ rw e (move_red_right-RightReady q c l k v rl rk rv rr black u s h f)
      ]

  -- A tree whose left child is red is turned to the right first.
  pub turn_right-RightReady :
      (q : K) (c : Bool) (ll : RbNode K V) (lk : K) (lv : V) (lr : RbNode K V) (k : K) (v : V)
      (r : RbNode K V)
      → o.cmp q k ≢ lt
      → IsSorted (inorder (node c (node true ll lk lv lr) k v r))
      → IsFit q (node c (node true ll lk lv lr) k v r)
      → Found q (node c (node true ll lk lv lr) k v r)
      → RightReady q (leave_right (rotate_right (node c (node true ll lk lv lr) k v r)))
  unfolding leave_right rotate_right
  turn_right-RightReady q c ll lk lv lr k v r u s h f =
      let l : RbNode K V = node true ll lk lv lr in
      let parts = IsSorted-append_parts (inorder l) k v (inorder r) s in
      let below = Below-middle k (inorder ll) lk lv (inorder lr) parts.1 in
      turned-RightReady q c true true ll lk lv lr k v r r u below
        (omega (arith, h.0.0, h.0.1.0), h.0.1.2, h.0.2) h.1.2 h.2 f (λ g. g) c ll
