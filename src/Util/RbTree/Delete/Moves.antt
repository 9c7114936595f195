-- ===== src/Util/RbTree/Delete/Moves.antt =====
-- The moves of RBDelete keep the entries of a tree, and where its root stands to the key.
use Prim.Native.Nat.Ordering.{lt}
use mathlib.Core.List.{append_assoc}
use colang.Prelude.{
  ◌≡◌, ◌≢◌, refl, ◌∙◌, true, false, ◌&&◌, if◌then◌else◌, List, [], ◌++◌, ◌∷◌, arith, Bool-cases,
  inl, inr,
}
use colang.Util.KeyOrder.{KeyOrder}
use colang.Util.RbTree.{
  RbNode, null, node, toggle, isred, left_of, right_of, flip_color, rotate_left, rotate_right,
  lift_left,
}
use colang.Util.RbTree.Inorder.{
  inorder, inorder-rotate_left, inorder-lift_left, IsSorted, IsSorted-append_parts, Below, Above,
}
use colang.Util.RbTree.Delete.{
  Run, done, fault, out_of_fuel, flip_children, fix_up, move_red_left, move_red_right, is_two_node,
  leave_left, leave_right,
}

-- A statement that never holds, at any level.
pub data Never {ℓ} : Type ℓ where

NotUnder-below {ℓ} :
    {K : Type ℓ} ⦃o : KeyOrder K⦄ (q j k : K) → o.cmp j k ≡ lt → o.cmp q k ≢ lt → o.cmp q j ≢ lt
NotUnder-below ⦃o⦄ q j k below h under = h (o.lt_trans q j k under below)

module _ {ℓ κ} {K : Type ℓ} {V : Type κ} where
  inorder-toggle : (t : RbNode K V) → inorder (toggle t) ≡ inorder t
  inorder-toggle null = refl
  inorder-toggle (node c l k v r) = refl

  inorder-flip_color : (t : RbNode K V) → inorder (flip_color t) ≡ inorder t
  unfolding flip_color
  inorder-flip_color null = refl
  inorder-flip_color (node c l k v r) = rw (inorder-toggle l, inorder-toggle r)

  pub inorder-fix_up : (t : RbNode K V) → inorder (fix_up t) ≡ inorder t
  unfolding fix_up
  inorder-fix_up t =
      let turned = lift_left (if isred (right_of t) then rotate_left t else t) in
      flipped turned ∙ inorder-lift_left (if isred (right_of t) then rotate_left t else t) ∙ leaned
    where
      flipped :
          (s : RbNode K V)
          → inorder (if isred (left_of s) && isred (right_of s) then flip_color s else s)
            ≡ inorder s
      flipped s = ground (arith, inorder-flip_color s)

      leaned : inorder (if isred (right_of t) then rotate_left t else t) ≡ inorder t
      leaned = ground (arith, inorder-rotate_left t)

module _ {ℓ κ} {K : Type ℓ} {V : Type κ} ⦃o : KeyOrder K⦄ where
  -- Where the root stands to the key.
  abbrev pub Under : K → RbNode K V → Type 0
  Under q null = ⊥
  Under q (node c l k v r) = o.cmp q k ≡ lt

  abbrev pub NotUnder : K → RbNode K V → Type 0
  NotUnder q null = ⊥
  NotUnder q (node c l k v r) = o.cmp q k ≢ lt

  -- A run has fuel, and ends at an assertion or in a tree of the same entries with `P`.
  abbrev pub Moved : (RbNode K V → Type 0) → RbNode K V → Run (RbNode K V) → Type (ℓ ⊔ κ)
  Moved P t (done t') = (inorder t' ≡ inorder t) × P t'
  Moved P t fault = Unit
  Moved P t out_of_fuel = Never

  Above-left : (b : K) (xs ys : List (K × V)) → Above b (xs ++ ys) → Above b xs
  Above-left b [] ys h = tt
  Above-left b (x ∷ xs) ys h = (h.0, Above-left b xs ys h.1)

  pub Above-middle :
      (b : K) (xs : List (K × V)) (k : K) (v : V) (ys : List (K × V))
      → Above b (xs ++ ((k, v) ∷ ys))
      → o.cmp b k ≡ lt
  Above-middle b [] k v ys h = h.0
  Above-middle b (x ∷ xs) k v ys h = Above-middle b xs k v ys h.1

  pub Below-middle :
      (b : K) (xs : List (K × V)) (k : K) (v : V) (ys : List (K × V))
      → Below b (xs ++ ((k, v) ∷ ys))
      → o.cmp k b ≡ lt
  Below-middle b [] k v ys h = h.0
  Below-middle b (x ∷ xs) k v ys h = Below-middle b xs k v ys h.1

  pub rotate_right-NotUnder :
      (q : K) (t : RbNode K V) → IsSorted (inorder t) → NotUnder q t → NotUnder q (rotate_right t)
  unfolding rotate_right
  rotate_right-NotUnder q null s h = h
  rotate_right-NotUnder q (node c null k v r) s h = h
  rotate_right-NotUnder q (node c (node lc ll lk lv lr) k v r) s h =
      let parts = IsSorted-append_parts (inorder (node lc ll lk lv lr)) k v (inorder r) s in
      NotUnder-below q lk k (Below-middle k (inorder ll) lk lv (inorder lr) parts.1) h

  move_red_left-Moved :
      (q : K) (t : RbNode K V)
      → IsSorted (inorder t)
      → Under q t
      → Moved (Under q) t (move_red_left t)
  unfolding move_red_left flip_children flip_color rotate_right rotate_left
  move_red_left-Moved q null s h = tt
  move_red_left-Moved q (node c null k v r) s h = tt
  move_red_left-Moved q (node c (node lc ll lk lv lr) k v null) s h = tt
  move_red_left-Moved q (node c (node lc ll lk lv lr) k v (node rc null rk rv rr)) s h = (refl, h)
  move_red_left-Moved q (node c (node lc ll lk lv lr) k v (node rc (node false a xk xv b) rk rv rr))
        s h =
      (refl, h)
  move_red_left-Moved q (node c (node lc ll lk lv lr) k v (node rc (node true a xk xv b) rk rv rr))
        s h =
      let parts =
        IsSorted-append_parts (inorder (node lc ll lk lv lr)) k v
          (inorder (node rc (node true a xk xv b) rk rv rr)) s in
      let above = Above-left k (inorder (node true a xk xv b)) ((rk, rv) ∷ inorder rr) parts.2 in
      (simp append_assoc, o.lt_trans q k xk h (Above-middle k (inorder a) xk xv (inorder b) above))

  move_red_right-Moved :
      (q : K) (t : RbNode K V)
      → IsSorted (inorder t)
      → NotUnder q t
      → Moved (NotUnder q) t (move_red_right t)
  unfolding move_red_right flip_children flip_color rotate_right
  move_red_right-Moved q null s h = tt
  move_red_right-Moved q (node c null k v r) s h = tt
  move_red_right-Moved q (node c (node lc ll lk lv lr) k v null) s h = tt
  move_red_right-Moved q (node c (node lc null lk lv lr) k v (node rc rl rk rv rr)) s h = (refl, h)
  move_red_right-Moved q
        (node c (node lc (node false a xk xv b) lk lv lr) k v (node rc rl rk rv rr)) s h =
      (refl, h)
  move_red_right-Moved q (node c (node lc (node true a xk xv b) lk lv lr) k v (node rc rl rk rv rr))
        s h =
      let l : RbNode K V = node lc (node true a xk xv b) lk lv lr in
      let parts = IsSorted-append_parts (inorder l) k v (inorder (node rc rl rk rv rr)) s in
      let left : RbNode K V = node true a xk xv b in
      (
        simp append_assoc,
        NotUnder-below q lk k (Below-middle k (inorder left) lk lv (inorder lr) parts.1) h,
      )

  pub leave_left-Moved :
      (q : K) (t : RbNode K V) → IsSorted (inorder t) → Under q t → Moved (Under q) t (leave_left t)
  unfolding leave_left
  leave_left-Moved q t s h = elim (Bool-cases (is_two_node (left_of t))) [
    | inl e ↦ rw e (move_red_left-Moved q t s h)
    | inr e ↦ rw e (refl, h)
  ]

  pub leave_right-Moved :
      (q : K) (t : RbNode K V)
      → IsSorted (inorder t)
      → NotUnder q t
      → Moved (NotUnder q) t (leave_right t)
  unfolding leave_right
  leave_right-Moved q t s h = elim (Bool-cases (is_two_node (right_of t))) [
    | inl e ↦ rw e (move_red_right-Moved q t s h)
    | inr e ↦ rw e (refl, h)
  ]
