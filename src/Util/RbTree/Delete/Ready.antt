-- ===== src/Util/RbTree/Delete/Ready.antt =====
-- What the moves of RBDelete leave for the way down to the left, in a balanced tree.
use Prim.Native.Nat.Ordering.{lt, eq, gt}
use colang.Prelude.{◌≡◌, Bool, true, false, not, ◌||◌, arith, Bool-cases, inl, inr}
use colang.Util.KeyOrder.{KeyOrder}
use colang.Util.RbTree.{RbNode, null, node, isred, flip_color, rotate_left, rotate_right}
use colang.Util.RbTree.Height.{IsBalanced}
use colang.Util.RbTree.Delete.{
  Run, done, fault, out_of_fuel, flip_children, move_red_left, leave_left,
}
use colang.Util.RbTree.Delete.Moves.{Never}

module _ {ℓ κ} {K : Type ℓ} {V : Type κ} where
  -- A right child is red only beside a red left one.
  abbrev pub IsLean : RbNode K V → Type 0
  IsLean null = Unit
  IsLean (node c l k v r) = ((not (isred r) || isred l) ≡ true) × IsLean l × IsLean r

  abbrev pub IsNode : RbNode K V → Type 0
  IsNode null = ⊥
  IsNode (node c l k v r) = Unit

  abbrev pub IsReady : RbNode K V → Type 0
  IsReady t = IsNode t × IsBalanced t × IsLean t

module _ {ℓ κ} {K : Type ℓ} {V : Type κ} ⦃o : KeyOrder K⦄ where
  -- The way to the key ends at it.
  pub data Found (q : K) : RbNode K V → Type (ℓ ⊔ κ) where
    here :
        {c : Bool} {l : RbNode K V} {k : K} {v : V} {r : RbNode K V}
        → o.cmp q k ≡ eq
        → Found q (node c l k v r)
    on_left :
        {c : Bool} {l : RbNode K V} {k : K} {v : V} {r : RbNode K V}
        → o.cmp q k ≡ lt
        → Found q l
        → Found q (node c l k v r)
    on_right :
        {c : Bool} {l : RbNode K V} {k : K} {v : V} {r : RbNode K V}
        → o.cmp q k ≡ gt
        → Found q r
        → Found q (node c l k v r)

  pub recoloured :
      (q : K) (c d : Bool) (l : RbNode K V) (k : K) (v : V) (r : RbNode K V)
      → Found q (node c l k v r)
      → Found q (node d l k v r)
  recoloured q c d l k v r (here e) = here e
  recoloured q c d l k v r (on_left e f) = on_left e f
  recoloured q c d l k v r (on_right e f) = on_right e f

  -- The left side is ready for a deletion, and a key that was on the left is there.
  abbrev pub LeftReady : K → RbNode K V → Run (RbNode K V) → Type (ℓ ⊔ κ)
  LeftReady k l (done (node c' l' k' v' r')) =
      IsReady l' × ((q : K) → o.cmp q k ≡ lt → Found q l → Found q l')
  LeftReady k l (done null) = Never
  LeftReady k l fault = Never
  LeftReady k l out_of_fuel = Unit

  stays_left :
      (c : Bool) (l : RbNode K V) (k : K) (v : V) (r : RbNode K V)
      → IsNode l
      → IsBalanced (node c l k v r)
      → IsLean (node c l k v r)
      → LeftReady k l (done (node c l k v r))
  stays_left c l k v r n b g = ((n, b.1, g.1), λ q e f. f)

  move_red_left-LeftReady :
      (c : Bool) (ll : RbNode K V) (lk : K) (lv : V) (lr : RbNode K V) (k : K) (v : V)
      (r : RbNode K V)
      → IsBalanced (node c (node false ll lk lv lr) k v r)
      → IsLean (node c (node false ll lk lv lr) k v r)
      → LeftReady k (node false ll lk lv lr) (move_red_left (node c (node false ll lk lv lr) k v r))
  unfolding move_red_left flip_children flip_color rotate_right rotate_left
  move_red_left-LeftReady c ll lk lv lr k v null b g = absurd (omega (arith, b.0))
  move_red_left-LeftReady c ll lk lv lr k v (node true rl rk rv rr) b g =
      absurd (ground (arith, g.0))
  move_red_left-LeftReady c ll lk lv lr k v (node false null rk rv rr) b g =
      ((tt, b.1, g.1), λ q e f. recoloured q false true ll lk lv lr f)
  move_red_left-LeftReady c ll lk lv lr k v (node false (node false x xk xv y) rk rv rr) b g =
      ((tt, b.1, g.1), λ q e f. recoloured q false true ll lk lv lr f)
  move_red_left-LeftReady c ll lk lv lr k v (node false (node true x xk xv y) rk rv rr) b g = (
    (tt, (omega (arith, b.0), b.1, b.2.1.1), (ground arith, g.1, g.2.1.1)),
    λ q e f. on_left e (recoloured q false true ll lk lv lr f),
  )

  pub leave_left-LeftReady :
      (c : Bool) (l : RbNode K V) (k : K) (v : V) (r : RbNode K V)
      → IsNode l
      → IsBalanced (node c l k v r)
      → IsLean (node c l k v r)
      → LeftReady k l (leave_left (node c l k v r))
  unfolding leave_left
  leave_left-LeftReady c null k v r n b g = absurd n
  leave_left-LeftReady c (node true ll lk lv lr) k v r n b g =
      stays_left c (node true ll lk lv lr) k v r n b g
  leave_left-LeftReady c (node false ll lk lv lr) k v r n b g = elim (Bool-cases (isred ll)) [
    | inl e ↦ rw e (stays_left c (node false ll lk lv lr) k v r n b g)
    | inr e ↦ rw e (move_red_left-LeftReady c ll lk lv lr k v r b g)
  ]
