-- ===== src/Util/RbTree/Height.antt =====
-- Every path of the tree has as many black nodes, and so no path is long.
use native.Mathlib.Nat.{pow-suc, le_trans, pow-le-pow_right}
use colang.Prelude.{
  ℕ, suc, ◌+◌, ◌*◌, ◌/◌, ◌^◌, ◌≤◌, max, ◌≡◌, refl, sym, Bool, true, false, ◌&&◌, arith, inl, inr,
  ◌∙◌, if◌then◌else◌,
}
use colang.Util.KeyOrder.{KeyOrder, Ordering-cases}
use colang.Util.RbTree.Colour.{IsLlrb, IsLlrbAs, colours_ok}
use colang.Util.RbTree.ColourInsert.{rb_set-IsLlrb, isred-rb_set, IsLlrbAs-isred, IsLlrbAs-child}
use colang.Util.RbTree.Step.{rb_insert-lt, rb_insert-eq, rb_insert-gt}
use colang.Util.RbTree.{
  RbNode, null, node, isred, toggle_if, set_red, rotate_left, rotate_right, lean_left, lift_left,
  rebalance, rb_new_node, rb_insert, rb_insert_node, rb_set, rb_count,
}

module _ {ℓ κ} {K : Type ℓ} {V : Type κ} where
  abbrev pub black_height : RbNode K V → ℕ
  black_height null = 0
  black_height (node c l k v r) = if c then black_height l else suc (black_height l)

  -- The black height, were the root of the colour `c`.
  abbrev black_height_as : Bool → RbNode K V → ℕ
  black_height_as c null = 0
  black_height_as c (node _ l k v r) = if c then black_height l else suc (black_height l)

  abbrev pub IsBalanced : RbNode K V → Type 0
  IsBalanced null = Unit
  IsBalanced (node c l k v r) = (black_height l ≡ black_height r) × IsBalanced l × IsBalanced r

  -- The rounds of a lookup at most.
  abbrev pub height : RbNode K V → ℕ
  height null = 0
  height (node c l k v r) = suc (max (height l) (height r))

  IsBalanced-lean :
      (c : Bool) (l : RbNode K V) (k : K) (v : V) (r : RbNode K V)
      → IsBalanced (node c l k v r)
      → IsBalanced (lean_left (node c l k v r))
        × (black_height (lean_left (node c l k v r)) ≡ black_height (node c l k v r))
  unfolding lean_left rotate_left
  IsBalanced-lean c l k v null h = ground arith
  IsBalanced-lean c l k v (node d rl rk rv rr) h = ground arith

  IsBalanced-lift :
      (t : RbNode K V)
      → IsBalanced t
      → IsBalanced (lift_left t) × (black_height (lift_left t) ≡ black_height t)
  unfolding lift_left rotate_right
  IsBalanced-lift null h = ground arith
  IsBalanced-lift (node c null k v r) h = ground arith
  IsBalanced-lift (node c (node d ll lk lv lr) k v r) h = ground arith

  IsBalanced-rebalance :
      (c : Bool) (l : RbNode K V) (k : K) (v : V) (r : RbNode K V)
      → IsBalanced (node c l k v r)
      → IsBalanced (rebalance (node c l k v r))
        × (black_height (rebalance (node c l k v r)) ≡ black_height (node c l k v r))
  unfolding rebalance
  IsBalanced-rebalance c l k v r h =
      let lean = IsBalanced-lean c l k v r h in
      let lift = IsBalanced-lift (lean_left (node c l k v r)) lean.0 in (lift.0, lift.1 ∙ lean.1)

  IsBalanced-as :
      (c : Bool) (t : RbNode K V)
      → IsBalanced t
      → IsBalanced (set_red c t) × (black_height (set_red c t) ≡ black_height_as c t)
  IsBalanced-as c null h = (tt, refl)
  IsBalanced-as c (node d l k v r) h = (h, refl)

  level :
      (c : Bool) (l r : RbNode K V)
      → black_height l ≡ black_height r
      → colours_ok c (isred l) (isred r) ≡ true
      → let four = isred l && isred r in
        (black_height_as (toggle_if four (isred l)) l
          ≡ black_height_as (toggle_if four (isred r)) r)
        × ((if toggle_if four c
              then black_height_as (toggle_if four (isred l)) l
              else suc (black_height_as (toggle_if four (isred l)) l))
            ≡ (if c then black_height l else suc (black_height l)))
  level c null null e h = ground arith
  level c null (node b rl rk rv rr) e h = ground arith
  level c (node a ll lk lv lr) null e h = ground arith
  level c (node a ll lk lv lr) (node b rl rk rv rr) e h = ground arith

  -- One level of the insertion, where both children came back balanced.
  branch :
      (c : Bool) (l : RbNode K V) (k : K) (v : V) (r m n : RbNode K V)
      → let four = isred l && isred r in
        (colours_ok c (isred l) (isred r) ≡ true) × IsLlrb l × IsLlrb r
        → (black_height l ≡ black_height r) × IsBalanced l × IsBalanced r
        → IsBalanced m × (black_height m ≡ black_height_as (toggle_if four (isred l)) l)
        → IsBalanced n × (black_height n ≡ black_height_as (toggle_if four (isred r)) r)
        → IsBalanced (rebalance (node (toggle_if four c) m k v n))
          × (black_height (rebalance (node (toggle_if four c) m k v n))
              ≡ (if c then black_height l else suc (black_height l)))
  branch c l k v r m n h b hm hn =
      let four = isred l && isred r in
      let facts = level c l r b.0 h.0 in
      let whole =
        IsBalanced-rebalance (toggle_if four c) m k v n (hm.1 ∙ facts.0 ∙ sym hn.1, hm.0, hn.0) in
      (whole.0, whole.1 ∙ ground (arith, facts.1, hm.1))

  height-le :
      (t : RbNode K V)
      → IsLlrb t
      → IsBalanced t
      → height t ≤ 2 * black_height t + (if isred t then 1 else 0)
  height-le null g b = omega arith
  height-le (node c l k v r) g b = ground (arith, height-le l g.1 b.1, height-le r g.2 b.2)

  pow_black_height : (t : RbNode K V) → IsBalanced t → 2 ^ black_height t ≤ rb_count t + 1
  unfolding rb_count
  pow_black_height null b = omega arith
  pow_black_height (node c l k v r) b =
      let left = pow_black_height l b.1 in
      let right : 2 ^ black_height l ≤ rb_count r + 1 = rw b.0 (pow_black_height r b.2) in
      elim c as (λ x. 2 ^ black_height (node x l k v r) ≤ rb_count (node x l k v r) + 1) [
        | true ↦ omega arith
        | false ↦ omega (arith, pow-suc 2 (black_height l))
      ]

  -- A tree as RBSet leaves it: black at the root, in order, and balanced.
  pub record IsRedBlack (t : RbNode K V) : Type 0 where
    pub root_black : isred t ≡ false
    pub coloured : IsLlrb t
    pub balanced : IsBalanced t

  -- The height of a red-black tree is at most logarithmic in the number of its nodes: two to the
  -- power of half the height is at most RBCount plus one.
  pub pow_height-le : (t : RbNode K V) → IsRedBlack t → 2 ^ (height t / 2) ≤ rb_count t + 1
  pow_height-le t h =
      le_trans
        (pow-le-pow_right {n = 2} (omega arith)
          (ground (arith, height-le t h.coloured h.balanced, h.root_black)))
        (pow_black_height t h.balanced)

module _ {ℓ κ} {K : Type ℓ} {V : Type κ} ⦃o : KeyOrder K⦄ where
  insert-IsBalanced :
      (mem c : Bool) (t : RbNode K V) (q : K) (w : V)
      → IsLlrbAs c t
      → IsBalanced t
      → IsBalanced (rb_insert mem c t q w)
        × (black_height (rb_insert mem c t q w) ≡ black_height_as c t)
  insert-IsBalanced mem c null q w h b = unfold rb_insert rb_new_node in ground arith
  insert-IsBalanced mem c (node d l k v r) q w h b =
      let four = isred l && isred r in
      let lc = toggle_if four (isred l) in
      let rc = toggle_if four (isred r) in
      let fl = IsLlrbAs-child l four h.1 (ground arith) in
      let fr = IsLlrbAs-child r four h.2 (ground arith) in
      elim (Ordering-cases (o.cmp q k)) [
        | inl e ↦ rw (rb_insert-lt mem c d l k v r q w e) (
            branch c l k v r _ _ h b (insert-IsBalanced mem lc l q w fl b.1)
              (IsBalanced-as rc r b.2))
        | inr (inl e) ↦
            rw (rb_insert-eq mem c d l k v r q w e)
              (branch c l k w r _ _ h b (IsBalanced-as lc l b.1) (IsBalanced-as rc r b.2))
        | inr (inr e) ↦ rw (rb_insert-gt mem c d l k v r q w e) (
            branch c l k v r _ _ h b (IsBalanced-as lc l b.1)
              (insert-IsBalanced mem rc r q w fr b.2))
      ]

  -- RBSet keeps the red-black invariant (a black root, no red node on the right alone or below a
  -- red one, equal black heights), also where no node could be allocated.
  pub rb_set-IsRedBlack :
      (mem : Bool) (t : RbNode K V) (q : K) (w : V) → IsRedBlack t → IsRedBlack (rb_set mem t q w)
  rb_set-IsRedBlack mem t q w h = record {
    root_black = isred-rb_set mem t q w;
    coloured = rb_set-IsLlrb mem t q w h.coloured;
    balanced =
        unfold rb_set in
        (IsBalanced-as false (rb_insert_node mem t q w)
          (insert-IsBalanced mem (isred t) t q w (IsLlrbAs-isred t h.coloured) h.balanced).0).0;
  }
