-- ===== src/Util/RbTree/ColourInsert.antt =====
-- rbInsert and RBSet keep the colours in order.
use colang.Prelude.{◌≡◌, refl, Bool, true, false, ◌&&◌, arith, inl, inr, Bool-cases, ◌∙◌}
use colang.Util.KeyOrder.{KeyOrder, Ordering-cases}
use colang.Util.RbTree.Colour.{
  colours_ok, IsLlrb, IsLlrbAs, IsNearly, IsLlrb-IsNearly, mend_left, mend_right, rebalance_still,
}
use colang.Util.RbTree.Step.{rb_insert-lt, rb_insert-eq, rb_insert-gt}
use colang.Util.RbTree.{
  RbNode, null, node, isred, toggle_if, set_red, rebalance, rb_new_node, rb_insert, rb_insert_node,
  rb_set,
}

-- What rbInsert leaves at a node that had the colour `c`, with `four` for a 4-node.
record IsInserted {ℓ κ} {K : Type ℓ} {V : Type κ} (c four : Bool) (t : RbNode K V) : Type 0 where
  nearly : IsNearly t
  black : c ≡ false → IsLlrb t
  stays_red : c ≡ true → isred t ≡ true
  stays_black : c ≡ false → four ≡ false → isred t ≡ false

abbrev is_four {ℓ κ} : {K : Type ℓ} {V : Type κ} → RbNode K V → Bool
is_four null = true
is_four (node c l k v r) = isred l && isred r

module _ {ℓ κ} {K : Type ℓ} {V : Type κ} where
  IsLlrb-set_red : (c : Bool) (t : RbNode K V) → IsLlrbAs c t → IsLlrb (set_red c t)
  IsLlrb-set_red c null h = tt
  IsLlrb-set_red c (node d l k v r) h = h

  pub IsLlrbAs-isred : (t : RbNode K V) → IsLlrb t → IsLlrbAs (isred t) t
  IsLlrbAs-isred null h = refl
  IsLlrbAs-isred (node c l k v r) h = h

  -- The children of a 4-node turn black, and may be read as black or red nodes as the flip has it.
  pub IsLlrbAs-child :
      (t : RbNode K V) (four : Bool)
      → IsLlrb t
      → (four ≡ true → isred t ≡ true)
      → IsLlrbAs (toggle_if four (isred t)) t
  IsLlrbAs-child null four h f = ground arith
  IsLlrbAs-child (node c l k v r) four h f = ground arith

  set_red_self : (t : RbNode K V) → set_red (isred t) t ≡ t
  set_red_self null = refl
  set_red_self (node c l k v r) = refl

  is_four_red : (t : RbNode K V) → IsLlrb t → isred t ≡ true → is_four t ≡ false
  is_four_red null h e = ground arith
  is_four_red (node c l k v r) h e = ground arith

  isred-set_black : (t : RbNode K V) → isred (set_red false t) ≡ false
  isred-set_black null = refl
  isred-set_black (node c l k v r) = refl

  IsLlrb-set_black : (t : RbNode K V) → IsLlrb t → IsLlrb (set_red false t)
  IsLlrb-set_black null h = tt
  IsLlrb-set_black (node c l k v r) h = ground arith

  -- A node that turns red above two black children.
  become_red :
      (c four : Bool) (l : RbNode K V) (k : K) (v : V) (r : RbNode K V)
      → IsLlrb l
      → IsLlrb r
      → isred r ≡ false
      → (c ≡ false → (four ≡ true) × (isred l ≡ false))
      → IsInserted c four (rebalance (node true l k v r))
  become_red c four l k v r gl gr hr h = rw (rebalance_still true l k v r hr gl) (ground arith)

  mend_root : (t : RbNode K V) → IsNearly t → IsLlrb (set_red false t)
  mend_root null h = tt
  mend_root (node c l k v r) h = ground arith

  same-IsInserted :
      (c : Bool) (t : RbNode K V) → IsLlrbAs c t → IsInserted c (is_four t) (set_red c t)
  same-IsInserted c null h = ground arith
  same-IsInserted c (node d l k v r) h = ground arith

  become_black :
      (l : RbNode K V) (k : K) (v : V) (r : RbNode K V)
      → isred r ≡ false
      → IsLlrb r
      → IsNearly l
      → (isred l ≡ false → IsLlrb l)
      → IsInserted false false (rebalance (node false l k v r))
  become_black l k v r hr gr gl bl =
      let mended = mend_left l k v r hr gr gl bl in
      record {
        nearly = IsLlrb-IsNearly (rebalance (node false l k v r)) mended.0;
        black = λ e. mended.0;
        stays_red = λ e. cc;
        stays_black = λ e f. mended.1;
      }

  -- The right child is rebalanced, beside a left child that is red under a black node only.
  lean-IsInserted :
      (c : Bool) (l : RbNode K V) (k : K) (v : V) (r : RbNode K V)
      → IsLlrb l
      → IsLlrb r
      → (c && isred l) ≡ false
      → IsInserted c false (rebalance (node c l k v r))
  lean-IsInserted c l k v r gl gr h =
      let mended = mend_right c l k v r gl gr h in
      record {
        nearly = mended.0;
        black = mended.1;
        stays_red = λ e. mended.2 ∙ e;
        stays_black = λ e f. mended.2 ∙ e;
      }

module _ {ℓ κ} {K : Type ℓ} {V : Type κ} where
  module _ (l : RbNode K V) (k : K) (v : V) (r : RbNode K V) (gl : IsLlrb l) (gr : IsLlrb r) where
    insert_left :
        (c : Bool) (m : RbNode K V)
        → let four = isred l && isred r in
          colours_ok c (isred l) (isred r) ≡ true
          → IsInserted (toggle_if four (isred l)) (is_four l) m
          → IsInserted c four
              (rebalance (node (toggle_if four c) m k v (set_red (toggle_if four (isred r)) r)))
    insert_left c m ok i = elim (Bool-cases (isred r)) [
      | inl er ↦
          let el : isred l ≡ true = ground arith in
          let ec : c ≡ false = ground arith in
          rw (er, el, ec)
            (become_red false true m k v (set_red false r) (i.black (rw (er, el) refl))
              (IsLlrb-set_black r gr) (isred-set_black r)
              (λ _. (refl, i.stays_black (rw (er, el) refl) (is_four_red l gl el))))
      | inr er ↦
          let black_r = IsLlrb-set_black r gr in
          let er' = isred-set_black r in
          elim (Bool-cases c) [
            | inl ec ↦
                let el : isred l ≡ false = ground arith in
                rw (er, el, ec)
                  (become_red true false m k v (set_red false r) (i.black (rw (er, el) refl))
                    black_r er' (λ e. cc))
            | inr ec ↦ elim (Bool-cases (isred l)) [
              | inl el ↦
                  rw (er, el, ec)
                    (become_black m k v (set_red false r) er' black_r i.nearly
                      (λ e. let e' = i.stays_red (rw (er, el) refl) in cc))
              | inr el ↦
                  rw (er, el, ec)
                    (become_black m k v (set_red false r) er' black_r i.nearly
                      (λ e. i.black (rw (er, el) refl)))
            ]
          ]
    ]

    insert_right :
        (c : Bool) (m : RbNode K V)
        → let four = isred l && isred r in
          colours_ok c (isred l) (isred r) ≡ true
          → IsInserted (toggle_if four (isred r)) (is_four r) m
          → IsInserted c four
              (rebalance (node (toggle_if four c) (set_red (toggle_if four (isred l)) l) k v m))
    insert_right c m ok i = elim (Bool-cases (isred r)) [
      | inl er ↦
          let el : isred l ≡ true = ground arith in
          let ec : c ≡ false = ground arith in
          rw (er, el, ec)
            (become_red false true (set_red false l) k v m (IsLlrb-set_black l gl)
              (i.black (rw (er, el) refl)) (i.stays_black (rw (er, el) refl) (is_four_red r gr er))
              (λ _. (refl, isred-set_black l)))
      | inr er ↦
          let four : (isred l && isred r) ≡ false = ground arith in
          let side : (c && isred l) ≡ false = ground arith in
          rw (four, set_red_self) (lean-IsInserted c l k v m gl (i.black (rw (four, er) refl)) side)
    ]

module _ {ℓ κ} {K : Type ℓ} {V : Type κ} ⦃o : KeyOrder K⦄ where
  insert_lem :
      (mem c : Bool) (t : RbNode K V) (q : K) (w : V)
      → IsLlrbAs c t
      → IsInserted c (is_four t) (rb_insert mem c t q w)
  insert_lem mem c null q w h = unfold rb_insert rb_new_node in ground arith
  insert_lem mem c (node d l k v r) q w h =
      let four = isred l && isred r in
      let lc = toggle_if four (isred l) in
      let rc = toggle_if four (isred r) in
      let fl = IsLlrbAs-child l four h.1 (ground arith) in
      let fr = IsLlrbAs-child r four h.2 (ground arith) in
      elim (Ordering-cases (o.cmp q k)) [
        | inl e ↦
            rw (rb_insert-lt mem c d l k v r q w e)
              (insert_left l k v r h.1 h.2 c _ h.0 (insert_lem mem lc l q w fl))
        | inr (inl e) ↦
            rw (rb_insert-eq mem c d l k v r q w e)
              (insert_right l k w r h.1 h.2 c (set_red rc r) h.0 (same-IsInserted rc r fr))
        | inr (inr e) ↦
            rw (rb_insert-gt mem c d l k v r q w e)
              (insert_right l k v r h.1 h.2 c _ h.0 (insert_lem mem rc r q w fr))
      ]

  -- RBSet keeps the colours in order, also where no node could be allocated.
  pub rb_set-IsLlrb :
      (mem : Bool) (t : RbNode K V) (q : K) (w : V) → IsLlrb t → IsLlrb (rb_set mem t q w)
  unfolding rb_set
  rb_set-IsLlrb mem t q w h =
      mend_root (rb_insert_node mem t q w)
        (insert_lem mem (isred t) t q w (IsLlrbAs-isred t h)).nearly

  pub isred-rb_set :
      (mem : Bool) (t : RbNode K V) (q : K) (w : V) → isred (rb_set mem t q w) ≡ false
  unfolding rb_set
  isred-rb_set mem t q w = isred-set_black (rb_insert_node mem t q w)
