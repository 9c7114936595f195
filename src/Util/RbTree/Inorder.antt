-- ===== src/Util/RbTree/Inorder.antt =====
-- The entries of a tree from left to right. Rotations and colour flips keep them, so that rbInsert
-- is, on the entries, an insertion into a sorted list.
use Prim.Native.Nat.{Ordering}
use Prim.Native.Nat.Ordering.{lt, eq, gt}
use mathlib.Core.List.{append_assoc}
use colang.Prelude.{
  ◌+◌, ◌≡◌, refl, ap, sym, subst, ◌∙◌, Bool, true, ◌&&◌, Option, none, some, List, [], ◌∷◌, ◌++◌,
  arith, if◌then◌else◌, is_some, inl, inr, length, length-append,
}
use colang.Util.KeyOrder.{KeyOrder, Ordering-cases}
use colang.Util.RbTree.Step.{rb_insert-lt, rb_insert-eq, rb_insert-gt}
use colang.Util.RbTree.{
  RbNode, null, node, isred, toggle_if, set_red, rotate_left, rotate_right, lean_left, lift_left,
  rebalance, rb_new_node, rb_insert, rb_count,
}

-- What a key reads after a write, from how it compares with the key that was written.
abbrev pub written {κ} : {V : Type κ} → Ordering → V → Option V → Option V
written eq w old = some w
written lt w old = old
written gt w old = old

module _ {ℓ κ} {K : Type ℓ} {V : Type κ} where
  abbrev pub inorder : RbNode K V → List (K × V)
  inorder null = []
  inorder (node c l k v r) = inorder l ++ ((k, v) ∷ inorder r)

  pub inorder-set_red : (c : Bool) (t : RbNode K V) → inorder (set_red c t) ≡ inorder t
  inorder-set_red c null = refl
  inorder-set_red c (node _ l k v r) = refl

  pub inorder-rotate_left : (t : RbNode K V) → inorder (rotate_left t) ≡ inorder t
  unfolding rotate_left
  inorder-rotate_left (node c l k v (node d rl rk rv rr)) = simp append_assoc
  inorder-rotate_left (node c l k v null) = refl
  inorder-rotate_left null = refl

  pub inorder-rotate_right : (t : RbNode K V) → inorder (rotate_right t) ≡ inorder t
  unfolding rotate_right
  inorder-rotate_right (node c (node d ll lk lv lr) k v r) = simp append_assoc
  inorder-rotate_right (node c null k v r) = refl
  inorder-rotate_right null = refl

  inorder-lean_left : (t : RbNode K V) → inorder (lean_left t) ≡ inorder t
  unfolding lean_left
  inorder-lean_left t = ground (arith, inorder-rotate_left t)

  pub inorder-lift_left : (t : RbNode K V) → inorder (lift_left t) ≡ inorder t
  unfolding lift_left
  inorder-lift_left t = ground (arith, inorder-rotate_right t)

  pub inorder-rebalance : (t : RbNode K V) → inorder (rebalance t) ≡ inorder t
  unfolding rebalance
  inorder-rebalance t = inorder-lift_left (lean_left t) ∙ inorder-lean_left t

  pub length-inorder : (t : RbNode K V) → length (inorder t) ≡ rb_count t
  unfolding rb_count
  length-inorder null = refl
  length-inorder (node c l k v r) =
      omega
        (arith, length-append (inorder l) ((k, v) ∷ inorder r), length-inorder l, length-inorder r)

module _ {ℓ κ} {K : Type ℓ} {V : Type κ} ⦃o : KeyOrder K⦄ where
  -- Every key of the list comes before `b`, or after it.
  abbrev pub Below : K → List (K × V) → Type 0
  Below b [] = Unit
  Below b (e ∷ es) = (o.cmp e.0 b ≡ lt) × Below b es

  abbrev pub Above : K → List (K × V) → Type 0
  Above b [] = Unit
  Above b (e ∷ es) = (o.cmp b e.0 ≡ lt) × Above b es

  abbrev pub IsSorted : List (K × V) → Type 0
  IsSorted [] = Unit
  IsSorted (e ∷ es) = Above e.0 es × IsSorted es

  -- Insertion into a sorted list, and lookup in it.
  abbrev pub insert_entry : K → V → List (K × V) → List (K × V)
  insert_entry q w [] = (q, w) ∷ []
  insert_entry q w ((k, v) ∷ es) = elim (o.cmp q k) [
    | lt ↦ (q, w) ∷ (k, v) ∷ es
    | eq ↦ (k, w) ∷ es
    | gt ↦ (k, v) ∷ insert_entry q w es
  ]

  abbrev pub find_entry : K → List (K × V) → Option V
  find_entry q [] = none
  find_entry q ((k, v) ∷ es) = elim (o.cmp q k) [ lt ↦ none | eq ↦ some v | gt ↦ find_entry q es ]

  pub IsSorted-append_parts :
      (xs : List (K × V)) (k : K) (v : V) (ys : List (K × V))
      → IsSorted (xs ++ ((k, v) ∷ ys))
      → IsSorted xs × Below k xs × Above k ys × IsSorted ys
  IsSorted-append_parts [] k v ys h = (tt, tt, h.0, h.1)
  IsSorted-append_parts (e ∷ xs) k v ys h =
      let parts = IsSorted-append_parts xs k v ys h.1 in
      ((left_above xs h.0, parts.0), (middle xs h.0, parts.1), parts.2, parts.3)
    where
      left_above : (zs : List (K × V)) → Above e.0 (zs ++ ((k, v) ∷ ys)) → Above e.0 zs
      left_above [] a = tt
      left_above (z ∷ zs) a = (a.0, left_above zs a.1)

      middle : (zs : List (K × V)) → Above e.0 (zs ++ ((k, v) ∷ ys)) → o.cmp e.0 k ≡ lt
      middle [] a = a.0
      middle (z ∷ zs) a = middle zs a.1

  Below-trans : (a b : K) (xs : List (K × V)) → Below a xs → o.cmp a b ≡ lt → Below b xs
  Below-trans a b [] h p = tt
  Below-trans a b (e ∷ xs) h p = (o.lt_trans e.0 a b h.0 p, Below-trans a b xs h.1 p)

  -- Where the entries before `k` are smaller than `q`, both walks pass them by.
  insert_entry-skip :
      (q : K) (w : V) (xs ys : List (K × V))
      → Below q xs
      → insert_entry q w (xs ++ ys) ≡ xs ++ insert_entry q w ys
  insert_entry-skip q w [] ys h = refl
  insert_entry-skip q w ((k, v) ∷ xs) ys h =
      rw (o.gt_of_lt k q h.0, insert_entry)
        (ap (λ zs. (k, v) ∷ zs) (insert_entry-skip q w xs ys h.1))

  find_entry-skip :
      (q : K) (xs ys : List (K × V)) → Below q xs → find_entry q (xs ++ ys) ≡ find_entry q ys
  find_entry-skip q [] ys h = refl
  find_entry-skip q ((k, v) ∷ xs) ys h =
      rw (o.gt_of_lt k q h.0, find_entry) (find_entry-skip q xs ys h.1)

  insert_entry-before :
      (q : K) (w : V) (xs : List (K × V)) (k : K) (v : V) (ys : List (K × V))
      → o.cmp q k ≡ lt
      → insert_entry q w (xs ++ ((k, v) ∷ ys)) ≡ insert_entry q w xs ++ ((k, v) ∷ ys)
  insert_entry-before q w [] k v ys h = rw (h, insert_entry)
  insert_entry-before q w ((j, u) ∷ xs) k v ys h =
      ground (arith, insert_entry-before q w xs k v ys h)

  pub find_entry-before :
      (q : K) (xs : List (K × V)) (k : K) (v : V) (ys : List (K × V))
      → o.cmp q k ≡ lt
      → find_entry q (xs ++ ((k, v) ∷ ys)) ≡ find_entry q xs
  find_entry-before q [] k v ys h = rw (h, find_entry)
  find_entry-before q ((j, u) ∷ xs) k v ys h = ground (arith, find_entry-before q xs k v ys h)

  insert_entry-at :
      (q : K) (w : V) (xs : List (K × V)) (k : K) (v : V) (ys : List (K × V))
      → o.cmp q k ≡ eq
      → Below k xs
      → insert_entry q w (xs ++ ((k, v) ∷ ys)) ≡ xs ++ ((k, w) ∷ ys)
  insert_entry-at q w xs k v ys h b =
      insert_entry-skip q w xs ((k, v) ∷ ys) (subst (λ x. Below x xs) (sym (o.eq_of_cmp q k h)) b)
      ∙ rw (h, insert_entry)

  insert_entry-after :
      (q : K) (w : V) (xs : List (K × V)) (k : K) (v : V) (ys : List (K × V))
      → o.cmp q k ≡ gt
      → Below k xs
      → insert_entry q w (xs ++ ((k, v) ∷ ys)) ≡ xs ++ ((k, v) ∷ insert_entry q w ys)
  insert_entry-after q w xs k v ys h b =
      insert_entry-skip q w xs ((k, v) ∷ ys) (Below-trans k q xs b (o.lt_of_gt q k h))
      ∙ rw (h, insert_entry)

  pub find_entry-at :
      (q : K) (xs : List (K × V)) (k : K) (v : V) (ys : List (K × V))
      → o.cmp q k ≡ eq
      → Below k xs
      → find_entry q (xs ++ ((k, v) ∷ ys)) ≡ some v
  find_entry-at q xs k v ys h b =
      find_entry-skip q xs ((k, v) ∷ ys) (subst (λ x. Below x xs) (sym (o.eq_of_cmp q k h)) b)
      ∙ rw (h, find_entry)

  pub find_entry-after :
      (q : K) (xs : List (K × V)) (k : K) (v : V) (ys : List (K × V))
      → o.cmp q k ≡ gt
      → Below k xs
      → find_entry q (xs ++ ((k, v) ∷ ys)) ≡ find_entry q ys
  find_entry-after q xs k v ys h b =
      find_entry-skip q xs ((k, v) ∷ ys) (Below-trans k q xs b (o.lt_of_gt q k h))
      ∙ rw (h, find_entry)

  pub length-insert_entry :
      (q : K) (w : V) (xs : List (K × V))
      → length (insert_entry q w xs)
        ≡ (if is_some (find_entry q xs) then length xs else length xs + 1)
  length-insert_entry q w [] = omega arith
  length-insert_entry q w ((k, v) ∷ xs) = ground (arith, length-insert_entry q w xs)

  -- rbInsert on the entries.
  pub inorder-rb_insert :
      (c : Bool) (t : RbNode K V) (q : K) (w : V)
      → IsSorted (inorder t)
      → inorder (rb_insert true c t q w) ≡ insert_entry q w (inorder t)
  inorder-rb_insert c null q w s = unfold rb_insert rb_new_node in refl
  inorder-rb_insert c (node d l k v r) q w s =
      let parts = IsSorted-append_parts (inorder l) k v (inorder r) s in
      elim (Ordering-cases (o.cmp q k)) [
        | inl h ↦ rw (
          rb_insert-lt true c d l k v r q w h,
          inorder-rebalance,
          inorder-rb_insert (toggle_if (isred l && isred r) (isred l)) l q w parts.0,
          inorder-set_red,
          insert_entry-before q w (inorder l) k v (inorder r) h,
        )
        | inr (inl h) ↦ rw (
          rb_insert-eq true c d l k v r q w h,
          inorder-rebalance,
          inorder-set_red,
          inorder-set_red,
          insert_entry-at q w (inorder l) k v (inorder r) h parts.1,
        )
        | inr (inr h) ↦ rw (
          rb_insert-gt true c d l k v r q w h,
          inorder-rebalance,
          inorder-rb_insert (toggle_if (isred l && isred r) (isred r)) r q w parts.3,
          inorder-set_red,
          insert_entry-after q w (inorder l) k v (inorder r) h parts.1,
        )
      ]
