-- ===== src/Util/RbTree/Insertion.antt =====
-- What an insertion does to the sorted list of entries of a tree.
use Prim.Native.Nat.Ordering.{lt}
use colang.Prelude.{◌≡◌, List, [], ◌∷◌, arith, inl, inr}
use colang.Util.KeyOrder.{KeyOrder, Ordering-cases}
use colang.Util.RbTree.Inorder.{written, Above, IsSorted, insert_entry, find_entry}

module _ {ℓ κ} {K : Type ℓ} {V : Type κ} ⦃o : KeyOrder K⦄ where
  Above-trans : (a b : K) (xs : List (K × V)) → o.cmp a b ≡ lt → Above b xs → Above a xs
  Above-trans a b [] p h = tt
  Above-trans a b (e ∷ xs) p h = (o.lt_trans a b e.0 p h.0, Above-trans a b xs p h.1)

  Above-insert_entry :
      (b q : K) (w : V) (xs : List (K × V))
      → Above b xs
      → o.cmp b q ≡ lt
      → Above b (insert_entry q w xs)
  Above-insert_entry b q w [] h p = (p, tt)
  Above-insert_entry b q w ((k, v) ∷ xs) h p = elim (Ordering-cases (o.cmp q k)) [
    | inl e ↦ rw (e, insert_entry) (p, h)
    | inr (inl e) ↦ rw (e, insert_entry) h
    | inr (inr e) ↦ rw (e, insert_entry) (h.0, Above-insert_entry b q w xs h.1 p)
  ]

  pub insert_entry-IsSorted :
      (q : K) (w : V) (xs : List (K × V)) → IsSorted xs → IsSorted (insert_entry q w xs)
  insert_entry-IsSorted q w [] s = (tt, tt)
  insert_entry-IsSorted q w ((k, v) ∷ xs) s = elim (Ordering-cases (o.cmp q k)) [
    | inl e ↦ rw (e, insert_entry) ((e, Above-trans q k xs e s.0), s)
    | inr (inl e) ↦ rw (e, insert_entry) s
    | inr (inr e) ↦
        rw (e, insert_entry)
          (Above-insert_entry k q w xs s.0 (o.lt_of_gt q k e), insert_entry-IsSorted q w xs s.1)
  ]

  -- A list that was written at `q` reads there what was written, and elsewhere what it did before.
  pub find_entry-insert_entry :
      (q p : K) (w : V) (xs : List (K × V))
      → find_entry p (insert_entry q w xs) ≡ written (o.cmp p q) w (find_entry p xs)
  find_entry-insert_entry q p w [] = ground arith
  find_entry-insert_entry q p w ((k, v) ∷ xs) = ground (
    arith,
    find_entry-insert_entry q p w xs,
    o.eq_of_cmp q k,
    o.eq_of_cmp p q,
    o.eq_of_cmp p k,
    o.lt_trans p q k,
    o.lt_of_gt q k,
    o.lt_of_gt p q,
    o.lt_of_gt p k,
    o.lt_trans k p q,
    o.cmp_refl q,
    o.gt_of_lt p k,
    o.gt_of_lt p q,
  )
