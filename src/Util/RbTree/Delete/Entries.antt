-- ===== src/Util/RbTree/Delete/Entries.antt =====
-- A deletion from a sorted list of entries.
use Prim.Native.Nat.{Ordering}
use Prim.Native.Nat.Ordering.{lt, eq, gt}
use colang.Prelude.{
  ◌≡◌, refl, sym, subst, ap, ◌∙◌, List, [], ◌∷◌, ◌++◌, Option, none, arith, inl, inr,
}
use colang.Util.KeyOrder.{KeyOrder, Ordering-cases}
use colang.Util.RbTree.Inorder.{Below, Above, IsSorted, find_entry}

-- What a key reads after a deletion, from how it compares with the key that was deleted.
abbrev pub unless_eq {κ} : {V : Type κ} → Ordering → Option V → Option V
unless_eq eq old = none
unless_eq lt old = old
unless_eq gt old = old

pub unless_eq-none {κ} : {V : Type κ} (c : Ordering) → unless_eq {V = V} c none ≡ none
unless_eq-none lt = refl
unless_eq-none eq = refl
unless_eq-none gt = refl

module _ {ℓ κ} {K : Type ℓ} {V : Type κ} ⦃o : KeyOrder K⦄ where
  abbrev pub remove_entry : K → List (K × V) → List (K × V)
  remove_entry q [] = []
  remove_entry q ((k, v) ∷ es) = elim (o.cmp q k) [
    | lt ↦ (k, v) ∷ es
    | eq ↦ es
    | gt ↦ (k, v) ∷ remove_entry q es
  ]

  pub remove_entry-before :
      (q : K) (xs : List (K × V)) (k : K) (v : V) (ys : List (K × V))
      → o.cmp q k ≡ lt
      → remove_entry q (xs ++ ((k, v) ∷ ys)) ≡ remove_entry q xs ++ ((k, v) ∷ ys)
  remove_entry-before q [] k v ys h = rw (h, remove_entry)
  remove_entry-before q ((j, u) ∷ xs) k v ys h = ground (arith, remove_entry-before q xs k v ys h)

  remove_entry-skip :
      (q : K) (xs ys : List (K × V))
      → Below q xs
      → remove_entry q (xs ++ ys) ≡ xs ++ remove_entry q ys
  remove_entry-skip q [] ys h = refl
  remove_entry-skip q ((k, v) ∷ xs) ys h =
      rw (o.gt_of_lt k q h.0, remove_entry) (ap (λ zs. (k, v) ∷ zs) (remove_entry-skip q xs ys h.1))

  pub remove_entry-at :
      (q : K) (xs : List (K × V)) (k : K) (v : V) (ys : List (K × V))
      → o.cmp q k ≡ eq
      → Below k xs
      → remove_entry q (xs ++ ((k, v) ∷ ys)) ≡ xs ++ ys
  remove_entry-at q xs k v ys h b =
      remove_entry-skip q xs ((k, v) ∷ ys) (subst (λ x. Below x xs) (sym (o.eq_of_cmp q k h)) b)
      ∙ rw (h, remove_entry)

  Below-trans : (a b : K) (xs : List (K × V)) → Below a xs → o.cmp a b ≡ lt → Below b xs
  Below-trans a b [] h p = tt
  Below-trans a b (e ∷ xs) h p = (o.lt_trans e.0 a b h.0 p, Below-trans a b xs h.1 p)

  pub remove_entry-after :
      (q : K) (xs : List (K × V)) (k : K) (v : V) (ys : List (K × V))
      → o.cmp q k ≡ gt
      → Below k xs
      → remove_entry q (xs ++ ((k, v) ∷ ys)) ≡ xs ++ ((k, v) ∷ remove_entry q ys)
  remove_entry-after q xs k v ys h b =
      remove_entry-skip q xs ((k, v) ∷ ys) (Below-trans k q xs b (o.lt_of_gt q k h))
      ∙ rw (h, remove_entry)

  Above-remove_entry : (b q : K) (es : List (K × V)) → Above b es → Above b (remove_entry q es)
  Above-remove_entry b q [] h = tt
  Above-remove_entry b q ((k, v) ∷ es) h = elim (Ordering-cases (o.cmp q k)) [
    | inl e ↦ rw (e, remove_entry) h
    | inr (inl e) ↦ rw (e, remove_entry) h.1
    | inr (inr e) ↦ rw (e, remove_entry) (h.0, Above-remove_entry b q es h.1)
  ]

  pub remove_entry-IsSorted :
      (q : K) (es : List (K × V)) → IsSorted es → IsSorted (remove_entry q es)
  remove_entry-IsSorted q [] h = tt
  remove_entry-IsSorted q ((k, v) ∷ es) h = elim (Ordering-cases (o.cmp q k)) [
    | inl e ↦ rw (e, remove_entry) h
    | inr (inl e) ↦ rw (e, remove_entry) h.1
    | inr (inr e) ↦
        rw (e, remove_entry) (Above-remove_entry k q es h.0, remove_entry-IsSorted q es h.1)
  ]

  -- Below the first key nothing is found.
  find_entry-Above : (p : K) (es : List (K × V)) → Above p es → find_entry p es ≡ none
  find_entry-Above p [] h = refl
  find_entry-Above p ((k, v) ∷ es) h = rw (h.0, find_entry)

  Above-trans : (a b : K) (es : List (K × V)) → o.cmp a b ≡ lt → Above b es → Above a es
  Above-trans a b [] p h = tt
  Above-trans a b (e ∷ es) p h = (o.lt_trans a b e.0 p h.0, Above-trans a b es p h.1)

  -- Nothing smaller than the first key is found.
  unless_eq-below :
      (q p k : K) (v : V) (es : List (K × V))
      → o.cmp q k ≡ lt
      → find_entry p ((k, v) ∷ es) ≡ unless_eq (o.cmp p q) (find_entry p ((k, v) ∷ es))
  unless_eq-below q p k v es h = elim (Ordering-cases (o.cmp p q)) [
    | inl e ↦ rw e
    | inr (inl e) ↦ rw (e, o.eq_of_cmp p q e, h, find_entry)
    | inr (inr e) ↦ rw e
  ]

  unless_eq-at :
      (q p k : K) (v : V) (es : List (K × V))
      → IsSorted ((k, v) ∷ es)
      → q ≡ k
      → find_entry p es ≡ unless_eq (o.cmp p q) (find_entry p ((k, v) ∷ es))
  unless_eq-at q p k v es h same = elim (Ordering-cases (o.cmp p k)) [
    | inl e ↦ rw (same, e, find_entry) (find_entry-Above p es (Above-trans p k es e h.0))
    | inr (inl e) ↦ rw (same, e) (rw (o.eq_of_cmp p k e) (find_entry-Above k es h.0))
    | inr (inr e) ↦ rw (same, e, find_entry)
  ]

  pub find_entry-remove_entry :
      (q p : K) (es : List (K × V))
      → IsSorted es
      → find_entry p (remove_entry q es) ≡ unless_eq (o.cmp p q) (find_entry p es)
  find_entry-remove_entry q p [] h = sym (unless_eq-none (o.cmp p q))
  find_entry-remove_entry q p ((k, v) ∷ es) h = elim (Ordering-cases (o.cmp q k)) [
    | inl e ↦ rw (e, remove_entry) (unless_eq-below q p k v es e)
    | inr (inl e) ↦ rw (e, remove_entry) (unless_eq-at q p k v es h (o.eq_of_cmp q k e))
    | inr (inr e) ↦
        rw (e, remove_entry)
          (elim (Ordering-cases (o.cmp p k)) [
            | inl e' ↦ rw (e', find_entry) (sym (unless_eq-none (o.cmp p q)))
            | inr (inl e') ↦
                let below : o.cmp p q ≡ lt = rw (o.eq_of_cmp p k e') (o.lt_of_gt q k e) in
                rw (below, e', find_entry)
            | inr (inr e') ↦ rw (e', find_entry) (find_entry-remove_entry q p es h.1)
          ])
  ]
