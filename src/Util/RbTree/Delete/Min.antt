-- ===== src/Util/RbTree/Delete/Min.antt =====
-- rbDeleteMin takes away the first entry, which is that of minNode.
use colang.Prelude.{
  ℕ, zero, suc, ◌<◌, ◌≡◌, refl, subst, ◌∙◌, List, [], ◌∷◌, ◌++◌, Option, none, some, arith, length,
  length-append,
}
use colang.Util.KeyOrder.{KeyOrder}
use colang.Util.RbTree.{RbNode, null, node}
use colang.Util.RbTree.Inorder.{inorder, IsSorted, IsSorted-append_parts}
use colang.Util.RbTree.Delete.{
  Run, done, fault, out_of_fuel, ◌>>=◌, fix_up, min_node, leave_left, down_left, rb_delete_min,
}
use colang.Util.RbTree.Delete.Moves.{
  Never, Under, Moved, leave_left-Moved, inorder-fix_up, Below-middle,
}

module _ {ℓ κ} {K : Type ℓ} {V : Type κ} where
  abbrev pub first : List (K × V) → Option (K × V)
  first [] = none
  first (e ∷ es) = some e

  pub min_node-first : (t : RbNode K V) → min_node t ≡ first (inorder t)
  unfolding min_node
  min_node-first null = refl
  min_node-first (node c null k v r) = refl
  min_node-first (node c (node lc ll lk lv lr) k v r) =
      min_node-first (node lc ll lk lv lr)
      ∙ first-append (inorder ll) (lk, lv) (inorder lr) ((k, v) ∷ inorder r)
    where
      first-append :
          (xs : List (K × V)) (e : K × V) (ys zs : List (K × V))
          → first (xs ++ (e ∷ ys)) ≡ first ((xs ++ (e ∷ ys)) ++ zs)
      first-append [] e ys zs = refl
      first-append (x ∷ xs) e ys zs = refl

  -- The run has fuel, and ends at an assertion or with all entries but the first.
  abbrev pub MinGone : List (K × V) → Run (RbNode K V) → Type (ℓ ⊔ κ)
  MinGone es (done t) = (e : K × V) × (es ≡ e ∷ inorder t)
  MinGone es fault = Unit
  MinGone es out_of_fuel = Never

  MinGone-left :
      (b : _) (k : K) (v : V) (r : RbNode K V) (es : List (K × V)) (run : Run (RbNode K V))
      → MinGone es run
      → MinGone (es ++ ((k, v) ∷ inorder r)) (run >>= λ l. done (fix_up (node b l k v r)))
  MinGone-left b k v r es (done l) h = (h.0, rw (inorder-fix_up (node b l k v r), h.1))
  MinGone-left b k v r es fault h = tt
  MinGone-left b k v r es out_of_fuel h = h

module _ {ℓ κ} {K : Type ℓ} {V : Type κ} ⦃o : KeyOrder K⦄ where
  pub length-left :
      (xs : List (K × V)) (e : K × V) (ys : List (K × V)) (fuel : ℕ)
      → length (xs ++ (e ∷ ys)) < suc fuel
      → length xs < fuel
  length-left xs e ys fuel h = omega (arith, length-append xs (e ∷ ys))

  pub length-right :
      (xs : List (K × V)) (e : K × V) (ys : List (K × V)) (fuel : ℕ)
      → length (xs ++ (e ∷ ys)) < suc fuel
      → length ys < fuel
  length-right xs e ys fuel h = omega (arith, length-append xs (e ∷ ys))

  module _ (fuel : ℕ) (go : RbNode K V → Run (RbNode K V))
      (below : (t : RbNode K V)
        → IsSorted (inorder t)
        → length (inorder t) < fuel
        → MinGone (inorder t) (go t)) where
    down_left-MinGone :
        (t : RbNode K V)
        → IsSorted (inorder t)
        → length (inorder t) < suc fuel
        → MinGone (inorder t) (down_left go t)
    unfolding down_left
    down_left-MinGone null s h = tt
    down_left-MinGone (node c l k v r) s h =
        let parts = IsSorted-append_parts (inorder l) k v (inorder r) s in
        MinGone-left c k v r (inorder l) (go l)
          (below l parts.0 (length-left (inorder l) (k, v) (inorder r) fuel h))

    -- The move before it keeps the entries.
    Moved-left-MinGone :
        (q : K) (t : RbNode K V) (run : Run (RbNode K V))
        → IsSorted (inorder t)
        → length (inorder t) < suc fuel
        → Moved (Under q) t run
        → MinGone (inorder t) (run >>= down_left go)
    Moved-left-MinGone q t (done t') s h m =
        subst (λ es. MinGone es (down_left go t')) m.0 (down_left-MinGone t' (rw m.0 s) (rw m.0 h))
    Moved-left-MinGone q t fault s h m = tt
    Moved-left-MinGone q t out_of_fuel s h m = m

  pub rb_delete_min-MinGone :
      (fuel : ℕ) (t : RbNode K V)
      → IsSorted (inorder t)
      → length (inorder t) < fuel
      → MinGone (inorder t) (rb_delete_min fuel t)
  unfolding rb_delete_min
  rb_delete_min-MinGone zero t s h = elim h [ ]
  rb_delete_min-MinGone (suc fuel) null s h = tt
  rb_delete_min-MinGone (suc fuel) (node c null k v null) s h = ((k, v), refl)
  rb_delete_min-MinGone (suc fuel) (node c null k v (node rc rl rk rv rr)) s h = tt
  rb_delete_min-MinGone (suc fuel) (node c (node lc ll lk lv lr) k v r) s h =
      let t : RbNode K V = node c (node lc ll lk lv lr) k v r in
      let parts = IsSorted-append_parts (inorder (node lc ll lk lv lr)) k v (inorder r) s in
      Moved-left-MinGone fuel (rb_delete_min fuel) (rb_delete_min-MinGone fuel) lk t (leave_left t)
        s h (leave_left-Moved lk t s (Below-middle k (inorder ll) lk lv (inorder lr) parts.1))
