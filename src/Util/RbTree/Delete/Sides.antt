-- ===== src/Util/RbTree/Delete/Sides.antt =====
-- Each way that rbDelete goes down takes the key out of the entries.
use Prim.Native.Nat.Ordering.{eq, gt}
use colang.Prelude.{
  ℕ, suc, ◌<◌, ◌≡◌, refl, sym, subst, ap, ◌∙◌, Bool, List, ◌∷◌, ◌++◌, Option, none, some, arith,
  length, inl, inr,
}
use colang.Util.KeyOrder.{KeyOrder, Ordering-cases}
use colang.Util.RbTree.{RbNode, null, node}
use colang.Util.RbTree.Inorder.{inorder, IsSorted, IsSorted-append_parts}
use colang.Util.RbTree.Delete.{
  Run, done, fault, out_of_fuel, ◌>>=◌, fix_up, leave_left, leave_right, down_left, down_right,
  put_min, delete_here, delete_right, delete_left,
}
use colang.Util.RbTree.Delete.Moves.{
  Never, Under, NotUnder, Moved, leave_left-Moved, leave_right-Moved, inorder-fix_up,
}
use colang.Util.RbTree.Delete.Min.{first, min_node-first, MinGone, length-left, length-right}
use colang.Util.RbTree.Delete.Entries.{
  remove_entry, remove_entry-before, remove_entry-at, remove_entry-after,
}

module _ {ℓ κ} {K : Type ℓ} {V : Type κ} where
  -- The run has fuel, and ends at an assertion or with the entries `es`.
  abbrev pub Holds : List (K × V) → Run (RbNode K V) → Type (ℓ ⊔ κ)
  Holds es (done t) = inorder t ≡ es
  Holds es fault = Unit
  Holds es out_of_fuel = Never

  Holds-left :
      (c : Bool) (k : K) (v : V) (r : RbNode K V) (es : List (K × V)) (run : Run (RbNode K V))
      → Holds es run
      → Holds (es ++ ((k, v) ∷ inorder r)) (run >>= λ l. done (fix_up (node c l k v r)))
  Holds-left c k v r es (done l) h = rw (inorder-fix_up (node c l k v r), h)
  Holds-left c k v r es fault h = tt
  Holds-left c k v r es out_of_fuel h = h

  Holds-right :
      (c : Bool) (l : RbNode K V) (k : K) (v : V) (es : List (K × V)) (run : Run (RbNode K V))
      → Holds es run
      → Holds (inorder l ++ ((k, v) ∷ es)) (run >>= λ r. done (fix_up (node c l k v r)))
  Holds-right c l k v es (done r) h = rw (inorder-fix_up (node c l k v r), h)
  Holds-right c l k v es fault h = tt
  Holds-right c l k v es out_of_fuel h = h

  -- The least entry of the right side takes the place of the entry at the node.
  Holds-min :
      (c : Bool) (l r : RbNode K V) (run : Run (RbNode K V)) (e : K × V)
      → first (inorder r) ≡ some e
      → MinGone (inorder r) run
      → Holds (inorder l ++ inorder r) (run >>= λ r'. done (fix_up (node c l e.0 e.1 r')))
  Holds-min c l r (done r') e h gone =
      let same : some gone.0 ≡ some e = ap first (sym gone.1) ∙ h in
      rw (inorder-fix_up (node c l e.0 e.1 r'), gone.1) (ground arith)
  Holds-min c l r fault e h gone = tt
  Holds-min c l r out_of_fuel e h gone = gone

module _ {ℓ κ} {K : Type ℓ} {V : Type κ} ⦃o : KeyOrder K⦄ (q : K) where
  abbrev pub Removed : RbNode K V → Run (RbNode K V) → Type (ℓ ⊔ κ)
  Removed t run = Holds (remove_entry q (inorder t)) run

  module _ (fuel : ℕ) (go delete_min : RbNode K V → Run (RbNode K V))
      (removed : (t : RbNode K V)
        → IsSorted (inorder t)
        → length (inorder t) < fuel
        → Removed t (go t))
      (min_gone : (t : RbNode K V)
        → IsSorted (inorder t)
        → length (inorder t) < fuel
        → MinGone (inorder t) (delete_min t)) where
    down_left-Removed :
        (t : RbNode K V)
        → IsSorted (inorder t)
        → length (inorder t) < suc fuel
        → Under q t
        → Removed t (down_left go t)
    unfolding down_left
    down_left-Removed null s h u = tt
    down_left-Removed (node c l k v r) s h u =
        let parts = IsSorted-append_parts (inorder l) k v (inorder r) s in
        rw (remove_entry-before q (inorder l) k v (inorder r) u) (
          Holds-left c k v r (remove_entry q (inorder l)) (go l)
            (removed l parts.0 (length-left (inorder l) (k, v) (inorder r) fuel h)))

    down_right-Removed :
        (c : Bool) (l : RbNode K V) (k : K) (v : V) (r : RbNode K V)
        → IsSorted (inorder (node c l k v r))
        → length (inorder (node c l k v r)) < suc fuel
        → o.cmp q k ≡ gt
        → Removed (node c l k v r) (down_right go (node c l k v r))
    unfolding down_right
    down_right-Removed c l k v r s h e =
        let parts = IsSorted-append_parts (inorder l) k v (inorder r) s in
        rw (remove_entry-after q (inorder l) k v (inorder r) e parts.1) (
          Holds-right c l k v (remove_entry q (inorder r)) (go r)
            (removed r parts.3 (length-right (inorder l) (k, v) (inorder r) fuel h)))

    put_min-Removed :
        (c : Bool) (l : RbNode K V) (k : K) (v : V) (r : RbNode K V)
        → IsSorted (inorder (node c l k v r))
        → length (inorder (node c l k v r)) < suc fuel
        → o.cmp q k ≡ eq
        → Removed (node c l k v r) (put_min delete_min c l r)
    unfolding put_min down_right
    put_min-Removed c l k v r s h e =
        let parts = IsSorted-append_parts (inorder l) k v (inorder r) s in
        rw (remove_entry-at q (inorder l) k v (inorder r) e parts.1) (
          put (first (inorder r)) refl
            (min_gone r parts.3 (length-right (inorder l) (k, v) (inorder r) fuel h)))
      where
        put :
            (m : Option (K × V))
            → first (inorder r) ≡ m
            → MinGone (inorder r) (delete_min r)
            → Holds (inorder l ++ inorder r) (put_min delete_min c l r)
        put none f gone = rw (min_node-first r, f, put_min) tt
        put (some (j, u)) f gone =
            rw (min_node-first r, f, put_min) (Holds-min c l r (delete_min r) (j, u) f gone)

    delete_here-Removed :
        (t : RbNode K V)
        → IsSorted (inorder t)
        → length (inorder t) < suc fuel
        → NotUnder q t
        → Removed t (delete_here go delete_min q t)
    unfolding delete_here
    delete_here-Removed null s h u = tt
    delete_here-Removed (node c l k v r) s h u = elim (Ordering-cases (o.cmp q k)) [
      | inl e ↦ absurd (u e)
      | inr (inl e) ↦ rw (e, delete_here) (put_min-Removed c l k v r s h e)
      | inr (inr e) ↦ rw (e, delete_here) (down_right-Removed c l k v r s h e)
    ]

    Moved-left-Removed :
        (t : RbNode K V) (run : Run (RbNode K V))
        → IsSorted (inorder t)
        → length (inorder t) < suc fuel
        → Moved (Under q) t run
        → Removed t (run >>= down_left go)
    Moved-left-Removed t (done t') s h m =
        subst (λ es. Holds (remove_entry q es) (down_left go t')) m.0
          (down_left-Removed t' (rw m.0 s) (rw m.0 h) m.1)
    Moved-left-Removed t fault s h m = tt
    Moved-left-Removed t out_of_fuel s h m = m

    Moved-right-Removed :
        (t : RbNode K V) (run : Run (RbNode K V))
        → IsSorted (inorder t)
        → length (inorder t) < suc fuel
        → Moved (NotUnder q) t run
        → Removed t (run >>= delete_here go delete_min q)
    Moved-right-Removed t (done t') s h m =
        subst (λ es. Holds (remove_entry q es) (delete_here go delete_min q t')) m.0
          (delete_here-Removed t' (rw m.0 s) (rw m.0 h) m.1)
    Moved-right-Removed t fault s h m = tt
    Moved-right-Removed t out_of_fuel s h m = m

    pub delete_left-Removed :
        (t : RbNode K V)
        → IsSorted (inorder t)
        → length (inorder t) < suc fuel
        → Under q t
        → Removed t (delete_left go t)
    unfolding delete_left
    delete_left-Removed null s h u = tt
    delete_left-Removed (node c null k v r) s h u = tt
    delete_left-Removed (node c (node lc ll lk lv lr) k v r) s h u =
        let t : RbNode K V = node c (node lc ll lk lv lr) k v r in
        Moved-left-Removed t (leave_left t) s h (leave_left-Moved q t s u)

    pub delete_right-Removed :
        (t : RbNode K V)
        → IsSorted (inorder t)
        → length (inorder t) < suc fuel
        → NotUnder q t
        → Removed t (delete_right go delete_min q t)
    unfolding delete_right
    delete_right-Removed null s h u = tt
    delete_right-Removed (node c null k v null) s h u = elim (Ordering-cases (o.cmp q k)) [
      | inl e ↦ absurd (u e)
      | inr (inl e) ↦ rw (e, delete_right, remove_entry)
      | inr (inr e) ↦ rw (e, delete_right) tt
    ]
    delete_right-Removed (node c (node lc ll lk lv lr) k v null) s h u = tt
    delete_right-Removed (node c null k v (node rc rl rk rv rr)) s h u =
        let t : RbNode K V = node c null k v (node rc rl rk rv rr) in
        Moved-right-Removed t (leave_right t) s h (leave_right-Moved q t s u)
    delete_right-Removed (node c (node lc ll lk lv lr) k v (node rc rl rk rv rr)) s h u =
        let t : RbNode K V = node c (node lc ll lk lv lr) k v (node rc rl rk rv rr) in
        Moved-right-Removed t (leave_right t) s h (leave_right-Moved q t s u)
