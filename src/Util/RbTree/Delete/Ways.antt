-- ===== src/Util/RbTree/Delete/Ways.antt =====
-- RBDelete in a balanced tree: no assertion fails on either side of a node.
use Prim.Native.Nat.Ordering.{lt, eq}
use colang.Prelude.{◌≡◌, ◌≢◌, refl, Bool, true, false, arith, inl, inr, if◌then◌else◌}
use colang.Util.KeyOrder.{KeyOrder, Ordering-cases}
use colang.Util.RbTree.{RbNode, null, node, isred, rotate_right}
use colang.Util.RbTree.Inorder.{inorder, inorder-rotate_right, IsSorted, IsSorted-append_parts}
use colang.Util.RbTree.Delete.{
  Run, done, fault, out_of_fuel, ◌>>=◌, leave_left, leave_right, down_left, delete_here,
  delete_right, delete_left,
}
use colang.Util.RbTree.Delete.Moves.{
  Moved, Under, NotUnder, rotate_right-NotUnder, leave_left-Moved, leave_right-Moved,
}
use colang.Util.RbTree.Delete.Ready.{
  IsReady, Found, here, on_left, on_right, LeftReady, leave_left-LeftReady,
}
use colang.Util.RbTree.Delete.Fit.{
  IsFit, IsReady-IsFit, RightReady, leave_right-RightReady, turn_right-RightReady,
}
use colang.Util.RbTree.Delete.Runs.{NoFault, down_left-NoFault, down_right-NoFault, put_min-NoFault}

module _ {ℓ κ} {K : Type ℓ} {V : Type κ} ⦃o : KeyOrder K⦄ where
  module _ (q : K) (go delete_min : RbNode K V → Run (RbNode K V))
      (all : (t : RbNode K V) → IsFit q t → Found q t → IsSorted (inorder t) → NoFault (go t))
      (least : (t : RbNode K V) → IsReady t → NoFault (delete_min t)) where
    delete_here-NoFault :
        (c : Bool) (l : RbNode K V) (k : K) (v : V) (r : RbNode K V)
        → IsSorted (inorder (node c l k v r))
        → RightReady q (done (node c l k v r))
        → NoFault (delete_here go delete_min q (node c l k v r))
    unfolding delete_here
    delete_here-NoFault c l k v r s h =
        let parts = IsSorted-append_parts (inorder l) k v (inorder r) s in
        elim (Ordering-cases (o.cmp q k)) [
          | inl e ↦ absurd (h.0 e)
          | inr (inl e) ↦
              rw (e, delete_here) (put_min-NoFault delete_min c l r (h.1 e) (least r (h.1 e)))
          | inr (inr e) ↦
              rw (e, delete_here)
                (down_right-NoFault go c l k v r (all r (h.2 e).0 (h.2 e).1 parts.3))
        ]

    Moved-NoFault :
        (t : RbNode K V) (run : Run (RbNode K V))
        → IsSorted (inorder t)
        → Moved (NotUnder q) t run
        → RightReady q run
        → NoFault (run >>= delete_here go delete_min q)
    Moved-NoFault t (done null) s m h = elim h [ ]
    Moved-NoFault t (done (node c l k v r)) s m h = delete_here-NoFault c l k v r (rw m.0 s) h
    Moved-NoFault t fault s m h = elim h [ ]
    Moved-NoFault t out_of_fuel s m h = tt

    nothing_there : (c : Bool) (k : K) (v : V) → Found q (node c null k v null) → o.cmp q k ≡ eq
    nothing_there c k v (here e) = e
    nothing_there c k v (on_left e f) = elim f [ ]
    nothing_there c k v (on_right e f) = elim f [ ]

    -- The right side, in a tree whose left child is not red.
    delete_right-NoFault :
        (c : Bool) (l : RbNode K V) (k : K) (v : V) (r : RbNode K V)
        → isred l ≡ false
        → o.cmp q k ≢ lt
        → IsSorted (inorder (node c l k v r))
        → IsFit q (node c l k v r)
        → Found q (node c l k v r)
        → NoFault (delete_right go delete_min q (node c l k v r))
    unfolding delete_right
    delete_right-NoFault c null k v null black u s h f = rw (nothing_there c k v f, delete_right) tt
    delete_right-NoFault c (node true ll lk lv lr) k v null black u s h f = absurd (ground arith)
    delete_right-NoFault c (node false ll lk lv lr) k v null black u s h f =
        absurd (omega (arith, h.0.0))
    delete_right-NoFault c null k v (node rc rl rk rv rr) black u s h f =
        let t : RbNode K V = node c null k v (node rc rl rk rv rr) in
        Moved-NoFault t (leave_right t) s (leave_right-Moved q t s u)
          (leave_right-RightReady q c null k v (node rc rl rk rv rr) black tt u s h f)
    delete_right-NoFault c (node lc ll lk lv lr) k v (node rc rl rk rv rr) black u s h f =
        let l : RbNode K V = node lc ll lk lv lr in
        let t : RbNode K V = node c l k v (node rc rl rk rv rr) in
        Moved-NoFault t (leave_right t) s (leave_right-Moved q t s u)
          (leave_right-RightReady q c l k v (node rc rl rk rv rr) black tt u s h f)

    -- The right side, in a tree that was turned to the right.
    turned-NoFault :
        (c : Bool) (ll : RbNode K V) (lk : K) (lv : V) (lr : RbNode K V) (k : K) (v : V)
        (r : RbNode K V)
        → o.cmp q k ≢ lt
        → IsSorted (inorder (node c (node true ll lk lv lr) k v r))
        → IsFit q (node c (node true ll lk lv lr) k v r)
        → Found q (node c (node true ll lk lv lr) k v r)
        → NoFault
            (delete_right go delete_min q (rotate_right (node c (node true ll lk lv lr) k v r)))
    unfolding delete_right rotate_right
    turned-NoFault c ll lk lv lr k v r u s h f =
        let t : RbNode K V = node c (node true ll lk lv lr) k v r in
        let same = inorder-rotate_right t in
        let sorted : IsSorted (inorder (rotate_right t)) = rw same s in
        let moved = leave_right-Moved q (rotate_right t) sorted (rotate_right-NotUnder q t s u) in
        let ready = turn_right-RightReady q c ll lk lv lr k v r u s h f in
        by_left ll sorted moved ready
      where
        by_left :
            (x : RbNode K V)
            → let t : RbNode K V = node c x lk lv (node true lr k v r) in
              IsSorted (inorder t)
              → Moved (NotUnder q) t (leave_right t)
              → RightReady q (leave_right t)
              → NoFault (delete_right go delete_min q t)
        by_left null s m h =
            let t : RbNode K V = node c null lk lv (node true lr k v r) in
            Moved-NoFault t (leave_right t) s m h
        by_left (node xc xl xk xv xr) s m h =
            let t : RbNode K V = node c (node xc xl xk xv xr) lk lv (node true lr k v r) in
            Moved-NoFault t (leave_right t) s m h

    pub right-NoFault :
        (c : Bool) (l : RbNode K V) (k : K) (v : V) (r : RbNode K V)
        → o.cmp q k ≢ lt
        → IsSorted (inorder (node c l k v r))
        → IsFit q (node c l k v r)
        → Found q (node c l k v r)
        → NoFault (
            delete_right go delete_min q
              (if isred l then rotate_right (node c l k v r) else node c l k v r))
    right-NoFault c null k v r u s h f = delete_right-NoFault c null k v r refl u s h f
    right-NoFault c (node false ll lk lv lr) k v r u s h f =
        delete_right-NoFault c (node false ll lk lv lr) k v r refl u s h f
    right-NoFault c (node true ll lk lv lr) k v r u s h f =
        turned-NoFault c ll lk lv lr k v r u s h f

    left-Found :
        (c : Bool) (l : RbNode K V) (k : K) (v : V) (r : RbNode K V)
        → o.cmp q k ≡ lt
        → Found q (node c l k v r)
        → Found q l
    left-Found c l k v r e (here f) = absurd (cc)
    left-Found c l k v r e (on_left f h) = h
    left-Found c l k v r e (on_right f h) = absurd (cc)

    left-NoFault :
        (t : RbNode K V) (k : K) (l : RbNode K V) (run : Run (RbNode K V))
        → IsSorted (inorder t)
        → o.cmp q k ≡ lt
        → Found q l
        → Moved (Under q) t run
        → LeftReady k l run
        → NoFault (run >>= down_left go)
    left-NoFault t k l (done null) s e f m h = elim h [ ]
    left-NoFault t k l (done (node c l' k' v' r')) s e f m h =
        let sorted : IsSorted (inorder (node c l' k' v' r')) = rw m.0 s in
        let parts = IsSorted-append_parts (inorder l') k' v' (inorder r') sorted in
        down_left-NoFault go c l' k' v' r' (all l' (IsReady-IsFit q l' h.0) (h.1 q e f) parts.0)
    left-NoFault t k l fault s e f m h = elim h [ ]
    left-NoFault t k l out_of_fuel s e f m h = tt

    pub delete_left-NoFault :
        (c : Bool) (l : RbNode K V) (k : K) (v : V) (r : RbNode K V)
        → o.cmp q k ≡ lt
        → IsSorted (inorder (node c l k v r))
        → IsFit q (node c l k v r)
        → Found q (node c l k v r)
        → NoFault (delete_left go (node c l k v r))
    unfolding delete_left
    delete_left-NoFault c null k v r e s h f = elim (left-Found c null k v r e f) [ ]
    delete_left-NoFault c (node lc ll lk lv lr) k v r e s h f =
        let l : RbNode K V = node lc ll lk lv lr in
        let t : RbNode K V = node c l k v r in
        left-NoFault t k l (leave_left t) s e (left-Found c l k v r e f) (leave_left-Moved q t s e)
          (leave_left-LeftReady c l k v r tt h.0 (h.3 e, h.1, h.2))
