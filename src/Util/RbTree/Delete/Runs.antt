-- ===== src/Util/RbTree/Delete/Runs.antt =====
-- RBDelete in a balanced tree: no assertion fails on the way to the least node.
use colang.Prelude.{ℕ, zero, suc, ◌≢◌, refl, Bool, true, false, Option, none, some, arith}
use colang.Util.KeyOrder.{KeyOrder}
use colang.Util.RbTree.{RbNode, null, node}
use colang.Util.RbTree.Delete.{
  Run, done, fault, out_of_fuel, ◌>>=◌, min_node, leave_left, down_left, down_right, rb_delete_min,
  put_min,
}
use colang.Util.RbTree.Delete.Ready.{IsNode, IsReady, LeftReady, leave_left-LeftReady}

module _ {ℓ κ} {K : Type ℓ} {V : Type κ} where
  abbrev pub NoFault : Run (RbNode K V) → Type 0
  NoFault (done t) = Unit
  NoFault fault = ⊥
  NoFault out_of_fuel = Unit

  pub NoFault-then :
      (run : Run (RbNode K V)) (f : RbNode K V → RbNode K V)
      → NoFault run
      → NoFault (run >>= λ t. done (f t))
  NoFault-then (done t) f h = tt
  NoFault-then fault f h = absurd h
  NoFault-then out_of_fuel f h = tt

module _ {ℓ κ} {K : Type ℓ} {V : Type κ} ⦃o : KeyOrder K⦄ where
  pub down_left-NoFault :
      (go : RbNode K V → Run (RbNode K V)) (c : Bool) (l : RbNode K V) (k : K) (v : V)
      (r : RbNode K V)
      → NoFault (go l)
      → NoFault (down_left go (node c l k v r))
  unfolding down_left
  down_left-NoFault go c l k v r h = NoFault-then (go l) _ h

  pub down_right-NoFault :
      (go : RbNode K V → Run (RbNode K V)) (c : Bool) (l : RbNode K V) (k : K) (v : V)
      (r : RbNode K V)
      → NoFault (go r)
      → NoFault (down_right go (node c l k v r))
  unfolding down_right
  down_right-NoFault go c l k v r h = NoFault-then (go r) _ h

  min-left-NoFault :
      (go : RbNode K V → Run (RbNode K V)) (k : K) (l : RbNode K V) (run : Run (RbNode K V))
      → LeftReady k l run
      → ((t : RbNode K V) → IsReady t → NoFault (go t))
      → NoFault (run >>= down_left go)
  min-left-NoFault go k l (done null) h all = elim h [ ]
  min-left-NoFault go k l (done (node c l' k' v' r')) h all =
      down_left-NoFault go c l' k' v' r' (all l' h.0)
  min-left-NoFault go k l fault h all = elim h [ ]
  min-left-NoFault go k l out_of_fuel h all = tt

  -- The least node is at the end of the way to the left.
  pub rb_delete_min-NoFault :
      (fuel : ℕ) (t : RbNode K V) → IsReady t → NoFault (rb_delete_min fuel t)
  unfolding rb_delete_min
  rb_delete_min-NoFault zero t h = tt
  rb_delete_min-NoFault (suc fuel) null h = absurd h.0
  rb_delete_min-NoFault (suc fuel) (node c null k v null) h = tt
  rb_delete_min-NoFault (suc fuel) (node c null k v (node true rl rk rv rr)) h =
      absurd (ground (arith, h.2.0))
  rb_delete_min-NoFault (suc fuel) (node c null k v (node false rl rk rv rr)) h =
      absurd (ground (arith, h.1.0))
  rb_delete_min-NoFault (suc fuel) (node c (node lc ll lk lv lr) k v r) h =
      let l : RbNode K V = node lc ll lk lv lr in
      min-left-NoFault (rb_delete_min fuel) k l (leave_left (node c l k v r))
        (leave_left-LeftReady c l k v r tt h.1 h.2) (rb_delete_min-NoFault fuel)

  pub put_min-NoFault :
      (go : RbNode K V → Run (RbNode K V)) (c : Bool) (l r : RbNode K V)
      → IsReady r
      → NoFault (go r)
      → NoFault (put_min go c l r)
  unfolding put_min min_node
  put_min-NoFault go c l r ready h = by_min (min_node r) (min_node-some r ready.0)
    where
      min_node-some : (t : RbNode K V) → IsNode t → min_node t ≢ none
      min_node-some null n e = absurd n
      min_node-some (node c null k v r) n e = absurd (cc)
      min_node-some (node c (node lc ll lk lv lr) k v r) n e =
          min_node-some (node lc ll lk lv lr) tt e

      by_min :
          (m : Option (K × V))
          → m ≢ none
          → NoFault (elim m [ none ↦ fault | some (k, v) ↦ down_right go (node c l k v r) ])
      by_min none ne = absurd (ne refl)
      by_min (some (k, v)) ne = down_right-NoFault go c l k v r h
