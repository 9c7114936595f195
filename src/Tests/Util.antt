-- ===== src/Tests/Util.antt =====
-- The red-black tree, the array and the symbols on small inputs.
use colang.Prelude.{ℕ, ◌+◌, ◌/◌, ◌^◌, ◌≤◌, ◌≡◌, refl, true, some, List, [], ◌∷◌, arith}
use colang.Util.KeyOrder.{word_order}
use colang.Util.Sym.Order.{sym_order}
use colang.Util.RbTree.{RbNode, null, rb_get, rb_set, rb_count}
use colang.Util.RbTree.Lookup.{IsOrdered, rb_set-IsOrdered, rb_get-rb_set}
use colang.Util.RbTree.Height.{IsRedBlack, height, rb_set-IsRedBlack, pow_height-le}
use colang.Util.Array.{Array, array_push}
use colang.Util.Array.Growth.{IsArray, IsPushed, array_push-IsPushed}
use colang.Util.Sym.{SymPool, sym_key, symget}
use colang.Util.Sym.Intern.{IsInterned, symget-IsInterned, symget_twice}

abbrev small_tree : RbNode ℕ ℕ
small_tree = rb_set true (rb_set true null 1 10) 2 20

small_tree-IsOrdered : IsOrdered small_tree
small_tree-IsOrdered = rb_set-IsOrdered (rb_set true null 1 10) 2 20 (rb_set-IsOrdered null 1 10 tt)

null-IsRedBlack : IsRedBlack {K = ℕ} {V = ℕ} null
null-IsRedBlack = record { root_black = refl; coloured = tt; balanced = tt }

small_tree-IsRedBlack : IsRedBlack small_tree
small_tree-IsRedBlack =
    rb_set-IsRedBlack true (rb_set true null 1 10) 2 20
      (rb_set-IsRedBlack true null 1 10 null-IsRedBlack)

rb_get-rb_set_example : rb_get (rb_set true small_tree 3 30) 3 ≡ some 30
rb_get-rb_set_example = rb_get-rb_set small_tree 3 3 30 small_tree-IsOrdered

rb_set-IsRedBlack_example : IsRedBlack (rb_set true small_tree 3 30)
rb_set-IsRedBlack_example = rb_set-IsRedBlack true small_tree 3 30 small_tree-IsRedBlack

pow_height-le_example : 2 ^ (height small_tree / 2) ≤ rb_count small_tree + 1
pow_height-le_example = pow_height-le small_tree small_tree-IsRedBlack

abbrev two_entries : Array
two_entries = record { v = 5 ∷ 6 ∷ 0 ∷ []; cap = 3; len = 2; onstack = true }

two_entries-IsArray : IsArray two_entries
two_entries-IsArray = record { stored = refl; fits = omega arith }

array_push-IsPushed_example : IsPushed two_entries 7 (array_push two_entries 7)
array_push-IsPushed_example = array_push-IsPushed two_entries 7 two_entries-IsArray (omega arith)

abbrev sum_hash : List ℕ → ℕ
sum_hash [] = 0
sum_hash (c ∷ rest) = c + sum_hash rest

-- A pool with one base pool, and the name `ab`.
abbrev base_tree : RbNode (List ℕ) ℕ
base_tree = rb_set true null (sym_key 195 (97 ∷ 98 ∷ [])) 64

abbrev small_pool : SymPool
small_pool = record { root = rb_set true null (sym_key 97 (97 ∷ [])) 32; bases = base_tree ∷ [] }

small_pool-IsOrdered : IsOrdered small_pool.root
small_pool-IsOrdered = rb_set-IsOrdered null (sym_key 97 (97 ∷ [])) 32 tt

symget-IsInterned_example :
    IsInterned sum_hash small_pool (98 ∷ []) (symget sum_hash small_pool (98 ∷ []) 96)
symget-IsInterned_example =
    symget-IsInterned sum_hash small_pool (98 ∷ []) 96 (omega arith) small_pool-IsOrdered

symget_twice_example :
    symget sum_hash (symget sum_hash small_pool (98 ∷ []) 96).0 (98 ∷ []) 128
    ≡ symget sum_hash small_pool (98 ∷ []) 96
symget_twice_example =
    symget_twice sum_hash small_pool (98 ∷ []) 96 128 (omega arith) small_pool-IsOrdered
