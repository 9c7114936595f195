-- ===== src/Tests/Ir.antt =====
-- The graph of a function on small inputs.
use colang.Prelude.{ℕ, zero, suc, ◌+◌, ◌≡◌, refl, some, [], ◌∷◌, arith}
use colang.Ir.ConstCache.{const_cache_get}
use colang.Ir.ConstCache.Valid.{empty_cache-IsValid}
use colang.Ir.Graph.{
  block_first, block_cont, Block, no_block, Fun, fun_new, block_new, value_alloc, value_add_arg,
  block_set_control,
}
use colang.Ir.Graph.Flow.{block_add_edge_to, block_free, move_block_to_end}
use colang.Ir.Graph.Flow.Edges.{IsLinked, EdgeAdded, block_add_edge_to-EdgeAdded}
use colang.Ir.Graph.Flow.Order.{move_block_to_end_lem}
use colang.Ir.Graph.Consts.{get_const64}
use colang.Ir.Graph.Consts.Cached.{HasConsts, ConstGiven, get_const64-ConstGiven}

abbrev block_zero : Block
block_zero = record no_block { kind = block_first }

abbrev one_block : Fun
one_block = record (fun_new 0) { bid = 1; blocks = 0 ∷ []; block_store = block_zero ∷ [] }

abbrev two_blocks : Fun
two_blocks = record one_block {
  bid = 2;
  blocks = 0 ∷ 1 ∷ [];
  block_store = block_zero ∷ record no_block { id = 1; kind = block_cont } ∷ [];
}

abbrev two_values : Fun
two_values = (value_alloc (value_alloc one_block 1 5 0).0 2 5 0).0

abbrev with_arg : Fun
with_arg = value_add_arg two_values 1 0

abbrev with_control : Fun
with_control = block_set_control with_arg 0 (some 0)

abbrev discarded : Fun
discarded = block_free (record with_control { blocks = [] }) 0

two_blocks-IsLinked : IsLinked two_blocks
unfolding fun_new block_new
two_blocks-IsLinked zero zero = refl
two_blocks-IsLinked zero (suc zero) = refl
two_blocks-IsLinked zero (suc (suc n)) = refl
two_blocks-IsLinked (suc zero) zero = refl
two_blocks-IsLinked (suc zero) (suc zero) = refl
two_blocks-IsLinked (suc zero) (suc (suc n)) = refl
two_blocks-IsLinked (suc (suc m)) zero = refl
two_blocks-IsLinked (suc (suc m)) (suc zero) = refl
two_blocks-IsLinked (suc (suc m)) (suc (suc n)) = refl

block_add_edge_to-EdgeAdded_example : EdgeAdded two_blocks 0 1 (block_add_edge_to two_blocks 0 1)
unfolding fun_new block_new
block_add_edge_to-EdgeAdded_example =
    block_add_edge_to-EdgeAdded two_blocks 0 1 (omega arith) (omega arith) two_blocks-IsLinked

abbrev four_blocks : Fun
four_blocks = record (fun_new 0) { blocks = 0 ∷ 1 ∷ 2 ∷ 3 ∷ [] }

move_block_to_end_lem_example :
    move_block_to_end four_blocks 1 ≡ some (record four_blocks { blocks = 0 ∷ 2 ∷ 3 ∷ 1 ∷ [] })
move_block_to_end_lem_example = move_block_to_end_lem four_blocks 1 (omega arith)

-- Every operation takes a number.
abbrev const_op : ℕ → ℕ
const_op code = code + 100

abbrev takes_number : ℕ → ℕ
takes_number op = 1

one_block-HasConsts : HasConsts const_op takes_number one_block
unfolding fun_new const_cache_get
one_block-HasConsts = record { valid = empty_cache-IsValid; filed = λ code value v h e. absurd cc }

get_const64-ConstGiven_example :
    ConstGiven const_op takes_number one_block 5 42
      (get_const64 const_op takes_number one_block 5 42)
get_const64-ConstGiven_example =
    get_const64-ConstGiven const_op takes_number one_block 5 42 (omega arith)
      (λ e. absurd (ground arith)) one_block-HasConsts
