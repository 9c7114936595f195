-- ===== src/Ir/Graph/Uses/Reach.antt =====
-- Every function that the operations of ir.c can build has its use counts right.
use colang.Prelude.{
  ℕ, ◌+◌, Bool, false, List, [], ◌∷◌, if◌then◌else◌, ◌<◌, ◌≡◌, not, Option, some, length,
}
use colang.Ir.Graph.{
  BlockKind, Block, Fun, value_at, block_at, fun_new, block_new, value_alloc, block_add_value,
  value_add_arg, value_set_arg, value_clear_arg, value_clone, block_set_control,
}
use colang.Ir.Graph.Flow.{
  block_add_edge_to, block_set_pred, block_set_succ, move_block_to_end, block_discard,
}
use colang.Ir.Graph.Uses.{control_count}
use colang.Ir.Graph.Uses.Stores.{InStore}

-- A block that was allocated and not freed.
abbrev pub IsLive : Fun → ℕ → Type 0
IsLive f b = (b < length f.block_store) × ((block_at f b).freed ≡ false)

-- One call of an operation, with pointers that lead into the stores, none of them to a freed block. IRValueSetArg is called for an
-- argument that is there.
pub data Edit (f : Fun) : Fun → Type 0 where
  new_block :
      {g : Fun} (kind : BlockKind) (pos b : ℕ) → block_new f kind pos ≡ some (g, b) → Edit f g
  new_value : (op code pos : ℕ) → Edit f (value_alloc f op code pos).0
  add_value :
      {g : Fun} (b v : ℕ)
      → IsLive f b
      → v < length f.value_store
      → block_add_value f b v ≡ some g
      → Edit f g
  add_arg :
      (v arg : ℕ)
      → v < length f.value_store
      → arg < length f.value_store
      → Edit f (value_add_arg f v arg)
  set_arg :
      (v index arg : ℕ)
      → v < length f.value_store
      → arg < length f.value_store
      → index < length (value_at f v).args
      → Edit f (value_set_arg f v index arg)
  clear_arg : (v index : ℕ) → v < length f.value_store → Edit f (value_clear_arg f v index)
  clone : (v : ℕ) → v < length f.value_store → Edit f (value_clone f v).0
  set_control : (b : ℕ) (v : Option ℕ) → IsLive f b → InStore f v → Edit f (block_set_control f b v)
  add_edge :
      {g : Fun} (b1 b2 : ℕ)
      → IsLive f b1
      → IsLive f b2
      → block_add_edge_to f b1 b2 ≡ some g
      → Edit f g
  set_pred :
      {g : Fun} (b index : ℕ) (pred : Option ℕ)
      → IsLive f b
      → block_set_pred f b index pred ≡ some g
      → Edit f g
  set_succ :
      {g : Fun} (b index : ℕ) (succ : Option ℕ)
      → IsLive f b
      → block_set_succ f b index succ ≡ some g
      → Edit f g
  move_to_end : {g : Fun} (index : ℕ) → move_block_to_end f index ≡ some g → Edit f g
  discard : {g : Fun} (b : ℕ) → IsLive f b → block_discard f b ≡ some g → Edit f g

pub data Built (nparams : ℕ) : Fun → Type 0 where
  start : Built nparams (fun_new nparams)
  later : {f g : Fun} → Built nparams f → Edit f g → Built nparams g

-- The controls of the blocks whose `freed` is `dead`.
abbrev pub controls_where : Bool → ℕ → List Block → ℕ
controls_where dead a [] = 0
controls_where dead a (x ∷ xs) =
    let rest = controls_where dead a xs in
    if (if dead then x.freed else not x.freed) then control_count a x.control + rest else rest
