-- ===== src/Ir/Graph/Flow.antt =====
-- src/co/ir/ir.c: the edges between blocks, and the order of the blocks of a function.
pub mod Edges
pub mod Order
use colang.Prelude.{
  ℕ, zero, suc, ◌+◌, ◌-◌, Bool, true, false, not, ◌&&◌, ◌||◌, Option, none, some, List, [], ◌∷◌,
  if◌then◌else◌, ◌==◌, ltb, get_or, set, length, take,
}
use colang.Ir.Graph.{Fun, block_at, put_block}

-- The first of the two places that is free; `none` is the assertion that one is.
abbrev pub fill_slot : Option ℕ × Option ℕ → ℕ → Option (Option ℕ × Option ℕ)
fill_slot (none, q) b = some (some b, q)
fill_slot (some a, none) b = some (some a, some b)
fill_slot (some a, some c) b = none

-- IRBlockAddPred
unfoldable pub block_add_pred : Fun → ℕ → ℕ → Option Fun
block_add_pred f b pred =
    let blk = block_at f b in
    if blk.sealed then none else elim (fill_slot blk.preds pred) [
      | none ↦ none
      | some preds ↦ some (put_block f b (record blk { preds = preds }))
    ]

-- IRBlockAddSucc
unfoldable pub block_add_succ : Fun → ℕ → ℕ → Option Fun
block_add_succ f b succ =
    let blk = block_at f b in
    elim (fill_slot blk.succs succ) [
      | none ↦ none
      | some succs ↦ some (put_block f b (record blk { succs = succs }))
    ]

-- IRBlockAddEdgeTo. The blocks are of one function, as the state is.
unfoldable pub block_add_edge_to : Fun → ℕ → ℕ → Option Fun
block_add_edge_to f b1 b2 =
    if (block_at f b1).sealed
    then none
    else elim (block_add_succ f b1 b2) [ none ↦ none | some g ↦ block_add_pred g b2 b1 ]

-- `slots[index] = v`
abbrev pub set_slot : Option ℕ × Option ℕ → ℕ → Option ℕ → Option ℕ × Option ℕ
set_slot (p, q) zero v = (v, q)
set_slot (p, q) (suc n) v = (p, v)

-- IRBlockSetPred and IRBlockDelPred, whose assertions they share. Deleting what is not there changes
-- nothing, as the write of NULL does.
unfoldable pub block_set_pred : Fun → ℕ → ℕ → Option ℕ → Option Fun
block_set_pred f b index pred =
    let blk = block_at f b in
    if blk.sealed || not (ltb index 2)
    then none
    else some (put_block f b (record blk { preds = set_slot blk.preds index pred }))

-- IRBlockSetSucc and IRBlockDelSucc
unfoldable pub block_set_succ : Fun → ℕ → ℕ → Option ℕ → Option Fun
block_set_succ f b index succ =
    let blk = block_at f b in
    if not (ltb index 2)
    then none
    else some (put_block f b (record blk { succs = set_slot blk.succs index succ }))

-- The loop of IRFunMoveBlockToEnd, over the `left` places from `i`; then `blocks[i] = b`.
unfoldable pub shift_blocks : ℕ → ℕ → List ℕ → ℕ → List ℕ
shift_blocks zero i blocks b = set blocks i b
shift_blocks (suc left) i blocks b =
    shift_blocks left (i + 1) (set blocks i (get_or blocks (i + 1) 0)) b

-- IRFunMoveBlockToEnd
unfoldable pub move_block_to_end : Fun → ℕ → Option Fun
move_block_to_end f index =
    if ltb index (length f.blocks)
    then some (
        if ltb (index + 1) (length f.blocks)
        then record f {
          blocks =
              shift_blocks (length f.blocks - 1 - index) index f.blocks (get_or f.blocks index 0);
        }
        else f)
    else none

-- ArrayIndexOf, and ArrayRemove of one entry.
abbrev pub remove_first : ℕ → List ℕ → Option (List ℕ)
remove_first b [] = none
remove_first b (x ∷ xs) =
    if x == b then some xs else elim (remove_first b xs) [ none ↦ none | some ys ↦ some (x ∷ ys) ]

-- `memfree(b->f->mem, b)`
abbrev pub block_free : Fun → ℕ → Fun
block_free f b = put_block f b (record (block_at f b) { freed = true })

-- IRBlockDiscard. The assertions on the other blocks are made in a debug build only.
unfoldable pub block_discard : Fun → ℕ → Option Fun
block_discard f b =
    let last = length f.blocks - 1 in
    if ltb 0 (length f.blocks) && (get_or f.blocks last 0 == b)
    then some (block_free (record f { blocks = take last f.blocks }) b)
    else elim (remove_first b f.blocks) [
      | none ↦ none
      | some blocks ↦ some (block_free (record f { blocks = blocks }) b)
    ]
