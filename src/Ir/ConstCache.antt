-- ===== src/Ir/ConstCache.antt =====
-- src/co/ir/constcache.c: constants by type and value. The map of a type is a red-black tree; the
-- trees stand in a dense array, and bit `t` of `bmap` says that type `t` has one.
-- `RBFreeValue` hands memory back, and leaves no trace here.
pub mod Sparse
pub mod Index
pub mod Valid
pub mod Map
use colang.Prelude.{
  ℕ, zero, suc, ◌+◌, ◌-◌, ◌<◌, ◌≡◌, Bool, true, false, Option, none, some, List, [], ◌∷◌, ◌++◌,
  if◌then◌else◌, take, drop, set, get_elem?,
}
use colang.Ir.Bits.{popcount, test_bit, bits_below, set_bit}
use colang.Util.KeyOrder.{word_order}
use colang.Util.RbTree.{RbNode, null, rb_get, rb_set}

-- `branches` has `popcount(bmap)` entries.
pub record IrConstCache {ℓ} (V : Type ℓ) : Type ℓ where
  pub bmap : ℕ
  pub branches : List (RbNode ℕ V)

-- The bits of a `u32`.
abbrev pub word_bits : ℕ
word_bits = 32

unfoldable pub branches_len : ℕ → ℕ
branches_len bmap = popcount word_bits bmap

-- `bitindex(bmap, 1 << t)`
unfoldable pub bitindex : ℕ → ℕ → ℕ
bitindex bmap t = popcount word_bits (bits_below bmap t)

module _ {ℓ} {V : Type ℓ} where
  -- A read past the end of `branches` would be undefined; `none` stands for it.
  unfoldable pub branch_get : List (RbNode ℕ V) → ℕ → ℕ → Option V
  branch_get branches bi value = elim (get_elem? branches bi) [
    | none ↦ none
    | some branch ↦ rb_get branch value
  ]

  -- IRConstCacheGet: the value, and `*out_addHint`.
  unfoldable pub const_cache_get : Option (IrConstCache V) → ℕ → ℕ → Option V × ℕ
  const_cache_get none t value = (none, 0)
  const_cache_get (some c) t value =
      let bi = bitindex c.bmap t in
      if test_bit c.bmap t then (branch_get c.branches bi value, suc bi) else (none, 0)

  unfoldable pub branch_set : List (RbNode ℕ V) → ℕ → ℕ → V → List (RbNode ℕ V)
  branch_set branches bi value v = elim (get_elem? branches bi) [
    | none ↦ branches
    | some branch ↦ set branches bi (rb_set true branch value v)
  ]

  -- IRConstCacheAdd with `addHint`: 0, or what IRConstCacheGet gave for the same type.
  unfoldable pub const_cache_add : Option (IrConstCache V) → ℕ → ℕ → V → ℕ → IrConstCache V
  const_cache_add none t value v hint = record {
    bmap = set_bit 0 t;
    branches = rb_set true null value v ∷ [];
  }
  const_cache_add (some c) t value v (suc hint) = record c {
    branches = branch_set c.branches hint value v;
  }
  const_cache_add (some c) t value v zero =
      let bi = bitindex c.bmap t in
      if test_bit c.bmap t
      then record c { branches = branch_set c.branches bi value v }
      else record {
        bmap = set_bit c.bmap t;
        branches = take bi c.branches ++ (rb_set true null value v ∷ drop bi c.branches);
      }
