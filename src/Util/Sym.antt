-- ===== src/Util/Sym.antt =====
-- src/co/util/sym.h and sym.c: the pool of interned symbols. A symbol is a pointer, a number here;
-- the bytes behind it never change, so that the tree has them as its key: the hash, the length and
-- the text in one list, in the order in which RBCmp reads them. The hash is xxHash's, a parameter.
-- The locks of the pool make each operation one step. memalloc is taken to succeed.
pub mod Order
pub mod Intern
pub mod Header
use Prim.Native.Nat.{compare, Ordering, bit_or}
use Prim.Native.Nat.Ordering.{lt, eq, gt}
use colang.Prelude.{
  ℕ, ◌+◌, ◌*◌, ◌/◌, ◌%◌, ◌^◌, Bool, true, false, Option, none, some, List, [], ◌∷◌, if◌then◌else◌,
  length, leb, take,
}
use colang.Util.KeyOrder.{KeyOrder}
use colang.Util.RbTree.{RbNode, null, node}
use colang.Util.RbTree.KeySet.{rb_add_key}
use colang.Util.Sym.Order.{sym_cmp, sym_order}

abbrev pub sym_flag_bits : ℕ
sym_flag_bits = 5

-- SYM_MAKELEN: the flags in the five highest bits of 32, the length in the 27 others.
unfoldable pub sym_makelen : ℕ → ℕ → ℕ
sym_makelen len flags = bit_or (flags % 2 ^ 5 * 2 ^ 27) (len % 2 ^ 27)

-- symlen and symflags, of the length word in the header.
unfoldable pub symlen : ℕ → ℕ
symlen word = word % 2 ^ 27

unfoldable pub symflags : ℕ → ℕ
symflags word = word / 2 ^ 27

-- sym_dangerously_set_flags, of the length word.
unfoldable pub with_flags : ℕ → ℕ → ℕ
with_flags word flags = bit_or (flags % 2 ^ 5 * 2 ^ 27) (symlen word)

-- What symlookup compares the symbols in the tree with.
abbrev pub sym_key : ℕ → List ℕ → List ℕ
sym_key hash text = hash ∷ length text ∷ text

-- What RBCmp reads of a new symbol: the length word holds 27 bits of the length.
unfoldable pub stored_key : ℕ → List ℕ → List ℕ
stored_key hash text = let len = symlen (sym_makelen (length text) 0) in hash ∷ len ∷ take len text

-- The loop of symlookup.
unfoldable pub symlookup : RbNode (List ℕ) ℕ → List ℕ → Option ℕ
symlookup null q = none
symlookup (node c l b s r) q = elim (sym_cmp q b) [
  | lt ↦ symlookup l q
  | gt ↦ symlookup r q
  | eq ↦ some s
]

-- The loop over a pool and its base pools.
unfoldable pub lookup_chain : List (RbNode (List ℕ) ℕ) → List ℕ → Option ℕ
lookup_chain [] q = none
lookup_chain (root ∷ bases) q =
    let further = lookup_chain bases q in
    elim (symlookup root q) [ some s ↦ some s | none ↦ further ]

-- A pool: its tree, and the trees of its base pools, the nearest first.
pub record SymPool : Type 0 where
  pub root : RbNode (List ℕ) ℕ
  pub bases : List (RbNode (List ℕ) ℕ)

-- `s` is the new allocation; where an equal symbol is there it is freed again.
unfoldable pub added_or_found : ℕ → RbNode (List ℕ) ℕ → List ℕ → Bool → Option ℕ
added_or_found s root q added = if added then some s else symlookup root q

-- symaddh asserts that the length fits 32 bits, and that the lookup finds the symbol: `none` is a
-- failed assertion.
unfoldable pub symaddh : SymPool → ℕ → List ℕ → ℕ → SymPool × Option ℕ
symaddh p hash text s =
    let (root, added) = rb_add_key true p.root (stored_key hash text) s in
    if leb (length text) 0xFFFFFFFF
    then (record p { root = root }, added_or_found s root (sym_key hash text) added)
    else (p, none)

module _ (hash : List ℕ → ℕ) where
  unfoldable pub symfind : SymPool → List ℕ → Option ℕ
  symfind p text = lookup_chain (p.root ∷ p.bases) (sym_key (hash text) text)

  unfoldable pub found_or_added : Option ℕ → SymPool → List ℕ → ℕ → SymPool × Option ℕ
  found_or_added (some s) p text addr = (p, some s)
  found_or_added none p text addr = symaddh p (hash text) text addr

  -- `addr` is where the allocator would put a new symbol.
  unfoldable pub symget : SymPool → List ℕ → ℕ → SymPool × Option ℕ
  symget p text addr = found_or_added (symfind p text) p text addr

  unfoldable pub symadd : SymPool → List ℕ → ℕ → SymPool × Option ℕ
  symadd p text addr = symaddh p (hash text) text addr
