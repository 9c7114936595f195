-- ===== src/Ir/ConstCache/Map.antt =====
-- The cache as a map from a type and a value to a constant.
use Prim.Native.Nat.{compare, Ordering}
use Prim.Native.Nat.Ordering.{lt, eq, gt}
use colang.Prelude.{
  ℕ, ◌<◌, ◌≡◌, ◌≢◌, refl, true, false, ◌&&◌, Option, none, some, if◌then◌else◌, get_elem?, set,
  arith, ◌==◌, inl, inr, Bool-cases, ==_iff,
}
use colang.Ir.Bits.{test_bit, test_bit_clear}
use colang.Ir.ConstCache.Sparse.{sparse_get, sparse_get-insert}
use colang.Ir.ConstCache.Index.{sparse_get-set}
use colang.Ir.ConstCache.{
  IrConstCache, word_bits, bitindex, branch_get, const_cache_get, const_cache_add,
}
use colang.Util.KeyOrder.{word_order}
use colang.Util.RbTree.{RbNode, null, rb_get, rb_set}
use colang.Util.RbTree.Inorder.{written}
use colang.Util.RbTree.Lookup.{IsOrdered, rb_get-rb_set}
use colang.Ir.ConstCache.Valid.{
  IsValid, add_old, add_new, add_none, const_cache_add_hint, branch_set-some, IsBranch-of, or_empty,
}

compare_of_same : (a b : ℕ) → a == b ≡ true → compare b a ≡ eq
compare_of_same a b e = ground arith

compare_of_other : (a b : ℕ) → a == b ≡ false → compare b a ≢ eq
compare_of_other a b e = ground arith

written_ne {ℓ} :
    {V : Type ℓ} (c : Ordering) (v : V) (old : Option V) → c ≢ eq → written c v old ≡ old
written_ne lt v old h = refl
written_ne eq v old h = absurd (h refl)
written_ne gt v old h = refl

module _ {ℓ} {V : Type ℓ} where
  -- What a lookup reads in the tree of a type, if the type has one.
  abbrev read : Option (RbNode ℕ V) → ℕ → Option V
  read none value = none
  read (some b) value = rb_get b value

  get-sparse :
      (c : IrConstCache V) (t value : ℕ)
      → (const_cache_get (some c) t value).0 ≡ read (sparse_get word_bits c.bmap c.branches t) value
  unfolding const_cache_get sparse_get bitindex branch_get
  get-sparse c t value = ground arith

  written_here :
      (value other : ℕ) (v : V) (old : Option V)
      → written (compare other value) v old ≡ (if value == other then some v else old)
  written_here value other v old = elim (Bool-cases (value == other)) [
    | inl e ↦ rw (e, compare_of_same value other e) refl
    | inr e ↦ rw e (written_ne (compare other value) v old (compare_of_other value other e))
  ]

  -- A read of type `u` after the tree of type `t` was written.
  read_written :
      (t u value other : ℕ) (v : V) (b : RbNode ℕ V) (old : Option (RbNode ℕ V))
      → IsOrdered b
      → (t ≡ u → read old other ≡ rb_get b other)
      → read (if t == u then some (rb_set true b value v) else old) other
        ≡ (if t == u && value == other then some v else read old other)
  read_written t u value other v b old s same = elim (Bool-cases (t == u)) [
    | inl e ↦ rw (e, rb_get-rb_set b value other v s, written_here, same ((==_iff t u).0 e)) refl
    | inr e ↦ rw e refl
  ]

  nothing_there :
      (c : IrConstCache V) (t : ℕ)
      → test_bit c.bmap t ≡ false
      → sparse_get word_bits c.bmap c.branches t ≡ none
  unfolding sparse_get
  nothing_there c t clear = rw clear refl

  something_there :
      (c : IrConstCache V) (t : ℕ) (b : RbNode ℕ V)
      → test_bit c.bmap t ≡ true
      → get_elem? c.branches (bitindex c.bmap t) ≡ some b
      → sparse_get word_bits c.bmap c.branches t ≡ some b
  unfolding sparse_get bitindex
  something_there c t b one e = rw one e

  old_branch :
      (c : IrConstCache V) (t u : ℕ) (b' : RbNode ℕ V)
      → IsValid c
      → t < word_bits
      → u < word_bits
      → test_bit c.bmap t ≡ true
      → sparse_get word_bits c.bmap (set c.branches (bitindex c.bmap t) b') u
        ≡ (if t == u then some b' else sparse_get word_bits c.bmap c.branches u)
  unfolding bitindex
  old_branch c t u b' h ht hu one =
      sparse_get-set word_bits c.bmap c.branches t u b' ht hu h.dense one

  -- A lookup after IRConstCacheAdd.
  pub const_cache_get-add :
      (c : IrConstCache V) (t u value other : ℕ) (v : V)
      → IsValid c
      → t < word_bits
      → u < word_bits
      → (const_cache_get (some (const_cache_add (some c) t value v 0)) u other).0
        ≡ (if t == u && value == other then some v else (const_cache_get (some c) u other).0)
  const_cache_get-add c t u value other v h ht hu = elim (Bool-cases (test_bit c.bmap t)) [
    | inl one ↦
        let i = bitindex c.bmap t in
        let (b, e, ok) = IsBranch-of c t h ht one in
        rw
          (
            add_old c t value v one,
            branch_set-some c.branches i value v b e,
            get-sparse,
            get-sparse,
          )
          (rw (old_branch c t u (rb_set true b value v) h ht hu one) (
            read_written t u value other v b (sparse_get word_bits c.bmap c.branches u) ok.ordered
              (λ same. rw (← same) (rw (something_there c t b one e) refl))))
    | inr clear ↦
        rw
          (
            add_new c t value v clear,
            get-sparse,
            get-sparse,
            sparse_get-insert word_bits c.bmap c.branches t u (rb_set true null value v) ht hu
                h.dense clear,
          )
          (read_written t u value other v null (sparse_get word_bits c.bmap c.branches u) tt
            (λ same. rw (← same) (rw (nothing_there c t clear) (unfold rb_get in refl))))
  ]

  get_none :
      (c : Option (IrConstCache V)) (t value : ℕ)
      → const_cache_get c t value ≡ const_cache_get (some (or_empty c)) t value
  unfolding const_cache_get
  get_none none t value = rw (test_bit_clear t) refl
  get_none (some c) t value = refl

  -- In a valid cache or NULL, for type codes below 32, after IRConstCacheAdd with the hint of a
  -- lookup of the same type, IRConstCacheGet gives the new value for the type and the constant
  -- that were added, and for every other pair what it gave before.
  pub const_cache_get-add_hint :
      (c : Option (IrConstCache V)) (t u value value' other : ℕ) (v : V)
      → IsValid (or_empty c)
      → t < word_bits
      → u < word_bits
      → (const_cache_get
          (some (const_cache_add c t value v (const_cache_get c t value').1))
          u
          other).0
        ≡ (if t == u && value == other then some v else (const_cache_get c u other).0)
  const_cache_get-add_hint c t u value value' other v h ht hu =
      rw (const_cache_add_hint c t value value' v, add_none c t value v, get_none c u other)
        (const_cache_get-add (or_empty c) t u value other v h ht hu)
