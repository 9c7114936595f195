-- ===== src/Ir/ConstCache/Valid.antt =====
-- The invariant of the cache: one branch for each set bit, each a red-black tree with an entry.
use mathlib.Core.Option.{some-injective}
use colang.Prelude.{
  ℕ, zero, suc, ◌<◌, ◌≡◌, ◌≢◌, refl, sym, ap, subst, ◌∙◌, true, false, Option, none, some, List, [],
  ◌∷◌, ◌++◌, get_elem?, set, take, drop, length, arith, inl, inr, Bool-cases, length-set,
}
use colang.Ir.Bits.{popcount, test_bit, set_bit, test_bit_clear, popcount-zero}
use colang.Ir.ConstCache.Sparse.{sparse_insert, length-sparse_insert}
use colang.Ir.ConstCache.Index.{index-lt, get_elem?-some}
use colang.Ir.ConstCache.{
  IrConstCache, word_bits, bitindex, branch_set, const_cache_get, const_cache_add,
}
use colang.Util.KeyOrder.{word_order}
use colang.Util.RbTree.{RbNode, null, node, rb_set, rb_has, rb_count}
use colang.Util.RbTree.Lookup.{IsOrdered, rb_set-IsOrdered, rb_count-rb_set}
use colang.Util.RbTree.Height.{IsRedBlack, rb_set-IsRedBlack}

module _ {ℓ} {V : Type ℓ} where
  -- What the cache asks of the tree of a type.
  pub record IsBranch (b : RbNode ℕ V) : Type 0 where
    pub ordered : IsOrdered b
    pub red_black : IsRedBlack b
    pub present : rb_count b ≢ 0

  abbrev pub AllBranches : List (RbNode ℕ V) → Type 0
  AllBranches [] = Unit
  AllBranches (b ∷ bs) = IsBranch b × AllBranches bs

  pub record IsValid (c : IrConstCache V) : Type 0 where
    pub dense : length c.branches ≡ popcount word_bits c.bmap
    pub branches_ok : AllBranches c.branches

  pub null-IsRedBlack : IsRedBlack {K = ℕ} {V = V} null
  null-IsRedBlack = record { root_black = refl; coloured = tt; balanced = tt }

  rb_has_count : (b : RbNode ℕ V) (q : ℕ) → rb_has b q ≡ true → rb_count b ≢ 0
  unfolding rb_has rb_count
  rb_has_count null q h = cc
  rb_has_count (node c l k v r) q h = omega arith

  rb_set-IsBranch :
      (b : RbNode ℕ V) (q : ℕ) (w : V) → IsOrdered b → IsRedBlack b → IsBranch (rb_set true b q w)
  rb_set-IsBranch b q w s h = record {
    ordered = rb_set-IsOrdered b q w s;
    red_black = rb_set-IsRedBlack true b q w h;
    present = ground (arith, rb_count-rb_set b q w s, rb_has_count b q);
  }

  AllBranches-get :
      (bs : List (RbNode ℕ V)) (i : ℕ) (b : RbNode ℕ V)
      → AllBranches bs
      → get_elem? bs i ≡ some b
      → IsBranch b
  AllBranches-get [] i b h e = cc
  AllBranches-get (x ∷ bs) zero b h e = subst IsBranch (some-injective x b e) h.0
  AllBranches-get (x ∷ bs) (suc i) b h e = AllBranches-get bs i b h.1 e

  AllBranches-set :
      (bs : List (RbNode ℕ V)) (i : ℕ) (b : RbNode ℕ V)
      → AllBranches bs
      → IsBranch b
      → AllBranches (set bs i b)
  AllBranches-set [] i b h e = tt
  AllBranches-set (x ∷ bs) zero b h e = (e, h.1)
  AllBranches-set (x ∷ bs) (suc i) b h e = (h.0, AllBranches-set bs i b h.1 e)

  AllBranches-insert :
      (bs : List (RbNode ℕ V)) (i : ℕ) (b : RbNode ℕ V)
      → AllBranches bs
      → IsBranch b
      → AllBranches (take i bs ++ (b ∷ drop i bs))
  AllBranches-insert bs zero b h e = (e, h)
  AllBranches-insert [] (suc i) b h e = (e, tt)
  AllBranches-insert (x ∷ bs) (suc i) b h e = (h.0, AllBranches-insert bs i b h.1 e)

  -- The two branches of IRConstCacheAdd without a hint.
  pub add_old :
      (c : IrConstCache V) (t value : ℕ) (v : V)
      → test_bit c.bmap t ≡ true
      → const_cache_add (some c) t value v 0
        ≡ record c { branches = branch_set c.branches (bitindex c.bmap t) value v }
  unfolding const_cache_add
  add_old c t value v e = rw e refl

  pub add_new :
      (c : IrConstCache V) (t value : ℕ) (v : V)
      → test_bit c.bmap t ≡ false
      → const_cache_add (some c) t value v 0 ≡ record {
        bmap = set_bit c.bmap t;
        branches = sparse_insert word_bits c.bmap c.branches t (rb_set true null value v);
      }
  unfolding const_cache_add sparse_insert bitindex
  add_new c t value v e = rw e refl

  -- IRConstCacheAdd with the hint that IRConstCacheGet gave for the same type does what it does
  -- without a hint.
  pub const_cache_add_hint :
      (c : Option (IrConstCache V)) (t value value' : ℕ) (v : V)
      → const_cache_add c t value v (const_cache_get c t value').1 ≡ const_cache_add c t value v 0
  unfolding const_cache_add const_cache_get
  const_cache_add_hint none t value value' v = refl
  const_cache_add_hint (some c) t value value' v = elim (Bool-cases (test_bit c.bmap t)) [
    | inl e ↦ rw e refl
    | inr e ↦ rw e (rw e refl)
  ]

  pub branch_set-some :
      (bs : List (RbNode ℕ V)) (i value : ℕ) (v : V) (b : RbNode ℕ V)
      → get_elem? bs i ≡ some b
      → branch_set bs i value v ≡ set bs i (rb_set true b value v)
  unfolding branch_set
  branch_set-some bs i value v b e = rw (e, branch_set) refl

  -- The branch that a set bit stands for.
  pub IsBranch-of :
      (c : IrConstCache V) (t : ℕ)
      → IsValid c
      → t < word_bits
      → test_bit c.bmap t ≡ true
      → (b : RbNode ℕ V) × (get_elem? c.branches (bitindex c.bmap t) ≡ some b) × IsBranch b
  IsBranch-of c t h ht one =
      let (b, e) = get_elem?-some c.branches (bitindex c.bmap t) inside in
      (b, e, AllBranches-get c.branches (bitindex c.bmap t) b h.branches_ok e)
    where
      inside : bitindex c.bmap t < length c.branches
      inside = unfold bitindex in rw h.dense (index-lt word_bits c.bmap t ht one)

  popcount-set_bit :
      (c : IrConstCache V) (t : ℕ) (b : RbNode ℕ V)
      → IsValid c
      → t < word_bits
      → test_bit c.bmap t ≡ false
      → length (sparse_insert word_bits c.bmap c.branches t b)
        ≡ popcount word_bits (set_bit c.bmap t)
  popcount-set_bit c t b h ht e = length-sparse_insert word_bits c.bmap c.branches t b ht h.dense e

  -- IRConstCacheAdd keeps the cache in order.
  pub const_cache_add-IsValid :
      (c : IrConstCache V) (t value : ℕ) (v : V)
      → IsValid c
      → t < word_bits
      → IsValid (const_cache_add (some c) t value v 0)
  const_cache_add-IsValid c t value v h ht = elim (Bool-cases (test_bit c.bmap t)) [
    | inl one ↦
        let i = bitindex c.bmap t in
        let (b, e, ok) = IsBranch-of c t h ht one in
        rw (add_old c t value v one, branch_set-some c.branches i value v b e)
          (record {
            dense = length-set c.branches i (rb_set true b value v) ∙ h.dense;
            branches_ok =
                AllBranches-set c.branches i _ h.branches_ok
                  (rb_set-IsBranch b value v ok.ordered ok.red_black);
          })
    | inr clear ↦ rw (add_new c t value v clear) (record {
      dense = popcount-set_bit c t _ h ht clear;
      branches_ok =
          unfold sparse_insert in
          AllBranches-insert c.branches _ _ h.branches_ok
            (rb_set-IsBranch null value v tt null-IsRedBlack);
    })
  ]

  -- NULL is the cache with no type.
  abbrev pub empty_cache : IrConstCache V
  empty_cache = record { bmap = 0; branches = [] }

  abbrev pub or_empty : Option (IrConstCache V) → IrConstCache V
  or_empty none = empty_cache
  or_empty (some c) = c

  pub empty_cache-IsValid : IsValid empty_cache
  empty_cache-IsValid = record { dense = sym (popcount-zero word_bits); branches_ok = tt }

  insert_nil : (i : ℕ) (b : RbNode ℕ V) → take i [] ++ (b ∷ drop i []) ≡ b ∷ []
  insert_nil zero b = refl
  insert_nil (suc i) b = refl

  pub add_none :
      (c : Option (IrConstCache V)) (t value : ℕ) (v : V)
      → const_cache_add c t value v 0 ≡ const_cache_add (some (or_empty c)) t value v 0
  add_none none t value v = rw (add_new empty_cache t value v (test_bit_clear t)) (
      unfold const_cache_add sparse_insert in
      ap (λ bs. record { bmap = set_bit 0 t; branches = bs }) (sym (insert_nil _ _)))
  add_none (some c) t value v = refl

  -- IRConstCacheAdd without a hint keeps a cache valid, from NULL on, for a type code below 32:
  -- one branch for each bit that is set, and every branch a tree that is ordered, red-black and
  -- not empty.
  pub const_cache_add_valid :
      (c : Option (IrConstCache V)) (t value : ℕ) (v : V)
      → IsValid (or_empty c)
      → t < word_bits
      → IsValid (const_cache_add c t value v 0)
  const_cache_add_valid c t value v h ht =
      rw (add_none c t value v) (const_cache_add-IsValid (or_empty c) t value v h ht)
