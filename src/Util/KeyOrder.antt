-- ===== src/Util/KeyOrder.antt =====
-- `RBCmp`, which each file that includes src/co/util/rbtree.c.h defines for its key type.
-- The sign of the returned `int` is read as an ordering. The laws say that it is a strict total
-- order; the instances prove them of the comparison functions of sym.c and constcache.c.
use Prim.Native.Nat.{compare, Ordering}
use Prim.Native.Nat.Ordering.{lt, eq, gt}
use colang.Prelude.{ℕ, ◌≡◌, refl, ◌⊎◌, inl, inr, arith}

pub record KeyOrder {ℓ} (K : Type ℓ) : Type ℓ where
  pub cmp : K → K → Ordering
  pub lt_trans : (x y z : K) → cmp x y ≡ lt → cmp y z ≡ lt → cmp x z ≡ lt
  pub gt_of_lt : (x y : K) → cmp x y ≡ lt → cmp y x ≡ gt
  pub eq_of_cmp : (a b : K) → cmp a b ≡ eq → a ≡ b
  pub lt_of_gt : (x y : K) → cmp x y ≡ gt → cmp y x ≡ lt
  pub cmp_refl : (k : K) → cmp k k ≡ eq

pub compare_trans : (a b c : ℕ) → compare a b ≡ lt → compare b c ≡ lt → compare a c ≡ lt
compare_trans a b c p q = ground arith

pub compare_refl : (a : ℕ) → compare a a ≡ eq
compare_refl a = ground arith

pub eq_of_compare : (a b : ℕ) → compare a b ≡ eq → a ≡ b
eq_of_compare a b h = ground arith

pub lt_of_compare-gt : (a b : ℕ) → compare a b ≡ gt → compare b a ≡ lt
lt_of_compare-gt a b h = ground arith

pub gt_of_compare-lt : (a b : ℕ) → compare a b ≡ lt → compare b a ≡ gt
gt_of_compare-lt a b h = ground arith

-- The order on machine words.
instance abbrev pub word_order : KeyOrder ℕ
word_order = record {
  cmp = compare;
  cmp_refl = compare_refl;
  eq_of_cmp = eq_of_compare;
  lt_of_gt = lt_of_compare-gt;
  gt_of_lt = gt_of_compare-lt;
  lt_trans = compare_trans;
}

-- To split on the outcome of a comparison.
pub Ordering-cases : (a : Ordering) → (a ≡ lt) ⊎ (a ≡ eq) ⊎ (a ≡ gt)
Ordering-cases lt = inl refl
Ordering-cases eq = inr (inl refl)
Ordering-cases gt = inr (inr refl)
