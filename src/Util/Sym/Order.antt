-- ===== src/Util/Sym/Order.antt =====
-- sym.c's RBCmp: by the hash, the length and the bytes, one after the other.
use Prim.Native.Nat.{compare, Ordering}
use Prim.Native.Nat.Ordering.{lt, eq, gt}
use colang.Prelude.{ℕ, ◌≡◌, refl, List, [], ◌∷◌, arith}
use colang.Util.KeyOrder.{KeyOrder, compare_refl}

-- `if (a < b) return -1; if (a > b) return 1;`, then the rest.
abbrev pub or_then : Ordering → Ordering → Ordering
or_then lt next = lt
or_then gt next = gt
or_then eq next = next

abbrev pub sym_cmp : List ℕ → List ℕ → Ordering
sym_cmp [] [] = eq
sym_cmp [] (y ∷ ys) = lt
sym_cmp (x ∷ xs) [] = gt
sym_cmp (x ∷ xs) (y ∷ ys) = or_then (compare x y) (sym_cmp xs ys)

pub sym_cmp_refl : (a : List ℕ) → sym_cmp a a ≡ eq
sym_cmp_refl [] = refl
sym_cmp_refl (x ∷ xs) = rw (compare_refl x) (sym_cmp_refl xs)

pub eq_of_sym_cmp : (a b : List ℕ) → sym_cmp a b ≡ eq → a ≡ b
eq_of_sym_cmp [] [] h = refl
eq_of_sym_cmp [] (y ∷ ys) h = absurd (ground arith)
eq_of_sym_cmp (x ∷ xs) [] h = absurd (ground arith)
eq_of_sym_cmp (x ∷ xs) (y ∷ ys) h =
    let head : x ≡ y = ground arith in
    let tail : sym_cmp xs ys ≡ eq = ground arith in rw (head, eq_of_sym_cmp xs ys tail) refl

pub lt_of_sym_cmp-gt : (a b : List ℕ) → sym_cmp a b ≡ gt → sym_cmp b a ≡ lt
lt_of_sym_cmp-gt [] [] h = absurd (ground arith)
lt_of_sym_cmp-gt [] (y ∷ ys) h = absurd (ground arith)
lt_of_sym_cmp-gt (x ∷ xs) [] h = refl
lt_of_sym_cmp-gt (x ∷ xs) (y ∷ ys) h = ground (arith, lt_of_sym_cmp-gt xs ys)

pub gt_of_sym_cmp-lt : (a b : List ℕ) → sym_cmp a b ≡ lt → sym_cmp b a ≡ gt
gt_of_sym_cmp-lt [] [] h = absurd (ground arith)
gt_of_sym_cmp-lt [] (y ∷ ys) h = refl
gt_of_sym_cmp-lt (x ∷ xs) [] h = absurd (ground arith)
gt_of_sym_cmp-lt (x ∷ xs) (y ∷ ys) h = ground (arith, gt_of_sym_cmp-lt xs ys)

pub sym_cmp_trans : (a b c : List ℕ) → sym_cmp a b ≡ lt → sym_cmp b c ≡ lt → sym_cmp a c ≡ lt
sym_cmp_trans [] [] c p q = absurd (ground arith)
sym_cmp_trans [] (y ∷ ys) [] p q = absurd (ground arith)
sym_cmp_trans [] (y ∷ ys) (z ∷ zs) p q = refl
sym_cmp_trans (x ∷ xs) [] c p q = absurd (ground arith)
sym_cmp_trans (x ∷ xs) (y ∷ ys) [] p q = absurd (ground arith)
sym_cmp_trans (x ∷ xs) (y ∷ ys) (z ∷ zs) p q = ground (arith, sym_cmp_trans xs ys zs)

instance abbrev pub sym_order : KeyOrder (List ℕ)
sym_order = record {
  cmp = sym_cmp;
  cmp_refl = sym_cmp_refl;
  eq_of_cmp = eq_of_sym_cmp;
  lt_of_gt = lt_of_sym_cmp-gt;
  gt_of_lt = gt_of_sym_cmp-lt;
  lt_trans = sym_cmp_trans;
}
