-- ===== src/Ir/ConstCache/Index.antt =====
-- The places of the set bits in the dense array: in range, and in the order of the bits.
use colang.Prelude.{
  ℕ, zero, suc, ◌<◌, ◌/◌, ◌%◌, ◌≡◌, refl, sym, ◌∙◌, true, false, some, List, [], ◌∷◌, if◌then◌else◌,
  get_elem?, set, length, arith, ◌==◌, inl, inr, Bool-cases,
}
use colang.Ir.Bits.{
  popcount, test_bit, bits_below, test_bit-zero, test_bit-suc, bits_below-zero, popcount-zero,
  popcount-bits_below_one, popcount-bits_below_clear, popcount-suc, parity,
}
use colang.Ir.ConstCache.Sparse.{sparse_get}

index-zero : (w x : ℕ) → popcount w (bits_below x 0) ≡ 0
index-zero w x = rw bits_below-zero (popcount-zero w)

pub index-lt :
    (w x t : ℕ) → t < w → test_bit x t ≡ true → popcount w (bits_below x t) < popcount w x
index-lt zero x t h one = elim h [ ]
index-lt (suc w) x zero h one =
    ground (arith, index-zero (suc w) x, popcount-suc w x, test_bit-zero x)
index-lt (suc w) x (suc t) h one =
    let ih = index-lt w (x / 2) t (omega arith) (sym (test_bit-suc x t) ∙ one) in
    elim (parity x) [
      | inl even ↦ omega (arith, ih, popcount-bits_below_clear w x t even, popcount-suc w x)
      | inr odd ↦ omega (arith, ih, popcount-bits_below_one w x t odd, popcount-suc w x)
    ]

index_mono :
    (w x t u : ℕ)
    → t < u
    → u < w
    → test_bit x t ≡ true
    → popcount w (bits_below x t) < popcount w (bits_below x u)
index_mono zero x t u h hu one = elim hu [ ]
index_mono (suc w) x t zero h hu one = elim h [ ]
index_mono (suc w) x zero (suc u) h hu one =
    let odd : x % 2 ≡ 1 = ground (arith, test_bit-zero x) in
    omega (arith, index-zero (suc w) x, popcount-bits_below_one w x u odd)
index_mono (suc w) x (suc t) (suc u) h hu one =
    let ih = index_mono w (x / 2) t u (omega arith) (omega arith) (sym (test_bit-suc x t) ∙ one) in
    elim (parity x) [
      | inl even ↦
          omega
            (arith, ih, popcount-bits_below_clear w x t even, popcount-bits_below_clear w x u even)
      | inr odd ↦
          omega (arith, ih, popcount-bits_below_one w x t odd, popcount-bits_below_one w x u odd)
    ]

index-eq :
    (w x t u : ℕ)
    → t < w
    → u < w
    → test_bit x t ≡ true
    → test_bit x u ≡ true
    → popcount w (bits_below x t) == popcount w (bits_below x u) ≡ t == u
index-eq w x t u ht hu one one' = ground (arith, index_mono w x t u, index_mono w x u t)

bits_ne : (x t u : ℕ) → test_bit x t ≡ true → test_bit x u ≡ false → t == u ≡ false
bits_ne x t u one clear = ground arith

module _ {ℓ} {A : Type ℓ} where
  get_elem?-set :
      (xs : List A) (i j : ℕ) (a : A)
      → i < length xs
      → get_elem? (set xs i a) j ≡ (if i == j then some a else get_elem? xs j)
  get_elem?-set [] i j a h = elim h [ ]
  get_elem?-set (x ∷ xs) zero zero a h = refl
  get_elem?-set (x ∷ xs) zero (suc j) a h = ground arith
  get_elem?-set (x ∷ xs) (suc i) zero a h = ground arith
  get_elem?-set (x ∷ xs) (suc i) (suc j) a h = ground (arith, get_elem?-set xs i j a)

  pub get_elem?-some : (xs : List A) (i : ℕ) → i < length xs → (a : A) × (get_elem? xs i ≡ some a)
  get_elem?-some [] i h = elim h [ ]
  get_elem?-some (x ∷ xs) zero h = (x, refl)
  get_elem?-some (x ∷ xs) (suc i) h = get_elem?-some xs i (omega arith)

  -- A write at a set bit changes what stands there, and nothing else.
  pub sparse_get-set :
      (w x : ℕ) (xs : List A) (t u : ℕ) (a : A)
      → t < w
      → u < w
      → length xs ≡ popcount w x
      → test_bit x t ≡ true
      → sparse_get w x (set xs (popcount w (bits_below x t)) a) u
        ≡ (if t == u then some a else sparse_get w x xs u)
  unfolding sparse_get
  sparse_get-set w x xs t u a ht hu len one =
      let i = popcount w (bits_below x t) in
      let j = popcount w (bits_below x u) in
      let inside : i < length xs = omega (arith, index-lt w x t ht one, len) in
      elim (Bool-cases (test_bit x u)) [
        | inl e ↦ rw (e, get_elem?-set xs i j a inside, index-eq w x t u ht hu one e) refl
        | inr e ↦ rw (e, bits_ne x t u one e) refl
      ]
