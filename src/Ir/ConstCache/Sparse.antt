-- ===== src/Ir/ConstCache/Sparse.antt =====
-- A dense array under a bit set is a sparse array: what stands at a bit, and how an insertion and a
-- write change it.
use colang.Prelude.{
  ℕ, zero, suc, ◌<◌, ◌/◌, ◌%◌, ◌≡◌, refl, ap, ◌∙◌, sym, false, Option, none, some, List, [], ◌∷◌,
  ◌++◌, if◌then◌else◌, take, drop, get_elem?, length, arith, ◌==◌, inl, inr,
}
use colang.Ir.Bits.{
  popcount, test_bit, bits_below, set_bit, test_bit-zero, test_bit-suc, bits_below-zero,
  popcount-zero, popcount-bits_below_one, popcount-bits_below_clear, popcount-suc, parity,
  set_bit-zero_div, set_bit-zero_mod, set_bit-suc_div, set_bit-suc_mod,
}

popcount-set_bit :
    (w x t : ℕ) → t < w → test_bit x t ≡ false → popcount w (set_bit x t) ≡ suc (popcount w x)
popcount-set_bit zero x t h clear = elim h [ ]
popcount-set_bit (suc w) x zero h clear =
    rw (popcount-suc, popcount-suc, set_bit-zero_div x clear)
      (ground (arith, set_bit-zero_mod x clear, test_bit-zero x))
popcount-set_bit (suc w) x (suc t) h clear =
    rw (popcount-suc, popcount-suc, set_bit-suc_div, set_bit-suc_mod)
      (omega (arith, popcount-set_bit w (x / 2) t (omega arith) (sym (test_bit-suc x t) ∙ clear)))

module _ {ℓ} {A : Type ℓ} where
  length-insert :
      (i : ℕ) (xs : List A) (a : A) → length (take i xs ++ (a ∷ drop i xs)) ≡ suc (length xs)
  length-insert zero xs a = refl
  length-insert (suc i) [] a = refl
  length-insert (suc i) (x ∷ xs) a = ap suc (length-insert i xs a)

  unfoldable pub sparse_get : ℕ → ℕ → List A → ℕ → Option A
  sparse_get w x xs t = if test_bit x t then get_elem? xs (popcount w (bits_below x t)) else none

  unfoldable pub sparse_insert : ℕ → ℕ → List A → ℕ → A → List A
  sparse_insert w x xs t a = let i = popcount w (bits_below x t) in take i xs ++ (a ∷ drop i xs)

  sparse_get-zero :
      (w x : ℕ) (xs : List A) → sparse_get w x xs 0 ≡ (if x % 2 == 1 then get_elem? xs 0 else none)
  unfolding sparse_get
  sparse_get-zero w x xs = rw (bits_below-zero, popcount-zero, test_bit-zero) refl

  sparse_get-suc_one :
      (w x t : ℕ) (a : A) (xs : List A)
      → x % 2 ≡ 1
      → sparse_get (suc w) x (a ∷ xs) (suc t) ≡ sparse_get w (x / 2) xs t
  unfolding sparse_get
  sparse_get-suc_one w x t a xs h = rw (test_bit-suc, popcount-bits_below_one w x t h) refl

  sparse_get-suc_clear :
      (w x t : ℕ) (xs : List A)
      → x % 2 ≡ 0
      → sparse_get (suc w) x xs (suc t) ≡ sparse_get w (x / 2) xs t
  unfolding sparse_get
  sparse_get-suc_clear w x t xs h = rw (test_bit-suc, popcount-bits_below_clear w x t h) refl

  sparse_insert-zero : (w x : ℕ) (xs : List A) (a : A) → sparse_insert w x xs 0 a ≡ a ∷ xs
  unfolding sparse_insert
  sparse_insert-zero w x xs a = rw (bits_below-zero, popcount-zero) refl

  sparse_insert-suc_one :
      (w x t : ℕ) (b : A) (xs : List A) (a : A)
      → x % 2 ≡ 1
      → sparse_insert (suc w) x (b ∷ xs) (suc t) a ≡ b ∷ sparse_insert w (x / 2) xs t a
  unfolding sparse_insert
  sparse_insert-suc_one w x t b xs a h = rw (popcount-bits_below_one w x t h) refl

  sparse_insert-suc_clear :
      (w x t : ℕ) (xs : List A) (a : A)
      → x % 2 ≡ 0
      → sparse_insert (suc w) x xs (suc t) a ≡ sparse_insert w (x / 2) xs t a
  unfolding sparse_insert
  sparse_insert-suc_clear w x t xs a h = rw (popcount-bits_below_clear w x t h) refl

  -- One level of the induction below, at an even and at an odd set.
  insert_clear :
      (w x : ℕ) (xs : List A) (t u : ℕ) (a : A)
      → x % 2 ≡ 0
      → u < suc w
      → ((j : ℕ)
          → j < w
          → sparse_get w (set_bit (x / 2) t) (sparse_insert w (x / 2) xs t a) j
            ≡ (if t == j then some a else sparse_get w (x / 2) xs j))
      → sparse_get (suc w) (set_bit x (suc t)) (sparse_insert (suc w) x xs (suc t) a) u
        ≡ (if suc t == u then some a else sparse_get (suc w) x xs u)
  insert_clear w x xs t zero a even hu ih =
      rw (sparse_get-zero, sparse_get-zero, set_bit-suc_mod, even) (ground arith)
  insert_clear w x xs t (suc u) a even hu ih =
      rw
        (
          sparse_get-suc_clear w (set_bit x (suc t)) u _ (set_bit-suc_mod x t ∙ even),
          sparse_get-suc_clear w x u xs even,
          sparse_insert-suc_clear w x t xs a even,
          set_bit-suc_div,
        )
        (ground (arith, ih u (omega arith)))

  insert_one :
      (w x : ℕ) (xs : List A) (t u : ℕ) (a : A)
      → x % 2 ≡ 1
      → u < suc w
      → length xs ≡ popcount (suc w) x
      → ((ys : List A) (j : ℕ)
          → j < w
          → length ys ≡ popcount w (x / 2)
          → sparse_get w (set_bit (x / 2) t) (sparse_insert w (x / 2) ys t a) j
            ≡ (if t == j then some a else sparse_get w (x / 2) ys j))
      → sparse_get (suc w) (set_bit x (suc t)) (sparse_insert (suc w) x xs (suc t) a) u
        ≡ (if suc t == u then some a else sparse_get (suc w) x xs u)
  insert_one w x [] t u a odd hu len ih = absurd (omega (arith, popcount-suc w x))
  insert_one w x (b ∷ xs) t zero a odd hu len ih =
      rw
        (
          sparse_insert-suc_one w x t b xs a odd,
          sparse_get-zero,
          sparse_get-zero,
          set_bit-suc_mod,
          odd,
        )
        (ground arith)
  insert_one w x (b ∷ xs) t (suc u) a odd hu len ih =
      rw
        (
          sparse_insert-suc_one w x t b xs a odd,
          sparse_get-suc_one w (set_bit x (suc t)) u b _ (set_bit-suc_mod x t ∙ odd),
          sparse_get-suc_one w x u b xs odd,
          set_bit-suc_div,
        )
        (ground (arith, ih xs u (omega arith) (omega (arith, popcount-suc w x))))

  -- An insertion at a clear bit adds the entry there, and moves the others with their bits.
  pub sparse_get-insert :
      (w x : ℕ) (xs : List A) (t u : ℕ) (a : A)
      → t < w
      → u < w
      → length xs ≡ popcount w x
      → test_bit x t ≡ false
      → sparse_get w (set_bit x t) (sparse_insert w x xs t a) u
        ≡ (if t == u then some a else sparse_get w x xs u)
  sparse_get-insert zero x xs t u a ht hu len clear = elim ht [ ]
  sparse_get-insert (suc w) x xs zero zero a ht hu len clear =
      rw (sparse_get-zero, sparse_insert-zero, set_bit-zero_mod x clear) refl
  sparse_get-insert (suc w) x xs zero (suc u) a ht hu len clear =
      let even : x % 2 ≡ 0 = ground (arith, test_bit-zero x) in
      rw
        (
          sparse_insert-zero,
          sparse_get-suc_one w (set_bit x 0) u a xs (set_bit-zero_mod x clear),
          set_bit-zero_div x clear,
          sparse_get-suc_clear w x u xs even,
        )
        (ground arith)
  sparse_get-insert (suc w) x xs (suc t) u a ht hu len clear = elim (parity x) [
    | inl even ↦
        let rest : length xs ≡ popcount w (x / 2) = omega (arith, popcount-suc w x) in
        insert_clear w x xs t u a even hu (λ j hj.
          sparse_get-insert w (x / 2) xs t j a (omega arith) hj rest
            (sym (test_bit-suc x t) ∙ clear))
    | inr odd ↦ insert_one w x xs t u a odd hu len (λ ys j hj rest.
        sparse_get-insert w (x / 2) ys t j a (omega arith) hj rest (sym (test_bit-suc x t) ∙ clear))
  ]

  length-sparse_insert-suc :
      (w x : ℕ) (xs : List A) (t : ℕ) (a : A) → length (sparse_insert w x xs t a) ≡ suc (length xs)
  unfolding sparse_insert
  length-sparse_insert-suc w x xs t a = length-insert (popcount w (bits_below x t)) xs a

  pub length-sparse_insert :
      (w x : ℕ) (xs : List A) (t : ℕ) (a : A)
      → t < w
      → length xs ≡ popcount w x
      → test_bit x t ≡ false
      → length (sparse_insert w x xs t a) ≡ popcount w (set_bit x t)
  length-sparse_insert w x xs t a ht len clear =
      length-sparse_insert-suc w x xs t a ∙ ap suc len ∙ sym (popcount-set_bit w x t ht clear)
