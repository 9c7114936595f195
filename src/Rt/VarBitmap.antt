-- ===== src/Rt/VarBitmap.antt =====
-- src/rt/sched.c: VarBitmap, a list of words of which eight bits each are used, as many as a
-- `size_t` has bytes. The mask has 32 bits, and so has its complement.
use colang.Prelude.{
  ℕ, zero, suc, ◌-◌, ◌/◌, ◌%◌, ◌^◌, ◌<◌, ◌≡◌, ◌≢◌, refl, ap, sym, ◌∙◌, Bool, true, false, List,
  arith, if◌then◌else◌, ◌==◌, get_or, set, length, get_or-set, Bool-cases, inl, inr, ==_iff,
  ne_of_test,
}
use colang.Ir.Bits.{
  test_bit, set_bit, test_bit-zero, test_bit-suc, set_bit-zero_div, set_bit-zero_mod,
  set_bit-suc_div, set_bit-suc_mod,
}

-- `x | (1 << t)`
abbrev or_bit : ℕ → ℕ → ℕ
or_bit x t = if test_bit x t then x else set_bit x t

-- `x & ~mask` with the mask `1 << t` of 32 bits.
abbrev and_not_bit : ℕ → ℕ → ℕ
and_not_bit x t = if test_bit x t then x % 2 ^ 32 - 2 ^ t else x % 2 ^ 32

unfoldable pub vbm_read : List ℕ → ℕ → Bool
vbm_read bm bit = test_bit (get_or bm (bit / 8) 0) (bit % 8)

unfoldable pub vbm_set : List ℕ → ℕ → List ℕ
vbm_set bm bit = set bm (bit / 8) (or_bit (get_or bm (bit / 8) 0) (bit % 8))

unfoldable pub vbm_clear : List ℕ → ℕ → List ℕ
vbm_clear bm bit = set bm (bit / 8) (and_not_bit (get_or bm (bit / 8) 0) (bit % 8))

same_suc : (t u : ℕ) → (suc t == suc u) ≡ (t == u)
same_suc t u = ground arith

same_bit : (i j : ℕ) → i / 8 ≡ j / 8 → (i % 8 == j % 8) ≡ (i == j)
same_bit i j e = ground arith

apart : (i j : ℕ) → i / 8 ≢ j / 8 → i == j ≡ false
apart i j ne = ground arith

apart_suc : (u : ℕ) → (0 == suc u) ≡ false
apart_suc u = ground arith

suc_apart : (t : ℕ) → (suc t == 0) ≡ false
suc_apart t = ground arith

-- At a clear bit.
test_bit-set_bit :
    (x t u : ℕ)
    → test_bit x t ≡ false
    → test_bit (set_bit x t) u ≡ (if t == u then true else test_bit x u)
test_bit-set_bit x zero zero clear =
    test_bit-zero (set_bit x 0) ∙ ap (λ y. y == 1) (set_bit-zero_mod x clear)
test_bit-set_bit x zero (suc u) clear = rw (apart_suc u) (
    test_bit-suc (set_bit x 0) u
    ∙ (ap (λ y. test_bit y u) (set_bit-zero_div x clear) ∙ sym (test_bit-suc x u)))
test_bit-set_bit x (suc t) zero clear = rw (suc_apart t) (
    test_bit-zero (set_bit x (suc t))
    ∙ (ap (λ y. y == 1) (set_bit-suc_mod x t) ∙ sym (test_bit-zero x)))
test_bit-set_bit x (suc t) (suc u) clear =
    test_bit-suc (set_bit x (suc t)) u
    ∙ (ap (λ y. test_bit y u) (set_bit-suc_div x t)
        ∙ (test_bit-set_bit (x / 2) t u (sym (test_bit-suc x t) ∙ clear)
            ∙ rw (same_suc t u, test_bit-suc x u) refl))

test_bit-or_bit : (x t u : ℕ) → test_bit (or_bit x t) u ≡ (if t == u then true else test_bit x u)
test_bit-or_bit x t u = elim (Bool-cases (test_bit x t)) [
  | inr clear ↦ rw clear (test_bit-set_bit x t u clear)
  | inl there ↦ elim (Bool-cases (t == u)) [
    | inl same ↦ rw (there, same) (ap (λ v. test_bit x v) (sym ((==_iff t u).0 same)) ∙ there)
    | inr other ↦ rw (there, other) refl
  ]
]

-- Within the words of the bitmap, vbm_read of a bit after vbm_set is true for the bit that was
-- set, and for every other bit what it was.
pub vbm_read-vbm_set :
    (bm : List ℕ) (i j : ℕ)
    → i / 8 < length bm
    → vbm_read (vbm_set bm i) j ≡ (if i == j then true else vbm_read bm j)
unfolding vbm_read vbm_set
vbm_read-vbm_set bm i j fits =
    let w : ℕ = or_bit (get_or bm (i / 8) 0) (i % 8) in
    ap (λ y. test_bit y (j % 8)) (get_or-set bm (i / 8) (j / 8) w 0 fits)
    ∙ elim (Bool-cases (i / 8 == j / 8)) [
      | inl word ↦
          rw
            (
              word,
              test_bit-or_bit (get_or bm (i / 8) 0) (i % 8) (j % 8),
              same_bit i j ((==_iff (i / 8) (j / 8)).0 word),
              (==_iff (i / 8) (j / 8)).0 word,
            )
            refl
      | inr other ↦ rw (other, apart i j (ne_of_test (i / 8) (j / 8) other)) refl
    ]
