-- ===== src/Ir/Bits.antt =====
-- A word as a set of bit numbers: the operations that src/co/ir/constcache.c makes on `bmap`.
-- `x & (1 << t)` is read off as the digit `x / 2 ^ t % 2`, `x & ((1 << t) - 1)` is `x % 2 ^ t`, and
-- `x | (1 << t)` at a clear bit is `x + 2 ^ t`.
use native.Mathlib.Nat.{pow-succ', div-one, div-div-eq-div-mul, mod-add-div}
use colang.Prelude.{
  ℕ, zero, suc, ◌+◌, ◌*◌, ◌/◌, ◌%◌, ◌^◌, ◌≡◌, refl, ◌∙◌, ◌⊎◌, Bool, false, arith, ◌==◌,
}

-- popcount of the lowest `w` bits.
unfoldable pub popcount : ℕ → ℕ → ℕ
popcount zero x = 0
popcount (suc w) x = x % 2 + popcount w (x / 2)

-- `(x & (1 << t)) != 0`
unfoldable pub test_bit : ℕ → ℕ → Bool
test_bit x t = x / 2 ^ t % 2 == 1

-- `x & ((1 << t) - 1)`
unfoldable pub bits_below : ℕ → ℕ → ℕ
bits_below x t = x % 2 ^ t

-- `x | (1 << t)`, at a bit that is clear.
unfoldable pub set_bit : ℕ → ℕ → ℕ
set_bit x t = x + 2 ^ t

pub test_bit-zero : (x : ℕ) → test_bit x 0 ≡ (x % 2 == 1)
unfolding test_bit
test_bit-zero x = rw div-one

pub test_bit-suc : (x t : ℕ) → test_bit x (suc t) ≡ test_bit (x / 2) t
unfolding test_bit
test_bit-suc x t = rw (pow-succ', div-div-eq-div-mul x 2 (2 ^ t))

-- The lowest digit of a remainder, and the others.
bits_below-suc : (x t : ℕ) → bits_below x (suc t) ≡ x % 2 + 2 * bits_below (x / 2) t
unfolding bits_below
bits_below-suc x t =
    let whole : x % (2 * 2 ^ t) + 2 * 2 ^ t * (x / 2 / 2 ^ t) ≡ x =
      rw (div-div-eq-div-mul x 2 (2 ^ t)) (mod-add-div x (2 * 2 ^ t)) in
    rw pow-succ' (omega (arith, whole, mod-add-div (x / 2) (2 ^ t)))

pub bits_below-zero : (x : ℕ) → bits_below x 0 ≡ 0
unfolding bits_below
bits_below-zero x = omega arith

pub popcount-zero : (w : ℕ) → popcount w 0 ≡ 0
unfolding popcount
popcount-zero zero = refl
popcount-zero (suc w) = omega (arith, popcount-zero w)

pub popcount-bits_below_clear :
    (w x t : ℕ)
    → x % 2 ≡ 0
    → popcount (suc w) (bits_below x (suc t)) ≡ popcount w (bits_below (x / 2) t)
unfolding popcount
popcount-bits_below_clear w x t h =
    let high : bits_below x (suc t) / 2 ≡ bits_below (x / 2) t =
      omega (arith, bits_below-suc x t) in
    rw high (omega (arith, bits_below-suc x t))

pub popcount-bits_below_one :
    (w x t : ℕ)
    → x % 2 ≡ 1
    → popcount (suc w) (bits_below x (suc t)) ≡ suc (popcount w (bits_below (x / 2) t))
unfolding popcount
popcount-bits_below_one w x t h =
    let high : bits_below x (suc t) / 2 ≡ bits_below (x / 2) t =
      omega (arith, bits_below-suc x t) in
    rw high (omega (arith, bits_below-suc x t))

pub popcount-suc : (w x : ℕ) → popcount (suc w) x ≡ x % 2 + popcount w (x / 2)
unfolding popcount
popcount-suc w x = refl

pub parity : (x : ℕ) → (x % 2 ≡ 0) ⊎ (x % 2 ≡ 1)
parity x = ground arith

pub set_bit-zero_div : (x : ℕ) → test_bit x 0 ≡ false → set_bit x 0 / 2 ≡ x / 2
unfolding set_bit
set_bit-zero_div x h = ground (arith, test_bit-zero x)

pub set_bit-zero_mod : (x : ℕ) → test_bit x 0 ≡ false → set_bit x 0 % 2 ≡ 1
unfolding set_bit
set_bit-zero_mod x h = ground (arith, test_bit-zero x)

pub set_bit-suc_div : (x t : ℕ) → set_bit x (suc t) / 2 ≡ set_bit (x / 2) t
unfolding set_bit
set_bit-suc_div x t = omega (arith, pow-succ' 2 t)

pub set_bit-suc_mod : (x t : ℕ) → set_bit x (suc t) % 2 ≡ x % 2
unfolding set_bit
set_bit-suc_mod x t = omega (arith, pow-succ' 2 t)

pub test_bit_clear : (t : ℕ) → test_bit 0 t ≡ false
test_bit_clear zero = test_bit-zero 0
test_bit_clear (suc t) = test_bit-suc 0 t ∙ test_bit_clear t
