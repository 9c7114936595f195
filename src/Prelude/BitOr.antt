-- ===== src/Prelude/BitOr.antt =====
-- `bit_or` at variables: where the bits of the two sides do not meet, it is their sum.
use Prim.Native.Nat.{
  ℕ, zero, suc, ◌+◌, ◌*◌, ◌/◌, ◌%◌, ◌^◌, ◌≤◌, ◌<◌, max, bit_or, digits, bit_or-bitwise,
}
use mathlib.Core.Path.{◌≡◌, refl, ap}
use native.Mathlib.Nat.{pow-suc}
use native.Mathlib.Omega.{arith}

-- What `bit_or` stands for, with a count of the digits to go.
abbrev or_digits : ℕ → ℕ → ℕ → ℕ
or_digits n a b = digits (λ rest. rest) max n a b

-- Any count from the first number on will do.
or_digits_count : (n m a b : ℕ) → a ≤ n → a ≤ m → or_digits n a b ≡ or_digits m a b
or_digits_count zero zero a b p q = refl
or_digits_count zero (suc m) zero b p q = refl
or_digits_count zero (suc m) (suc a) b p q = absurd (omega arith)
or_digits_count (suc n) zero zero b p q = refl
or_digits_count (suc n) zero (suc a) b p q = absurd (omega arith)
or_digits_count (suc n) (suc m) zero b p q = refl
or_digits_count (suc n) (suc m) (suc a) b p q =
    ap (λ rest. rest * 2 + max (suc a % 2) (b % 2))
      (or_digits_count n m (suc a / 2) (b / 2) (omega arith) (omega arith))

zero_or : (b : ℕ) → bit_or 0 b ≡ b
zero_or b = bit_or-bitwise 0 b

or_lowest : (a b : ℕ) → bit_or a b ≡ bit_or (a / 2) (b / 2) * 2 + max (a % 2) (b % 2)
or_lowest zero b = omega (arith, zero_or b, zero_or (b / 2))
or_lowest (suc a) b = omega (
  arith,
  bit_or-bitwise (suc a) b,
  bit_or-bitwise (suc a / 2) (b / 2),
  or_digits_count a (suc a / 2) (suc a / 2) (b / 2) (omega arith) (omega arith),
)

or_zero : (n a : ℕ) → a ≤ n → bit_or a 0 ≡ a
or_zero n zero h = refl
or_zero zero (suc a) h = absurd (omega arith)
or_zero (suc n) (suc a) h = omega (arith, or_lowest (suc a) 0, or_zero n (suc a / 2) (omega arith))

-- A shifted number and one below the shift.
pub or_disjoint : (k q r : ℕ) → r < 2 ^ k → bit_or (q * 2 ^ k) r ≡ q * 2 ^ k + r
or_disjoint zero q zero h = omega (arith, or_zero (q * 1) (q * 1) (omega arith))
or_disjoint zero q (suc r) h = absurd (omega arith)
or_disjoint (suc k) q r h =
    let double : q * 2 ^ suc k ≡ 2 * (q * 2 ^ k) =
      omega (arith, ap (λ (t : ℕ). q * t) (pow-suc 2 k)) in
    let halves : q * 2 ^ suc k / 2 ≡ q * 2 ^ k = omega (arith, double) in
    omega (
      arith,
      double,
      ap (λ (t : ℕ). bit_or t (r / 2)) halves,
      or_lowest (q * 2 ^ suc k) r,
      or_disjoint k q (r / 2) (omega (arith, pow-suc 2 k)),
    )
