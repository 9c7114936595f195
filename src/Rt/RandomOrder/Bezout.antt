-- ===== src/Rt/RandomOrder/Bezout.antt =====
-- What gcd gives: it returns, and where it gives 1 the two numbers have a combination that is 1.
use colang.Prelude.{
  ℕ, zero, suc, ◌+◌, ◌*◌, ◌/◌, ◌%◌, ◌<◌, ◌≡◌, refl, sym, subst, ◌∙◌, true, false, some, arith, ◌==◌,
  Bool-cases, inl, inr,
}
use native.Mathlib.Nat.{mod-lt, div-add-mod}
use colang.Rt.RandomOrder.{gcd, is_one}

-- `a * x` and `b * y` with a difference of 1, either way.
pub data Bezout (a b : ℕ) : Type 0 where
  over : (x y : ℕ) → a * x ≡ b * y + 1 → Bezout a b
  under : (x y : ℕ) → b * y ≡ a * x + 1 → Bezout a b

-- One round of Euclid's algorithm, with `a = b * q + r`.
round : (a b q r : ℕ) → a ≡ b * q + r → Bezout b r → Bezout a b
round a b q r e (over x y h) =
    let spread : a * y ≡ b * q * y + r * y = rw e (omega arith) in
    under y (x + q * y) (omega (arith, spread, h))
round a b q r e (under x y h) =
    let spread : a * y ≡ b * q * y + r * y = rw e (omega arith) in
    over y (x + q * y) (omega (arith, spread, h))

pub gcd-stop : (fuel a b : ℕ) → (b == 0) ≡ true → gcd (suc fuel) a b ≡ some a
unfolding gcd
gcd-stop fuel a b e = rw (gcd, e) refl

pub gcd-round : (fuel a b : ℕ) → (b == 0) ≡ false → gcd (suc fuel) a b ≡ gcd fuel b (a % b)
unfolding gcd
gcd-round fuel a b e = rw (gcd, e) refl

pub gcd-Bezout : (fuel a b : ℕ) → is_one (gcd fuel a b) ≡ true → Bezout a b
unfolding gcd
gcd-Bezout zero a b h = absurd (ground arith)
gcd-Bezout (suc fuel) a b h = elim (Bool-cases (b == 0)) [
  | inl e ↦
      let one : a ≡ 1 = ground (arith, subst (λ o. is_one o ≡ true) (gcd-stop fuel a b e) h) in
      over 1 0 (omega (arith, one))
  | inr e ↦
      round a b (a / b) (a % b) (sym (div-add-mod a b))
        (gcd-Bezout fuel b (a % b) (subst (λ o. is_one o ≡ true) (gcd-round fuel a b e) h))
]

-- Enough fuel.
pub gcd-returns : (fuel a b : ℕ) → b < fuel → (d : ℕ) × (gcd fuel a b ≡ some d)
unfolding gcd
gcd-returns zero a b h = absurd (omega arith)
gcd-returns (suc fuel) a b h = elim (Bool-cases (b == 0)) [
  | inl e ↦ (a, gcd-stop fuel a b e)
  | inr e ↦
      let (d, same) =
        gcd-returns fuel b (a % b) (ground (arith, mod-lt a {m = b} (ground arith))) in
      (d, gcd-round fuel a b e ∙ same)
]
