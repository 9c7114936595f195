-- ===== src/Rt/RandomOrder/Inside.antt =====
-- Whatever the step of an enumeration is, it ends and leads to numbers of Ps only.
use colang.Prelude.{
  ℕ, zero, suc, ◌+◌, ◌%◌, ◌^◌, ◌≤◌, ◌<◌, ◌≡◌, refl, ap, ◌∙◌, true, false, some, List, [], ◌∷◌,
  arith, ◌==◌, Bool-cases, ==_iff, subst, inl, inr, count,
}
use native.Mathlib.Nat.{mod-lt, mod-eq_of_lt}
use colang.Rt.RandomOrder.{RandomEnum, randenum_done, randenum_next, with_pos, positions}

abbrev pub AllInside : ℕ → List ℕ → Type 0
AllInside n ps = (p : ℕ) → 0 < count p ps → p < n

AllInside-cons : (n s : ℕ) (ps : List ℕ) → s < n → AllInside n ps → AllInside n (s ∷ ps)
AllInside-cons n s ps h all p c = elim (Bool-cases (s == p)) [
  | inl e ↦ subst (λ x. x < n) ((==_iff s p).0 e) h
  | inr e ↦ all p (ground (arith, c))
]

module _ (n c : ℕ) (n_pos : 0 < n) (small : n ≤ 2 ^ 8) where
  abbrev pub enum_at : ℕ → ℕ → RandomEnum
  enum_at k s = record { i = k; count = n; pos = s; inc = c }

  next-enum_at :
      (k s : ℕ) → k < n → randenum_next (enum_at k s) ≡ enum_at (k + 1) ((s + c) % 2 ^ 32 % n)
  unfolding randenum_next
  next-enum_at k s h =
      let counted : (k + 1) % 2 ^ 32 ≡ k + 1 = mod-eq_of_lt (omega (arith, h, small)) in
      rw counted refl

  pub positions-AllInside :
      (m k s fuel : ℕ)
      → k + m ≡ n
      → m < fuel
      → s < n
      → (ps : List ℕ) × (positions fuel (enum_at k s) ≡ some ps) × AllInside n ps
  unfolding positions randenum_done
  positions-AllInside m k s zero e lt h = absurd (omega arith)
  positions-AllInside zero k s (suc fuel) e lt h =
      let last : (k == n) ≡ true = ground arith in
      ([], rw (positions, last) refl, λ p c. absurd (omega (arith, c)))
  positions-AllInside (suc m) k s (suc fuel) e lt h =
      let more : (k == n) ≡ false = ground arith in
      let s' = (s + c) % 2 ^ 32 % n in
      let (ps, rest, all) =
        positions-AllInside m (k + 1) s' fuel (omega (arith, e)) (omega arith)
          (mod-lt ((s + c) % 2 ^ 32) n_pos) in
      (
        s ∷ ps,
        rw (positions, more)
            (ap (with_pos s) (ap (positions fuel) (next-enum_at k s (omega (arith, e))) ∙ rest)),
        AllInside-cons n s ps h all,
      )
