-- ===== src/Rt/RandomOrder/Residues.antt =====
-- Steps of a length that is prime to `n` see every residue of `n` once in `n` steps.
use colang.Prelude.{
  ℕ, zero, suc, ◌+◌, ◌-◌, ◌*◌, ◌/◌, ◌%◌, ◌<◌, ◌≡◌, ◌≢◌, refl, ap, sym, ◌∙◌, List, [], ◌∷◌, arith,
  ltb, Bool-cases, inl, inr, count,
}
use native.Mathlib.Nat.{mod-lt, div-add-mod, mul-add-mod_self_left, mul-mod_right, mod-eq_of_lt}
use colang.Rt.RandomOrder.Bezout.{Bezout, over, under}

-- The values of `f` below `n`.
abbrev pub values_below : ℕ → (ℕ → ℕ) → List ℕ
values_below zero f = []
values_below (suc n) f = f 0 ∷ values_below n (λ i. f (suc i))

count-absent :
    (n : ℕ) (f : ℕ → ℕ) (p : ℕ) → ((i : ℕ) → i < n → f i ≢ p) → count p (values_below n f) ≡ 0
count-absent zero f p h = refl
count-absent (suc n) f p h =
    ground (
      arith,
      h 0 (omega arith),
      count-absent n (λ i. f (suc i)) p (λ i lt. h (suc i) (omega arith)),
    )

count-once :
    (n : ℕ) (f : ℕ → ℕ) (p i : ℕ)
    → i < n
    → f i ≡ p
    → ((j : ℕ) → j < n → f j ≡ p → j ≡ i)
    → count p (values_below n f) ≡ 1
count-once zero f p i lt e only = absurd (omega arith)
count-once (suc n) f p zero lt e only = ground (
  arith,
  count-absent n (λ j. f (suc j)) p
      (λ j l same. absurd (omega (arith, only (suc j) (omega arith) same))),
)
count-once (suc n) f p (suc i) lt e only =
    let other : f 0 ≢ p = λ same. absurd (omega (arith, only 0 (omega arith) same)) in
    ground (
      arith,
      count-once n (λ j. f (suc j)) p i (omega arith) e
          (λ j l same. omega (arith, only (suc j) (omega arith) same)),
    )

pub mod-plus : (a n m : ℕ) → (n * m + a) % n ≡ a % n
mod-plus a n m = mul-add-mod_self_left n m a

mod-small : (a n : ℕ) → a < n → a % n ≡ a
mod-small a n h = mod-eq_of_lt h

-- Numbers below `n` that differ by a multiple of it are one.
module _ (n : ℕ) (n_pos : 0 < n) where
  no_multiple : (k a b : ℕ) → k < n → n * a + k ≡ n * b → k ≡ 0
  no_multiple k a b h e =
      sym (mod-small k n h) ∙ sym (mod-plus k n a) ∙ ap (λ x. x % n) e ∙ mul-mod_right n b

  same_residue : (a d : ℕ) → (a + d) % n ≡ a % n → d + n * (a / n) ≡ n * ((a + d) / n)
  same_residue a d e = omega (arith, div-add-mod a n, div-add-mod (a + d) n, e)

  module _ (c s : ℕ) (z : Bezout c n) where
    abbrev pub visit : ℕ → ℕ
    visit i = (s + i * c) % n

    apart : (d l m : ℕ) → d < n → d * c + n * l ≡ n * m → d ≡ 0
    apart d l m h e = go z
      where
        go : Bezout c n → d ≡ 0
        go (over x y b) =
            no_multiple d (d * y + l * x) (m * x) h
              (omega (arith, ap (λ t. d * t) b, ap (λ t. t * x) e))
        go (under x y b) =
            no_multiple d (m * x) (d * y + l * x) h
              (omega (arith, ap (λ t. d * t) b, ap (λ t. t * x) e))

    -- A later visit is of another residue.
    later : (i d : ℕ) → d < n → visit (i + d) ≡ visit i → d ≡ 0
    later i d h e =
        let spread : s + (i + d) * c ≡ s + i * c + d * c = omega arith in
        let a = s + i * c in
        apart d (a / n) ((a + d * c) / n) h
          (same_residue a (d * c) (sym (ap (λ t. t % n) spread) ∙ e))

    only_once : (i j : ℕ) → i < n → j < n → visit j ≡ visit i → j ≡ i
    only_once i j hi hj e = elim (Bool-cases (ltb i j)) [
      | inl l ↦
          let gap : i + (j - i) ≡ j = ground arith in
          let same = later i (j - i) (omega (arith, hj)) (ap visit gap ∙ e) in ground (arith, same)
      | inr l ↦
          let gap : j + (i - j) ≡ i = ground arith in
          let same = later j (i - j) (omega (arith, hi)) (ap visit gap ∙ sym e) in
          ground (arith, same)
    ]

    -- A visit far on is one of the first `n`.
    wrapped : (i : ℕ) → visit (i % n) ≡ visit i
    wrapped i =
        let whole = div-add-mod i n in
        let spread : n * (i / n * c) + (s + i % n * c) ≡ s + i * c =
          omega (arith, ap (λ t. t * c) whole) in
        sym (mod-plus (s + i % n * c) n (i / n * c)) ∙ ap (λ t. t % n) spread

    some_visit : (p : ℕ) → s < n → p < n → (i : ℕ) × (visit i ≡ p)
    some_visit p hs hp = go z
      where
        go : Bezout c n → (i : ℕ) × (visit i ≡ p)
        go (over x y b) =
            let d = p + n - s in
            let gap : s + d ≡ p + n = omega (arith, hs) in
            let spread : s + d * x * c ≡ n * (d * y + 1) + p =
              omega (arith, ap (λ t. d * t) b, gap) in
            (d * x, ap (λ t. t % n) spread ∙ mod-plus p n (d * y + 1) ∙ mod-eq_of_lt hp)
        go (under x y b) =
            let d = s + n - p in
            let gap : p + d ≡ s + n = omega (arith, hp) in
            let spread : n * 1 + (s + d * x * c) ≡ n * (d * y) + p =
              omega (arith, ap (λ t. d * t) b, gap) in
            (
              d * x,
              sym (mod-plus (s + d * x * c) n 1)
                  ∙ ap (λ t. t % n) spread
                  ∙ mod-plus p n (d * y)
                  ∙ mod-eq_of_lt hp,
            )

    pub every_once : (p : ℕ) → s < n → p < n → count p (values_below n visit) ≡ 1
    every_once p hs hp =
        let (i, e) = some_visit p hs hp in
        let here : visit (i % n) ≡ p = wrapped i ∙ e in
        count-once n visit p (i % n) (mod-lt i n_pos) here
          (λ j l same. only_once (i % n) j (mod-lt i n_pos) l (same ∙ sym here))
