-- ===== src/Parse/Scan/Number.antt =====
-- scan.c: a number is the longest run of digits.
use colang.Prelude.{
  ℕ, zero, suc, ◌+◌, ◌-◌, ◌≤◌, ◌<◌, ◌≡◌, refl, ap, subst, ◌∙◌, Bool, true, false, List, [], ◌∷◌,
  arith, if◌then◌else◌, get_or, length, drop, Bool-cases, inl, inr,
}
use colang.Parse.Token.{t_int_lit}
use colang.Parse.Scan.{Source, Scanner, rest_at, inend, byte_at}
use colang.Parse.Scan.Chars.{run, is_digit}
use colang.Parse.Scan.Text.{snumber}
use colang.Parse.Scan.Progress.{length-rest_at}

nothing : (n i : ℕ) → i < 0 → ⊥
nothing n i h = elim h [ ]

inner : (n i : ℕ) → suc i < suc n → i < n
inner n i h = omega arith

move : (n i : ℕ) → suc (n + i) ≡ suc n + i
move n i = omega arith

run_all : (p : ℕ → Bool) (xs : List ℕ) (i : ℕ) → i < run p xs → p (get_or xs i 0) ≡ true
unfolding run
run_all p [] i h = elim h [ ]
run_all p (c ∷ xs) zero h = elim (Bool-cases (p c)) [
  | inl e ↦ e
  | inr e ↦
      absurd (nothing (run p xs) zero (subst (λ t. 0 < (if t then suc (run p xs) else 0)) e h))
]
run_all p (c ∷ xs) (suc i) h = elim (Bool-cases (p c)) [
  | inl e ↦
      run_all p xs i
        (inner (run p xs) i (subst (λ t. suc i < (if t then suc (run p xs) else 0)) e h))
  | inr e ↦
      absurd
        (nothing (run p xs) (suc i) (subst (λ t. suc i < (if t then suc (run p xs) else 0)) e h))
]

run_stop : (p : ℕ → Bool) (xs : List ℕ) → run p xs < length xs → p (get_or xs (run p xs) 0) ≡ false
unfolding run
run_stop p [] h = elim h [ ]
run_stop p (c ∷ xs) h = elim (Bool-cases (p c)) [
  | inl e ↦
      let n = run p xs in
      let h' : suc n < suc (length xs) =
        subst (λ t. (if t then suc n else 0) < suc (length xs)) e h in
      rw e (run_stop p xs (omega (arith, h')))
  | inr e ↦ rw e e
]

get_or-drop : (n i : ℕ) (xs : List ℕ) → get_or (drop n xs) i 0 ≡ get_or xs (n + i) 0
get_or-drop zero i xs = ap (λ k. get_or xs k 0) (omega arith)
get_or-drop (suc n) i [] = refl
get_or-drop (suc n) i (x ∷ xs) = get_or-drop n i xs ∙ ap (λ k. get_or (x ∷ xs) k 0) (move n i)

module _ (b : Source) where
  pub record IsNumber (s t : Scanner) : Type 0 where
    pub forward : s.inp ≤ t.inp
    pub ends : t.tokend ≡ t.inp
    pub kind : t.tok ≡ t_int_lit
    pub digits : (p : ℕ) → s.inp ≤ p → p < t.inp → is_digit (byte_at b p) ≡ true
    pub longest : t.inp < inend b → is_digit (byte_at b t.inp) ≡ false

  byte_at-rest : (p i : ℕ) → 1 ≤ p → get_or (rest_at b p) i 0 ≡ byte_at b (p + i)
  byte_at-rest p i h = get_or-drop (p - 1) i b.body ∙ ap (λ k. get_or b.body k 0) (omega arith)

  -- From a place in the source, snumber takes digits only, as many as there are, and returns a
  -- number token that ends behind them.
  pub snumber-IsNumber : (s : Scanner) → 1 ≤ s.inp → IsNumber s (snumber b s)
  unfolding snumber
  snumber-IsNumber s h =
      let rest = rest_at b s.inp in
      let n = run is_digit rest in
      record {
        forward = omega arith;
        ends = refl;
        kind = refl;
        digits = λ p le lt.
            subst (λ q. is_digit (byte_at b q) ≡ true) (omega arith)
              (subst (λ c. is_digit c ≡ true) (byte_at-rest s.inp (p - s.inp) h)
                (run_all is_digit rest (p - s.inp) (omega arith)));
        longest = λ lt.
            subst (λ c. is_digit c ≡ false) (byte_at-rest s.inp n h)
              (run_stop is_digit rest (omega (arith, length-rest_at b s.inp)));
      }
