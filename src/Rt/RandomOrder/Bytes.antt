-- ===== src/Rt/RandomOrder/Bytes.antt =====
-- What the array of steps holds: written bytes in front, the old contents of the memory behind.
use colang.Prelude.{
  ℕ, zero, suc, ◌+◌, ◌-◌, ◌%◌, ◌^◌, ◌≤◌, ◌<◌, ◌≡◌, refl, ap, ◌∙◌, true, false, some, arith,
  if◌then◌else◌, ◌==◌, ==_iff, ltb, subst, Bool-cases, inl, inr,
}
use native.Mathlib.Nat.{mod-eq_of_lt, mod-one}
use colang.Rt.RandomOrder.{
  gcd, is_one, ByteArray, array_grow, array_append, array_reserve, coprimes_up_to,
}
use colang.Rt.RandomOrder.Bezout.{Bezout, gcd-Bezout, gcd-round, gcd-stop}

abbrev pub IsStep : ℕ → ℕ → Type 0
IsStep n x = Bezout x n × (x ≤ n)

-- The bytes below `len` are steps for `n` Ps; the others are those of `a`.
pub record HoldsSteps (n k : ℕ) (a b : ByteArray) : Type 0 where
  pub steps : (i : ℕ) → i < b.len → IsStep n (b.ptr i)
  pub unwritten : (i : ℕ) → b.len ≤ i → b.ptr i ≡ a.ptr i
  pub same_size : b.elemsize ≡ a.elemsize
  pub short : b.len ≤ k

array_reserve-HoldsSteps :
    (n : ℕ) (a : ByteArray) (nelem : ℕ) → a.len ≡ 0 → HoldsSteps n 0 a (array_reserve a nelem)
unfolding array_reserve array_grow
array_reserve-HoldsSteps n a nelem e =
    elim (Bool-cases (ltb ((a.cap + 2 ^ 32 - a.len) % 2 ^ 32) nelem)) [
      | inl t ↦ rw t (record {
        steps = λ i lt. absurd (omega (arith, e, lt));
        unwritten = λ i le. refl;
        same_size = refl;
        short = omega (arith, e);
      })
      | inr t ↦ rw t (record {
        steps = λ i lt. absurd (omega (arith, e, lt));
        unwritten = λ i le. refl;
        same_size = refl;
        short = omega (arith, e);
      })
    ]

-- The three fields after array_append, whether it grew or not.
array_append-fields :
    (a : ByteArray) (v : ℕ)
    → a.len + 1 < 2 ^ 32
    → ((array_append a v).len ≡ a.len + 1)
      × ((array_append a v).elemsize ≡ a.elemsize)
      × ((i : ℕ) → (array_append a v).ptr i ≡ (if i == a.len then v % 2 ^ 8 else a.ptr i))
unfolding array_append array_grow
array_append-fields a v fits = elim (Bool-cases (a.cap == a.len)) [
  | inl t ↦ rw t (mod-eq_of_lt fits, refl, λ i. refl)
  | inr t ↦ rw t (mod-eq_of_lt fits, refl, λ i. refl)
]

array_append-HoldsSteps :
    (n k : ℕ) (a b : ByteArray) (v : ℕ)
    → n ≤ 2 ^ 8
    → k < n
    → v < 2 ^ 8
    → IsStep n v
    → HoldsSteps n k a b
    → HoldsSteps n (suc k) a (array_append b v)
array_append-HoldsSteps n k a b v small le byte step h =
    let (longer, same, bytes) = array_append-fields b v (omega (arith, h.short, small, le)) in
    let whole : v % 2 ^ 8 ≡ v = mod-eq_of_lt byte in
    record {
      steps = λ i lt. elim (Bool-cases (i == b.len)) [
        | inl e ↦ rw (bytes i, e, whole) step
        | inr e ↦ rw (bytes i, e) (h.steps i (ground (arith, lt, longer, e)))
      ];
      unwritten = λ i le'.
          let past : (i == b.len) ≡ false = ground (arith, longer, le') in
          rw (bytes i, past) (h.unwritten i (omega (arith, longer, le')));
      same_size = same ∙ h.same_size;
      short = omega (arith, longer, h.short);
    }

-- 256 is a step for no number of Ps up to it.
step_byte : (n v : ℕ) → n ≤ 2 ^ 8 → v ≤ n → is_one (gcd (suc n) v n) ≡ true → v < 2 ^ 8
unfolding gcd
step_byte n v small le t = elim (Bool-cases (v == 256)) [
  | inr other ↦ ground arith
  | inl e ↦
      let at : v ≡ 256 = (==_iff v 256).0 e in
      let all : n ≡ 256 = omega arith in
      let never : is_one (gcd 257 256 256) ≡ false = refl in
      let one : is_one (gcd 257 256 256) ≡ true =
        subst (λ m. is_one (gcd (suc m) 256 m) ≡ true) all
          (subst (λ w. is_one (gcd (suc n) w n) ≡ true) at t) in
      absurd (ground (arith, one, never))
]

-- The loop of randord_reset.
pub coprimes-HoldsSteps :
    (n k : ℕ) (a : ByteArray)
    → n ≤ 2 ^ 8
    → k ≤ n
    → a.len ≡ 0
    → HoldsSteps n k a (coprimes_up_to n k (array_reserve a n))
unfolding coprimes_up_to
coprimes-HoldsSteps n zero a small le e = array_reserve-HoldsSteps n a n e
coprimes-HoldsSteps n (suc k) a small le e =
    let h = coprimes-HoldsSteps n k a small (omega arith) e in
    elim (Bool-cases (is_one (gcd (suc n) (suc k) n))) [
      | inl t ↦ rw t (
          array_append-HoldsSteps n k a _ (suc k) small (omega arith)
            (step_byte n (suc k) small le t) (gcd-Bezout (suc n) (suc k) n t, le) h)
      | inr t ↦ rw t (record {
        steps = h.steps;
        unwritten = h.unwritten;
        same_size = h.same_size;
        short = omega (arith, h.short);
      })
    ]

one-coprime : (n : ℕ) → is_one (gcd (suc n) 1 n) ≡ true
unfolding gcd
one-coprime zero = refl
one-coprime (suc zero) = refl
one-coprime (suc (suc n)) =
    let small : 1 % suc (suc n) ≡ 1 = mod-eq_of_lt (omega arith) in
    let rest : suc (suc n) % 1 ≡ 0 = mod-one (suc (suc n)) in
    let value : gcd (suc (suc (suc n))) 1 (suc (suc n)) ≡ some 1 =
      gcd-round (suc (suc n)) 1 (suc (suc n)) (ground arith)
      ∙ ap (gcd (suc (suc n)) (suc (suc n))) small
      ∙ gcd-round (suc n) (suc (suc n)) 1 (ground arith)
      ∙ ap (gcd (suc n) 1) rest
      ∙ gcd-stop n 1 0 (ground arith) in
    ap is_one value

-- The step 1 is always there.
pub coprimes-some :
    (n k : ℕ) (a : ByteArray)
    → n ≤ 2 ^ 8
    → suc k ≤ n
    → a.len ≡ 0
    → 0 < (coprimes_up_to n (suc k) (array_reserve a n)).len
unfolding coprimes_up_to
coprimes-some n zero a small le e =
    let b = array_reserve a n in
    let h = array_reserve-HoldsSteps n a n e in
    let longer = (array_append-fields b 1 (omega (arith, h.short))).0 in
    rw (one-coprime n) (omega (arith, longer))
coprimes-some n (suc k) a small le e =
    let before = coprimes-some n k a small (omega arith) e in
    let h = coprimes-HoldsSteps n (suc k) a small (omega arith) e in
    let b = coprimes_up_to n (suc k) (array_reserve a n) in
    elim (Bool-cases (is_one (gcd (suc n) (suc (suc k)) n))) [
      | inl t ↦
          let longer =
            (array_append-fields b (suc (suc k)) (omega (arith, h.short, small, le))).0 in
          rw t (omega (arith, longer))
      | inr t ↦ rw t before
    ]
