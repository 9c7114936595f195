-- ===== src/Rt/RandomOrder/Visits.antt =====
-- Each order sees every P once.
use colang.Prelude.{
  ℕ, zero, suc, ◌+◌, ◌*◌, ◌/◌, ◌%◌, ◌^◌, ◌≤◌, ◌<◌, ◌≡◌, refl, ap, sym, subst, ==_iff, ◌∙◌, true,
  false, some, List, ◌∷◌, arith, ◌==◌, Bool-cases, inl, inr, count, length,
}
use native.Mathlib.Nat.{mod-lt, div-add-mod, mod-eq_of_lt}
use colang.Rt.RandomOrder.{
  ByteArray, array_get, array_reserve, RandomOrder, RandomEnum, coprimes_up_to, randord_reset,
  randord_start, randenum_done, randenum_next, with_pos, positions,
}
use colang.Rt.RandomOrder.Bytes.{IsStep, HoldsSteps, coprimes-HoldsSteps, coprimes-some}
use colang.Rt.RandomOrder.Residues.{values_below, visit, every_once, mod-plus}

values-ext : (n : ℕ) (f g : ℕ → ℕ) → ((i : ℕ) → f i ≡ g i) → values_below n f ≡ values_below n g
values-ext zero f g h = refl
values-ext (suc n) f g h =
    rw (h 0) (ap (λ xs. g 0 ∷ xs) (values-ext n (λ i. f (suc i)) (λ i. g (suc i)) (λ i. h (suc i))))

length-values : (n : ℕ) (f : ℕ → ℕ) → length (values_below n f) ≡ n
length-values zero f = refl
length-values (suc n) f = ap suc (length-values n (λ i. f (suc i)))

values-inside :
    (n m : ℕ) (f : ℕ → ℕ) (p : ℕ) → ((i : ℕ) → f i < m) → 0 < count p (values_below n f) → p < m
values-inside zero m f p h c = absurd (omega (arith, c))
values-inside (suc n) m f p h c = elim (Bool-cases (f 0 == p)) [
  | inl e ↦ subst (λ x. x < m) ((==_iff (f 0) p).0 e) (h 0)
  | inr e ↦ values-inside n m (λ i. f (suc i)) p (λ i. h (suc i)) (ground (arith, c))
]

-- The sum of two remainders, with its wrap-around at 32 bits.
module _ (n c s : ℕ) (n_pos : 0 < n) (fits : n ≤ 2 ^ 31) (step : IsStep n c) where
  at_visit : ℕ → RandomEnum
  at_visit k = record { i = k; count = n; pos = visit n n_pos c s step.0 k; inc = c }

  next-visit : (k : ℕ) → k < n → randenum_next (at_visit k) ≡ at_visit (k + 1)
  unfolding at_visit randenum_next
  next-visit k h =
      let small : (s + k * c) % n < n = mod-lt (s + k * c) n_pos in
      let whole = div-add-mod (s + k * c) n in
      let counted : (k + 1) % 2 ^ 32 ≡ k + 1 = mod-eq_of_lt (omega (arith, h, fits)) in
      let no_wrap : ((s + k * c) % n + c) % 2 ^ 32 ≡ (s + k * c) % n + c =
        mod-eq_of_lt (omega (arith, small, fits, step.1)) in
      let spread : n * ((s + k * c) / n) + ((s + k * c) % n + c) ≡ s + (k + 1) * c =
        omega (arith, whole) in
      let moved : ((s + k * c) % n + c) % n ≡ (s + (k + 1) * c) % n =
        sym (mod-plus ((s + k * c) % n + c) n ((s + k * c) / n)) ∙ ap (λ t. t % n) spread in
      rw (counted, no_wrap, moved) refl

  abbrev from : ℕ → ℕ → ℕ
  from k j = visit n n_pos c s step.0 (k + j)

  positions-visit :
      (m k fuel : ℕ)
      → k + m ≡ n
      → m < fuel
      → positions fuel (at_visit k) ≡ some (values_below m (from k))
  unfolding positions at_visit randenum_done
  positions-visit m k zero e lt = absurd (omega arith)
  positions-visit zero k (suc fuel) e lt =
      let last : (k == n) ≡ true = ground arith in rw (positions, last) refl
  positions-visit (suc m) k (suc fuel) e lt =
      let more : (k == n) ≡ false = ground arith in
      let next = next-visit k (omega (arith, e)) in
      let shifted =
        values-ext m (from (k + 1)) (λ j. from k (suc j))
          (λ j.
            let same : k + 1 + j ≡ k + suc j = omega arith in ap (visit n n_pos c s step.0) same) in
      let here : k + 0 ≡ k = omega arith in
      rw (positions, more, here)
        (ap (with_pos (visit n n_pos c s step.0 k)) (
          ap (positions fuel) next
          ∙ positions-visit m (k + 1) fuel (omega (arith, e)) (omega arith)
          ∙ ap some shifted))

-- The steps for `n` Ps, in the array that the order has.
abbrev pub steps_of : RandomOrder → ℕ → ByteArray
steps_of ord n = (randord_reset ord n).coprimes

-- What array_get reads for the seed: the byte at four times the index of the step.
abbrev pub offset_of : RandomOrder → ℕ → ℕ → ℕ
offset_of ord n seed = 4 * (seed % (steps_of ord n).len)

module _ (ord : RandomOrder) (n seed : ℕ) (n_pos : 0 < n) (small : n ≤ 2 ^ 8)
    (words : ord.coprimes.elemsize ≡ 4) where
  emptied : ByteArray
  emptied = record (ord.coprimes) { len = 0 }

  held : HoldsSteps n n emptied (steps_of ord n)
  unfolding randord_reset emptied
  held = coprimes-HoldsSteps n n emptied small (omega arith) refl

  some_step : 0 < (steps_of ord n).len
  unfolding randord_reset emptied
  some_step = by_size n refl
    where
      by_size : (m : ℕ) → n ≡ m → 0 < (coprimes_up_to n m (array_reserve emptied n)).len
      by_size zero e = absurd (omega (arith, e, n_pos))
      by_size (suc m) e = coprimes-some n m emptied small (omega (arith, e)) refl

  read_byte :
      array_get (steps_of ord n) (seed % (steps_of ord n).len)
      ≡ (steps_of ord n).ptr (offset_of ord n seed)
  unfolding array_get emptied randord_reset
  read_byte =
      let index : seed % (steps_of ord n).len < (steps_of ord n).len = mod-lt seed some_step in
      let size : (steps_of ord n).elemsize ≡ 4 = held.same_size ∙ words in
      let near : 4 * (seed % (steps_of ord n).len) % 2 ^ 32 ≡ 4 * (seed % (steps_of ord n).len) =
        mod-eq_of_lt (omega (arith, index, held.short, small)) in
      rw (size, near) refl

  pub started :
      randord_start (randord_reset ord n) seed
      ≡ some (record {
        i = 0;
        count = n;
        pos = seed % n;
        inc = (steps_of ord n).ptr (offset_of ord n seed);
      })
  unfolding randord_start randord_reset
  started =
      let there : ((steps_of ord n).len == 0) ≡ false = ground (arith, some_step) in
      rw (there, read_byte) refl

  -- For a number of Ps from 1 to 256, the most that the scheduler takes, where array_get reads one
  -- of the bytes that randord_reset wrote, the enumeration that randord_reset and randord_start
  -- set up ends after as many positions as there are Ps, and visits each P once and nothing else:
  -- the byte is a step that gcd found prime to the number.
  pub randord_start-VisitsAll :
      offset_of ord n seed < (steps_of ord n).len
      → (e : RandomEnum) × ((ps : List ℕ) × (randord_start (randord_reset ord n) seed ≡ some e)
          × (positions (suc n) e ≡ some ps)
          × (length ps ≡ n)
          × ((p : ℕ) → (p < n → count p ps ≡ 1) × (0 < count p ps → p < n)))
  unfolding at_visit
  randord_start-VisitsAll written =
      let c = (steps_of ord n).ptr (offset_of ord n seed) in
      let step = held.steps (offset_of ord n seed) written in
      let s = seed % n in
      let fits : n ≤ 2 ^ 31 = omega (arith, small) in
      let first : visit n n_pos c s step.0 0 ≡ s =
        let none_yet : s + 0 * c ≡ s = omega arith in
        ap (λ t. t % n) none_yet ∙ mod-eq_of_lt (mod-lt seed n_pos) in
      let unshifted = λ (j : ℕ). (let same : 0 + j ≡ j = omega arith in same) in
      (
        record { i = 0; count = n; pos = s; inc = c },
        (
          values_below n (from n c s n_pos fits step 0),
          started,
          ap (λ t. positions (suc n) (record { i = 0; count = n; pos = t; inc = c })) (sym first)
              ∙ positions-visit n c s n_pos fits step n 0 (suc n) (omega arith) (omega arith),
          length-values n (from n c s n_pos fits step 0),
          λ p. (
            (λ h.
                ap (count p) (
                  values-ext n (from n c s n_pos fits step 0) (visit n n_pos c s step.0)
                    (λ j. ap (visit n n_pos c s step.0) (unshifted j)))
                ∙ every_once n n_pos c s step.0 p (mod-lt seed n_pos) h),
            values-inside n n (from n c s n_pos fits step 0) p
                (λ j. mod-lt (s + (0 + j) * c) n_pos),
          ),
        ),
      )

  -- For a number of Ps from 1 to 256, where array_get reads past the bytes that randord_reset
  -- wrote, the step of the enumeration is what the memory of the array held before, whatever that
  -- is.
  pub randord_start-unwritten :
      (steps_of ord n).len ≤ offset_of ord n seed
      → randord_start (randord_reset ord n) seed
        ≡ some (record {
          i = 0;
          count = n;
          pos = seed % n;
          inc = ord.coprimes.ptr (offset_of ord n seed);
        })
  unfolding emptied
  randord_start-unwritten past =
      let old : (steps_of ord n).ptr (offset_of ord n seed)
          ≡ ord.coprimes.ptr (offset_of ord n seed) =
        held.unwritten (offset_of ord n seed) past in
      started ∙ ap (λ b. some (record { i = 0; count = n; pos = seed % n; inc = b })) old
