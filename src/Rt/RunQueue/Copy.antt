-- ===== src/Rt/RunQueue/Copy.antt =====
-- The copying loop of p_runqgrab.
use colang.Prelude.{
  ℕ, zero, suc, ◌+◌, ◌%◌, ◌≤◌, ◌<◌, ◌≡◌, ◌≢◌, refl, ap, ◌∙◌, List, ◌∷◌, ◌++◌, arith, get_or, set,
  length, length-set, take, get_or-set_self,
}
use colang.Rt.RunQueue.{p_runqsize, slot_at, copy_batch}
use colang.Rt.RunQueue.Ring.{items, items-set}

pub length-copy_batch :
    (runq : List ℕ) (h : ℕ) (batch : List ℕ) (start i n : ℕ)
    → length (copy_batch runq h batch start i n) ≡ length batch
unfolding copy_batch
length-copy_batch runq h batch start i zero = refl
length-copy_batch runq h batch start i (suc n) =
    length-copy_batch runq h (set batch ((start + i) % p_runqsize) (slot_at runq (h + i))) start
      (i + 1) n
    ∙ length-set batch ((start + i) % p_runqsize) (slot_at runq (h + i))

-- Places that the loop does not write.
pub copy_batch-outside :
    (runq : List ℕ) (h : ℕ) (batch : List ℕ) (start i n g m : ℕ)
    → ((k j : ℕ) → k < m → j < n → (g + k) % 256 ≢ (start + (i + j)) % 256)
    → items (copy_batch runq h batch start i n) g m ≡ items batch g m
unfolding copy_batch
copy_batch-outside runq h batch start i zero g m apart = refl
copy_batch-outside runq h batch start i (suc n) g m apart =
    copy_batch-outside runq h (set batch ((start + i) % p_runqsize) (slot_at runq (h + i))) start
      (i + 1) n g m (λ k j hk hj e. apart k (j + 1) hk (omega (arith, hj)) (omega (arith, e)))
    ∙ items-set batch g m ((start + i) % p_runqsize) (slot_at runq (h + i))
        (λ k hk e. apart k 0 hk (omega arith) (omega (arith, e)))

-- The places that it writes hold the Ts of the other ring.
pub copy_batch-items :
    (runq : List ℕ) (h : ℕ) (batch : List ℕ) (start i n : ℕ)
    → length batch ≡ p_runqsize
    → n ≤ 256
    → items (copy_batch runq h batch start i n) (start + i) n ≡ items runq (h + i) n
unfolding copy_batch
copy_batch-items runq h batch start i zero size le = refl
copy_batch-items runq h batch start i (suc n) size le =
    let slot = (start + i) % p_runqsize in
    let t = slot_at runq (h + i) in
    let once = set batch slot t in
    let all = copy_batch runq h once start (i + 1) n in
    let here : items all (start + i) 1 ≡ items once (start + i) 1 =
      copy_batch-outside runq h once start (i + 1) n (start + i) 1
        (λ k j hk hj e. omega (arith, hk, hj, e, le)) in
    let first : slot_at all (start + i) ≡ t =
      ap (λ xs. get_or xs 0 0) here ∙ get_or-set_self batch slot t 0 (omega (arith, size)) in
    let place : start + i + 1 ≡ start + (i + 1) = omega arith in
    let source : h + (i + 1) ≡ h + i + 1 = omega arith in
    let rest : items all (start + i + 1) n ≡ items runq (h + i + 1) n =
      ap (λ g. items all g n) place
      ∙ copy_batch-items runq h once start (i + 1) n (length-set batch slot t ∙ size)
          (omega (arith, le))
      ∙ ap (λ g. items runq g n) source in
    ap (λ x. x ∷ items all (start + i + 1) n) first ∙ ap (λ xs. t ∷ xs) rest

pub items-take : (runq : List ℕ) (h m n : ℕ) → m ≤ n → take m (items runq h n) ≡ items runq h m
items-take runq h zero n le = refl
items-take runq h (suc m) zero le = absurd (omega arith)
items-take runq h (suc m) (suc n) le =
    ap (λ xs. slot_at runq h ∷ xs) (items-take runq (h + 1) m n (omega (arith, le)))

pub items-split :
    (runq : List ℕ) (h m n : ℕ) → items runq h (m + n) ≡ items runq h m ++ items runq (h + m) n
items-split runq h zero n =
    let none : 0 + n ≡ n = omega arith in let here : h + 0 ≡ h = omega arith in rw (none, here) refl
items-split runq h (suc m) n =
    let more : suc m + n ≡ suc (m + n) = omega arith in
    let place : h + 1 + m ≡ h + suc m = omega arith in
    rw more (
      ap (λ xs. slot_at runq h ∷ xs)
        (items-split runq (h + 1) m n ∙ ap (λ g. items runq (h + 1) m ++ items runq g n) place))
