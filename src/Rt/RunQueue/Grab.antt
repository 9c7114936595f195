-- ===== src/Rt/RunQueue/Grab.antt =====
-- What p_runqgrab takes of a ring.
use colang.Prelude.{
  ℕ, zero, suc, ◌+◌, ◌-◌, ◌/◌, ◌%◌, ◌^◌, ◌≤◌, ◌<◌, ◌≡◌, refl, ap, ◌∙◌, Bool, false, some, List,
  arith, ◌==◌, ltb, drop,
}
use colang.Rt.RunQueue.{RunQueue, queued, copy_batch, p_runqgrab}
use colang.Rt.RunQueue.Ring.{IsRing, items, contents, items_same_slot}

items_zero : (runq : List ℕ) (h n : ℕ) → items runq (h + 0) (n - 0) ≡ items runq h n
items_zero runq h n =
    ap (λ m. items runq (h + 0) m) (omega arith) ∙ ap (λ g. items runq g n) (omega arith)

items_shift :
    (runq : List ℕ) (h m n : ℕ)
    → items runq (h + suc m) (suc n - suc m) ≡ items runq (h + 1 + m) (n - m)
items_shift runq h m n =
    ap (λ k. items runq (h + suc m) k) (omega arith) ∙ ap (λ g. items runq g (n - m)) (omega arith)

grabbed :
    (head tail n : ℕ)
    → head < 2 ^ 32
    → tail < 2 ^ 32
    → n ≤ (tail + 2 ^ 32 - head) % 2 ^ 32
    → (tail + 2 ^ 32 - (head + n) % 2 ^ 32) % 2 ^ 32 ≡ (tail + 2 ^ 32 - head) % 2 ^ 32 - n
grabbed head tail n h t le = omega arith

positive : (n : ℕ) → 0 < n → n == 0 ≡ false
positive n h = ground arith

small : (n : ℕ) → n ≤ 128 → ltb 128 n ≡ false
small n h = ground arith

items-drop :
    (runq : List ℕ) (h m n : ℕ) → m ≤ n → items runq (h + m) (n - m) ≡ drop m (items runq h n)
items-drop runq h zero n le = items_zero runq h n
items-drop runq h (suc m) zero le = elim le [ ]
items-drop runq h (suc m) (suc n) le =
    items_shift runq h m n ∙ items-drop runq (h + 1) m n (omega arith)

-- In a ring in order with some T queued, p_runqgrab takes the first half of the queue, rounded up,
-- and the other half stays queued in its order.
pub p_runqgrab-contents :
    (q : RunQueue) (batch : List ℕ) (batch_head : ℕ) (steal_next : Bool)
    → IsRing q
    → 0 < queued q
    → (r : RunQueue) × (p_runqgrab q batch batch_head steal_next
        ≡ some (
          r,
          (
            copy_batch q.runq q.runqhead batch batch_head 0 (queued q - queued q / 2),
            queued q - queued q / 2,
          ),
        ))
      × (contents r ≡ drop (queued q - queued q / 2) (contents q))
      × IsRing r
unfolding p_runqgrab
p_runqgrab-contents q batch batch_head steal_next h lt =
    let n : ℕ = queued q - queued q / 2 in
    let left = grabbed q.runqhead q.runqtail n h.head_fits h.tail_fits (omega arith) in
    let head : ℕ = (q.runqhead + n) % 2 ^ 32 in
    (
      record q { runqhead = head },
      rw (positive n (omega arith), small n (omega (arith, h.room))) refl,
      ap (λ m. items q.runq head m) left
          ∙ (items_same_slot q.runq head (q.runqhead + n) (queued q - n) (omega arith)
              ∙ items-drop q.runq q.runqhead n (queued q) (omega arith)),
      record {
        head_fits = omega arith;
        tail_fits = h.tail_fits;
        room = omega (arith, left, h.room);
        places = h.places;
      },
    )
