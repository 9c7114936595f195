-- ===== src/Rt/RunQueue/Ring.antt =====
-- The ring as a queue of Ts.
use colang.Prelude.{
  ℕ, zero, suc, ◌+◌, ◌-◌, ◌%◌, ◌^◌, ◌≤◌, ◌<◌, ◌≡◌, ◌≢◌, refl, ap, subst, ◌∙◌, sym, false, some,
  List, [], ◌∷◌, ◌++◌, arith, ◌==◌, lt→ltb, get_or, set, length, length-set, get_or-set_self,
  get_or-set_ne, Bool-cases, inl, inr, ==_iff, ne_of_test,
}
use colang.Rt.RunQueue.{p_runqsize, RunQueue, queued, slot_at, put_tail, p_runqput, p_runqget}

-- The counters have 32 bits, and no more is queued than there are places.
pub record IsRing (q : RunQueue) : Type 0 where
  pub head_fits : q.runqhead < 2 ^ 32
  pub tail_fits : q.runqtail < 2 ^ 32
  pub room : queued q ≤ p_runqsize
  pub places : length q.runq ≡ p_runqsize

-- `n` Ts from the counter `h` on.
abbrev pub items : List ℕ → ℕ → ℕ → List ℕ
items runq h zero = []
items runq h (suc n) = slot_at runq h ∷ items runq (h + 1) n

-- The Ts in the ring, the next one first.
abbrev pub contents : RunQueue → List ℕ
contents q = items q.runq q.runqhead (queued q)

pub items_same_slot :
    (runq : List ℕ) (h g n : ℕ) → h % 256 ≡ g % 256 → items runq h n ≡ items runq g n
items_same_slot runq h g zero e = refl
items_same_slot runq h g (suc n) e =
    ap (λ i. get_or runq i 0 ∷ items runq (h + 1) n) e
    ∙ ap (λ rest. slot_at runq g ∷ rest) (items_same_slot runq (h + 1) (g + 1) n (omega (arith, e)))

-- A write outside the items.
pub items-set :
    (runq : List ℕ) (h n i t : ℕ)
    → ((k : ℕ) → k < n → (h + k) % 256 ≢ i)
    → items (set runq i t) h n ≡ items runq h n
items-set runq h zero i t apart = refl
items-set runq h (suc n) i t apart =
    rw
      (
        get_or-set_ne runq i (h % 256) t 0 (λ e. apart 0 (omega arith) (omega (arith, e))),
        items-set runq (h + 1) n i t (λ k lt e. apart (k + 1) (omega arith) (omega (arith, e))),
      )
      refl

pub items-append :
    (runq : List ℕ) (h n : ℕ) → items runq h (suc n) ≡ items runq h n ++ (slot_at runq (h + n) ∷ [])
items-append runq h zero = ap (λ i. get_or runq (i % 256) 0 ∷ []) (omega arith)
items-append runq h (suc n) =
    ap (λ rest. slot_at runq h ∷ rest)
      (items-append runq (h + 1) n
        ∙ ap (λ i. items runq (h + 1) n ++ (get_or runq (i % 256) 0 ∷ [])) (omega arith))

-- The place behind the items, and the places of the items.
pub tail_slot :
    (head tail : ℕ)
    → head < 2 ^ 32
    → tail < 2 ^ 32
    → (head + (tail + 2 ^ 32 - head) % 2 ^ 32) % 256 ≡ tail % 256
tail_slot head tail h t = omega arith

tail_apart :
    (head tail k : ℕ)
    → head < 2 ^ 32
    → tail < 2 ^ 32
    → (tail + 2 ^ 32 - head) % 2 ^ 32 < 256
    → k < (tail + 2 ^ 32 - head) % 2 ^ 32
    → (head + k) % 256 ≢ tail % 256
tail_apart head tail k h t r lt e = omega arith

one_more :
    (head tail : ℕ)
    → head < 2 ^ 32
    → tail < 2 ^ 32
    → (tail + 2 ^ 32 - head) % 2 ^ 32 < 256
    → ((tail + 1) % 2 ^ 32 + 2 ^ 32 - head) % 2 ^ 32 ≡ suc ((tail + 2 ^ 32 - head) % 2 ^ 32)
one_more head tail h t r = omega arith

one_less :
    (head tail : ℕ)
    → head < 2 ^ 32
    → tail < 2 ^ 32
    → tail ≢ head
    → (tail + 2 ^ 32 - head) % 2 ^ 32 ≡ suc ((tail + 2 ^ 32 - (head + 1) % 2 ^ 32) % 2 ^ 32)
one_less head tail h t ne = omega arith

-- In a ring that is not full, with counters of 32 bits that may have wrapped around, p_runqput
-- with `next` false puts the T behind those that are queued, and the ring is in order after it.
pub p_runqput-contents :
    (q : RunQueue) (t : ℕ)
    → IsRing q
    → queued q < p_runqsize
    → (r : RunQueue) × (p_runqput q t false ≡ some r)
      × (contents r ≡ contents q ++ (t ∷ []))
      × IsRing r
unfolding p_runqput put_tail
p_runqput-contents q t h lt =
    let n = queued q in
    let slot = q.runqtail % p_runqsize in
    let runq = set q.runq slot t in
    let more = one_more q.runqhead q.runqtail h.head_fits h.tail_fits lt in
    let fits : slot < length q.runq = omega (arith, h.places) in
    (
      record q { runq = runq; runqtail = (q.runqtail + 1) % 2 ^ 32 },
      rw (lt→ltb (queued q) p_runqsize lt) refl,
      ap (λ m. items runq q.runqhead m) more
          ∙ (items-append runq q.runqhead n
              ∙ (ap (λ front. front ++ (slot_at runq (q.runqhead + n) ∷ []))
                    (items-set q.runq q.runqhead n slot t (λ k less.
                      tail_apart q.runqhead q.runqtail k h.head_fits h.tail_fits lt less))
                  ∙ ap (λ last. items q.runq q.runqhead n ++ (last ∷ []))
                      (ap (λ i. get_or runq i 0)
                          (tail_slot q.runqhead q.runqtail h.head_fits h.tail_fits)
                        ∙ get_or-set_self q.runq slot t 0 fits))),
      record {
        head_fits = h.head_fits;
        tail_fits = omega arith;
        room = omega (arith, more);
        places = length-set q.runq slot t ∙ h.places;
      },
    )

-- What p_runqget gives of a queue without runnext.
abbrev pub IsFront : List ℕ → ℕ → List ℕ → Type 0
IsFront [] t after = (t ≡ 0) × (after ≡ [])
IsFront (x ∷ rest) t after = (t ≡ x) × (after ≡ rest)

-- In a ring in order with an empty runnext, p_runqget returns the first T that is queued and
-- leaves the others, or returns none and leaves an empty queue empty; the ring is in order after
-- it.
pub p_runqget-IsFront :
    (q : RunQueue)
    → IsRing q
    → q.runnext ≡ 0
    → IsFront (contents q) (p_runqget q).1.0 (contents (p_runqget q).0) × IsRing (p_runqget q).0
unfolding p_runqget
p_runqget-IsFront q h e = elim (Bool-cases (q.runqtail == q.runqhead)) [
  | inl same ↦
      let none_left : queued q ≡ 0 = omega (arith, (==_iff q.runqtail q.runqhead).0 same) in
      rw (e, same)
        (
          subst (λ m. IsFront (items q.runq q.runqhead m) 0 (items q.runq q.runqhead m))
              (sym none_left) (refl, refl),
          record {
            head_fits = h.head_fits;
            tail_fits = h.tail_fits;
            room = h.room;
            places = h.places;
          },
        )
  | inr other ↦
      let less =
        one_less q.runqhead q.runqtail h.head_fits h.tail_fits
          (ne_of_test q.runqtail q.runqhead other) in
      let rest : ℕ = (q.runqtail + 2 ^ 32 - (q.runqhead + 1) % 2 ^ 32) % 2 ^ 32 in
      let after : List ℕ = items q.runq ((q.runqhead + 1) % 2 ^ 32) rest in
      rw (e, other)
        (
          subst (λ m. IsFront (items q.runq q.runqhead m) (slot_at q.runq q.runqhead) after)
              (sym less)
              (
                refl,
                items_same_slot q.runq ((q.runqhead + 1) % 2 ^ 32) (q.runqhead + 1) rest
                    (omega arith),
              ),
          record {
            head_fits = omega arith;
            tail_fits = h.tail_fits;
            room = omega (arith, less, h.room);
            places = h.places;
          },
        )
]
