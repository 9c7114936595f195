-- ===== src/Rt/RunQueue/Steal.antt =====
-- What p_runqsteal moves from one ring to another.
use colang.Prelude.{
  ℕ, zero, suc, ◌+◌, ◌-◌, ◌/◌, ◌%◌, ◌^◌, ◌≤◌, ◌<◌, ◌≡◌, ◌≢◌, refl, ap, sym, ◌∙◌, Bool, true, some,
  List, [], ◌∷◌, ◌++◌, arith, ◌==◌, ltb, length, take, drop, take-append-drop, Bool-cases, inl, inr,
}
use mathlib.Core.List.{append_assoc}
use colang.Rt.RunQueue.{
  p_runqsize, RunQueue, queued, slot_at, copy_batch, p_runqgrab, take_stolen, p_runqsteal,
}
use colang.Rt.RunQueue.Ring.{IsRing, items, contents, items_same_slot, items-append, tail_slot}
use colang.Rt.RunQueue.Grab.{p_runqgrab-contents}
use colang.Rt.RunQueue.Copy.{
  length-copy_batch, copy_batch-outside, copy_batch-items, items-take, items-split,
}

length-items : (runq : List ℕ) (h n : ℕ) → length (items runq h n) ≡ n
length-items runq h zero = refl
length-items runq h (suc n) = ap suc (length-items runq (h + 1) n)

-- How many Ts p_runqgrab takes: half of them, rounded up.
abbrev pub half_of : RunQueue → ℕ
half_of q = queued q - queued q / 2

-- With the one that runs next the Ts `handed_over` are that half; they go behind those of the thief,
-- and the rest stays.
pub record IsStolen (p p2 p' p2' : RunQueue) (t : ℕ) : Type 0 where
  pub handed_over : List ℕ
  pub half : length handed_over + 1 ≡ half_of p2
  pub robbed : contents p2 ≡ handed_over ++ (t ∷ contents p2')
  pub gained : contents p' ≡ contents p ++ handed_over
  pub thief_ring : IsRing p'
  pub victim_ring : IsRing p2'

-- The thief's ring with the Ts that p_runqgrab wrote behind its tail.
module _ (p p2 : RunQueue) (n : ℕ) (h : IsRing p) (h2 : IsRing p2) (le : n ≤ queued p2)
    (room : queued p + n ≤ p_runqsize) where
  batch : List ℕ
  batch = copy_batch p2.runq p2.runqhead p.runq p.runqtail 0 n

  abbrev with_batch : RunQueue
  with_batch = record p { runq = batch }

  old-items : items batch p.runqhead (queued p) ≡ contents p
  unfolding batch
  old-items =
      copy_batch-outside p2.runq p2.runqhead p.runq p.runqtail 0 n p.runqhead (queued p)
        (λ k j hk hj e.
          apart p.runqhead p.runqtail k j h.head_fits h.tail_fits hk (omega (arith, hj, room))
            (omega (arith, e)))
    where
      apart :
          (head tail k j : ℕ)
          → head < 2 ^ 32
          → tail < 2 ^ 32
          → k < (tail + 2 ^ 32 - head) % 2 ^ 32
          → (tail + 2 ^ 32 - head) % 2 ^ 32 + j < 256
          → (head + k) % 256 ≢ (tail + j) % 256
      apart head tail k j hh ht hk hj e = omega arith

  new-items : items batch p.runqtail n ≡ items p2.runq p2.runqhead n
  unfolding batch
  new-items =
      let start : p.runqtail + 0 ≡ p.runqtail = omega arith in
      let source : p2.runqhead + 0 ≡ p2.runqhead = omega arith in
      ap (λ g. items batch g n) (sym start)
      ∙ copy_batch-items p2.runq p2.runqhead p.runq p.runqtail 0 n h.places (omega (arith, room))
      ∙ ap (λ g. items p2.runq g n) source

  places-batch : length batch ≡ p_runqsize
  unfolding batch
  places-batch = length-copy_batch p2.runq p2.runqhead p.runq p.runqtail 0 n ∙ h.places

module _ (p p2 : RunQueue) (m : ℕ) (h : IsRing p) (h2 : IsRing p2) (le : suc m ≤ queued p2)
    (room : queued p + suc m ≤ p_runqsize) where
  abbrev stolen : RunQueue
  stolen = with_batch p p2 (suc m) h h2 le room

  abbrev last_place : ℕ
  last_place = slot_at stolen.runq (p.runqtail + m)

  -- The first `m` and the one behind them.
  halves : contents p2 ≡ items stolen.runq p.runqtail m ++ (last_place ∷ drop (suc m) (contents p2))
  halves =
      let c = contents p2 in
      let front : take (suc m) c ≡ items stolen.runq p.runqtail m ++ (last_place ∷ []) =
        items-take p2.runq p2.runqhead (suc m) (queued p2) le
        ∙ sym (new-items p p2 (suc m) h h2 le room)
        ∙ items-append stolen.runq p.runqtail m in
      sym (take-append-drop (suc m) c)
      ∙ ap (λ xs. xs ++ drop (suc m) c) front
      ∙ append_assoc (items stolen.runq p.runqtail m) (last_place ∷ []) (drop (suc m) c)

  -- The counters after the tail has moved.
  tail_moved :
      (queued p + m ≤ 256)
      → ((p.runqtail + m) % 2 ^ 32 + 2 ^ 32 - p.runqhead) % 2 ^ 32 ≡ queued p + m
  tail_moved small = after p.runqhead p.runqtail m h.head_fits h.tail_fits small
    where
      after :
          (head tail j : ℕ)
          → head < 2 ^ 32
          → tail < 2 ^ 32
          → (tail + 2 ^ 32 - head) % 2 ^ 32 + j ≤ 256
          → ((tail + j) % 2 ^ 32 + 2 ^ 32 - head) % 2 ^ 32 ≡ (tail + 2 ^ 32 - head) % 2 ^ 32 + j
      after head tail j hh ht hj = omega arith

  abbrev grown : RunQueue
  grown = record stolen { runqtail = (p.runqtail + m) % 2 ^ 32 }

  grown-contents : contents grown ≡ contents p ++ items stolen.runq p.runqtail m
  grown-contents =
      let size = tail_moved (omega (arith, room)) in
      ap (λ k. items stolen.runq p.runqhead k) size
      ∙ items-split stolen.runq p.runqhead (queued p) m
      ∙ ap (λ xs. xs ++ items stolen.runq (p.runqhead + queued p) m)
          (old-items p p2 (suc m) h h2 le room)
      ∙ ap (λ xs. contents p ++ xs)
          (items_same_slot stolen.runq (p.runqhead + queued p) p.runqtail m
            (tail_slot p.runqhead p.runqtail h.head_fits h.tail_fits))

  grown-IsRing : IsRing grown
  grown-IsRing = record {
    head_fits = h.head_fits;
    tail_fits = omega arith;
    room = omega (arith, tail_moved (omega (arith, room)), room);
    places = places-batch p p2 (suc m) h h2 le room;
  }

  -- The end of p_runqsteal.
  take_stolen_lem : take_stolen stolen (suc m) ≡ some (grown, last_place)
  unfolding take_stolen
  take_stolen_lem = elim (Bool-cases (m == 0)) [
    | inl e ↦
        let here : p.runqtail ≡ (p.runqtail + m) % 2 ^ 32 = ground (arith, h.tail_fits) in
        rw e (ap (λ k. some (record stolen { runqtail = k }, last_place)) here)
    | inr e ↦
        let fits : ltb (queued stolen + m) p_runqsize ≡ true = ground (arith, room) in
        rw (e, fits) refl
  ]

  IsStolen-by :
      (steal_next : Bool) (r : RunQueue)
      → half_of p2 ≡ suc m
      → p_runqgrab p2 p.runq p.runqtail steal_next ≡ some (r, (stolen.runq, suc m))
      → contents r ≡ drop (suc m) (contents p2)
      → IsRing r
      → (p_runqsteal p p2 steal_next ≡ some (grown, (r, last_place)))
        × IsStolen p p2 grown r last_place
  unfolding p_runqsteal
  IsStolen-by steal_next r size grab left ring = (
    rw (p_runqsteal, grab, take_stolen_lem) refl,
    record {
      handed_over = items stolen.runq p.runqtail m;
      half = omega (arith, size, length-items stolen.runq p.runqtail m);
      robbed = halves ∙ ap (λ xs. items stolen.runq p.runqtail m ++ (last_place ∷ xs)) (sym left);
      gained = grown-contents;
      thief_ring = grown-IsRing;
      victim_ring = ring;
    },
  )

-- For two rings in order, with some T queued in the second and room in the first for the half that
-- is taken, p_runqsteal returns a T: of the first half of the second queue, rounded up, that T is
-- the last and the others go behind the Ts of the first; the rest stays, in order, and so do both
-- rings.
pub p_runqsteal-IsStolen :
    (p p2 : RunQueue) (steal_next : Bool)
    → IsRing p
    → IsRing p2
    → 0 < queued p2
    → queued p + half_of p2 ≤ p_runqsize
    → (p' : RunQueue) × ((p2' : RunQueue) × ((t : ℕ) × (p_runqsteal p p2 steal_next
            ≡ some (p', (p2', t)))
          × IsStolen p p2 p' p2' t))
unfolding batch
p_runqsteal-IsStolen p p2 steal_next h h2 some_queued room =
    given (half_of p2 - 1) (omega (arith, some_queued))
  where
    given :
        (m : ℕ)
        → half_of p2 ≡ suc m
        → (p' : RunQueue) × ((p2' : RunQueue) × ((t : ℕ) × (p_runqsteal p p2 steal_next
                ≡ some (p', (p2', t)))
              × IsStolen p p2 p' p2' t))
    given m size =
        let le : suc m ≤ queued p2 = omega (arith, some_queued, size) in
        let fits : queued p + suc m ≤ p_runqsize = omega (arith, room, size) in
        let (r, grab, left, ring) =
          p_runqgrab-contents p2 p.runq p.runqtail steal_next h2 some_queued in
        let taking : ℕ → RunQueue × (List ℕ × ℕ) =
          λ k. (r, (copy_batch p2.runq p2.runqhead p.runq p.runqtail 0 k, k)) in
        let done =
          IsStolen-by p p2 m h h2 le fits steal_next r size (grab ∙ ap (λ k. some (taking k)) size)
            (left ∙ ap (λ k. drop k (contents p2)) size) ring in
        (grown p p2 m h h2 le fits, (r, (last_place p p2 m h h2 le fits, done.0, done.1)))
