-- ===== src/Rt/GlobalQueue/Batch.antt =====
-- What s_runqget moves.
use colang.Prelude.{
  ℕ, zero, suc, ◌+◌, ◌-◌, ◌/◌, ◌^◌, ◌≤◌, ◌<◌, ◌≡◌, refl, ap, ◌∙◌, sym, false, some, List, [], ◌∷◌,
  ◌++◌, arith, ◌==◌, take, drop, length, length-append, length-drop,
}
use mathlib.Core.List.{append_assoc, append-nil}
use colang.Rt.RunQueue.{RunQueue, p_runqsize, queued, p_runqput}
use colang.Rt.RunQueue.Ring.{IsRing, items, contents, p_runqput-contents}
use colang.Rt.GlobalQueue.{Sched, tqueue_pop, batch_size, move_batch, taken, s_runqget}

pub length-items : (runq : List ℕ) (h n : ℕ) → length (items runq h n) ≡ n
length-items runq h zero = refl
length-items runq h (suc n) = ap suc (length-items runq (h + 1) n)

queued_grows :
    (p r : RunQueue) (t : ℕ) → contents r ≡ contents p ++ (t ∷ []) → queued r ≡ queued p + 1
queued_grows p r t e = omega (
  arith,
  length-items r.runq r.runqhead (queued r),
  length-items p.runq p.runqhead (queued p),
  ap (λ ts. length ts) e,
  length-append (contents p) (t ∷ []),
)

move_batch-suc :
    (n : ℕ) (p r : RunQueue) (t : ℕ) (q : List ℕ)
    → p_runqput p t false ≡ some r
    → move_batch (suc n) p (t ∷ q) ≡ move_batch n r q
unfolding move_batch tqueue_pop
move_batch-suc n p r t q e = rw (e, move_batch) refl

move_batch-contents :
    (n : ℕ) (p : RunQueue) (q : List ℕ)
    → IsRing p
    → queued p + n ≤ p_runqsize
    → n ≤ length q
    → (r : RunQueue) × (move_batch n p q ≡ some (r, drop n q))
      × (contents r ≡ contents p ++ take n q)
      × IsRing r
unfolding move_batch
move_batch-contents zero p q h room enough = (p, refl, sym (append-nil (contents p)), h)
move_batch-contents (suc n) p [] h room enough = elim enough [ ]
move_batch-contents (suc n) p (t ∷ q) h room enough =
    let (r, given, appended, ring) = p_runqput-contents p t h (omega arith) in
    let grown = queued_grows p r t appended in
    let (r', moved, all, ring') =
      move_batch-contents n r q ring (omega (arith, grown, room)) (omega arith) in
    (
      r',
      move_batch-suc n p r t q given ∙ moved,
      all
          ∙ (ap (λ front. front ++ take n q) appended
              ∙ append_assoc (contents p) (t ∷ []) (take n q)),
      ring',
    )

batch_size-le : (s : Sched) (most : ℕ) → batch_size s most ≤ s.runqsize
unfolding batch_size
batch_size-le s most = ground arith

batch_size_positive :
    (s : Sched) (most : ℕ)
    → 0 < s.runqsize
    → s.runqsize / s.maxprocs + 1 < 2 ^ 32
    → 0 < batch_size s most
unfolding batch_size
batch_size_positive s most h fit = ground arith

not_none : (n : ℕ) → 0 < n → n == 0 ≡ false
not_none n h = ground arith

-- The scheduler after s_runqget: `n` Ts fewer.
pub record IsTaken (p : RunQueue) (rest : List ℕ) (n : ℕ) (r : RunQueue) (s : Sched) : Type 0 where
  pub appended : contents r ≡ contents p ++ take (n - 1) rest
  pub ring : IsRing r
  pub left : s.runq ≡ drop (n - 1) rest
  pub counted : length s.runq ≡ s.runqsize

-- Where the scheduler's queue has a head and its size is right, the share of a P fits 32 bits, and
-- the batch fits the ring of the P, s_runqget returns the head, moves the rest of the batch behind
-- the Ts of the ring in their order, and leaves the rest of the queue with its size.
pub s_runqget-IsTaken :
    (p : RunQueue) (s : Sched) (most t : ℕ) (rest : List ℕ)
    → IsRing p
    → s.runq ≡ t ∷ rest
    → length s.runq ≡ s.runqsize
    → s.runqsize / s.maxprocs + 1 < 2 ^ 32
    → queued p + batch_size s most ≤ p_runqsize
    → (r : RunQueue) × ((s' : Sched) × ((s_runqget p s most ≡ some (r, (s', t)))
          × IsTaken p rest (batch_size s most) r s'))
unfolding s_runqget tqueue_pop taken
s_runqget-IsTaken p s most t rest h e counted fit room =
    let size : s.runqsize ≡ suc (length rest) = sym counted ∙ ap (λ q. length q) e in
    let positive = batch_size_positive s most (omega (arith, size)) fit in
    let n : ℕ = batch_size s most in
    let (r, moved, all, ring) =
      move_batch-contents (n - 1) p rest h (omega arith)
        (omega (arith, batch_size-le s most, size, positive)) in
    let s' : Sched = record s { runq = drop (n - 1) rest; runqsize = s.runqsize - n } in
    (
      r,
      (
        s',
        (
          rw (not_none s.runqsize (omega (arith, size))) (
              ap (λ q. taken (move_batch (n - 1) p (tqueue_pop q).1) s n (tqueue_pop q).0) e
              ∙ ap (λ o. taken o s n t) moved),
          record {
            appended = all;
            ring = ring;
            left = refl;
            counted = omega (arith, length-drop (n - 1) rest, size, positive, batch_size-le s most);
          },
        ),
      ),
    )
