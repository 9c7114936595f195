-- ===== src/Rt/GlobalQueue.antt =====
-- src/rt/sched.c: the queues of Ts that are linked by schedlink, as lists with the head first, and
-- the batch that a P takes from the scheduler's own queue.
pub mod Batch
use colang.Prelude.{
  ℕ, zero, suc, ◌+◌, ◌-◌, ◌/◌, ◌%◌, ◌^◌, min, Bool, true, false, ◌&&◌, Option, none, some, List, [],
  ◌∷◌, ◌++◌, if◌then◌else◌, ◌==◌, ltb,
}
use colang.Rt.RunQueue.{RunQueue, p_runqsize, p_runqput}

unfoldable pub tqueue_push : List ℕ → ℕ → List ℕ
tqueue_push q t = t ∷ q

unfoldable pub tqueue_push_back : List ℕ → ℕ → List ℕ
tqueue_push_back q t = q ++ (t ∷ [])

unfoldable pub tqueue_push_back_all : List ℕ → List ℕ → List ℕ
tqueue_push_back_all q q2 = q ++ q2

-- The head, 0 of an empty queue, and the rest.
unfoldable pub tqueue_pop : List ℕ → ℕ × List ℕ
tqueue_pop [] = (0, [])
tqueue_pop (t ∷ q) = (t, q)

-- TListPushAll
unfoldable pub tlist_push_all : List ℕ → List ℕ → List ℕ
tlist_push_all l q = q ++ l

-- The part of S that s_runqget reads and writes.
pub record Sched : Type 0 where
  pub runq : List ℕ
  pub runqsize : ℕ
  pub maxprocs : ℕ

unfoldable pub s_runqputhead : Sched → ℕ → Sched
s_runqputhead s t = record s { runq = tqueue_push s.runq t; runqsize = (s.runqsize + 1) % 2 ^ 32 }

-- The number of Ts to take.
unfoldable pub batch_size : Sched → ℕ → ℕ
batch_size s most =
    let n = min s.runqsize ((s.runqsize / s.maxprocs + 1) % 2 ^ 32) in
    let capped = if ltb 0 most && ltb most n then most else n in min capped (p_runqsize / 2)

-- The loop that moves Ts to the P; `none` where p_runqput does not return.
unfoldable pub move_batch : ℕ → RunQueue → List ℕ → Option (RunQueue × List ℕ)
move_batch zero p q = some (p, q)
move_batch (suc n) p q = elim (p_runqput p (tqueue_pop q).0 false) [
  | none ↦ none
  | some p' ↦ move_batch n p' (tqueue_pop q).1
]

-- The end of s_runqget, with `n` Ts taken and `t` the first of them.
unfoldable pub taken : Option (RunQueue × List ℕ) → Sched → ℕ → ℕ → Option (RunQueue × (Sched × ℕ))
taken none s n t = none
taken (some (p, q)) s n t = some (p, (record s { runq = q; runqsize = s.runqsize - n }, t))

-- The P, the scheduler and the T to run, 0 where there is none.
unfoldable pub s_runqget : RunQueue → Sched → ℕ → Option (RunQueue × (Sched × ℕ))
s_runqget p s most =
    let n = batch_size s most in
    if s.runqsize == 0
    then some (p, (s, 0))
    else taken (move_batch (n - 1) p (tqueue_pop s.runq).1) s n (tqueue_pop s.runq).0
