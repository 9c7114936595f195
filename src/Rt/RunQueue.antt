-- ===== src/Rt/RunQueue.antt =====
-- src/rt/sched.c: the local run queue of a P, a ring of P_RUNQSIZE places between two counters that
-- wrap around at 2 ^ 32, with the slot runnext beside it. A T is a number, 0 is NULL. Each function
-- runs as one step: its compare-and-swap loops succeed at once where no other thread steps in.
pub mod Ring
pub mod Grab
pub mod Copy
pub mod Steal
use colang.Prelude.{
  ℕ, zero, suc, ◌+◌, ◌-◌, ◌/◌, ◌%◌, ◌^◌, min, Bool, true, false, ◌&&◌, not, Option, none, some,
  List, [], ◌∷◌, if◌then◌else◌, ◌==◌, ltb, get_or, set,
}

abbrev pub p_runqsize : ℕ
p_runqsize = 256

pub record RunQueue : Type 0 where
  pub runqhead : ℕ
  pub runqtail : ℕ
  pub runq : List ℕ
  pub runnext : ℕ

-- `tail - head` in 32 bits.
abbrev pub queued : RunQueue → ℕ
queued q = (q.runqtail + 2 ^ 32 - q.runqhead) % 2 ^ 32

-- `runq[i % P_RUNQSIZE]`
abbrev pub slot_at : List ℕ → ℕ → ℕ
slot_at runq i = get_or runq (i % p_runqsize) 0

unfoldable pub p_runqempty : RunQueue → Bool
p_runqempty q = q.runqhead == q.runqtail && q.runnext == 0

-- The loop of p_runqput. A full queue goes to p_runqputslow, which is not written yet in the source
-- and answers false, so that the loop starts again: `none` stands for that.
unfoldable pub put_tail : RunQueue → ℕ → Option RunQueue
put_tail q t =
    if ltb (queued q) p_runqsize
    then some (record q {
      runq = set q.runq (q.runqtail % p_runqsize) t;
      runqtail = (q.runqtail + 1) % 2 ^ 32;
    })
    else none

unfoldable pub p_runqput : RunQueue → ℕ → Bool → Option RunQueue
p_runqput q t next =
    if next
    then (if q.runnext == 0
        then some (record q { runnext = t })
        else put_tail (record q { runnext = t }) q.runnext)
    else put_tail q t

-- The T, 0 where there is none, and `*inheritTime`.
unfoldable pub p_runqget : RunQueue → RunQueue × (ℕ × Bool)
p_runqget q =
    if q.runnext == 0
    then (if q.runqtail == q.runqhead then (q, (0, false)) else (
      record q { runqhead = (q.runqhead + 1) % 2 ^ 32 },
      (slot_at q.runq q.runqhead, false),
    ))
    else (record q { runnext = 0 }, (q.runnext, true))

-- The copying loop of p_runqgrab, from index `i` on with `to_go` left.
unfoldable pub copy_batch : List ℕ → ℕ → List ℕ → ℕ → ℕ → ℕ → List ℕ
copy_batch runq h batch batch_head i zero = batch
copy_batch runq h batch batch_head i (suc to_go) =
    copy_batch runq h (set batch ((batch_head + i) % p_runqsize) (slot_at runq (h + i))) batch_head
      (i + 1) to_go

-- `none` where the two counters were read inconsistently, and the loop starts again.
unfoldable pub p_runqgrab : RunQueue → List ℕ → ℕ → Bool → Option (RunQueue × (List ℕ × ℕ))
p_runqgrab q batch batch_head steal_next =
    let n = queued q - queued q / 2 in
    if n == 0
    then (if steal_next && not (q.runnext == 0)
        then some (record q { runnext = 0 }, (set batch (batch_head % p_runqsize) q.runnext, 1))
        else some (q, (batch, 0)))
    else (if ltb (p_runqsize / 2) n
        then none
        else some (
          record q { runqhead = (q.runqhead + n) % 2 ^ 32 },
          (copy_batch q.runq q.runqhead batch batch_head 0 n, n),
        ))

-- The end of p_runqsteal, with the number of stolen Ts; `none` is its panic.
unfoldable pub take_stolen : RunQueue → ℕ → Option (RunQueue × ℕ)
take_stolen p zero = some (p, 0)
take_stolen p (suc n) =
    let t = slot_at p.runq (p.runqtail + n) in
    if n == 0
    then some (p, t)
    else (if ltb (queued p + n) p_runqsize
        then some (record p { runqtail = (p.runqtail + n) % 2 ^ 32 }, t)
        else none)

-- The P, the robbed P and the T to run.
unfoldable pub p_runqsteal : RunQueue → RunQueue → Bool → Option (RunQueue × (RunQueue × ℕ))
p_runqsteal p p2 steal_next = elim (p_runqgrab p2 p.runq p.runqtail steal_next) [
  | none ↦ none
  | some (p2', (batch, n)) ↦ elim (take_stolen (record p { runq = batch }) n) [
    | none ↦ none
    | some (p', t) ↦ some (p', (p2', t))
  ]
]
