-- ===== src/Rt/Tasks/Reach.antt =====
-- The states that the steps of the M reach.
use colang.Prelude.{
  ℕ, ◌+◌, ◌≡◌, ◌≢◌, refl, subst, ◌∙◌, false, Option, none, some, [], ◌∷◌, arith, if◌then◌else◌,
  ◌==◌, count, Bool-cases, inl, inr, replicate, length-replicate,
}
use colang.Rt.RunQueue.{RunQueue, p_runqput, p_runqsize}
use colang.Rt.Tasks.{
  t_idle, t_runnable, t_dead, code, Machine, set_status, ◌>>=◌, t_casstatus, m_dropt, schedule,
  put_runnable, t_yield, t_exit, sched_spawn,
}
use colang.Rt.Tasks.Waiting.{waiting, Put, p_runqput-Put}
use colang.Rt.Tasks.Safety.{
  IsSafe, Safe, Runs-Safe, not_null, schedule-Runs, sched_spawn-Safe, t_exit-Safe,
}

Put-schedule-Safe :
    (m : Machine) (t : ℕ) (o : Option RunQueue)
    → m.curt ≡ 0
    → ((a : ℕ)
        → count a (waiting m.queue) + count a (t ∷ []) ≡ (if code (m.status a) == 1 then 1 else 0))
    → ((a : ℕ) → a ≢ 0 → (code (m.status a) == 2) ≡ (a == m.curt))
    → m.status 0 ≡ t_idle
    → Put m.queue t o
    → Safe (o >>= λ q. some (record m { queue = q }) >>= schedule)
Put-schedule-Safe m t none at_rest waits runs idle h = tt
Put-schedule-Safe m t (some q) at_rest waits runs idle h =
    let m' : Machine = record m { queue = q } in
    Runs-Safe (schedule m') (
      schedule-Runs m'
        (record { ring = h.0; waits = λ a. h.1 a ∙ waits a; runs = runs; null_idle = idle })
        at_rest)

pub >>=_assoc :
    (o : Option RunQueue) (f : RunQueue → Option Machine) (g : Machine → Option Machine)
    → ((o >>= f) >>= g) ≡ (o >>= λ q. f q >>= g)
>>=_assoc none f g = refl
>>=_assoc (some q) f g = refl

pub t_yield-Safe : (m : Machine) → IsSafe m → Safe (t_yield m)
unfolding t_yield t_casstatus m_dropt put_runnable
t_yield-Safe m s = elim (Bool-cases (code (m.status m.curt) == 2)) [
  | inr e ↦ rw e tt
  | inl e ↦
      let nz = not_null m m.curt s.null_idle (ground arith) in
      let left : Machine = record m { status = set_status m.status m.curt t_runnable; curt = 0 } in
      rw
        (
          e,
          >>=_assoc (p_runqput m.queue m.curt false) (λ q. some (record left { queue = q }))
              schedule,
        )
        (Put-schedule-Safe left m.curt (p_runqput m.queue m.curt false) refl
          (λ a. ground (arith, s.waits a)) (λ a ne. ground (arith, s.runs a ne)) (rw nz s.null_idle)
          (p_runqput-Put m.queue m.curt false (ground arith) s.ring))
]

-- The T that runs yields, exits, or spawns one that is dead; and where none runs, the M is woken and
-- asks the queue.
pub data Step (m : Machine) : Machine → Type 0 where
  yields : {m' : Machine} → t_yield m ≡ some m' → Step m m'
  exits : {m' : Machine} → t_exit m ≡ some m' → Step m m'
  spawns : (t : ℕ) {m' : Machine} → sched_spawn m t ≡ some m' → Step m m'
  wakes : {m' : Machine} → m.curt ≡ 0 → schedule m ≡ some m' → Step m m'

-- All Ts but NULL are dead, and nothing is queued.
abbrev pub empty_queue : RunQueue
empty_queue = record { runqhead = 0; runqtail = 0; runq = replicate p_runqsize 0; runnext = 0 }

abbrev pub fresh_machine : Machine
fresh_machine = record {
  status = λ t. if t == 0 then t_idle else t_dead;
  curt = 0;
  queue = empty_queue;
  schedtick = 0;
}

pub data Reach : Machine → Type 0 where
  start : Reach fresh_machine
  later : {m m' : Machine} → Reach m → Step m m' → Reach m'

fresh_machine-IsSafe : IsSafe fresh_machine
fresh_machine-IsSafe = record {
  ring = record {
    head_fits = omega arith;
    tail_fits = omega arith;
    room = omega arith;
    places = length-replicate {A = ℕ} p_runqsize 0;
  };
  waits = λ a. ground arith;
  runs = λ a ne. ground arith;
  null_idle = refl;
}

Step-IsSafe : {m m' : Machine} → Step m m' → IsSafe m → IsSafe m'
Step-IsSafe {m} (yields e) s = subst Safe e (t_yield-Safe m s)
Step-IsSafe {m} (exits e) s = subst Safe e (t_exit-Safe m s)
Step-IsSafe {m} (spawns t e) s = subst Safe e (sched_spawn-Safe m t s)
Step-IsSafe {m} (wakes idle e) s = subst Safe e (Runs-Safe (schedule m) (schedule-Runs m s idle))

-- In every state that spawns, yields, exits and wakings of the M reach from the start, a T is
-- queued on the P once if its status is runnable and otherwise not at all, the only T with the
-- status running is the one that the M has, and the ring is in order: no T is lost, queued twice,
-- or run while it waits.
pub Reach-IsSafe : {m : Machine} → Reach m → IsSafe m
Reach-IsSafe start = fresh_machine-IsSafe
Reach-IsSafe (later r st) = Step-IsSafe st (Reach-IsSafe r)
