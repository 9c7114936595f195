-- ===== src/Rt/Tasks.antt =====
-- src/rt/sched.c: the status of each T, and the steps in which one M with its P hands itself from T
-- to T: sched_spawn, t_yield, t_exit, schedule and t_execute. The other Ms are asleep and the queue
-- of the scheduler is empty, so that schedule asks the queue of the P only. A T is a number other
-- than 0, and is in the free list or fresh where it is dead. The stacks and contexts, which a switch
-- saves and restores, are left out.
pub mod Waiting
pub mod Safety
pub mod Reach
pub mod Turn
use colang.Prelude.{ℕ, ◌+◌, ◌%◌, ◌^◌, Bool, true, false, Option, none, some, if◌then◌else◌, ◌==◌}
use colang.Rt.RunQueue.{RunQueue, p_runqput, p_runqget}

pub data TStatus : Type 0 where
  t_idle t_runnable t_running t_syscall t_waiting t_dead : TStatus

-- The number of a status in the enumeration.
abbrev pub code : TStatus → ℕ
code t_idle = 0
code t_runnable = 1
code t_running = 2
code t_syscall = 3
code t_waiting = 4
code t_dead = 5

-- `curt` is the T that runs, 0 while the M itself does.
pub record Machine : Type 0 where
  pub status : ℕ → TStatus
  pub curt : ℕ
  pub queue : RunQueue
  pub schedtick : ℕ

abbrev pub set_status : (ℕ → TStatus) → ℕ → TStatus → ℕ → TStatus
set_status status t s a = if t == a then s else status a

infixl 5 ◌>>=◌
abbrev pub ◌>>=◌ {ℓ κ} : {A : Type ℓ} {B : Type κ} → Option A → (A → Option B) → Option B
none >>= f = none
some a >>= f = f a

-- t_casstatus waits for the old status; nobody else sets it, so that `none` is a wait without end.
unfoldable pub t_casstatus : Machine → ℕ → TStatus → TStatus → Option Machine
t_casstatus m t old new =
    if code (m.status t) == code old
    then some (record m { status = set_status m.status t new })
    else none

unfoldable pub m_dropt : Machine → Machine
m_dropt m = record m { curt = 0 }

unfoldable pub t_execute : Machine → ℕ → Bool → Option Machine
unfolding t_casstatus
t_execute m t inherit_time = do
  m' ← t_casstatus (record m { curt = t }) t t_runnable t_running
  some (if inherit_time then m' else record m' { schedtick = (m'.schedtick + 1) % 2 ^ 32 })

-- Without a T to run the M goes to sleep in s_findrunnable, with no T of its own.
unfoldable pub schedule : Machine → Option Machine
unfolding t_execute
schedule m =
    let r = p_runqget m.queue in
    let m' = record m { queue = r.0 } in if r.1.0 == 0 then some m' else t_execute m' r.1.0 r.1.1

-- p_runqput of a T into the queue of the P.
unfoldable pub put_runnable : Machine → ℕ → Bool → Option Machine
put_runnable m t next = do q ← p_runqput m.queue t next; some (record m { queue = q })

-- t_yield1
unfoldable pub t_yield : Machine → Option Machine
unfolding t_casstatus m_dropt put_runnable schedule
t_yield m = do
  m' ← t_casstatus m m.curt t_running t_runnable
  m'' ← put_runnable (m_dropt m') m.curt false
  schedule m''

unfoldable pub t_exit : Machine → Option Machine
unfolding t_casstatus m_dropt schedule
t_exit m = do m' ← t_casstatus m m.curt t_running t_dead; schedule (m_dropt m')

-- sched_spawn, with the T that it has from the free list or from t_alloc.
unfoldable pub sched_spawn : Machine → ℕ → Option Machine
unfolding t_casstatus put_runnable
sched_spawn m t = do m' ← t_casstatus m t t_dead t_runnable; put_runnable m' t true
