-- ===== src/Rt/Tasks/Safety.antt =====
-- The status of a T and the place where it is agree in every state that the steps reach.
use colang.Prelude.{
  ℕ, ◌+◌, ◌%◌, ◌^◌, ◌<◌, ◌≡◌, ◌≢◌, refl, ap, sym, ◌∙◌, Bool, true, false, Option, none, some, List,
  [], ◌∷◌, arith, if◌then◌else◌, ◌==◌, ==_iff, count, Bool-cases, inl, inr,
}
use colang.Rt.RunQueue.{RunQueue, p_runqput, p_runqget}
use colang.Rt.RunQueue.Ring.{IsRing, IsFront}
use colang.Rt.Tasks.{
  t_idle, t_runnable, t_running, t_dead, code, Machine, set_status, ◌>>=◌, t_casstatus, m_dropt,
  t_execute, schedule, put_runnable, t_exit, sched_spawn,
}
use colang.Rt.Tasks.Waiting.{waiting, Put, p_runqget-waiting, p_runqput-Put}

-- A T is in the queue once where it is runnable, and otherwise not at all; the one that runs is the
-- one that the M has; NULL is no T.
pub record IsSafe (m : Machine) : Type 0 where
  pub ring : IsRing m.queue
  pub waits : (a : ℕ) → count a (waiting m.queue) ≡ (if code (m.status a) == 1 then 1 else 0)
  pub runs : (a : ℕ) → a ≢ 0 → (code (m.status a) == 2) ≡ (a == m.curt)
  pub null_idle : m.status 0 ≡ t_idle

-- Safe but that no T runs and `t` waits once more than the queue has it.
record IsBetween (m : Machine) (t : ℕ) : Type 0 where
  ring : IsRing m.queue
  waits : (a : ℕ) → count a (t ∷ waiting m.queue) ≡ (if code (m.status a) == 1 then 1 else 0)
  runs : (a : ℕ) → a ≢ 0 → (code (m.status a) == 2) ≡ false
  null_idle : m.status 0 ≡ t_idle

abbrev pub Runs : Option Machine → Type 0
Runs none = ⊥
Runs (some m) = IsSafe m

ticked :
    (b : Bool) (m : Machine)
    → IsSafe m
    → IsSafe (if b then m else record m { schedtick = (m.schedtick + 1) % 2 ^ 32 })
ticked true m s = s
ticked false m s = record { ring = s.ring; waits = s.waits; runs = s.runs; null_idle = s.null_idle }

-- Only a T with a status of its own is other than NULL.
pub not_null :
    (m : Machine) (t : ℕ) → m.status 0 ≡ t_idle → 0 < code (m.status t) → (t == 0) ≡ false
not_null m t idle h = elim (Bool-cases (t == 0)) [
  | inr e ↦ e
  | inl e ↦
      let same : code (m.status t) ≡ 0 =
        ap (λ a. code (m.status a)) ((==_iff t 0).0 e) ∙ ap code idle in
      absurd (omega (arith, h, same))
]

t_execute-Runs :
    (m : Machine) (t : ℕ) (inherit_time : Bool) → IsBetween m t → Runs (t_execute m t inherit_time)
unfolding t_execute t_casstatus
t_execute-Runs m t inherit_time b =
    let runnable : (code (m.status t) == 1) ≡ true = ground (arith, b.waits t) in
    let taken : Machine = record m { status = set_status m.status t t_running; curt = t } in
    rw runnable (
      ticked inherit_time taken (record {
        ring = b.ring;
        waits = λ a. ground (arith, b.waits a);
        runs = λ a ne. ground (arith, b.runs a ne);
        null_idle = rw (not_null m t b.null_idle (ground arith)) b.null_idle;
      }))

-- The first that waits is taken, if there is one.
take_front :
    (m : Machine) (q : RunQueue) (t : ℕ) (inherit_time : Bool) (ws : List ℕ)
    → IsSafe m
    → m.curt ≡ 0
    → waiting m.queue ≡ ws
    → IsFront ws t (waiting q)
    → IsRing q
    → Runs (
        if t == 0
        then some (record m { queue = q })
        else t_execute (record m { queue = q }) t inherit_time)
take_front m q t inherit_time [] s idle e front ring = rw front.0 (record {
  ring = ring;
  waits = λ a. rw front.1 (ap (count a) (sym e) ∙ s.waits a);
  runs = s.runs;
  null_idle = s.null_idle;
})
take_front m q t inherit_time (x ∷ rest) s idle e front ring =
    let first : t ∷ waiting q ≡ waiting m.queue = rw (front.0, front.1) (sym e) in
    let waits : (a : ℕ) → count a (t ∷ waiting q) ≡ (if code (m.status a) == 1 then 1 else 0) =
      λ a. ap (count a) first ∙ s.waits a in
    rw (not_null m t s.null_idle (ground (arith, waits t))) (
      t_execute-Runs (record m { queue = q }) t inherit_time
        (record {
          ring = ring;
          waits = waits;
          runs = λ a ne. ground (arith, s.runs a ne);
          null_idle = s.null_idle;
        }))

pub schedule-Runs : (m : Machine) → IsSafe m → m.curt ≡ 0 → Runs (schedule m)
unfolding schedule
schedule-Runs m s idle =
    let (front, ring) = p_runqget-waiting m.queue s.ring in
    take_front m (p_runqget m.queue).0 (p_runqget m.queue).1.0 (p_runqget m.queue).1.1
      (waiting m.queue) s idle refl front ring

-- A step is safe where it comes to an end.
abbrev pub Safe : Option Machine → Type 0
Safe none = Unit
Safe (some m) = IsSafe m

pub Runs-Safe : (o : Option Machine) → Runs o → Safe o
Runs-Safe none h = tt
Runs-Safe (some m) h = h

-- `t` leaves the status `old`, which keeps no T in the queue, for one in which it waits.
put_runnable-Safe :
    (m : Machine) (t : ℕ) (next : Bool)
    → t ≢ 0
    → IsRing m.queue
    → ((a : ℕ)
        → count a (waiting m.queue) + count a (t ∷ []) ≡ (if code (m.status a) == 1 then 1 else 0))
    → ((a : ℕ) → a ≢ 0 → (code (m.status a) == 2) ≡ (a == m.curt))
    → m.status 0 ≡ t_idle
    → Safe (put_runnable m t next)
unfolding put_runnable
put_runnable-Safe m t next ne ring waits runs idle =
    put (p_runqput m.queue t next) (p_runqput-Put m.queue t next ne ring)
  where
    put : (o : Option RunQueue) → Put m.queue t o → Safe (o >>= λ q. some (record m { queue = q }))
    put none h = tt
    put (some q) h = record {
      ring = h.0;
      waits = λ a. h.1 a ∙ waits a;
      runs = runs;
      null_idle = idle;
    }

pub sched_spawn-Safe : (m : Machine) (t : ℕ) → IsSafe m → Safe (sched_spawn m t)
unfolding sched_spawn t_casstatus
sched_spawn-Safe m t s = elim (Bool-cases (code (m.status t) == 5)) [
  | inr e ↦ rw e tt
  | inl e ↦
      let nz = not_null m t s.null_idle (ground arith) in
      rw e (
        put_runnable-Safe (record m { status = set_status m.status t t_runnable }) t true
          (ground arith) s.ring (λ a. ground (arith, s.waits a))
          (λ a ne. ground (arith, s.runs a ne)) (rw nz s.null_idle))
]

pub t_exit-Safe : (m : Machine) → IsSafe m → Safe (t_exit m)
unfolding t_exit t_casstatus m_dropt
t_exit-Safe m s = elim (Bool-cases (code (m.status m.curt) == 2)) [
  | inr e ↦ rw e tt
  | inl e ↦
      let nz = not_null m m.curt s.null_idle (ground arith) in
      let left : Machine = record m { status = set_status m.status m.curt t_dead; curt = 0 } in
      rw e (
        Runs-Safe (schedule left) (
          schedule-Runs left
            (record {
              ring = s.ring;
              waits = λ a. ground (arith, s.waits a);
              runs = λ a ne. ground (arith, s.runs a ne);
              null_idle = rw nz s.null_idle;
            })
            refl))
]
