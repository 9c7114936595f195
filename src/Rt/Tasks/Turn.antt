-- ===== src/Rt/Tasks/Turn.antt =====
-- Each T that waits gets its turn.
use colang.Prelude.{
  ℕ, ◌+◌, ◌%◌, ◌^◌, ◌<◌, ◌≤◌, ◌≡◌, ◌≢◌, refl, ap, sym, subst, ◌∙◌, Bool, true, false, Option, none,
  some, List, [], ◌∷◌, ◌++◌, arith, if◌then◌else◌, ◌==◌, count, count-append, length, length-append,
  Bool-cases, inl, inr,
}
use mathlib.Core.List.{append_assoc}
use colang.Rt.RunQueue.{RunQueue, p_runqget, p_runqsize, queued}
use colang.Rt.RunQueue.Ring.{IsFront}
use colang.Rt.GlobalQueue.Batch.{length-items}
use colang.Rt.Tasks.{
  t_runnable, t_running, t_dead, code, Machine, set_status, ◌>>=◌, t_casstatus, m_dropt, t_execute,
  schedule, put_runnable, t_yield, t_exit,
}
use colang.Rt.Tasks.Waiting.{waiting, p_runqget-waiting, put_back-waiting}
use colang.Rt.Tasks.Safety.{IsSafe, Safe, Runs, not_null, schedule-Runs, t_exit-Safe}
use colang.Rt.Tasks.Reach.{t_yield-Safe}

-- What the T that runs does, with no new T.
pub data Event : Type 0 where
  yields exits : Event

unfoldable pub advance : Machine → Event → Option Machine
advance m yields = t_yield m
advance m exits = t_exit m

unfoldable pub run_events : Machine → List Event → Option Machine
run_events m [] = some m
run_events m (e ∷ es) = advance m e >>= λ m'. run_events m' es

-- `x` runs, and `rest` waits.
abbrev pub RunsFirst : ℕ → List ℕ → Option Machine → Type 0
RunsFirst x rest none = ⊥
RunsFirst x rest (some m) = (m.curt ≡ x) × (waiting m.queue ≡ rest)

t_execute-RunsFirst :
    (m : Machine) (t : ℕ) (b : Bool) (rest : List ℕ)
    → waiting m.queue ≡ rest
    → Runs (t_execute m t b)
    → RunsFirst t rest (t_execute m t b)
unfolding t_execute t_casstatus
t_execute-RunsFirst m t b rest e h = elim (Bool-cases (code (m.status t) == 1)) [
  | inl c ↦ rw c (ticked b)
  | inr c ↦ absurd (subst Runs (gone c) h)
]
  where
    ticked :
        (b : Bool)
        → RunsFirst t rest (
            some (
              if b
              then record m { status = set_status m.status t t_running; curt = t }
              else record m {
                status = set_status m.status t t_running;
                curt = t;
                schedtick = (m.schedtick + 1) % 2 ^ 32;
              }))
    ticked true = (refl, e)
    ticked false = (refl, e)

    gone : (code (m.status t) == 1) ≡ false → t_execute m t b ≡ none
    gone c = rw c

schedule-RunsFirst :
    (m : Machine) (x : ℕ) (rest : List ℕ)
    → IsSafe m
    → m.curt ≡ 0
    → waiting m.queue ≡ x ∷ rest
    → RunsFirst x rest (schedule m)
unfolding schedule
schedule-RunsFirst m x rest s idle e =
    let r = p_runqget m.queue in
    let front =
      subst (λ ws. IsFront ws r.1.0 (waiting r.0)) e (p_runqget-waiting m.queue s.ring).0 in
    let waits : 0 < code (m.status r.1.0) =
      rw front.0 (ground (arith, s.waits x, ap (count x) e)) in
    let nz = not_null m r.1.0 s.null_idle waits in
    let runs = rw nz at (schedule-Runs m s idle) in
    rw nz (
      subst (λ t. RunsFirst t rest (t_execute (record m { queue = r.0 }) r.1.0 r.1.1)) front.0
        (t_execute-RunsFirst (record m { queue = r.0 }) r.1.0 r.1.1 rest front.1 runs))

-- The T that runs is at the end of the queue after a yield, and gone after an exit.
abbrev pub after : Event → ℕ → List ℕ → List ℕ
after yields t rest = rest ++ (t ∷ [])
after exits t rest = rest

-- The queue may take one T more.
abbrev pub HasRoom : Machine → Type 0
HasRoom m = length (waiting m.queue) < p_runqsize

queued-lt : (q : RunQueue) → length (waiting q) < p_runqsize → queued q < p_runqsize
queued-lt q h = ground (arith, length-items q.runq q.runqhead (queued q))

advance-RunsFirst :
    (m : Machine) (e : Event) (x : ℕ) (rest : List ℕ)
    → IsSafe m
    → m.curt ≢ 0
    → HasRoom m
    → waiting m.queue ≡ x ∷ rest
    → RunsFirst x (after e m.curt rest) (advance m e)
unfolding advance t_exit t_yield t_casstatus m_dropt put_runnable
advance-RunsFirst m exits x rest s running room w =
    let code_running : (code (m.status m.curt) == 2) ≡ true =
      ground (arith, s.runs m.curt running) in
    let left : Machine = record m { status = set_status m.status m.curt t_dead; curt = 0 } in
    let nz = not_null m m.curt s.null_idle (ground arith) in
    rw code_running (
      schedule-RunsFirst left x rest
        (record {
          ring = s.ring;
          waits = λ a. ground (arith, s.waits a);
          runs = λ a ne. ground (arith, s.runs a ne);
          null_idle = rw nz s.null_idle;
        })
        refl w)
advance-RunsFirst m yields x rest s running room w =
    let code_running : (code (m.status m.curt) == 2) ≡ true =
      ground (arith, s.runs m.curt running) in
    let left : Machine = record m { status = set_status m.status m.curt t_runnable; curt = 0 } in
    let nz = not_null m m.curt s.null_idle (ground arith) in
    let (q, put, back, ring) = put_back-waiting m.queue m.curt s.ring (queued-lt m.queue room) in
    rw (code_running, put)
      (schedule-RunsFirst (record left { queue = q }) x (rest ++ (m.curt ∷ []))
        (record {
          ring = ring;
          waits = λ a.
              ground (
                arith,
                s.waits a,
                ap (count a) back,
                count-append a (waiting m.queue) (m.curt ∷ []),
              );
          runs = λ a ne. ground (arith, s.runs a ne);
          null_idle = rw nz s.null_idle;
        })
        refl (rw back (ap (λ ws. ws ++ (m.curt ∷ [])) w)))

abbrev pub Turn : ℕ → Option Machine → Type 0
Turn t none = ⊥
Turn t (some m) = (m.curt ≡ t) × IsSafe m

advance-Safe : (m : Machine) (e : Event) → IsSafe m → Safe (advance m e)
unfolding advance
advance-Safe m yields s = t_yield-Safe m s
advance-Safe m exits s = t_exit-Safe m s

-- A T that waits is not NULL.
waits-ne-zero :
    (m : Machine) (x : ℕ) (rest : List ℕ) → IsSafe m → waiting m.queue ≡ x ∷ rest → x ≢ 0
waits-ne-zero m x rest s w e =
    let waits : 0 < code (m.status x) = ground (arith, s.waits x, ap (count x) w) in
    ground (arith, not_null m x s.null_idle waits)

resume :
    (es : List Event) (t x : ℕ) (rest : List ℕ) (o : Option Machine)
    → RunsFirst x rest o
    → Safe o
    → ((m : Machine) → m.curt ≡ x → waiting m.queue ≡ rest → IsSafe m → Turn t (run_events m es))
    → Turn t (o >>= λ m. run_events m es)
resume es t x rest none r s next = r
resume es t x rest (some m) r s next = next m r.0 r.1 s

after-append :
    (e : Event) (c : ℕ) (xs : List ℕ) (t : ℕ) (ys : List ℕ)
    → after e c (xs ++ (t ∷ ys)) ≡ xs ++ (t ∷ after e c ys)
after-append yields c xs t ys = append_assoc xs (t ∷ ys) (c ∷ [])
after-append exits c xs t ys = refl

length-after : (e : Event) (c : ℕ) (ws : List ℕ) → length (after e c ws) ≤ length ws + 1
length-after yields c ws = omega (arith, length-append ws (c ∷ []))
length-after exits c ws = omega arith

-- From a safe state in which a T runs and the queue has room for one more, a T that waits behind
-- `n` others runs after `n + 1` yields and exits, whichever they are, and the state is safe then.
pub run_events-Turn :
    (xs : List ℕ) (m : Machine) (t : ℕ) (ys : List ℕ) (es : List Event)
    → IsSafe m
    → m.curt ≢ 0
    → HasRoom m
    → waiting m.queue ≡ xs ++ (t ∷ ys)
    → length es ≡ length xs + 1
    → Turn t (run_events m es)
unfolding run_events
run_events-Turn xs m t ys [] s running room w n = absurd (omega arith)
run_events-Turn [] m t ys (e ∷ []) s running room w n =
    resume [] t t (after e m.curt ys) (advance m e) (advance-RunsFirst m e t ys s running room w)
      (advance-Safe m e s) (λ m' c w' s'. (c, s'))
run_events-Turn [] m t ys (e ∷ e' ∷ es) s running room w n = absurd (omega arith)
run_events-Turn (x ∷ xs) m t ys (e ∷ es) s running room w n =
    let rest = xs ++ (t ∷ ys) in
    resume es t x (after e m.curt rest) (advance m e)
      (advance-RunsFirst m e x rest s running room w) (advance-Safe m e s)
      (λ m' c w' s'.
        run_events-Turn xs m' t (after e m.curt ys) es s'
          (λ z. waits-ne-zero m x rest s w (sym c ∙ z))
          (omega (arith, ap length w, ap length w', length-after e m.curt rest, room))
          (w' ∙ after-append e m.curt xs t ys) (omega (arith, n)))
