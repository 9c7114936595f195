-- ===== src/Tests/Tasks.antt =====
-- The scheduler's steps on small inputs.
use colang.Prelude.{ℕ, refl, [], ◌∷◌, arith, if◌then◌else◌, ◌==◌, replicate, length-replicate}
use colang.Rt.RunQueue.{p_runqput, p_runqget}
use colang.Rt.Tasks.{
  t_idle, t_runnable, t_running, t_dead, Machine, set_status, t_casstatus, t_execute, schedule,
  put_runnable, sched_spawn,
}
use colang.Rt.Tasks.Safety.{IsSafe}
use colang.Rt.Tasks.Reach.{
  fresh_machine, empty_queue, spawns, wakes, Reach, start, later, Reach-IsSafe,
}
use colang.Rt.Tasks.Turn.{yields, exits, run_events, Turn, run_events-Turn}

-- The T 7 is spawned, and runs.
abbrev spawned : Machine
spawned = record fresh_machine {
  status = set_status fresh_machine.status 7 t_runnable;
  queue = record empty_queue { runnext = 7 };
}

abbrev woken : Machine
woken = record fresh_machine { status = set_status spawned.status 7 t_running; curt = 7 }

woken-Reach : Reach woken
unfolding sched_spawn t_casstatus put_runnable p_runqput schedule p_runqget t_execute
woken-Reach = later (later start (spawns 7 refl)) (wakes refl refl)

Reach-IsSafe_example : IsSafe woken
Reach-IsSafe_example = Reach-IsSafe {m = woken} woken-Reach

-- 7 runs, and 8 and 9 wait.
abbrev busy : Machine
busy = record {
  status = λ t.
      if t == 7
      then t_running
      else (if (t == 8)
          then t_runnable
          else (if t == 9 then t_runnable else (if t == 0 then t_idle else t_dead)));
  curt = 7;
  queue = record empty_queue { runqtail = 2; runq = 8 ∷ 9 ∷ replicate 254 0 };
  schedtick = 0;
}

busy-IsSafe : IsSafe busy
busy-IsSafe = record {
  ring = record {
    head_fits = omega arith;
    tail_fits = omega arith;
    room = omega arith;
    places = ground (arith, length-replicate {A = ℕ} 254 0);
  };
  waits = λ a. ground arith;
  runs = λ a ne. ground arith;
  null_idle = refl;
}

run_events-Turn_example : Turn 9 (run_events busy (yields ∷ exits ∷ []))
run_events-Turn_example =
    run_events-Turn (8 ∷ []) busy 9 [] (yields ∷ exits ∷ []) busy-IsSafe (ground arith)
      (omega arith) refl refl
