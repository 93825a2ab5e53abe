-- ===== src/Sched/Safe/Tests.antt =====
-- A task whose sampling timer was started, and fires.
use schedmon.Prelude.{◌≡◌, refl, arith, Option, none, some, deref, Returns}
use schedmon.Task.{Machine}
use schedmon.Task.Sampling.{smon_sample_start, start_evset}
use schedmon.EvSet.{smon_get_evset}
use schedmon.Sched.Calls.{start_work, tick, serve}
use schedmon.Sched.Timers.{start_task, start_timer_pmc}
use schedmon.Sched.Safe.Lists.{AllSafe}
use schedmon.Sched.Safe.Runs.{IsRunning, started, ticked, begin, call, runs-Returns}
use schedmon.Sched.Example.{Registers, core, task, machine, machine-AllSafe}

abbrev or_else : {A : Type 0} → A → Option A → A
or_else a none = a
or_else a (some x) = x

abbrev begun : Machine Registers
begun = or_else machine (serve core (start_work 1 530 0) machine)

machine-IsRunning : IsRunning machine 0
machine-IsRunning = record {
  cpu = 1;
  listed = omega arith;
  task = task;
  at = refl;
  p = 7;
  process = refl;
}

begun_run : serve core (start_work 1 530 0) machine ≡ some begun
unfolding serve start_timer_pmc start_task smon_sample_start start_evset smon_get_evset
begun_run = refl

begun-IsRunning : IsRunning begun 0
unfolding serve start_timer_pmc start_task smon_sample_start start_evset smon_get_evset
begun-IsRunning = record {
  cpu = 1;
  listed = omega arith;
  task = or_else task (deref begun.tasks 0);
  at = refl;
  p = 7;
  process = refl;
}

runs-Returns_example : Returns AllSafe (serve core (tick 1 900 910 0) begun)
runs-Returns_example =
    runs-Returns core machine begun (tick 1 900 910 0) machine-AllSafe
      (call begin (started machine-IsRunning) begun_run) (ticked begun-IsRunning)
