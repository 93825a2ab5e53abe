-- ===== src/Sched/Tests.antt =====
-- Calls on the machine of Sched/Example.
use schedmon.Prelude.{
  ℕ, zero, suc, ap, ◌+◌, ◌%◌, ◌≡◌, ◌≢◌, refl, arith, true, ◌&&◌, Option, none, some, List, [], ◌∷◌,
  length, if◌then◌else◌, ◌==◌, ltb, deref, tally, weight,
}
use schedmon.Ring.{RingBuffer, smon_get_rb, sample_type_fork, smon_rb_is_active, smon_rb_write}
use schedmon.Ring.Index.{u32}
use schedmon.Envir.{
  smon_get_envir, smon_release_envir, envir_option_rapl, envir_option_inherit, envir_option_fork,
}
use schedmon.Task.Life.{
  get_rb, get_envir, new_task, drop_rb, release_rb, release_envir, smon_create_child,
  smon_destroy_task,
}
use schedmon.Sample.{fork_bytes}
use schedmon.Sched.Count.Samples.{smon_rb_write-active}
use schedmon.Task.Sampling.{smon_sample_write}
use schedmon.Sched.Register.{
  adopt, smon_sched_register_child, cancel_timer, smon_sched_unregister_children, stop_rapl,
  smon_sched__unregister_task,
}
use schedmon.Sched.Hooks.{smon_sched_process_fork, inherit, fork_sample}
use schedmon.Sched.Calls.{serve}
use schedmon.Task.{Task, Machine}
use schedmon.Sched.{is_pid, is_process, find_task, after, split_at, ring_del, list_del}
use schedmon.Sched.Register.{smon_sched_unregister_task}
use schedmon.Sched.Hooks.{smon_sched_switch, smon_sched_migrate_task}
use schedmon.Sched.Calls.{Call, fork, serve_all}
use schedmon.Sched.Count.{holds, uses}
use schedmon.Sched.Count.Calls.{IsCounted, serve_all-IsCounted}
use schedmon.Sched.Count.Alive.{serve_all-envir, serve_all-active}
use schedmon.Sched.Dangling.{unregister_task-switch}
use schedmon.Sched.Migrate.{occurs, IsAlive, migrate_task-moves}
use schedmon.Sched.Example.{Registers, core, envir, task, rb, machine, now}

machine-IsCounted : IsCounted machine
machine-IsCounted = record { rbs = count_rb; envirs = count_envir }
  where
    count_rb :
        (r : ℕ)
        → weight (λ x. x.active) (deref machine.rbs r) % u32 ≡ tally (holds r) machine.tasks % u32
    count_rb zero = refl
    count_rb (suc r) = ground arith

    count_envir :
        (e : ℕ)
        → weight (λ x. x.count) (deref machine.envirs e) % u32 ≡ tally (uses e) machine.tasks % u32
    count_envir zero = refl
    count_envir (suc e) = ground arith

abbrev or_else : Machine Registers → Option (Machine Registers) → Machine Registers
or_else m none = m
or_else m (some m') = m'

-- A fork, whose child shares the environment and the ring buffer.
abbrev forked : List Call
forked = fork true 540 1 7 1 8 43 ∷ []

abbrev after_fork : Machine Registers
after_fork = or_else machine (serve_all core forked machine)

abbrev child : Task
child = record (new_task 8 43 0 (some 0) none) { envir = some 0 }

abbrev rb_after : RingBuffer
rb_after =
    smon_rb_write (smon_get_rb rb) sample_type_fork
      (fork_bytes record { timestamp = 540; parent = 42; child = 43 })

fork_facts :
    (serve_all core forked machine ≡ some after_fork)
    × (after_fork.tasks ≡ some (record task { n_children = 1 }) ∷ some child ∷ [])
    × (after_fork.rbs ≡ some rb_after ∷ [])
unfolding serve serve_all smon_sched_process_fork find_task inherit smon_sched_register_child
    smon_create_child get_rb get_envir adopt fork_sample smon_sample_write envir_option_inherit
    envir_option_fork new_task smon_get_envir
fork_facts = (refl, refl, refl)

serve_all-IsCounted_example : IsCounted after_fork
serve_all-IsCounted_example =
    serve_all-IsCounted core forked machine after_fork machine-IsCounted fork_facts.0

serve_all-envir_example : deref after_fork.envirs 0 ≢ none
serve_all-envir_example =
    serve_all-envir core forked machine after_fork 1 0 child machine-IsCounted fork_facts.0
      (omega (arith, ap length fork_facts.1)) (ap (λ ts. deref ts 1) fork_facts.1) refl

rb_after-active : rb_after.active ≡ 2
unfolding smon_get_rb
rb_after-active = smon_rb_write-active (smon_get_rb rb) sample_type_fork _

serve_all-active_example : smon_rb_is_active rb_after ≡ ltb 0 (tally (holds 0) after_fork.tasks)
serve_all-active_example =
    serve_all-active core forked machine after_fork 0 rb_after machine-IsCounted fork_facts.0
      (omega (arith, ap length fork_facts.1)) (ap (λ rbs. deref rbs 0) fork_facts.2)
      (omega (arith, rb_after-active))

-- The task is unregistered while it is on the list of core 1.
abbrev gone : Machine Registers
gone = elim (smon_sched_unregister_task 42 machine) [ none ↦ machine | some ended ↦ ended.0 ]

found_pid : find_task (is_pid 42) machine.tasks machine.task_list ≡ some (some 0)
unfolding find_task
found_pid = refl

unregister_runs : smon_sched_unregister_task 42 machine ≡ some (gone, true)
unfolding find_task smon_sched_unregister_task smon_sched__unregister_task cancel_timer
    smon_sched_unregister_children stop_rapl smon_destroy_task drop_rb release_rb release_envir
    smon_release_envir after split_at ring_del list_del envir_option_rapl
unregister_runs = refl

unregister_task-switch_example : smon_sched_switch core now 1 7 9 gone ≡ none
unregister_task-switch_example =
    unregister_task-switch core now 42 1 7 9 0 [] machine gone found_pid refl unregister_runs

found_process : find_task (is_process 7) machine.tasks (machine.cpu_list 1) ≡ some (some 0)
unfolding find_task
found_process = refl

machine-IsAlive : IsAlive machine 0
machine-IsAlive = record {
  task = task;
  e = 0;
  envir = envir;
  r = 0;
  rb = rb;
  at = refl;
  points_envir = refl;
  at_envir = refl;
  points_rb = refl;
  at_rb = refl;
}

migrate_task-moves_example :
    (m' : Machine Registers) × (smon_sched_migrate_task (1 ∷ 2 ∷ 3 ∷ 4 ∷ []) 550 1 7 0 machine
      ≡ some m')
    × ((cpu x : ℕ)
        → occurs x (m'.cpu_list cpu) + (if cpu == 1 && x == 0 then 1 else 0)
          ≡ occurs x (machine.cpu_list cpu) + (if cpu == 0 && x == 0 then 1 else 0))
    × (find_task (is_process 7) m'.tasks (m'.cpu_list 0) ≡ some (some 0))
migrate_task-moves_example =
    migrate_task-moves (1 ∷ 2 ∷ 3 ∷ 4 ∷ []) 550 1 7 0 0 machine found_process machine-IsAlive
