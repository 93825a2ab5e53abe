-- ===== src/Sched/Hooks.antt =====
-- The hooks of the kernel's tracepoints, and the start and the end of the monitor.
use schedmon.Prelude.{
  ℕ, Bool, Option, none, some, List, [], ◌∷◌, if◌then◌else◌, ltb, ℤ, ◌>>=◌, deref,
}
use schedmon.Envir.{envir_option_inherit, envir_option_cpu, envir_option_fork}
use schedmon.Ring.{sample_type_cpu, sample_type_fork}
use schedmon.Pmc.{Cpu}
use schedmon.Sample.{SampleCpu, SampleFork, cpu_bytes, fork_bytes}
use schedmon.Task.{Machine}
use schedmon.Task.Life.{drop_rb}
use schedmon.Task.Sampling.{smon_sample_write}
use schedmon.Sched.{Pointers, list_del, is_process, find_task, put_task, task_envir, set_cpu_list}
use schedmon.Sched.Timers.{
  stop_task, save_task, smon_sched_task_in, smon_sched_task_out, smon_task_extra_start,
}
use schedmon.Sched.Register.{cancel_timer, smon_sched_register_child, smon_sched__unregister_task}

-- What a hook reads off the machine that it runs on: the core, the time-stamp counter at each place
-- that reads it, the time that is left of the timer of the task, and num_online_cpus().
pub record Instant : Type 0 where
  pub processor : ℕ
  pub tsc_stop : ℕ
  pub tsc_out : ℕ
  pub tsc_in : ℕ
  pub tsc_start : ℕ
  pub remaining : ℤ
  pub num_online_cpus : ℕ

module _ {S : Type 0} where
  -- The sample of a migration, whose last bytes `rest` are what the stack holds there.
  unfoldable pub migration_sample : List ℕ → ℕ → ℕ → ℕ → ℕ → Machine S → Option (Machine S)
  migration_sample rest tsc old_cpu dest_cpu t m = do
    task ← deref m.tasks t
    envir ← task_envir m task
    let sample : SampleCpu = record {
      timestamp = tsc;
      pid = task.pid;
      old_cpu = old_cpu;
      new_cpu = dest_cpu;
    }
    if ltb 0 (envir_option_cpu envir)
        then (smon_sample_write m.rbs task.rb sample_type_cpu (cpu_bytes rest sample) >>= λ rbs.
            some (record m { rbs = rbs }))
        else some m

  -- `old_cpu` is task_cpu(p).
  unfoldable pub smon_sched_migrate_task : List ℕ → ℕ → ℕ → ℕ → ℕ → Machine S → Option (Machine S)
  smon_sched_migrate_task rest tsc old_cpu p dest_cpu m =
      find_task (is_process p) m.tasks (m.cpu_list old_cpu) >>= λ found. elim found [
        | none ↦ some m
        | some t ↦
            let off = set_cpu_list old_cpu (list_del t (m.cpu_list old_cpu)) m in
            migration_sample rest tsc old_cpu dest_cpu t off >>= λ m'.
            some (set_cpu_list dest_cpu (t ∷ m'.cpu_list dest_cpu) m')
      ]

  -- The blocks of a fork under envir_option_inherit and envir_option_fork; `cpu` is task_cpu(child).
  unfoldable pub inherit : Bool → ℕ → ℕ → ℕ → ℕ → Machine S → Option (Machine S)
  inherit kzalloc cpu child pid t m = do
    task ← deref m.tasks t
    envir ← task_envir m task
    if ltb 0 (envir_option_inherit envir)
        then smon_sched_register_child kzalloc cpu child pid t m
        else some m

  unfoldable pub fork_sample : ℕ → ℕ → ℕ → Machine S → Option (Machine S)
  fork_sample tsc pid t m = do
    task ← deref m.tasks t
    envir ← task_envir m task
    let sample : SampleFork = record { timestamp = tsc; parent = task.pid; child = pid }
    if ltb 0 (envir_option_fork envir)
        then (smon_sample_write m.rbs task.rb sample_type_fork (fork_bytes sample) >>= λ rbs.
            some (record m { rbs = rbs }))
        else some m

  -- `cpu` is task_cpu(parent), `child_cpu` is task_cpu(child), `pid` is child->pid.
  unfoldable pub smon_sched_process_fork :
      Bool → ℕ → ℕ → ℕ → ℕ → ℕ → ℕ → Machine S → Option (Machine S)
  smon_sched_process_fork kzalloc tsc cpu parent child_cpu child pid m =
      find_task (is_process parent) m.tasks (m.cpu_list cpu) >>= λ found. elim found [
        | none ↦ some m
        | some t ↦ inherit kzalloc child_cpu child pid t m >>= λ m'. fork_sample tsc pid t m'
      ]

  -- `task->p = NULL; smon_release_rb(task->rb); task->rb = NULL;`
  unfoldable pub let_go : ℕ → Machine S → Option (Machine S)
  let_go t m = do
    task ← deref m.tasks t
    r ← task.rb
    rbs ← drop_rb m.rbs r
    some (record (put_task t (record task { p = none; rb = none }) m) { rbs = rbs })

  -- hrtimer_cancel of the timer of the extra data.
  unfoldable pub rapl_off : ℕ → Machine S → Option (Machine S)
  rapl_off t m = do
    task ← deref m.tasks t
    elim task.extra [
      | none ↦ some m
      | some extra ↦
          some (put_task t (record task { extra = some (record extra { rapl_timer = none }) }) m)
    ]

  -- The lists are empty, and the tracepoints call the hooks.
  unfoldable pub smon_sched_init : Machine S → Machine S
  smon_sched_init m = record m { task_list = []; wait_list = []; cpu_list = λ cpu. [] }

  unfoldable pub unregister_all : Pointers → Machine S → Option (Machine S)
  unregister_all [] m = some m
  unregister_all (t ∷ ts) m = smon_sched__unregister_task t m >>= λ m'. unregister_all ts m'

  -- The tracepoints no longer call the hooks.
  unfoldable pub smon_sched_exit : Machine S → Option (Machine S)
  smon_sched_exit m = unregister_all m.task_list (record m { cpu_list = λ cpu. [] })

module _ {S : Type 0} (core : Cpu S) where
  -- The two halves of a switch; `cpu` is task_cpu(prev).
  unfoldable pub switch_out : Instant → ℕ → ℕ → Machine S → Option (Machine S)
  switch_out now cpu prev m = find_task (is_process prev) m.tasks (m.cpu_list cpu) >>= λ found.
      elim found [
        | none ↦ some m
        | some t ↦ smon_sched_task_out core now.processor now.tsc_stop now.remaining now.tsc_out t m
      ]

  unfoldable pub switch_in : Instant → ℕ → ℕ → Machine S → Option (Machine S)
  switch_in now cpu next m = find_task (is_process next) m.tasks (m.cpu_list cpu) >>= λ found.
      elim found [
        | none ↦ some m
        | some t ↦ smon_sched_task_in core now.processor now.tsc_in now.tsc_start t m
      ]

  unfoldable pub smon_sched_switch : Instant → ℕ → ℕ → ℕ → Machine S → Option (Machine S)
  smon_sched_switch now cpu prev next m =
      switch_out now cpu prev m >>= λ m'. switch_in now cpu next m'

  -- `cpu` is task_cpu(p); smon_task_extra_start does nothing for a task without extra data.
  unfoldable pub smon_sched_process_exec : Instant → ℕ → ℕ → Machine S → Option (Machine S)
  smon_sched_process_exec now cpu p m = find_task (is_process p) m.tasks m.wait_list >>= λ found.
      elim found [
        | none ↦ some m
        | some t ↦
            let off = record m { wait_list = list_del t m.wait_list } in
            smon_task_extra_start core now.processor now.num_online_cpus now.tsc_stop t off
            >>= λ begun.
                smon_sched_task_in core now.processor now.tsc_in now.tsc_start t begun >>= λ m'.
                some (set_cpu_list cpu (t ∷ m'.cpu_list cpu) m')
      ]

  -- The exit of a task that runs on `cpu`.
  unfoldable pub exit_running : Instant → ℕ → ℕ → Machine S → Option (Machine S)
  exit_running now cpu t m = do
    quiet ← cancel_timer t m
    stopped ← stop_task core now.processor now.tsc_stop t quiet
    saved ← save_task t stopped
    gone ← let_go t (set_cpu_list cpu (list_del t (saved.cpu_list cpu)) saved)
    rapl_off t gone

  unfoldable pub smon_sched_process_exit : Instant → ℕ → ℕ → Machine S → Option (Machine S)
  smon_sched_process_exit now cpu p m =
      find_task (is_process p) m.tasks (m.cpu_list cpu) >>= λ found. elim found [
        | some t ↦ exit_running now cpu t m
        | none ↦ find_task (is_process p) m.tasks m.wait_list >>= λ waiting. elim waiting [
          | none ↦ some m
          | some t ↦ let_go t (record m { wait_list = list_del t m.wait_list })
        ]
      ]
