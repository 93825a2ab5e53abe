-- ===== src/Sched/Register.antt =====
-- Tasks are registered and unregistered. A result is 0 (`true`) or -1 (`false`).
use schedmon.Prelude.{
  ℕ, suc, Bool, true, false, Option, none, some, List, [], ◌∷◌, if◌then◌else◌, ltb, ◌>>=◌, deref,
}
use schedmon.Envir.{Envir, envir_option_exec, envir_option_rapl}
use schedmon.Pmc.{Cpu}
use schedmon.Task.{Machine}
use schedmon.Task.Life.{
  Allocs, find_process, smon_create_task, smon_create_child, smon_destroy_task,
}
use schedmon.Sched.{
  Pointers, list_del, is_pid, find_task, after, ring_add, ring_del, put_task, task_envir,
  set_cpu_list,
}
use schedmon.Sched.Timers.{smon_task_extra_start}

module _ {S : Type 0} where
  -- hrtimer_cancel(&task->timer).
  unfoldable pub cancel_timer : ℕ → Machine S → Option (Machine S)
  cancel_timer t m = deref m.tasks t >>= λ task. some (put_task t (record task { timer = none }) m)

  unfoldable pub smon_sched_unregister_children : Pointers → Machine S → Option (Machine S)
  smon_sched_unregister_children [] m = some m
  smon_sched_unregister_children (child ∷ children) m =
      cancel_timer child (record m { rings = ring_del child m.rings }) >>= λ cancelled.
      smon_destroy_task child cancelled >>= λ m'. smon_sched_unregister_children children m'

  -- Stops the RAPL timer, whose extra data must be there.
  unfoldable pub smon_task_extra_rapl_stop : ℕ → Machine S → Option (Machine S)
  smon_task_extra_rapl_stop t m = do
    task ← deref m.tasks t
    extra ← task.extra
    some (put_task t (record task { extra = some (record extra { rapl_timer = none }) }) m)

  -- `if (envir_option_rapl(task->envir))`.
  unfoldable pub stop_rapl : ℕ → Machine S → Option (Machine S)
  stop_rapl t m = do
    task ← deref m.tasks t
    envir ← task_envir m task
    if ltb 0 (envir_option_rapl envir) then smon_task_extra_rapl_stop t m else some m

  unfoldable pub smon_sched__unregister_task : ℕ → Machine S → Option (Machine S)
  smon_sched__unregister_task t m = do
    cancelled ← cancel_timer t m
    alone ← smon_sched_unregister_children (after t cancelled.rings) cancelled
    stopped ← stop_rapl t (record alone { task_list = list_del t alone.task_list })
    smon_destroy_task t stopped

  unfoldable pub smon_sched_unregister_task : ℕ → Machine S → Option (Machine S × Bool)
  smon_sched_unregister_task pid m = find_task (is_pid pid) m.tasks m.task_list >>= λ found.
      elim found [
        | none ↦ some (m, false)
        | some t ↦ smon_sched__unregister_task t m >>= λ m'. some (m', true)
      ]

  -- The new task at `child` joins the ring of its parent, and the list of its core.
  unfoldable pub adopt : ℕ → ℕ → ℕ → Machine S → Option (Machine S)
  adopt parent cpu child m = deref m.tasks parent >>= λ task. some (
      set_cpu_list cpu (child ∷ m.cpu_list cpu)
        (record (put_task parent (record task { n_children = suc task.n_children }) m) {
          rings = ring_add child parent m.rings;
        }))

  -- `p` and `pid` are the new process, `cpu` is its core.
  unfoldable pub smon_sched_register_child : Bool → ℕ → ℕ → ℕ → ℕ → Machine S → Option (Machine S)
  smon_sched_register_child kzalloc cpu p pid parent m =
      smon_create_child kzalloc parent p pid m >>= λ made. elim made.1 [
        | none ↦ some made.0
        | some child ↦ adopt parent cpu child made.0
      ]

  -- A task that waits for its exec goes into wait_list; else it is started, and goes into the list
  -- of its core `cpu`, task_cpu(task->p).
  unfoldable pub list_task : Cpu S → ℕ → ℕ → ℕ → ℕ → Envir → ℕ → Machine S → Option (Machine S)
  list_task core processor num_online_cpus tsc cpu envir t m =
      let waiting = record m { wait_list = t ∷ m.wait_list } in
      if ltb 0 (envir_option_exec envir)
      then some waiting
      else (smon_task_extra_start core processor num_online_cpus tsc t m >>= λ m'.
          some (set_cpu_list cpu (t ∷ m'.cpu_list cpu) m'))

  -- `task_cpu` is the core of a process; `r` is the ring buffer of the reader.
  unfoldable pub smon_sched_register_task :
      Cpu S
      → Allocs
      → ℕ
      → List (ℕ × ℕ)
      → ℕ
      → ℕ
      → ℕ
      → (ℕ → ℕ)
      → ℕ
      → Envir
      → ℕ
      → Machine S
      → Option (Machine S × Bool)
  smon_sched_register_task core allocs init_task processes processor num_online_cpus tsc task_cpu
        pid envir r m =
      smon_create_task allocs init_task processes pid envir r m >>= λ made. elim made.1 [
        | none ↦ some (made.0, false)
        | some t ↦
            let listed = record made.0 { task_list = t ∷ (made.0).task_list } in
            let cpu = task_cpu (find_process init_task processes pid) in
            list_task core processor num_online_cpus tsc cpu envir t listed >>= λ m'.
            some (m', true)
      ]
