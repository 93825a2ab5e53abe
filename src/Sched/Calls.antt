-- ===== src/Sched/Calls.antt =====
-- All calls of driver/sched.c, in the order in which they happen: the ioctls, the tracepoints, the
-- timers and the work of the task at an address.
use schedmon.Prelude.{ℕ, Bool, true, false, ◌&&◌, Option, some, List, [], ◌∷◌, ◌>>=◌}
use schedmon.Envir.{Envir}
use schedmon.Pmc.{Cpu}
use schedmon.Task.{Machine}
use schedmon.Task.Life.{Allocs}
use schedmon.Sched.Timers.{
  start_timer_pmc, stop_timer_pmc, smon_sched_timer_tick, smon_sched_timer_rapl, start_timer_rapl,
}
use schedmon.Sched.Register.{smon_sched_register_task, smon_sched_unregister_task}
use schedmon.Sched.Hooks.{
  Instant, smon_sched_switch, smon_sched_migrate_task, smon_sched_process_fork,
  smon_sched_process_exec, smon_sched_process_exit, smon_sched_exit,
}

-- The arguments are those of the functions, in their order.
pub data Call : Type 0 where
  register : Allocs → ℕ → List (ℕ × ℕ) → ℕ → ℕ → ℕ → (ℕ → ℕ) → ℕ → Envir → ℕ → Call
  unregister : ℕ → Call
  switch : Instant → ℕ → ℕ → ℕ → Call
  migrate : List ℕ → ℕ → ℕ → ℕ → ℕ → Call
  fork : Bool → ℕ → ℕ → ℕ → ℕ → ℕ → ℕ → Call
  exec : Instant → ℕ → ℕ → Call
  leave : Instant → ℕ → ℕ → Call
  tick : ℕ → ℕ → ℕ → ℕ → Call
  start_work : ℕ → ℕ → ℕ → Call
  stop_work : ℕ → Call
  rapl_tick : ℕ → ℕ → ℕ → ℕ → Call
  rapl_start : ℕ → ℕ → ℕ → Call
  unload : Call

module _ {S : Type 0} (core : Cpu S) where
  unfoldable pub serve : Call → Machine S → Option (Machine S)
  serve (register allocs init_task processes processor cpus tsc task_cpu pid envir r) m =
      smon_sched_register_task core allocs init_task processes processor cpus tsc task_cpu pid envir
        r m
      >>= λ ended. some ended.0
  serve (unregister pid) m = smon_sched_unregister_task pid m >>= λ ended. some ended.0
  serve (switch now cpu prev next) m = smon_sched_switch core now cpu prev next m
  serve (migrate rest tsc old_cpu p dest_cpu) m =
      smon_sched_migrate_task rest tsc old_cpu p dest_cpu m
  serve (fork kzalloc tsc cpu parent child_cpu child pid) m =
      smon_sched_process_fork kzalloc tsc cpu parent child_cpu child pid m
  serve (exec now cpu p) m = smon_sched_process_exec core now cpu p m
  serve (leave now cpu p) m = smon_sched_process_exit core now cpu p m
  serve (tick processor tsc_stop tsc_start t) m =
      smon_sched_timer_tick core processor tsc_stop tsc_start t m
  serve (start_work processor tsc t) m = start_timer_pmc core processor tsc t m
  serve (stop_work t) m = stop_timer_pmc t m
  serve (rapl_tick processor tsc_stop tsc_start t) m =
      smon_sched_timer_rapl core processor tsc_stop tsc_start t m
  serve (rapl_start processor tsc t) m = start_timer_rapl core processor tsc t m
  serve unload m = smon_sched_exit m

  unfoldable pub serve_all : List Call → Machine S → Option (Machine S)
  serve_all [] m = some m
  serve_all (call ∷ calls) m = serve call m >>= λ m'. serve_all calls m'

-- The calls that the tracepoints make.
unfoldable pub is_tracepoint : Call → Bool
is_tracepoint (switch now cpu prev next) = true
is_tracepoint (migrate rest tsc old_cpu p dest_cpu) = true
is_tracepoint (fork kzalloc tsc cpu parent child_cpu child pid) = true
is_tracepoint (exec now cpu p) = true
is_tracepoint (leave now cpu p) = true
is_tracepoint _ = false

abbrev pub all_tracepoints : List Call → Bool
all_tracepoints [] = true
all_tracepoints (call ∷ calls) = is_tracepoint call && all_tracepoints calls
