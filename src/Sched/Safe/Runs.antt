-- ===== src/Sched/Safe/Runs.antt =====
-- Any calls of the tool, the tracepoints, the timers and the works, each made when it may be.
use schedmon.Prelude.{
  ℕ, ◌<◌, ◌≡◌, sym, ap, subst, ◌∙◌, List, true, some, deref, Returns, Returns-then, Returns-some,
}
use mathlib.Core.Option.{some-injective}
use schedmon.Envir.{Envir, smon_create_envir}
use schedmon.Pmc.{Cpu}
use schedmon.Task.{Task, Extra, Machine}
use schedmon.Task.Life.{Allocs}
use schedmon.Sched.Calls.{
  Call, register, tick, start_work, stop_work, rapl_tick, rapl_start, serve, is_tracepoint,
}
use schedmon.Sched.Migrate.{occurs}
use schedmon.Sched.Safe.{IsLive, IsSound, ReadyAt}
use schedmon.Sched.Safe.Lists.{AllSafe}
use schedmon.Sched.Safe.Hooks.{Returns-safe}
use schedmon.Sched.Safe.Clock.{
  start_timer_pmc-safe, stop_timer_pmc-safe, timer_tick-safe, timer_rapl-safe,
  start_timer_rapl-safe,
}
use schedmon.Sched.Safe.Register.{register_task-Returns}
use schedmon.Sched.Safe.Calls.{serve-safe}

module _ {S : Type 0} where
  -- The task at `t` is on the list of a core, and its process still runs.
  pub record IsRunning (m : Machine S) (t : ℕ) : Type 0 where
    pub cpu : ℕ
    pub listed : 0 < occurs t (m.cpu_list cpu)
    pub task : Task
    pub at : deref m.tasks t ≡ some task
    pub p : ℕ
    pub process : task.p ≡ some p

  -- It has extra data, where its RAPL timer is.
  pub record HasRapl (m : Machine S) (t : ℕ) : Type 0 where
    pub running : IsRunning m t
    pub extra : Extra
    pub made : (running.task).extra ≡ some extra

  -- There is memory for extra data, the ring buffer is not freed, and the event-sets exist.
  pub record IsAdmissible (m : Machine S) (allocs : Allocs) (envir : Envir) (r : ℕ) : Type 0 where
    pub live : IsLive m.rbs r
    pub memory : allocs.extra ≡ true
    pub sound :
        (new : Envir)
        → smon_create_envir allocs.envir envir ≡ some new
        → IsSound m.evsets new × (0 < new.n_esids)

  -- When a call may be made. Tracepoints always; timers and works, while the task runs.
  pub data IsDue (m : Machine S) : Call → Type 0 where
    traced : {call : Call} → is_tracepoint call ≡ true → IsDue m call
    admitted :
        {allocs : Allocs} {init_task : ℕ} {processes : List (ℕ × ℕ)} {processor cpus tsc : ℕ}
        {task_cpu : ℕ → ℕ} {pid : ℕ} {envir : Envir} {r : ℕ}
        → IsAdmissible m allocs envir r
        → IsDue m (register allocs init_task processes processor cpus tsc task_cpu pid envir r)
    ticked :
        {processor tsc_stop tsc_start t : ℕ}
        → IsRunning m t
        → IsDue m (tick processor tsc_stop tsc_start t)
    started : {processor tsc t : ℕ} → IsRunning m t → IsDue m (start_work processor tsc t)
    stopped : {t : ℕ} → IsRunning m t → IsDue m (stop_work t)
    rapl_ticked :
        {processor tsc_stop tsc_start t : ℕ}
        → HasRapl m t
        → IsDue m (rapl_tick processor tsc_stop tsc_start t)
    rapl_started : {processor tsc t : ℕ} → HasRapl m t → IsDue m (rapl_start processor tsc t)

  running_ready :
      {m : Machine S} {t : ℕ}
      → AllSafe m
      → (run : IsRunning m t) → (a : ReadyAt m t) × (a.task ≡ run.task)
  running_ready {m} {t} all run =
      let safe = all.cpus run.cpu t run.listed in
      let same = some-injective safe.task run.task (sym safe.at ∙ run.at) in
      (
        record {
          task = safe.task;
          at = safe.at;
          ready = safe.ready run.p (ap (λ (task : Task). task.p) same ∙ run.process);
        },
        same,
      )

module _ {S : Type 0} (core : Cpu S) where
  -- From `m`, calls that may be made lead to `m'`.
  pub data Runs (m : Machine S) : Machine S → Type 0 where
    begin : Runs m m
    call :
        {m' m'' : Machine S} {c : Call}
        → Runs m m'
        → IsDue m' c
        → serve core c m' ≡ some m''
        → Runs m m''

  due-safe : (m : Machine S) (c : Call) → AllSafe m → IsDue m c → Returns AllSafe (serve core c m)
  unfolding serve
  due-safe m c all (traced h) = serve-safe core c m h all
  due-safe m (register allocs init_task processes processor cpus tsc task_cpu pid envir r) all
        (admitted h) =
      Returns-then _ _
        (register_task-Returns core allocs init_task processes processor cpus tsc task_cpu pid envir
          r m all h.live h.memory h.sound)
        (λ ended safe. Returns-some safe)
  due-safe m (tick processor tsc_stop tsc_start t) all (ticked h) =
      Returns-safe all
        (timer_tick-safe core processor tsc_stop tsc_start t m (running_ready all h).0)
  due-safe m (start_work processor tsc t) all (started h) =
      Returns-safe all (start_timer_pmc-safe core processor tsc t m (running_ready all h).0)
  due-safe m (stop_work t) all (stopped h) =
      Returns-safe all (stop_timer_pmc-safe t m (running_ready all h).0)
  due-safe m (rapl_tick processor tsc_stop tsc_start t) all (rapl_ticked h) =
      let (a, same) = running_ready all h.running in
      Returns-safe all (
        timer_rapl-safe core processor tsc_stop tsc_start t m a h.extra
          (ap (λ (task : Task). task.extra) same ∙ h.made))
  due-safe m (rapl_start processor tsc t) all (rapl_started h) =
      let (a, same) = running_ready all h.running in
      Returns-safe all (
        start_timer_rapl-safe core processor tsc t m a h.extra
          (ap (λ (task : Task). task.extra) same ∙ h.made))

  runs-AllSafe : {m m' : Machine S} → AllSafe m → Runs m m' → AllSafe m'
  runs-AllSafe all begin = all
  runs-AllSafe {m' = m''} all (call {m' = m'} {c = c} run due e) =
      let next = due-safe m' c (runs-AllSafe all run) due in
      subst AllSafe (some-injective next.result m'' (sym next.runs ∙ e)) next.holds

  -- Start with no task on the lists of the cores or on wait_list that is freed, and let each of them
  -- whose process still runs have an environment that is not freed, whose event-sets exist and of
  -- which its turn is one, and ring buffers that are not freed. After any calls that were each due
  -- when they were made, a call that is due runs without a fault, and the same then holds of the
  -- tasks on the lists. A tracepoint is always due. The sampling timer of a task and its works are
  -- due while the task is on the list of a core and its process runs, those of RAPL if it has extra
  -- data besides. A registration is due if its ring buffer is not freed, there is memory for the
  -- extra data, and its environment names, in its copy, at least one event-set and only event-sets
  -- that exist. The end of a registration is never due.
  pub runs-Returns :
      (m m' : Machine S) (c : Call)
      → AllSafe m
      → Runs m m'
      → IsDue m' c
      → Returns AllSafe (serve core c m')
  runs-Returns m m' c all run due = due-safe m' c (runs-AllSafe all run) due
