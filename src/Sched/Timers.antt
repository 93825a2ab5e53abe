-- ===== src/Sched/Timers.antt =====
-- The timers, and what a switch does to a task.
use schedmon.Prelude.{ℕ, true, false, Option, none, some, if◌then◌else◌, ltb, ℤ, pos, ◌>>=◌, deref}
use schedmon.Envir.{envir_option_sched, envir_option_stat, envir_option_rapl}
use schedmon.Pmc.{Cpu}
use schedmon.Task.{Machine}
use schedmon.Task.Sampling.{
  smon_sample_start, smon_sample_stop, smon_sample_save, smon_sample_sched_in,
  smon_sample_sched_out, smon_sample_sched_save, smon_sample_rapl_start, smon_sample_rapl_stop,
  smon_sample_rapl_save, smon_sample_get_info, smon_sample_info_save,
}
use schedmon.Sched.{put_task, set_core, task_envir, ms_to_ns, not_positive}

module _ {S : Type 0} where
  unfoldable pub save_task : ℕ → Machine S → Option (Machine S)
  save_task t m = do
    task ← deref m.tasks t
    envir ← task_envir m task
    saved ← smon_sample_save envir task m.rbs
    some (record (put_task t saved.0 m) { rbs = saved.1 })

  unfoldable pub stop_timer_pmc : ℕ → Machine S → Option (Machine S)
  stop_timer_pmc t m = do
    task ← deref m.tasks t
    some (put_task t (record task { stop_pending = false; timer = none }) m)

  -- `if (envir_option_sched(task->envir))` of a switch out.
  unfoldable pub sched_sample_out : ℕ → ℕ → Machine S → Option (Machine S)
  sched_sample_out tsc_out t m = do
    task ← deref m.tasks t
    envir ← task_envir m task
    let left = smon_sample_sched_out tsc_out task
    if ltb 0 (envir_option_sched envir)
        then (smon_sample_sched_save left m.rbs >>= λ rbs.
            some (record (put_task t left m) { rbs = rbs }))
        else some m

  -- `if (hrtimer_active(timer))` of a switch out; `remaining` is hrtimer_expires_remaining.
  unfoldable pub timer_out : ℤ → ℕ → ℕ → Machine S → Option (Machine S)
  timer_out remaining tsc_out t m = do
    task ← deref m.tasks t
    let m' = put_task t (record task { kt_remain = remaining }) m
    m'' ← (if not_positive remaining then save_task t m' else some m')
    saved ← deref m''.tasks t
    sched_sample_out tsc_out t
        (put_task t (record saved { timer_on = false; stop_pending = true }) m'')

  -- Queues the stop of the RAPL timer.
  unfoldable pub smon_task_extra_stop : ℕ → Machine S → Option (Machine S)
  smon_task_extra_stop t m = do
    task ← deref m.tasks t
    envir ← task_envir m task
    if ltb 0 (envir_option_rapl envir)
        then (task.extra >>= λ extra.
            let off = record extra { timer_on = false; stop_pending = true } in
            some (put_task t (record task { extra = some off }) m))
        else some m

module _ {S : Type 0} (cpu : Cpu S) where
  -- smon_sample_start, _stop and _save of the task at `t`, on a core.
  unfoldable pub start_task : ℕ → ℕ → ℕ → Machine S → Option (Machine S)
  start_task processor tsc t m = do
    task ← deref m.tasks t
    envir ← task_envir m task
    started ← smon_sample_start cpu m.events m.evsets tsc envir task (m.core processor)
    some (set_core processor started.1 (put_task t started.0 m))

  unfoldable pub stop_task : ℕ → ℕ → ℕ → Machine S → Option (Machine S)
  stop_task processor tsc t m = do
    task ← deref m.tasks t
    envir ← task_envir m task
    stopped ← smon_sample_stop cpu m.evsets tsc envir task (m.core processor)
    some (set_core processor stopped.1 (put_task t stopped.0 m))

  -- The handler of the work that a switch queues.
  unfoldable pub start_timer_pmc : ℕ → ℕ → ℕ → Machine S → Option (Machine S)
  start_timer_pmc processor tsc t m = do
    task ← deref m.tasks t
    envir ← task_envir m task
    let kt =
        if not_positive task.kt_remain then pos (ms_to_ns envir.sample_time) else task.kt_remain
    let task' = record task { start_pending = false; timer_on = true; timer = some kt }
    start_task processor tsc t (put_task t task' m)

  unfoldable pub smon_sched_task_in : ℕ → ℕ → ℕ → ℕ → Machine S → Option (Machine S)
  smon_sched_task_in processor tsc_in tsc t m = do
    task ← deref m.tasks t
    envir ← task_envir m task
    let seen =
        if ltb 0 (envir_option_sched envir)
        then smon_sample_sched_in processor tsc_in task
        else task
    if ltb 0 (envir_option_stat envir)
        then start_task processor tsc t (put_task t seen m)
        else some (put_task t (record seen { start_pending = true }) m)

  unfoldable pub smon_sched_task_out : ℕ → ℕ → ℤ → ℕ → ℕ → Machine S → Option (Machine S)
  smon_sched_task_out processor tsc remaining tsc_out t m = do
    m' ← stop_task processor tsc t m
    task ← deref m'.tasks t
    elim task.timer [ none ↦ some m' | some kt ↦ timer_out remaining tsc_out t m' ]

  -- The sampling timer fires: it is restarted, or off.
  unfoldable pub smon_sched_timer_tick : ℕ → ℕ → ℕ → ℕ → Machine S → Option (Machine S)
  smon_sched_timer_tick processor tsc_stop tsc_start t m = do
    task ← deref m.tasks t
    envir ← task_envir m task
    let kt = pos (ms_to_ns envir.sample_time)
    if task.timer_on
        then (do
          stopped ← stop_task processor tsc_stop t m
          saved ← save_task t stopped
          again ← deref saved.tasks t
          start_task processor tsc_start t
              (put_task t (record again { kt_remain = kt; timer = some kt }) saved))
        else some (put_task t (record task { timer = none }) m)

  -- The RAPL timer of the task at `t` fires.
  unfoldable pub smon_sched_timer_rapl : ℕ → ℕ → ℕ → ℕ → Machine S → Option (Machine S)
  smon_sched_timer_rapl processor tsc_stop tsc_start t m = do
    task ← deref m.tasks t
    extra ← task.extra
    let sample = smon_sample_rapl_stop cpu tsc_stop extra.rapl_sample (m.core processor)
    let next = smon_sample_rapl_start cpu tsc_start sample (m.core processor)
    let on = record extra {
      rapl_sample = next;
      rapl_timer = some (pos (ms_to_ns extra.rapl_sample_time));
    }
    if extra.timer_on
        then (smon_sample_rapl_save m.rbs extra.rb sample >>= λ rbs.
            some (record (put_task t (record task { extra = some on }) m) { rbs = rbs }))
        else some (put_task t (record task { extra = some (record extra { rapl_timer = none }) }) m)

  unfoldable pub start_timer_rapl : ℕ → ℕ → ℕ → Machine S → Option (Machine S)
  start_timer_rapl processor tsc t m = do
    task ← deref m.tasks t
    extra ← task.extra
    let on = record extra {
      start_pending = false;
      timer_on = true;
      rapl_sample = smon_sample_rapl_start cpu tsc extra.rapl_sample (m.core processor);
      rapl_timer = some (pos (ms_to_ns extra.rapl_sample_time));
    }
    some (put_task t (record task { extra = some on }) m)

  -- smon_task_extra_rapl_start of the extra data of the task at `t`.
  unfoldable pub smon_task_extra_rapl_start : ℕ → ℕ → ℕ → Machine S → Option (Machine S)
  smon_task_extra_rapl_start processor tsc t m = do
    task ← deref m.tasks t
    extra ← task.extra
    let on = record extra {
      rapl_sample = smon_sample_rapl_start cpu tsc extra.rapl_sample (m.core processor);
      rapl_timer = some (pos (ms_to_ns extra.rapl_sample_time));
    }
    some (put_task t (record task { extra = some on }) m)

  -- Nothing to do for a task without extra data.
  unfoldable pub smon_task_extra_start : ℕ → ℕ → ℕ → ℕ → Machine S → Option (Machine S)
  smon_task_extra_start processor num_online_cpus tsc t m = do
    task ← deref m.tasks t
    elim task.extra [
      | none ↦ some m
      | some extra ↦ (do
        envir ← task_envir m task
        let info =
            smon_sample_get_info cpu num_online_cpus tsc extra.info_sample envir (m.core processor)
        let rapl = if ltb 0 (envir_option_rapl envir) then true else extra.start_pending
        rbs ← smon_sample_info_save m.rbs extra.rb info
        some
            (record (put_task t
              (record task {
                extra = some (record extra { info_sample = info; start_pending = rapl });
              })
              m) { rbs = rbs }))
    ]
