-- ===== src/Sched/Count/Timers.antt =====
-- Timers and switches keep the counts.
use schedmon.Prelude.{
  ℕ, refl, Bool, true, false, none, ltb, if◌then◌else◌, ℤ, Ends, Ends-bind, Ends-some, Ends-if,
  Ends-elim, deref,
}
use schedmon.Envir.{envir_option_sched, envir_option_stat}
use schedmon.Pmc.{Cpu}
use schedmon.Task.{Task, Machine}
use schedmon.Task.Sampling.{
  smon_sample_start, smon_sample_stop, smon_sample_save, smon_sample_write, smon_sample_sched_save,
  smon_sample_sched_out, smon_sample_sched_in, smon_sample_rapl_save, smon_sample_info_save,
}
use schedmon.Ring.{sample_type_sched, sample_type_rapl, sample_type_info}
use schedmon.Sched.{put_task, task_envir, not_positive}
use schedmon.Sched.Timers.{
  start_task, stop_task, save_task, start_timer_pmc, stop_timer_pmc, smon_sched_task_in,
  sched_sample_out, timer_out, smon_sched_task_out, smon_sched_timer_tick, smon_sched_timer_rapl,
  start_timer_rapl, smon_task_extra_start,
}
use schedmon.Sched.Count.{
  Balanced, Balanced-refl, put_task-Balanced, update-Balanced, KeepsRefs, set_core-Balanced,
  Ends-after, Ends-then,
}
use schedmon.Sched.Count.Samples.{
  sample_write-IsEven, sample_save-IsEven, sample_start-refs, sample_stop-refs,
}

module _ {S : Type 0} where
  pub save_task-Balanced : (t : ℕ) (m : Machine S) → Ends (Balanced m) (save_task t m)
  unfolding save_task
  save_task-Balanced t m = Ends-bind (deref m.tasks t) _ (λ task h.
      Ends-bind (task_envir m task) _ (λ envir _.
        Ends-bind (smon_sample_save envir task m.rbs) _ (λ saved e.
          let (keeps, even) = (sample_save-IsEven m.tasks envir task m.rbs).holds saved e in
          Ends-some (update-Balanced m t saved.0 saved.1 h keeps even))))

  pub stop_timer_pmc-Balanced : (t : ℕ) (m : Machine S) → Ends (Balanced m) (stop_timer_pmc t m)
  unfolding stop_timer_pmc
  stop_timer_pmc-Balanced t m = Ends-bind (deref m.tasks t) _ (λ task h.
      Ends-some
        (put_task-Balanced m t (record task { stop_pending = false; timer = none }) h refl refl))

  sched_sample_out-Balanced :
      (tsc t : ℕ) (m : Machine S) → Ends (Balanced m) (sched_sample_out tsc t m)
  unfolding sched_sample_out smon_sample_sched_save smon_sample_sched_out
  sched_sample_out-Balanced tsc t m = Ends-bind (deref m.tasks t) _ (λ task h.
      Ends-bind (task_envir m task) _ (λ envir _.
        Ends-if (ltb 0 (envir_option_sched envir))
          (Ends-bind (smon_sample_write m.rbs task.rb sample_type_sched _) _ (λ rbs e.
            let even =
              (sample_write-IsEven m.tasks m.rbs task.rb sample_type_sched _).holds rbs e in
            Ends-some (update-Balanced m t _ rbs h (refl, refl) even)))
          (Ends-some (Balanced-refl m))))

  timer_out-Balanced :
      (remaining : ℤ) (tsc t : ℕ) (m : Machine S) → Ends (Balanced m) (timer_out remaining tsc t m)
  unfolding timer_out
  timer_out-Balanced remaining tsc t m = Ends-bind (deref m.tasks t) _ (λ task h.
      let off = record task { kt_remain = remaining } in
      Ends-after (put_task-Balanced m t off h refl refl) (
        Ends-then _ _
          (Ends-if (not_positive remaining) (save_task-Balanced t (put_task t off m))
            (Ends-some (Balanced-refl _)))
          (λ m'. Ends-bind (deref m'.tasks t) _ (λ saved k.
            let left = record saved { timer_on = false; stop_pending = true } in
            Ends-after (put_task-Balanced m' t left k refl refl)
              (sched_sample_out-Balanced tsc t (put_task t left m'))))))

module _ {S : Type 0} (cpu : Cpu S) where
  start_task-Balanced :
      (processor tsc t : ℕ) (m : Machine S) → Ends (Balanced m) (start_task cpu processor tsc t m)
  unfolding start_task
  start_task-Balanced processor tsc t m = Ends-bind (deref m.tasks t) _ (λ task h.
      Ends-bind (task_envir m task) _ (λ envir _.
        Ends-bind (smon_sample_start cpu m.events m.evsets tsc envir task (m.core processor)) _
          (λ started e.
            let (r, u) =
              (sample_start-refs cpu m.events m.evsets tsc envir task (m.core processor)).holds
                started e in
            Ends-some
              (set_core-Balanced processor started.1 (put_task-Balanced m t started.0 h r u)))))

  pub stop_task-Balanced :
      (processor tsc t : ℕ) (m : Machine S) → Ends (Balanced m) (stop_task cpu processor tsc t m)
  unfolding stop_task
  stop_task-Balanced processor tsc t m = Ends-bind (deref m.tasks t) _ (λ task h.
      Ends-bind (task_envir m task) _ (λ envir _.
        Ends-bind (smon_sample_stop cpu m.evsets tsc envir task (m.core processor)) _ (λ stopped e.
          let (r, u) =
            (sample_stop-refs cpu m.evsets tsc envir task (m.core processor)).holds stopped e in
          Ends-some
            (set_core-Balanced processor stopped.1 (put_task-Balanced m t stopped.0 h r u)))))

  pub start_timer_pmc-Balanced :
      (processor tsc t : ℕ) (m : Machine S)
      → Ends (Balanced m) (start_timer_pmc cpu processor tsc t m)
  unfolding start_timer_pmc
  start_timer_pmc-Balanced processor tsc t m = Ends-bind (deref m.tasks t) _ (λ task h.
      Ends-bind (task_envir m task) _ (λ envir _.
        Ends-after (put_task-Balanced m t _ h refl refl) (start_task-Balanced processor tsc t _)))

  pub task_in-Balanced :
      (processor tsc_in tsc t : ℕ) (m : Machine S)
      → Ends (Balanced m) (smon_sched_task_in cpu processor tsc_in tsc t m)
  unfolding smon_sched_task_in smon_sample_sched_in
  task_in-Balanced processor tsc_in tsc t m = Ends-bind (deref m.tasks t) _ (λ task h.
      Ends-bind (task_envir m task) _ (λ envir _.
        let seen =
          if ltb 0 (envir_option_sched envir)
          then smon_sample_sched_in processor tsc_in task
          else task in
        let (r, u) = seen_refs (ltb 0 (envir_option_sched envir)) processor tsc_in task in
        Ends-if (ltb 0 (envir_option_stat envir))
          (Ends-after (put_task-Balanced m t seen h r u) (start_task-Balanced processor tsc t _))
          (Ends-some (put_task-Balanced m t _ h r u))))
    where
      seen_refs :
          (b : Bool) (processor tsc : ℕ) (task : Task)
          → KeepsRefs task (if b then smon_sample_sched_in processor tsc task else task)
      seen_refs true processor tsc task = (refl, refl)
      seen_refs false processor tsc task = (refl, refl)

  pub task_out-Balanced :
      (processor tsc : ℕ) (remaining : ℤ) (tsc_out t : ℕ) (m : Machine S)
      → Ends (Balanced m) (smon_sched_task_out cpu processor tsc remaining tsc_out t m)
  unfolding smon_sched_task_out
  task_out-Balanced processor tsc remaining tsc_out t m =
      Ends-then _ _ (stop_task-Balanced processor tsc t m) (λ m'.
        Ends-bind (deref m'.tasks t) _ (λ task h.
          Ends-elim task.timer _ _ (Ends-some (Balanced-refl m'))
            (λ kt _. timer_out-Balanced remaining tsc_out t m')))

  pub timer_tick-Balanced :
      (processor tsc_stop tsc_start t : ℕ) (m : Machine S)
      → Ends (Balanced m) (smon_sched_timer_tick cpu processor tsc_stop tsc_start t m)
  unfolding smon_sched_timer_tick
  timer_tick-Balanced processor tsc_stop tsc_start t m = Ends-bind (deref m.tasks t) _ (λ task h.
      Ends-bind (task_envir m task) _ (λ envir _.
        Ends-if task.timer_on
          (Ends-then _ _ (stop_task-Balanced processor tsc_stop t m) (λ stopped.
            Ends-then _ _ (save_task-Balanced t stopped) (λ saved.
              Ends-bind (deref saved.tasks t) _ (λ again k.
                Ends-after (put_task-Balanced saved t _ k refl refl)
                  (start_task-Balanced processor tsc_start t _)))))
          (Ends-some (put_task-Balanced m t _ h refl refl))))

  pub timer_rapl-Balanced :
      (processor tsc_stop tsc_start t : ℕ) (m : Machine S)
      → Ends (Balanced m) (smon_sched_timer_rapl cpu processor tsc_stop tsc_start t m)
  unfolding smon_sched_timer_rapl smon_sample_rapl_save
  timer_rapl-Balanced processor tsc_stop tsc_start t m = Ends-bind (deref m.tasks t) _ (λ task h.
      Ends-bind task.extra _ (λ extra _.
        Ends-if extra.timer_on
          (Ends-bind (smon_sample_write m.rbs extra.rb sample_type_rapl _) _ (λ rbs e.
            let even =
              (sample_write-IsEven m.tasks m.rbs extra.rb sample_type_rapl _).holds rbs e in
            Ends-some (update-Balanced m t _ rbs h (refl, refl) even)))
          (Ends-some (put_task-Balanced m t _ h refl refl))))

  pub start_timer_rapl-Balanced :
      (processor tsc t : ℕ) (m : Machine S)
      → Ends (Balanced m) (start_timer_rapl cpu processor tsc t m)
  unfolding start_timer_rapl
  start_timer_rapl-Balanced processor tsc t m = Ends-bind (deref m.tasks t) _ (λ task h.
      Ends-bind task.extra _ (λ extra _. Ends-some (put_task-Balanced m t _ h refl refl)))

  pub extra_start-Balanced :
      (processor num_online_cpus tsc t : ℕ) (m : Machine S)
      → Ends (Balanced m) (smon_task_extra_start cpu processor num_online_cpus tsc t m)
  unfolding smon_task_extra_start smon_sample_info_save
  extra_start-Balanced processor num_online_cpus tsc t m = Ends-bind (deref m.tasks t) _ (λ task h.
      Ends-elim task.extra _ _ (Ends-some (Balanced-refl m)) (λ extra _.
        Ends-bind (task_envir m task) _ (λ envir _.
          Ends-bind (smon_sample_write m.rbs extra.rb sample_type_info _) _ (λ rbs e.
            let even =
              (sample_write-IsEven m.tasks m.rbs extra.rb sample_type_info _).holds rbs e in
            Ends-some (update-Balanced m t _ rbs h (refl, refl) even)))))
