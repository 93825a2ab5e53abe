-- ===== src/Sched/Safe/Clock.antt =====
-- The sampling timer, the RAPL timer and the works of the driver, for a task that is ready.
use schedmon.Prelude.{
  ℕ, refl, sym, ◌∙◌, some, Returns, Returns-known, Returns-then, Returns-some, Returns-if, ◌≡◌,
}
use schedmon.Ring.{sample_type_rapl}
use schedmon.Pmc.{Cpu}
use schedmon.Task.{Task, Extra, Machine}
use schedmon.Task.Sampling.{smon_sample_rapl_save}
use schedmon.Sched.Timers.{
  start_timer_pmc, stop_timer_pmc, smon_sched_timer_tick, smon_sched_timer_rapl, start_timer_rapl,
  smon_task_extra_rapl_start, smon_task_extra_stop,
}
use schedmon.Sched.Safe.{ReadyAt, IsSafeAt, HasPointers}
use schedmon.Sched.Safe.Steps.{
  sample_write-Returns, IsSafeAt-put, IsSafeAt-update, at_refl, Returns-after, Returns-chain,
}
use schedmon.Sched.Safe.Timers.{
  task_envir-ready, save_task-safe, start_task-safe, stop_task-safe, extra_rb-some,
}

-- The extra data of a task changes, and keeps its ring buffer.
extra_pointers :
    (task : Task) (extra extra' : Extra)
    → task.extra ≡ some extra
    → extra'.rb ≡ extra.rb
    → HasPointers task (record task { extra = some extra' })
extra_pointers task extra extra' e rb = record {
  envir = refl;
  rb = refl;
  extra = rb ∙ sym (extra_rb-some task extra e);
}

module _ {S : Type 0} where
  pub stop_timer_pmc-safe :
      (t : ℕ) (m : Machine S) → ReadyAt m t → Returns (IsSafeAt m t) (stop_timer_pmc t m)
  unfolding stop_timer_pmc
  stop_timer_pmc-safe t m a = Returns-known _ _ a.at (
      Returns-some
        (IsSafeAt-put m t a _ (record { envir = refl; rb = refl; extra = refl }) (a.ready).turn))

  task_extra_stop-safe :
      (t : ℕ) (m : Machine S) (a : ReadyAt m t) (extra : Extra)
      → (a.task).extra ≡ some extra
      → Returns (IsSafeAt m t) (smon_task_extra_stop t m)
  unfolding smon_task_extra_stop
  task_extra_stop-safe t m a extra e = Returns-known _ _ a.at (
      Returns-known _ _ (task_envir-ready m a.task a.ready) (
        Returns-if _
          (Returns-known _ _ e (
            Returns-some
              (IsSafeAt-put m t a _ (extra_pointers a.task extra _ e refl) (a.ready).turn)))
          (Returns-some (at_refl a))))

module _ {S : Type 0} (cpu : Cpu S) where
  pub start_timer_pmc-safe :
      (processor tsc t : ℕ) (m : Machine S)
      → ReadyAt m t
      → Returns (IsSafeAt m t) (start_timer_pmc cpu processor tsc t m)
  unfolding start_timer_pmc
  start_timer_pmc-safe processor tsc t m a = Returns-known _ _ a.at (
      Returns-known _ _ (task_envir-ready m a.task a.ready) (
        let on =
          IsSafeAt-put m t a _ (record { envir = refl; rb = refl; extra = refl }) (a.ready).turn in
        Returns-after on (start_task-safe cpu processor tsc _ t on.after)))

  pub timer_tick-safe :
      (processor tsc_stop tsc_start t : ℕ) (m : Machine S)
      → ReadyAt m t
      → Returns (IsSafeAt m t) (smon_sched_timer_tick cpu processor tsc_stop tsc_start t m)
  unfolding smon_sched_timer_tick
  timer_tick-safe processor tsc_stop tsc_start t m a = Returns-known _ _ a.at (
      Returns-known _ _ (task_envir-ready m a.task a.ready) (
        Returns-if _
          (Returns-chain _ _ (stop_task-safe cpu processor tsc_stop m t a) (λ stopped b.
            Returns-chain _ _ (save_task-safe stopped t b) (λ saved c. Returns-known _ _ c.at (
              let on =
                IsSafeAt-put saved t c _ (record { envir = refl; rb = refl; extra = refl })
                  (c.ready).turn in
              Returns-after on (start_task-safe cpu processor tsc_start _ t on.after)))))
          (Returns-some (
            IsSafeAt-put m t a _ (record { envir = refl; rb = refl; extra = refl })
              (a.ready).turn))))

  pub timer_rapl-safe :
      (processor tsc_stop tsc_start t : ℕ) (m : Machine S) (a : ReadyAt m t) (extra : Extra)
      → (a.task).extra ≡ some extra
      → Returns (IsSafeAt m t) (smon_sched_timer_rapl cpu processor tsc_stop tsc_start t m)
  unfolding smon_sched_timer_rapl smon_sample_rapl_save
  timer_rapl-safe processor tsc_stop tsc_start t m a extra e = Returns-known _ _ a.at (
      Returns-known _ _ e (
        Returns-if _
          (Returns-then _ _
            (sample_write-Returns m.rbs extra.rb sample_type_rapl _
              (λ r k. (a.ready).live_extra r (extra_rb-some a.task extra e ∙ k)))
            (λ rbs live. Returns-some (
              IsSafeAt-update m t a _ rbs (extra_pointers a.task extra _ e refl) (a.ready).turn
                live)))
          (Returns-some
            (IsSafeAt-put m t a _ (extra_pointers a.task extra _ e refl) (a.ready).turn))))

  pub start_timer_rapl-safe :
      (processor tsc t : ℕ) (m : Machine S) (a : ReadyAt m t) (extra : Extra)
      → (a.task).extra ≡ some extra
      → Returns (IsSafeAt m t) (start_timer_rapl cpu processor tsc t m)
  unfolding start_timer_rapl
  start_timer_rapl-safe processor tsc t m a extra e = Returns-known _ _ a.at (
      Returns-known _ _ e
        (Returns-some (IsSafeAt-put m t a _ (extra_pointers a.task extra _ e refl) (a.ready).turn)))

  task_extra_rapl_start-safe :
      (processor tsc t : ℕ) (m : Machine S) (a : ReadyAt m t) (extra : Extra)
      → (a.task).extra ≡ some extra
      → Returns (IsSafeAt m t) (smon_task_extra_rapl_start cpu processor tsc t m)
  unfolding smon_task_extra_rapl_start
  task_extra_rapl_start-safe processor tsc t m a extra e = Returns-known _ _ a.at (
      Returns-known _ _ e
        (Returns-some (IsSafeAt-put m t a _ (extra_pointers a.task extra _ e refl) (a.ready).turn)))
