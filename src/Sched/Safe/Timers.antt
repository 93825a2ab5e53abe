-- ===== src/Sched/Safe/Timers.antt =====
-- Samples, timers and switches of a task that is ready do not fault, and leave it ready.
use schedmon.Prelude.{
  ℕ, ◌<◌, ◌%◌, ◌≡◌, refl, sym, ap, subst, ◌∙◌, List, arith, Bool, true, false, none, some, ltb,
  if◌then◌else◌, ℤ, Returns, Returns-known, Returns-then, Returns-some, Returns-if, Returns-elim,
}
use mathlib.Core.Option.{some-injective}
use native.Mathlib.Nat.{mod-lt}
use schedmon.Ring.Index.{add32}
use schedmon.Ring.{sample_type_sched, sample_type_pmc, sample_type_info}
use schedmon.Envir.{smon_envir_next_evset, envir_option_sched}
use schedmon.Pmc.{Cpu}
use schedmon.Task.{Task, Extra, Machine}
use schedmon.Task.Sampling.{
  start_evset, stop_evset, smon_sample_write, smon_sample_save, smon_sample_sched_in,
  smon_sample_sched_out, smon_sample_sched_save, smon_sample_info_save,
}
use schedmon.Task.Slices.{HasEvset, sample_start-evset, sample_stop-evset}
use schedmon.Sched.{task_envir, not_positive}
use schedmon.Sched.Timers.{
  start_task, stop_task, save_task, smon_sched_task_in, sched_sample_out, timer_out,
  smon_sched_task_out, smon_task_extra_start,
}
use schedmon.Sched.Safe.{IsNamed, IsLive, IsReady, ReadyAt, IsSafeAt, HasPointers, extra_rb}
use schedmon.Sched.Safe.Steps.{
  sample_write-Returns, IsSafeAt-put, IsSafeAt-core, IsSafeAt-update, at_refl, Returns-after,
  Returns-chain,
}

pub extra_rb-some :
    (task : Task) (extra : Extra) → task.extra ≡ some extra → extra_rb task ≡ extra.rb
extra_rb-some task extra e = ap (λ o. elim o [ none ↦ none | some x ↦ x.rb ]) e

module _ {S : Type 0} where
  evset_of :
      {m : Machine S} {task : Task} (ready : IsReady m task)
      → IsNamed m.evsets ((ready.envir).esids) task.evset
  evset_of {task = task} ready = (ready.sound).named task.evset ready.turn

  ready-HasEvset :
      {m : Machine S} {task : Task} (ready : IsReady m task)
      → HasEvset m.evsets ready.envir task ((evset_of ready).evset)
  ready-HasEvset ready = record {
    esid = (evset_of ready).esid;
    turn = ready.turn;
    bound = (ready.sound).bound;
    named = (evset_of ready).named;
    found = (evset_of ready).found;
  }

  pub task_envir-ready :
      (m : Machine S) (task : Task) (ready : IsReady m task) → task_envir m task ≡ some ready.envir
  task_envir-ready m task ready = rw (ready.points_envir, ready.at_envir)

  -- The write of a sample of the task.
  pub ready_write :
      (m : Machine S) (task : Task) (type : ℕ) (sample : List ℕ)
      → IsReady m task
      → Returns
          (λ rbs. (q : ℕ) → IsLive m.rbs q → IsLive rbs q)
          (smon_sample_write m.rbs task.rb type sample)
  ready_write m task type sample ready = sample_write-Returns m.rbs task.rb type sample (λ r e.
      subst (IsLive m.rbs) (some-injective ready.r r (sym ready.points_rb ∙ e)) ready.live_rb)

  next_evset-Returns :
      (m : Machine S) (task : Task) (ready : IsReady m task)
      → Returns
          (λ next. next < (ready.envir).n_esids)
          (smon_envir_next_evset ready.envir task.evset)
  unfolding smon_envir_next_evset
  next_evset-Returns m task ready =
      let turn = ready.turn in
      record {
        result = add32 task.evset 1 % (ready.envir).n_esids;
        runs = ground (arith, turn);
        holds = mod-lt (add32 task.evset 1) (omega (arith, turn));
      }

  sample_save-Returns :
      (m : Machine S) (task : Task) (ready : IsReady m task)
      → Returns
          (λ saved.
            HasPointers task saved.0
            × ((saved.0).evset < (ready.envir).n_esids)
            × ((q : ℕ) → IsLive m.rbs q → IsLive saved.1 q))
          (smon_sample_save ready.envir task m.rbs)
  unfolding smon_sample_save
  sample_save-Returns m task ready =
      Returns-then _ _ (ready_write m task sample_type_pmc _ ready) (λ rbs live.
        Returns-then _ _ (next_evset-Returns m task ready) (λ next turn.
          Returns-some (record { envir = refl; rb = refl; extra = refl }, turn, live)))

  pub save_task-safe :
      (m : Machine S) (t : ℕ) → ReadyAt m t → Returns (IsSafeAt m t) (save_task t m)
  unfolding save_task
  save_task-safe m t a = Returns-known _ _ a.at (
      Returns-known _ _ (task_envir-ready m a.task a.ready) (
        Returns-then _ _ (sample_save-Returns m a.task a.ready) (λ saved p.
          let (has, turn, live) = p in
          Returns-some (IsSafeAt-update m t a saved.0 saved.1 has turn live))))

  sched_sample_out-safe :
      (tsc : ℕ) (m : Machine S) (t : ℕ)
      → ReadyAt m t
      → Returns (IsSafeAt m t) (sched_sample_out tsc t m)
  unfolding sched_sample_out smon_sample_sched_save smon_sample_sched_out
  sched_sample_out-safe tsc m t a = Returns-known _ _ a.at (
      Returns-known _ _ (task_envir-ready m a.task a.ready) (
        Returns-if _
          (Returns-then _ _ (ready_write m a.task sample_type_sched _ a.ready) (λ rbs live.
            Returns-some (
              IsSafeAt-update m t a _ rbs (record { envir = refl; rb = refl; extra = refl })
                (a.ready).turn live)))
          (Returns-some (at_refl a))))

  timer_out-safe :
      (remaining : ℤ) (tsc : ℕ) (m : Machine S) (t : ℕ)
      → ReadyAt m t
      → Returns (IsSafeAt m t) (timer_out remaining tsc t m)
  unfolding timer_out
  timer_out-safe remaining tsc m t a = Returns-known _ _ a.at (
      let off =
        IsSafeAt-put m t a (record (a.task) { kt_remain = remaining })
          (record { envir = refl; rb = refl; extra = refl }) (a.ready).turn in
      Returns-after off (
        Returns-chain _ _
          (Returns-if (not_positive remaining) (save_task-safe _ t off.after)
            (Returns-some (at_refl off.after)))
          (λ m' b. Returns-known _ _ b.at (
            let left =
              IsSafeAt-put m' t b (record (b.task) { timer_on = false; stop_pending = true })
                (record { envir = refl; rb = refl; extra = refl }) (b.ready).turn in
            Returns-after left (sched_sample_out-safe tsc _ t left.after)))))

module _ {S : Type 0} (cpu : Cpu S) where
  pub start_task-safe :
      (processor tsc : ℕ) (m : Machine S) (t : ℕ)
      → ReadyAt m t
      → Returns (IsSafeAt m t) (start_task cpu processor tsc t m)
  unfolding start_task start_evset
  start_task-safe processor tsc m t a = Returns-known _ _ a.at (
      Returns-known _ _ (task_envir-ready m a.task a.ready) (
        Returns-known _ _
          (sample_start-evset cpu m.events m.evsets (a.ready).envir a.task tsc (m.core processor)
            (ready-HasEvset a.ready))
          (Returns-some (
            IsSafeAt-core processor _ (
              IsSafeAt-put m t a _ (record { envir = refl; rb = refl; extra = refl })
                (a.ready).turn)))))

  pub stop_task-safe :
      (processor tsc : ℕ) (m : Machine S) (t : ℕ)
      → ReadyAt m t
      → Returns (IsSafeAt m t) (stop_task cpu processor tsc t m)
  unfolding stop_task stop_evset
  stop_task-safe processor tsc m t a = Returns-known _ _ a.at (
      Returns-known _ _ (task_envir-ready m a.task a.ready) (
        Returns-known _ _
          (sample_stop-evset cpu m.events m.evsets (a.ready).envir a.task tsc (m.core processor)
            (ready-HasEvset a.ready))
          (Returns-some (
            IsSafeAt-core processor _ (
              IsSafeAt-put m t a _ (record { envir = refl; rb = refl; extra = refl })
                (a.ready).turn)))))

  pub task_out-safe :
      (processor tsc : ℕ) (remaining : ℤ) (tsc_out : ℕ) (m : Machine S) (t : ℕ)
      → ReadyAt m t
      → Returns (IsSafeAt m t) (smon_sched_task_out cpu processor tsc remaining tsc_out t m)
  unfolding smon_sched_task_out
  task_out-safe processor tsc remaining tsc_out m t a =
      Returns-chain _ _ (stop_task-safe processor tsc m t a) (λ m' b. Returns-known _ _ b.at (
        Returns-elim (b.task).timer _ _ (Returns-some (at_refl b))
          (λ kt _. timer_out-safe remaining tsc_out m' t b)))

  -- What a switch in makes of the task.
  seen_pointers :
      (b : Bool) (processor tsc : ℕ) (task : Task)
      → HasPointers task (if b then smon_sample_sched_in processor tsc task else task)
        × ((if b then smon_sample_sched_in processor tsc task else task).evset ≡ task.evset)
  unfolding smon_sample_sched_in
  seen_pointers true processor tsc task = (record { envir = refl; rb = refl; extra = refl }, refl)
  seen_pointers false processor tsc task = (record { envir = refl; rb = refl; extra = refl }, refl)

  pub task_in-safe :
      (processor tsc_in tsc : ℕ) (m : Machine S) (t : ℕ)
      → ReadyAt m t
      → Returns (IsSafeAt m t) (smon_sched_task_in cpu processor tsc_in tsc t m)
  unfolding smon_sched_task_in
  task_in-safe processor tsc_in tsc m t a = Returns-known _ _ a.at (
      Returns-known _ _ (task_envir-ready m a.task a.ready) (
        let option = ltb 0 (envir_option_sched (a.ready).envir) in
        let task = if option then smon_sample_sched_in processor tsc_in a.task else a.task in
        let (has, e) = seen_pointers option processor tsc_in a.task in
        let turn = (a.ready).turn in
        let seen = IsSafeAt-put m t a task has (omega (arith, e, turn)) in
        Returns-if _ (Returns-after seen (start_task-safe processor tsc _ t seen.after)) (
          Returns-some (
            IsSafeAt-put m t a (record task { start_pending = true })
              (record { envir = has.envir; rb = has.rb; extra = has.extra })
              (omega (arith, e, turn))))))

  pub extra_start-safe :
      (processor num_online_cpus tsc : ℕ) (m : Machine S) (t : ℕ)
      → ReadyAt m t
      → Returns (IsSafeAt m t) (smon_task_extra_start cpu processor num_online_cpus tsc t m)
  unfolding smon_task_extra_start smon_sample_info_save
  extra_start-safe processor num_online_cpus tsc m t a = Returns-known _ _ a.at (
      Returns-elim (a.task).extra _ _ (Returns-some (at_refl a)) (λ extra e.
        Returns-known _ _ (task_envir-ready m a.task a.ready) (
          Returns-then _ _
            (sample_write-Returns m.rbs extra.rb sample_type_info _
              (λ r k. (a.ready).live_extra r (extra_rb-some a.task extra e ∙ k)))
            (λ rbs live. Returns-some (
              IsSafeAt-update m t a _ rbs
                (record { envir = refl; rb = refl; extra = sym (extra_rb-some a.task extra e) })
                (a.ready).turn live)))))
