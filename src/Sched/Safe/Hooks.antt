-- ===== src/Sched/Safe/Hooks.antt =====
-- The hooks of the tracepoints do not fault while the tasks on the lists are safe, and keep them safe.
use schedmon.Prelude.{
  ℕ, ◌≡◌, refl, sym, ◌∙◌, arith, Option, none, some, List, deref, store, deref-store, Returns,
  Returns-known, Returns-then, Returns-some, Returns-if, Returns-elim,
}
use schedmon.Ring.{RingBuffer, smon_release_rb, sample_type_cpu}
use schedmon.Pmc.{Cpu}
use schedmon.Task.{Task, Machine}
use schedmon.Task.Life.{drop_rb}
use schedmon.Sched.{list_del}
use schedmon.Sched.Register.{cancel_timer}
use schedmon.Sched.Hooks.{
  Instant, switch_out, switch_in, smon_sched_switch, migration_sample, smon_sched_migrate_task,
  smon_sched_process_exec, let_go, rapl_off, exit_running, smon_sched_process_exit,
}
use schedmon.Sched.Safe.{IsLive, ReadyAt, IsSafeStep, IsSafeAt, step_refl, step_trans}
use schedmon.Sched.Safe.Steps.{
  IsLive-store, IsSafeStep-put, IsSafeStep-rbs, IsSafeAt-put, IsSafeAt-rbs, at_refl,
}
use schedmon.Sched.Safe.Timers.{
  task_envir-ready, ready_write, save_task-safe, stop_task-safe, task_in-safe, task_out-safe,
  extra_start-safe,
}
use schedmon.Sched.Safe.Lists.{
  AllSafe, AllSafe-step, AllSafe-cons, AllSafe-list_del, AllSafe-waits, ReadyAt-relist,
  ReadyAt-IsSafe, find_task-safe,
}

module _ {S : Type 0} where
  -- A step on a ready task keeps the tasks of the lists safe.
  pub Returns-safe :
      {m : Machine S} {t : ℕ} {o : Option (Machine S)}
      → AllSafe m
      → Returns (IsSafeAt m t) o
      → Returns AllSafe o
  Returns-safe all h = record {
    result = h.result;
    runs = h.runs;
    holds = AllSafe-step all (h.holds).step;
  }

  migration_sample-safe :
      (rest : List ℕ) (tsc old_cpu dest_cpu t : ℕ) (m : Machine S)
      → ReadyAt m t
      → Returns (IsSafeAt m t) (migration_sample rest tsc old_cpu dest_cpu t m)
  unfolding migration_sample
  migration_sample-safe rest tsc old_cpu dest_cpu t m a = Returns-known _ _ a.at (
      Returns-known _ _ (task_envir-ready m a.task a.ready) (
        Returns-if _
          (Returns-then _ _ (ready_write m a.task sample_type_cpu _ a.ready)
            (λ rbs live. Returns-some (IsSafeAt-rbs m t rbs a live)))
          (Returns-some (at_refl a))))

  pub migrate_task-safe :
      (rest : List ℕ) (tsc old_cpu p dest_cpu : ℕ) (m : Machine S)
      → AllSafe m
      → Returns AllSafe (smon_sched_migrate_task rest tsc old_cpu p dest_cpu m)
  unfolding smon_sched_migrate_task
  migrate_task-safe rest tsc old_cpu p dest_cpu m all =
      Returns-then _ _ (find_task-safe m p (m.cpu_list old_cpu) (all.cpus old_cpu)) (λ found ready.
        Returns-elim found _ _ (Returns-some all) (λ t e.
          Returns-then _ _
            (migration_sample-safe rest tsc old_cpu dest_cpu t _
              (ReadyAt-relist _ _ _ _ (ready t e)))
            (λ m' a.
              let off = AllSafe-step (AllSafe-list_del m old_cpu t all) a.step in
              Returns-some (AllSafe-cons m' dest_cpu t off (ReadyAt-IsSafe a.after)))))

  cancel_timer-safe :
      (t : ℕ) (m : Machine S) → ReadyAt m t → Returns (IsSafeAt m t) (cancel_timer t m)
  unfolding cancel_timer
  cancel_timer-safe t m a = Returns-known _ _ a.at (
      Returns-some
        (IsSafeAt-put m t a _ (record { envir = refl; rb = refl; extra = refl }) (a.ready).turn))

  -- The task at `t` is not freed, and its process is gone.
  record IsGone (m : Machine S) (t : ℕ) : Type 0 where
    task : Task
    at : deref m.tasks t ≡ some task
    gone : task.p ≡ none

  let_go-safe :
      (t : ℕ) (m : Machine S)
      → ReadyAt m t
      → Returns (λ m'. IsSafeStep m m' × IsGone m' t) (let_go t m)
  unfolding let_go drop_rb
  let_go-safe t m a =
      let rb = smon_release_rb (((a.ready).live_rb).object) in
      let rbs = store m.rbs (a.ready).r (some rb) in
      let left : Task = record (a.task) { p = none; rb = none } in
      let written =
        IsSafeStep-rbs m rbs (λ q h. IsLive-store m.rbs (a.ready).r q rb (a.ready).live_rb h) in
      let put = IsSafeStep-put (record m { rbs = rbs }) t left a.at (λ p e. absurd (cc)) in
      Returns-known _ _ a.at (
        Returns-known _ _ (a.ready).points_rb (
          Returns-known _ _ (drop_rb-live (a.ready).live_rb) (
            Returns-some (
              step_trans written put,
              record {
                task = left;
                at = ground (arith, deref-store m.tasks t t (some left) a.at);
                gone = refl;
              },
            ))))
    where
      drop_rb-live :
          {rbs : List (Option RingBuffer)} {r : ℕ} (live : IsLive rbs r)
          → drop_rb rbs r ≡ some (store rbs r (some (smon_release_rb live.object)))
      drop_rb-live live = rw (live.at)

  rapl_off-safe : (t : ℕ) (m : Machine S) → IsGone m t → Returns (IsSafeStep m) (rapl_off t m)
  unfolding rapl_off
  rapl_off-safe t m a = Returns-known _ _ a.at (
      Returns-elim (a.task).extra _ _ (Returns-some (step_refl m)) (λ extra _.
        Returns-some (IsSafeStep-put m t _ a.at (λ p e. absurd (no_process (sym a.gone ∙ e))))))
    where
      no_process : {p : ℕ} → none ≡ some p → ⊥
      no_process e = absurd (cc)

module _ {S : Type 0} (core : Cpu S) where
  switch_out-safe :
      (now : Instant) (cpu prev : ℕ) (m : Machine S)
      → AllSafe m
      → Returns AllSafe (switch_out core now cpu prev m)
  unfolding switch_out
  switch_out-safe now cpu prev m all =
      Returns-then _ _ (find_task-safe m prev (m.cpu_list cpu) (all.cpus cpu)) (λ found ready.
        Returns-elim found _ _ (Returns-some all) (λ t e. Returns-safe all (
          task_out-safe core now.processor now.tsc_stop now.remaining now.tsc_out m t (ready t e))))

  switch_in-safe :
      (now : Instant) (cpu next : ℕ) (m : Machine S)
      → AllSafe m
      → Returns AllSafe (switch_in core now cpu next m)
  unfolding switch_in
  switch_in-safe now cpu next m all =
      Returns-then _ _ (find_task-safe m next (m.cpu_list cpu) (all.cpus cpu)) (λ found ready.
        Returns-elim found _ _ (Returns-some all) (λ t e.
          Returns-safe all
            (task_in-safe core now.processor now.tsc_in now.tsc_start m t (ready t e))))

  pub switch-safe :
      (now : Instant) (cpu prev next : ℕ) (m : Machine S)
      → AllSafe m
      → Returns AllSafe (smon_sched_switch core now cpu prev next m)
  unfolding smon_sched_switch
  switch-safe now cpu prev next m all =
      Returns-then _ _ (switch_out-safe now cpu prev m all)
        (λ m' all'. switch_in-safe now cpu next m' all')

  pub exec-safe :
      (now : Instant) (cpu p : ℕ) (m : Machine S)
      → AllSafe m
      → Returns AllSafe (smon_sched_process_exec core now cpu p m)
  unfolding smon_sched_process_exec
  exec-safe now cpu p m all =
      Returns-then _ _ (find_task-safe m p m.wait_list all.waits) (λ found ready.
        Returns-elim found _ _ (Returns-some all) (λ t e.
          let off : Machine S = record m { wait_list = list_del t m.wait_list } in
          let all_off : AllSafe off = AllSafe-waits m t all in
          Returns-then _ _
            (extra_start-safe core now.processor now.num_online_cpus now.tsc_stop off t
              (ReadyAt-relist _ _ _ _ (ready t e)))
            (λ begun b.
              Returns-then _ _
                (task_in-safe core now.processor now.tsc_in now.tsc_start begun t b.after)
                (λ m' a.
                  let on = AllSafe-step (AllSafe-step all_off b.step) a.step in
                  Returns-some (AllSafe-cons m' cpu t on (ReadyAt-IsSafe a.after))))))

  exit_running-safe :
      (now : Instant) (cpu t : ℕ) (m : Machine S)
      → AllSafe m
      → ReadyAt m t
      → Returns AllSafe (exit_running core now cpu t m)
  unfolding exit_running
  exit_running-safe now cpu t m all a = Returns-then _ _ (cancel_timer-safe t m a) (λ quiet b.
      Returns-then _ _ (stop_task-safe core now.processor now.tsc_stop quiet t b.after)
        (λ stopped c. Returns-then _ _ (save_task-safe stopped t c.after) (λ saved d.
          let here = AllSafe-step (AllSafe-step (AllSafe-step all b.step) c.step) d.step in
          let off = AllSafe-list_del saved cpu t here in
          Returns-then _ _ (let_go-safe t _ (ReadyAt-relist _ _ _ _ d.after)) (λ gone (step, left).
            let last = rapl_off-safe t gone left in
            record {
              result = last.result;
              runs = last.runs;
              holds = AllSafe-step (AllSafe-step off step) last.holds;
            }))))

  pub exit-safe :
      (now : Instant) (cpu p : ℕ) (m : Machine S)
      → AllSafe m
      → Returns AllSafe (smon_sched_process_exit core now cpu p m)
  unfolding smon_sched_process_exit
  exit-safe now cpu p m all =
      Returns-then _ _ (find_task-safe m p (m.cpu_list cpu) (all.cpus cpu)) (λ found ready.
        Returns-elim found _ _
          (Returns-then _ _ (find_task-safe m p m.wait_list all.waits) (λ waiting ready'.
            Returns-elim waiting _ _ (Returns-some all) (λ t e.
              let h = let_go-safe t _ (ReadyAt-relist _ _ _ _ (ready' t e)) in
              record {
                result = h.result;
                runs = h.runs;
                holds = AllSafe-step (AllSafe-waits m t all) (h.holds).0;
              })))
          (λ t e. exit_running-safe now cpu t m all (ready t e)))
