-- ===== src/Sched/Count/Hooks.antt =====
-- The hooks keep the counts.
use schedmon.Prelude.{
  ℕ, refl, Bool, none, some, List, ltb, Ends, Ends-bind, Ends-some, Ends-if, Ends-elim, deref,
}
use schedmon.Ring.{sample_type_cpu, sample_type_fork}
use schedmon.Envir.{envir_option_inherit, envir_option_cpu, envir_option_fork}
use schedmon.Pmc.{Cpu}
use schedmon.Task.{Machine}
use schedmon.Task.Life.{drop_rb}
use schedmon.Task.Sampling.{smon_sample_write}
use schedmon.Sched.{is_process, find_task, task_envir}
use schedmon.Sched.Hooks.{
  Instant, switch_out, switch_in, smon_sched_switch, migration_sample, smon_sched_migrate_task,
  inherit, fork_sample, smon_sched_process_fork, smon_sched_process_exec, let_go, rapl_off,
  exit_running, smon_sched_process_exit,
}
use schedmon.Sched.Count.{
  Balanced, Balanced-refl, put_task-Balanced, Ends-after, Ends-then, IsEven-store, IsEven-refl,
  relist,
}
use schedmon.Sched.Count.Samples.{sample_write-IsEven}
use schedmon.Sched.Count.Timers.{
  save_task-Balanced, stop_task-Balanced, task_in-Balanced, task_out-Balanced, extra_start-Balanced,
}
use schedmon.Sched.Count.Tasks.{drop_rb-IsEven}
use schedmon.Sched.Count.Register.{cancel_timer-Balanced, register_child-Balanced}

module _ {S : Type 0} where
  let_go-Balanced : (t : ℕ) (m : Machine S) → Ends (Balanced m) (let_go t m)
  unfolding let_go
  let_go-Balanced t m = Ends-bind (deref m.tasks t) _ (λ task h. Ends-bind task.rb _ (λ r e.
      Ends-bind (drop_rb m.rbs r) _ (λ rbs k.
        let gone = record task { p = none; rb = none } in
        Ends-some record {
          rbs = (drop_rb-IsEven m.rbs m.tasks t (some gone) r h e (λ i. refl)).holds rbs k;
          envirs = IsEven-store m.envirs m.tasks t (some gone) h (λ i. refl);
        })))

  rapl_off-Balanced : (t : ℕ) (m : Machine S) → Ends (Balanced m) (rapl_off t m)
  unfolding rapl_off
  rapl_off-Balanced t m = Ends-bind (deref m.tasks t) _ (λ task h.
      Ends-elim task.extra _ _ (Ends-some (Balanced-refl m))
        (λ extra _. Ends-some (put_task-Balanced m t _ h refl refl)))

  migration_sample-Balanced :
      (rest : List ℕ) (tsc old_cpu dest_cpu t : ℕ) (m : Machine S)
      → Ends (Balanced m) (migration_sample rest tsc old_cpu dest_cpu t m)
  unfolding migration_sample
  migration_sample-Balanced rest tsc old_cpu dest_cpu t m = Ends-bind (deref m.tasks t) _ (λ task h.
      Ends-bind (task_envir m task) _ (λ envir _.
        Ends-if (ltb 0 (envir_option_cpu envir))
          (Ends-bind (smon_sample_write m.rbs task.rb sample_type_cpu _) _ (λ rbs e.
            Ends-some record {
              rbs = (sample_write-IsEven m.tasks m.rbs task.rb sample_type_cpu _).holds rbs e;
              envirs = IsEven-refl m.envirs m.tasks;
            }))
          (Ends-some (Balanced-refl m))))

  pub migrate_task-Balanced :
      (rest : List ℕ) (tsc old_cpu p dest_cpu : ℕ) (m : Machine S)
      → Ends (Balanced m) (smon_sched_migrate_task rest tsc old_cpu p dest_cpu m)
  unfolding smon_sched_migrate_task
  migrate_task-Balanced rest tsc old_cpu p dest_cpu m =
      Ends-bind (find_task (is_process p) m.tasks (m.cpu_list old_cpu)) _ (λ found _.
        Ends-elim found _ _ (Ends-some (Balanced-refl m)) (λ t _.
          Ends-after (relist _ _ _ _ (Balanced-refl m)) (
            Ends-then _ _ (migration_sample-Balanced rest tsc old_cpu dest_cpu t _)
              (λ m'. Ends-some (relist _ _ _ _ (Balanced-refl m'))))))

  inherit-Balanced :
      (kzalloc : Bool) (cpu child pid t : ℕ) (m : Machine S)
      → Ends (Balanced m) (inherit kzalloc cpu child pid t m)
  unfolding inherit
  inherit-Balanced kzalloc cpu child pid t m = Ends-bind (deref m.tasks t) _ (λ task h.
      Ends-bind (task_envir m task) _ (λ envir _.
        Ends-if (ltb 0 (envir_option_inherit envir))
          (register_child-Balanced kzalloc cpu child pid t m) (Ends-some (Balanced-refl m))))

  fork_sample-Balanced :
      (tsc pid t : ℕ) (m : Machine S) → Ends (Balanced m) (fork_sample tsc pid t m)
  unfolding fork_sample
  fork_sample-Balanced tsc pid t m = Ends-bind (deref m.tasks t) _ (λ task h.
      Ends-bind (task_envir m task) _ (λ envir _.
        Ends-if (ltb 0 (envir_option_fork envir))
          (Ends-bind (smon_sample_write m.rbs task.rb sample_type_fork _) _ (λ rbs e.
            Ends-some record {
              rbs = (sample_write-IsEven m.tasks m.rbs task.rb sample_type_fork _).holds rbs e;
              envirs = IsEven-refl m.envirs m.tasks;
            }))
          (Ends-some (Balanced-refl m))))

  pub fork-Balanced :
      (kzalloc : Bool) (tsc cpu parent child_cpu child pid : ℕ) (m : Machine S)
      → Ends (Balanced m) (smon_sched_process_fork kzalloc tsc cpu parent child_cpu child pid m)
  unfolding smon_sched_process_fork
  fork-Balanced kzalloc tsc cpu parent child_cpu child pid m =
      Ends-bind (find_task (is_process parent) m.tasks (m.cpu_list cpu)) _ (λ found _.
        Ends-elim found _ _ (Ends-some (Balanced-refl m)) (λ t _.
          Ends-then _ _ (inherit-Balanced kzalloc child_cpu child pid t m)
            (λ m'. fork_sample-Balanced tsc pid t m')))

module _ {S : Type 0} (core : Cpu S) where
  pub switch-Balanced :
      (now : Instant) (cpu prev next : ℕ) (m : Machine S)
      → Ends (Balanced m) (smon_sched_switch core now cpu prev next m)
  unfolding smon_sched_switch switch_out switch_in
  switch-Balanced now cpu prev next m =
      Ends-then _ _
        (Ends-bind (find_task (is_process prev) m.tasks (m.cpu_list cpu)) _ (λ found _.
          Ends-elim found _ _ (Ends-some (Balanced-refl m)) (λ t _.
            task_out-Balanced core now.processor now.tsc_stop now.remaining now.tsc_out t m)))
        (λ m'. Ends-bind (find_task (is_process next) m'.tasks (m'.cpu_list cpu)) _ (λ found _.
          Ends-elim found _ _ (Ends-some (Balanced-refl m'))
            (λ t _. task_in-Balanced core now.processor now.tsc_in now.tsc_start t m')))

  pub exec-Balanced :
      (now : Instant) (cpu p : ℕ) (m : Machine S)
      → Ends (Balanced m) (smon_sched_process_exec core now cpu p m)
  unfolding smon_sched_process_exec
  exec-Balanced now cpu p m = Ends-bind (find_task (is_process p) m.tasks m.wait_list) _ (λ found _.
      Ends-elim found _ _ (Ends-some (Balanced-refl m)) (λ t _.
        Ends-after (relist _ _ _ _ (Balanced-refl m)) (
          Ends-then _ _
            (extra_start-Balanced core now.processor now.num_online_cpus now.tsc_stop t _)
            (λ begun.
              Ends-then _ _ (task_in-Balanced core now.processor now.tsc_in now.tsc_start t begun)
                (λ m'. Ends-some (relist _ _ _ _ (Balanced-refl m')))))))

  exit_running-Balanced :
      (now : Instant) (cpu t : ℕ) (m : Machine S)
      → Ends (Balanced m) (exit_running core now cpu t m)
  unfolding exit_running
  exit_running-Balanced now cpu t m = Ends-then _ _ (cancel_timer-Balanced t m) (λ quiet.
      Ends-then _ _ (stop_task-Balanced core now.processor now.tsc_stop t quiet) (λ stopped.
        Ends-then _ _ (save_task-Balanced t stopped) (λ saved.
          Ends-after (relist _ _ _ _ (Balanced-refl saved))
            (Ends-then _ _ (let_go-Balanced t _) (λ gone. rapl_off-Balanced t gone)))))

  pub exit-Balanced :
      (now : Instant) (cpu p : ℕ) (m : Machine S)
      → Ends (Balanced m) (smon_sched_process_exit core now cpu p m)
  unfolding smon_sched_process_exit
  exit-Balanced now cpu p m =
      Ends-bind (find_task (is_process p) m.tasks (m.cpu_list cpu)) _ (λ found _.
        Ends-elim found _ _
          (Ends-bind (find_task (is_process p) m.tasks m.wait_list) _ (λ waiting _.
            Ends-elim waiting _ _ (Ends-some (Balanced-refl m))
              (λ t _. Ends-after (relist _ _ _ _ (Balanced-refl m)) (let_go-Balanced t _))))
          (λ t _. exit_running-Balanced now cpu t m))
