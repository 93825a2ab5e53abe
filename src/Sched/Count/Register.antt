-- ===== src/Sched/Count/Register.antt =====
-- Registrations and their ends keep the counts.
use schedmon.Prelude.{
  ℕ, suc, refl, Bool, List, [], ◌∷◌, ltb, Ends, Ends-bind, Ends-some, Ends-if, Ends-elim, deref,
}
use schedmon.Envir.{Envir, envir_option_exec, envir_option_rapl}
use schedmon.Pmc.{Cpu}
use schedmon.Task.{Machine}
use schedmon.Task.Life.{Allocs, smon_create_task, smon_create_child}
use schedmon.Sched.{Pointers, is_pid, find_task, after, task_envir}
use schedmon.Sched.Timers.{smon_task_extra_start}
use schedmon.Sched.Register.{
  cancel_timer, smon_sched_unregister_children, smon_task_extra_rapl_stop, stop_rapl,
  smon_sched__unregister_task, smon_sched_unregister_task, adopt, smon_sched_register_child,
  list_task, smon_sched_register_task,
}
use schedmon.Sched.Hooks.{unregister_all, smon_sched_exit}
use schedmon.Sched.Count.{Balanced, Balanced-refl, put_task-Balanced, Ends-after, Ends-then, relist}
use schedmon.Sched.Count.Timers.{extra_start-Balanced}
use schedmon.Sched.Count.Tasks.{destroy_task-Balanced, create_child-Balanced, create_task-Balanced}

module _ {S : Type 0} where
  pub cancel_timer-Balanced : (t : ℕ) (m : Machine S) → Ends (Balanced m) (cancel_timer t m)
  unfolding cancel_timer
  cancel_timer-Balanced t m =
      Ends-bind (deref m.tasks t) _ (λ task h. Ends-some (put_task-Balanced m t _ h refl refl))

  unregister_children-Balanced :
      (ts : Pointers) (m : Machine S) → Ends (Balanced m) (smon_sched_unregister_children ts m)
  unfolding smon_sched_unregister_children
  unregister_children-Balanced [] m = Ends-some (Balanced-refl m)
  unregister_children-Balanced (t ∷ ts) m = Ends-after (relist _ _ _ _ (Balanced-refl m)) (
      Ends-then _ _ (cancel_timer-Balanced t _) (λ cancelled.
        Ends-then _ _ (destroy_task-Balanced t cancelled)
          (λ m'. unregister_children-Balanced ts m')))

  stop_rapl-Balanced : (t : ℕ) (m : Machine S) → Ends (Balanced m) (stop_rapl t m)
  unfolding stop_rapl smon_task_extra_rapl_stop
  stop_rapl-Balanced t m = Ends-bind (deref m.tasks t) _ (λ task h.
      Ends-bind (task_envir m task) _ (λ envir _.
        Ends-if (ltb 0 (envir_option_rapl envir))
          (Ends-bind (deref m.tasks t) _ (λ task' h'.
            Ends-bind task'.extra _ (λ extra _. Ends-some (put_task-Balanced m t _ h' refl refl))))
          (Ends-some (Balanced-refl m))))

  unregister__task-Balanced :
      (t : ℕ) (m : Machine S) → Ends (Balanced m) (smon_sched__unregister_task t m)
  unfolding smon_sched__unregister_task
  unregister__task-Balanced t m = Ends-then _ _ (cancel_timer-Balanced t m) (λ cancelled.
      Ends-then _ _ (unregister_children-Balanced (after t cancelled.rings) cancelled) (λ alone.
        Ends-after (relist _ _ _ _ (Balanced-refl alone))
          (Ends-then _ _ (stop_rapl-Balanced t _) (λ stopped. destroy_task-Balanced t stopped))))

  pub unregister_task-Balanced :
      (pid : ℕ) (m : Machine S)
      → Ends (λ ended. Balanced m ended.0) (smon_sched_unregister_task pid m)
  unfolding smon_sched_unregister_task
  unregister_task-Balanced pid m =
      Ends-bind (find_task (is_pid pid) m.tasks m.task_list) _ (λ found _.
        Ends-elim found _ _ (Ends-some (Balanced-refl m)) (λ t _.
          Ends-bind (smon_sched__unregister_task t m) _
            (λ m' e. Ends-some ((unregister__task-Balanced t m).holds m' e))))

  unregister_all-Balanced :
      (ts : Pointers) (m : Machine S) → Ends (Balanced m) (unregister_all ts m)
  unfolding unregister_all
  unregister_all-Balanced [] m = Ends-some (Balanced-refl m)
  unregister_all-Balanced (t ∷ ts) m =
      Ends-then _ _ (unregister__task-Balanced t m) (λ m'. unregister_all-Balanced ts m')

  pub sched_exit-Balanced : (m : Machine S) → Ends (Balanced m) (smon_sched_exit m)
  unfolding smon_sched_exit
  sched_exit-Balanced m =
      Ends-after (relist _ _ _ _ (Balanced-refl m)) (unregister_all-Balanced m.task_list _)

  adopt-Balanced :
      (parent cpu child : ℕ) (m : Machine S) → Ends (Balanced m) (adopt parent cpu child m)
  unfolding adopt
  adopt-Balanced parent cpu child m = Ends-bind (deref m.tasks parent) _ (λ task h. Ends-some (
      relist _ _ _ _ (
        put_task-Balanced m parent (record task { n_children = suc task.n_children }) h refl refl)))

  pub register_child-Balanced :
      (kzalloc : Bool) (cpu p pid parent : ℕ) (m : Machine S)
      → Ends (Balanced m) (smon_sched_register_child kzalloc cpu p pid parent m)
  unfolding smon_sched_register_child
  register_child-Balanced kzalloc cpu p pid parent m =
      Ends-bind (smon_create_child kzalloc parent p pid m) _ (λ made e.
        let grown = (create_child-Balanced kzalloc parent p pid m).holds made e in
        Ends-elim made.1 _ _ (Ends-some grown)
          (λ child _. Ends-after grown (adopt-Balanced parent cpu child made.0)))

module _ {S : Type 0} (core : Cpu S) where
  list_task-Balanced :
      (processor num_online_cpus tsc cpu : ℕ) (envir : Envir) (t : ℕ) (m : Machine S)
      → Ends (Balanced m) (list_task core processor num_online_cpus tsc cpu envir t m)
  unfolding list_task
  list_task-Balanced processor num_online_cpus tsc cpu envir t m =
      Ends-if (ltb 0 (envir_option_exec envir)) (Ends-some (relist _ _ _ _ (Balanced-refl m))) (
        Ends-bind (smon_task_extra_start core processor num_online_cpus tsc t m) _ (λ m' e.
          Ends-some (
            relist _ _ _ _
              ((extra_start-Balanced core processor num_online_cpus tsc t m).holds m' e))))

  pub register_task-Balanced :
      (allocs : Allocs) (init_task : ℕ) (processes : List (ℕ × ℕ))
      (processor num_online_cpus tsc : ℕ)
      → (task_cpu : ℕ → ℕ) (pid : ℕ) (envir : Envir) (r : ℕ) (m : Machine S)
      → Ends
          (λ ended. Balanced m ended.0)
          (smon_sched_register_task core allocs init_task processes processor num_online_cpus tsc
            task_cpu pid envir r m)
  unfolding smon_sched_register_task
  register_task-Balanced allocs init_task processes processor num_online_cpus tsc task_cpu pid envir
        r m =
      Ends-bind (smon_create_task allocs init_task processes pid envir r m) _ (λ made e.
        let grown = (create_task-Balanced allocs init_task processes pid envir r m).holds made e in
        Ends-elim made.1 _ _ (Ends-some grown) (λ t _.
          Ends-bind (list_task core processor num_online_cpus tsc _ envir t _) _ (λ m' e'.
            let listed = list_task-Balanced processor num_online_cpus tsc _ envir t _ in
            Ends-some ((Ends-after (relist _ _ _ _ grown) listed).holds m' e'))))
