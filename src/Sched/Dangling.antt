-- ===== src/Sched/Dangling.antt =====
-- The end of a registration leaves the lists of the cores and wait_list as they are.
use schedmon.Prelude.{
  ℕ, ◌≡◌, refl, ap, ◌∙◌, arith, Bool, true, Option, none, some, List, [], ◌∷◌, ltb, Ends, Ends-bind,
  Ends-known, Ends-some, Ends-if, deref, store, deref-store,
}
use schedmon.Envir.{envir_option_rapl}
use schedmon.Pmc.{Cpu}
use schedmon.Task.{Task, Machine}
use schedmon.Task.Life.{release_rb, release_envir, smon_destroy_task}
use schedmon.Sched.{Pointers, is_process, is_pid, find_task, after, list_del, ring_del, task_envir}
use schedmon.Sched.Register.{
  cancel_timer, smon_sched_unregister_children, smon_task_extra_rapl_stop, stop_rapl,
  smon_sched__unregister_task, smon_sched_unregister_task,
}
use schedmon.Sched.Hooks.{Instant, switch_out, smon_sched_switch}

-- A list whose first task is freed faults.
find_task-freed :
    (test : Task → Bool) (tasks : List (Option Task)) (t : ℕ) (ts : Pointers)
    → deref tasks t ≡ none
    → find_task test tasks (t ∷ ts) ≡ none
unfolding find_task
find_task-freed test tasks t ts h = rw (h)

module _ {S : Type 0} where
  -- The lists that hooks search.
  record KeepsLists (m m' : Machine S) : Type 0 where
    cpu : m'.cpu_list ≡ m.cpu_list
    wait : m'.wait_list ≡ m.wait_list

  keeps_refl :
      {m m' : Machine S} → m'.cpu_list ≡ m.cpu_list → m'.wait_list ≡ m.wait_list → KeepsLists m m'
  keeps_refl c w = record { cpu = c; wait = w }

  keeps_relist :
      {m m' : Machine S} {ts : Pointers} {rings : List Pointers}
      → KeepsLists (record m { task_list = ts; rings = rings }) m'
      → KeepsLists m m'
  keeps_relist h = record { cpu = h.cpu; wait = h.wait }

  keeps_trans : {m m' m'' : Machine S} → KeepsLists m m' → KeepsLists m' m'' → KeepsLists m m''
  keeps_trans p q = record { cpu = q.cpu ∙ p.cpu; wait = q.wait ∙ p.wait }

  cancel_timer-lists : (t : ℕ) (m : Machine S) → Ends (KeepsLists m) (cancel_timer t m)
  unfolding cancel_timer
  cancel_timer-lists t m =
      Ends-bind (deref m.tasks t) _ (λ task _. Ends-some (keeps_refl refl refl))

  destroy_task-lists :
      (t : ℕ) (m : Machine S)
      → Ends (λ m'. KeepsLists m m' × (deref m'.tasks t ≡ none)) (smon_destroy_task t m)
  unfolding smon_destroy_task
  destroy_task-lists t m = Ends-bind (deref m.tasks t) _ (λ task h.
      Ends-bind (release_rb m.rbs task.rb) _ (λ rbs _.
        Ends-bind (release_envir m.envirs task.envir) _ (λ envirs _.
          let freed : deref (store m.tasks t none) t ≡ none =
            ground (arith, deref-store m.tasks t t none h) in
          Ends-some (keeps_refl refl refl, freed))))

  unregister_children-lists :
      (ts : Pointers) (m : Machine S) → Ends (KeepsLists m) (smon_sched_unregister_children ts m)
  unfolding smon_sched_unregister_children
  unregister_children-lists [] m = Ends-some (keeps_refl refl refl)
  unregister_children-lists (t ∷ ts) m =
      let off : Machine S = record m { rings = ring_del t m.rings } in
      Ends-bind (cancel_timer t off) _ (λ cancelled e. Ends-bind _ _ (λ m' e'. record {
        holds = λ m'' e''.
            keeps_trans (keeps_relist ((cancel_timer-lists t off).holds cancelled e)) (
              keeps_trans ((destroy_task-lists t cancelled).holds m' e').0
                ((unregister_children-lists ts m').holds m'' e''));
      }))

  stop_rapl-lists : (t : ℕ) (m : Machine S) → Ends (KeepsLists m) (stop_rapl t m)
  unfolding stop_rapl smon_task_extra_rapl_stop
  stop_rapl-lists t m = Ends-bind (deref m.tasks t) _ (λ task h.
      Ends-bind (task_envir m task) _ (λ envir _.
        Ends-if (ltb 0 (envir_option_rapl envir))
          (Ends-bind (deref m.tasks t) _
            (λ task' _. Ends-bind task'.extra _ (λ extra _. Ends-some (keeps_refl refl refl))))
          (Ends-some (keeps_refl refl refl))))

  unregister__task-lists :
      (t : ℕ) (m : Machine S)
      → Ends (λ m'. KeepsLists m m' × (deref m'.tasks t ≡ none)) (smon_sched__unregister_task t m)
  unfolding smon_sched__unregister_task
  unregister__task-lists t m = Ends-bind _ _ (λ cancelled e. Ends-bind _ _ (λ alone e'.
      let unlisted : Machine S = record alone { task_list = list_del t alone.task_list } in
      Ends-bind (stop_rapl t unlisted) _ (λ stopped e''. record {
        holds = λ m' e'''.
            let (last, freed) = (destroy_task-lists t stopped).holds m' e''' in
            (
              keeps_trans ((cancel_timer-lists t m).holds cancelled e) (
                  keeps_trans
                    ((unregister_children-lists (after t cancelled.rings) cancelled).holds alone e')
                    (keeps_trans (keeps_relist ((stop_rapl-lists t unlisted).holds stopped e''))
                      last)),
              freed,
            );
      })))

  unregister_task-lists :
      (pid t : ℕ) (m : Machine S)
      → find_task (is_pid pid) m.tasks m.task_list ≡ some (some t)
      → Ends
          (λ ended. KeepsLists m ended.0 × (deref (ended.0).tasks t ≡ none))
          (smon_sched_unregister_task pid m)
  unfolding smon_sched_unregister_task
  unregister_task-lists pid t m found =
      Ends-known _ _ found
        (Ends-bind _ _ (λ m' e. Ends-some ((unregister__task-lists t m).holds m' e)))

  -- When a task is unregistered that is still the first of the list of a core, which holds the tasks
  -- of that core that have not exited, the next switch on the core reads memory that is freed.
  pub unregister_task-switch :
      (core : Cpu S) (now : Instant) (pid cpu prev next t : ℕ) (ts : Pointers) (m m' : Machine S)
      → find_task (is_pid pid) m.tasks m.task_list ≡ some (some t)
      → m.cpu_list cpu ≡ t ∷ ts
      → smon_sched_unregister_task pid m ≡ some (m', true)
      → smon_sched_switch core now cpu prev next m' ≡ none
  unfolding smon_sched_switch switch_out
  unregister_task-switch core now pid cpu prev next t ts m m' found listed run =
      let (keeps, freed) = (unregister_task-lists pid t m found).holds (m', true) run in
      let still : m'.cpu_list cpu ≡ t ∷ ts = ap (λ lists. lists cpu) keeps.cpu ∙ listed in
      rw (still, find_task-freed (is_process prev) m'.tasks t ts freed)
