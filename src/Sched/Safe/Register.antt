-- ===== src/Sched/Safe/Register.antt =====
-- A registration: the new task is safe.
use schedmon.Prelude.{
  ℕ, ◌<◌, ◌≡◌, refl, sym, subst, ◌∙◌, arith, Bool, true, false, not, Option, none, some, List, [],
  ◌∷◌, ◌++◌, length, deref, store, deref-store, deref-alloc, Returns, Returns-known, Returns-then,
  Returns-some, Returns-if, Returns-elim,
}
use mathlib.Core.Option.{some-injective}
use schedmon.Ring.{RingBuffer, smon_get_rb}
use schedmon.Envir.{Envir, smon_create_envir}
use schedmon.Pmc.{Cpu}
use schedmon.Task.{Task, Extra, Machine, no_rapl, no_info}
use schedmon.Task.Life.{Allocs, new_task, set_batch, smon_task_extra_create, smon_create_task}
use schedmon.Sched.{Pointers}
use schedmon.Sched.Register.{list_task, smon_sched_register_task}
use schedmon.Sched.Safe.{
  IsLive, IsSound, IsSafe, ReadyAt, IsSafeStep, IsKept, extra_rb, step_refl, IsSafe-IsKept,
}
use schedmon.Sched.Safe.Steps.{IsLive-store}
use schedmon.Sched.Safe.Timers.{extra_start-safe}
use schedmon.Sched.Safe.Lists.{
  AllSafe, AllSafe-step, AllSafe-cons, AreSafe-cons, IsSafe-relist, ReadyAt-relist, ReadyAt-IsSafe,
}
use schedmon.Sched.Safe.Fork.{deref_alloc-old, get_rb-live}

IsLive-self :
    {A : Type 0} (xs : List (Option A)) (i : ℕ) (v : A)
    → IsLive xs i
    → deref (store xs i (some v)) i ≡ some v
IsLive-self xs i v live = ground (arith, deref-store xs i i (some v) live.at)

-- The extra data of a new task, when there is memory for it.
abbrev new_extra : Option ℕ → Envir → Extra
new_extra rb envir = record {
  rapl_sample = no_rapl;
  rapl_sample_time = envir.sample_time;
  rapl_timer = none;
  start_pending = false;
  stop_pending = false;
  timer_on = false;
  info_sample = no_info;
  rb = rb;
}

extra_made :
    (kzalloc : Bool) (rb : Option ℕ) (envir : Envir)
    → kzalloc ≡ true
    → smon_task_extra_create kzalloc rb envir ≡ some (new_extra rb envir)
unfolding smon_task_extra_create
extra_made kzalloc rb envir h = rw (h)

module _ {S : Type 0} where
  -- After a task is created: if there is one, it is ready.
  record HasTask (m : Machine S) (made : Machine S × Option ℕ) : Type 0 where
    step : IsSafeStep m made.0
    task : (t : ℕ) → made.1 ≡ some t → ReadyAt made.0 t

  -- The machine with the new task and environment, and ring buffer `r` in its new state.
  abbrev with_task : (m : Machine S) → Task → Envir → List (Option RingBuffer) → Machine S
  with_task m task envir rbs = record m {
    tasks = m.tasks ++ some task ∷ [];
    envirs = m.envirs ++ some envir ∷ [];
    rbs = rbs;
    rings = (length m.tasks ∷ []) ∷ m.rings;
  }

  with_task-HasTask :
      (m : Machine S) (task : Task) (envir : Envir) (rbs : List (Option RingBuffer)) (r : ℕ)
      → IsLive m.rbs r
      → ((q : ℕ) → IsLive m.rbs q → IsLive rbs q)
      → IsSound m.evsets envir
      → task.evset < envir.n_esids
      → task.envir ≡ some (length m.envirs)
      → task.rb ≡ some r
      → extra_rb task ≡ some r
      → HasTask m (with_task m task envir rbs, some (length m.tasks))
  with_task-HasTask m task envir rbs r live kept sound turn points_envir points_rb extra =
      let m' = with_task m task envir rbs in
      let all : IsKept m m' = record {
        evsets = refl;
        envirs = λ e old h. (old, deref_alloc-old m.envirs (some envir) e h, refl, refl);
        rbs = kept;
      } in
      record {
        step = record {
          cpus = refl;
          waits = refl;
          safe =
              λ t h. IsSafe-IsKept t all (deref_alloc-old m.tasks (some task) t h.at ∙ sym h.at) h;
        };
        task = λ t e.
            let index : length m.tasks ≡ t = some-injective (length m.tasks) t e in
            record {
              task = task;
              at = ground (arith, deref-alloc m.tasks (some task) t, index);
              ready = record {
                e = length m.envirs;
                envir = envir;
                points_envir = points_envir;
                at_envir = ground (arith, deref-alloc m.envirs (some envir) (length m.envirs));
                sound = sound;
                turn = turn;
                r = r;
                points_rb = points_rb;
                live_rb = kept r live;
                live_extra =
                    λ q h. subst (IsLive rbs) (some-injective r q (sym extra ∙ h)) (kept r live);
              };
            };
      }

  create_task-safe :
      (allocs : Allocs) (init_task : ℕ) (processes : List (ℕ × ℕ)) (pid : ℕ) (envir : Envir) (r : ℕ)
      (m : Machine S)
      → IsLive m.rbs r
      → allocs.extra ≡ true
      → ((new : Envir)
          → smon_create_envir allocs.envir envir ≡ some new
          → IsSound m.evsets new × (0 < new.n_esids))
      → Returns (HasTask m) (smon_create_task allocs init_task processes pid envir r m)
  unfolding smon_create_task new_task
  create_task-safe allocs init_task processes pid envir r m live extra sound =
      let got = smon_get_rb live.object in
      let taken = store m.rbs r (some got) in
      let none_made : HasTask m (m, none) = record {
        step = step_refl m;
        task = λ t e. absurd (cc);
      } in
      Returns-if (not allocs.task) (Returns-some none_made) (
        Returns-elim (smon_create_envir allocs.envir envir) _ _ (Returns-some none_made) (λ new e.
          Returns-known _ _ (get_rb-live r live refl) (
            Returns-known _ _ (IsLive-self m.rbs r got live) (
              Returns-known _ _ (extra_made allocs.extra (some r) new extra) (
                let kept = λ (q : ℕ) (h : IsLive m.rbs q).
                  IsLive-store taken r q (set_batch envir.batch_size got)
                    (IsLive-store m.rbs r r got live live) (IsLive-store m.rbs r q got live h) in
                let (good, some_sets) = sound new e in
                Returns-some
                  (with_task-HasTask m _ new _ r live kept good some_sets refl refl refl))))))

  AllSafe-wait :
      (m : Machine S) (t : ℕ)
      → AllSafe m
      → IsSafe m t
      → AllSafe (record m { wait_list = t ∷ m.wait_list })
  AllSafe-wait m t all safe = record {
    cpus = λ cpu x h. IsSafe-relist _ _ _ _ (all.cpus cpu x h);
    waits = λ x h. IsSafe-relist _ _ _ _ (AreSafe-cons m t m.wait_list safe all.waits x h);
  }

  AllSafe-tasks :
      (m : Machine S) (ts : Pointers) → AllSafe m → AllSafe (record m { task_list = ts })
  AllSafe-tasks m ts all = record {
    cpus = λ cpu x h. IsSafe-relist _ _ _ _ (all.cpus cpu x h);
    waits = λ x h. IsSafe-relist _ _ _ _ (all.waits x h);
  }

module _ {S : Type 0} (core : Cpu S) where
  list_task-safe :
      (processor num_online_cpus tsc cpu : ℕ) (envir : Envir) (t : ℕ) (m : Machine S)
      → AllSafe m
      → ReadyAt m t
      → Returns AllSafe (list_task core processor num_online_cpus tsc cpu envir t m)
  unfolding list_task
  list_task-safe processor num_online_cpus tsc cpu envir t m all a =
      Returns-if _ (Returns-some (AllSafe-wait m t all (ReadyAt-IsSafe a))) (
        Returns-then _ _ (extra_start-safe core processor num_online_cpus tsc m t a) (λ m' b.
          Returns-some (AllSafe-cons m' cpu t (AllSafe-step all b.step) (ReadyAt-IsSafe b.after))))

  -- A registration with a ring buffer that is not freed and an environment that names, in its copy,
  -- at least one event-set and only event-sets that exist, runs without a fault when there is memory
  -- for the extra data; whether it succeeds or there is no memory for the task or the copy, the tasks
  -- on the lists are safe as they were before, in the sense of runs-Returns.
  pub register_task-Returns :
      (allocs : Allocs) (init_task : ℕ) (processes : List (ℕ × ℕ))
      (processor num_online_cpus tsc : ℕ)
      → (task_cpu : ℕ → ℕ) (pid : ℕ) (envir : Envir) (r : ℕ) (m : Machine S) → AllSafe m
      → IsLive m.rbs r
      → allocs.extra ≡ true
      → ((new : Envir)
          → smon_create_envir allocs.envir envir ≡ some new
          → IsSound m.evsets new × (0 < new.n_esids))
      → Returns
          (λ ended. AllSafe ended.0)
          (smon_sched_register_task core allocs init_task processes processor num_online_cpus tsc
            task_cpu pid envir r m)
  unfolding smon_sched_register_task
  register_task-Returns allocs init_task processes processor num_online_cpus tsc task_cpu pid envir
        r m all live extra sound =
      Returns-then _ _ (create_task-safe allocs init_task processes pid envir r m live extra sound)
        (λ made h.
          let grown = AllSafe-step all h.step in
          Returns-elim made.1 _ _ (Returns-some grown) (λ t e.
            Returns-then _ _
              (list_task-safe processor num_online_cpus tsc _ envir t _
                (AllSafe-tasks made.0 _ grown) (ReadyAt-relist _ _ _ _ (h.task t e)))
              (λ m' safe. Returns-some safe)))
