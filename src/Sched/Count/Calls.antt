-- ===== src/Sched/Count/Calls.antt =====
-- Any calls keep the counts; so what a task points to is never freed under it.
use schedmon.Prelude.{
  ℕ, ◌%◌, ◌≡◌, arith, some, List, [], ◌∷◌, Ends, Ends-bind, Ends-some, deref, tally, weight,
}
use schedmon.Ring.Index.{u32}
use schedmon.Pmc.{Cpu}
use schedmon.Task.{Machine}
use schedmon.Sched.Calls.{
  Call, register, unregister, switch, migrate, fork, exec, leave, tick, start_work, stop_work,
  rapl_tick, rapl_start, unload, serve, serve_all,
}
use schedmon.Sched.Count.{Balanced, holds, uses, Balanced-refl, Ends-then}
use schedmon.Sched.Count.Timers.{
  start_timer_pmc-Balanced, stop_timer_pmc-Balanced, timer_tick-Balanced, timer_rapl-Balanced,
  start_timer_rapl-Balanced,
}
use schedmon.Sched.Count.Register.{
  register_task-Balanced, unregister_task-Balanced, sched_exit-Balanced,
}
use schedmon.Sched.Count.Hooks.{
  switch-Balanced, migrate_task-Balanced, fork-Balanced, exec-Balanced, exit-Balanced,
}

-- Each count is the number of tasks that refer to the object, modulo 2^32.
pub record IsCounted {S : Type 0} (m : Machine S) : Type 0 where
  pub rbs : (r : ℕ) → weight (λ rb. rb.active) (deref m.rbs r) % u32 ≡ tally (holds r) m.tasks % u32
  pub envirs :
      (e : ℕ)
      → weight (λ envir. envir.count) (deref m.envirs e) % u32 ≡ tally (uses e) m.tasks % u32

module _ {S : Type 0} (core : Cpu S) where
  serve-Balanced : (call : Call) (m : Machine S) → Ends (Balanced m) (serve core call m)
  unfolding serve
  serve-Balanced (register allocs init_task processes processor cpus tsc task_cpu pid envir r) m =
      Ends-bind _ _ (λ ended e. Ends-some (
        (register_task-Balanced core allocs init_task processes processor cpus tsc task_cpu pid
            envir r m).holds
          ended e))
  serve-Balanced (unregister pid) m =
      Ends-bind _ _ (λ ended e. Ends-some ((unregister_task-Balanced pid m).holds ended e))
  serve-Balanced (switch now cpu prev next) m = switch-Balanced core now cpu prev next m
  serve-Balanced (migrate rest tsc old_cpu p dest_cpu) m =
      migrate_task-Balanced rest tsc old_cpu p dest_cpu m
  serve-Balanced (fork kzalloc tsc cpu parent child_cpu child pid) m =
      fork-Balanced kzalloc tsc cpu parent child_cpu child pid m
  serve-Balanced (exec now cpu p) m = exec-Balanced core now cpu p m
  serve-Balanced (leave now cpu p) m = exit-Balanced core now cpu p m
  serve-Balanced (tick processor tsc_stop tsc_start t) m =
      timer_tick-Balanced core processor tsc_stop tsc_start t m
  serve-Balanced (start_work processor tsc t) m = start_timer_pmc-Balanced core processor tsc t m
  serve-Balanced (stop_work t) m = stop_timer_pmc-Balanced t m
  serve-Balanced (rapl_tick processor tsc_stop tsc_start t) m =
      timer_rapl-Balanced core processor tsc_stop tsc_start t m
  serve-Balanced (rapl_start processor tsc t) m = start_timer_rapl-Balanced core processor tsc t m
  serve-Balanced unload m = sched_exit-Balanced m

  serve_all-Balanced :
      (calls : List Call) (m : Machine S) → Ends (Balanced m) (serve_all core calls m)
  unfolding serve_all
  serve_all-Balanced [] m = Ends-some (Balanced-refl m)
  serve_all-Balanced (call ∷ calls) m =
      Ends-then _ _ (serve-Balanced call m) (λ m'. serve_all-Balanced calls m')

  -- Any sequence of registrations, ends of registrations, switches, migrations, forks, execs, exits,
  -- timers and works that runs without a fault keeps, for every ring buffer and environment, its
  -- count equal to the number of tasks that refer to it, modulo 2^32.
  pub serve_all-IsCounted :
      (calls : List Call) (m m' : Machine S)
      → IsCounted m
      → serve_all core calls m ≡ some m'
      → IsCounted m'
  serve_all-IsCounted calls m m' c e =
      let b = (serve_all-Balanced calls m).holds m' e in
      record {
        rbs = λ r. omega (arith, b.rbs.even r, c.rbs r);
        envirs = λ i. omega (arith, b.envirs.even i, c.envirs i);
      }
