-- ===== src/Sched/Safe/Calls.antt =====
-- Any calls of the tracepoints.
use schedmon.Prelude.{◌≡◌, arith, true, List, [], ◌∷◌, Returns, Returns-then, Returns-some}
use schedmon.Pmc.{Cpu}
use schedmon.Task.{Machine}
use schedmon.Sched.Calls.{
  Call, register, unregister, switch, migrate, fork, exec, leave, tick, start_work, stop_work,
  rapl_tick, rapl_start, unload, serve, serve_all, is_tracepoint, all_tracepoints,
}
use schedmon.Sched.Safe.Lists.{AllSafe}
use schedmon.Sched.Safe.Hooks.{switch-safe, migrate_task-safe, exec-safe, exit-safe}
use schedmon.Sched.Safe.Fork.{fork-safe}

module _ {S : Type 0} (core : Cpu S) where
  pub serve-safe :
      (call : Call) (m : Machine S)
      → is_tracepoint call ≡ true
      → AllSafe m
      → Returns AllSafe (serve core call m)
  unfolding serve is_tracepoint
  serve-safe (switch now cpu prev next) m h all = switch-safe core now cpu prev next m all
  serve-safe (migrate rest tsc old_cpu p dest_cpu) m h all =
      migrate_task-safe rest tsc old_cpu p dest_cpu m all
  serve-safe (fork kzalloc tsc cpu parent child_cpu child pid) m h all =
      fork-safe kzalloc tsc cpu parent child_cpu child pid m all
  serve-safe (exec now cpu p) m h all = exec-safe core now cpu p m all
  serve-safe (leave now cpu p) m h all = exit-safe core now cpu p m all
  serve-safe (register _ _ _ _ _ _ _ _ _ _) m h all = absurd (cc)
  serve-safe (unregister _) m h all = absurd (cc)
  serve-safe (tick _ _ _ _) m h all = absurd (cc)
  serve-safe (start_work _ _ _) m h all = absurd (cc)
  serve-safe (stop_work _) m h all = absurd (cc)
  serve-safe (rapl_tick _ _ _ _) m h all = absurd (cc)
  serve-safe (rapl_start _ _ _) m h all = absurd (cc)
  serve-safe unload m h all = absurd (cc)

  -- While no task on the lists of the cores or on wait_list is freed, and each of them whose process
  -- still runs has an environment that is not freed, whose event-sets exist and of which its turn is
  -- one, and ring buffers that are not freed, any sequence of switches, migrations, forks, execs and
  -- exits runs to its end without a fault; the same then holds of the tasks on the lists, children
  -- that inherited their monitoring included.
  serve_all-Returns :
      (calls : List Call) (m : Machine S)
      → all_tracepoints calls ≡ true
      → AllSafe m
      → Returns AllSafe (serve_all core calls m)
  unfolding serve_all
  serve_all-Returns [] m h all = Returns-some all
  serve_all-Returns (call ∷ calls) m h all =
      Returns-then (serve core call m) _ (serve-safe call m (ground arith) all)
        (λ m' all'. serve_all-Returns calls m' (ground arith) all')
