-- ===== src/Task/Life.antt =====
-- driver/task.c: tasks are created, inherited and destroyed. A new object gets the next address of
-- its heap; whether a kzalloc succeeds is an argument.
use schedmon.Prelude.{
  ℕ, Bool, false, not, Option, none, some, List, [], ◌∷◌, ◌++◌, length, ltb, ◌==◌, if◌then◌else◌,
  pos, ◌>>=◌, deref, store,
}
use schedmon.Ring.{RingBuffer, smon_get_rb, smon_release_rb}
use schedmon.Envir.{Envir, smon_create_envir, smon_get_envir, smon_release_envir}
use schedmon.Task.{Task, Extra, Machine, no_pmc, no_rapl, no_sched, no_info}

-- Which of the allocations succeed: those of the task, of its environment and of its extra data.
pub record Allocs : Type 0 where
  pub task : Bool
  pub envir : Bool
  pub extra : Bool

-- for_each_process: the processes are pairs of an address and a pid; without a match the loop ends
-- at the address of `init_task`.
unfoldable pub find_process : ℕ → List (ℕ × ℕ) → ℕ → ℕ
find_process init_task [] pid = init_task
find_process init_task ((p, i) ∷ ps) pid = if i == pid then p else find_process init_task ps pid

unfoldable pub smon_task_extra_create : Bool → Option ℕ → Envir → Option Extra
smon_task_extra_create kzalloc rb envir =
    if kzalloc
    then some record {
      rapl_sample = no_rapl;
      rapl_sample_time = envir.sample_time;
      rapl_timer = none;
      start_pending = false;
      stop_pending = false;
      timer_on = false;
      info_sample = no_info;
      rb = rb;
    }
    else none

-- What smon_create_task and smon_create_child give a task alike.
unfoldable pub new_task : ℕ → ℕ → ℕ → Option ℕ → Option Extra → Task
new_task p pid envir rb extra = record {
  p = some p;
  pid = pid;
  envir = some envir;
  evset = 0;
  n_children = 0;
  sample_pmc = record no_pmc { pid = pid };
  tsc_tmp = 0;
  timer = none;
  kt_remain = pos 0;
  start_pending = false;
  stop_pending = false;
  timer_on = false;
  sample_sched = record no_sched { pid = pid };
  extra = extra;
  rb = rb;
}

-- `if (envir->batch_size > 0) new->rb->batch = envir->batch_size`.
unfoldable pub set_batch : ℕ → RingBuffer → RingBuffer
set_batch batch_size rb = if ltb 0 batch_size then record rb { batch = batch_size } else rb

-- A reference more.
unfoldable pub get_rb : List (Option RingBuffer) → Option ℕ → Option (List (Option RingBuffer))
get_rb rbs none = none
get_rb rbs (some r) = deref rbs r >>= λ rb. some (store rbs r (some (smon_get_rb rb)))

unfoldable pub get_envir : List (Option Envir) → Option ℕ → Option (List (Option Envir))
get_envir envirs none = none
get_envir envirs (some e) =
    deref envirs e >>= λ envir. some (store envirs e (some (smon_get_envir envir)))

-- A reference less, if there is one; without references an environment is freed.
unfoldable pub drop_rb : List (Option RingBuffer) → ℕ → Option (List (Option RingBuffer))
drop_rb rbs r = deref rbs r >>= λ rb. some (store rbs r (some (smon_release_rb rb)))

unfoldable pub release_rb : List (Option RingBuffer) → Option ℕ → Option (List (Option RingBuffer))
release_rb rbs none = some rbs
release_rb rbs (some r) = drop_rb rbs r

unfoldable pub release_envir : List (Option Envir) → Option ℕ → Option (List (Option Envir))
release_envir envirs none = some envirs
release_envir envirs (some e) =
    deref envirs e >>= λ envir. some (store envirs e (smon_release_envir envir))

module _ {S : Type 0} where
  -- The address of the new task, or NULL.
  unfoldable pub smon_create_task :
      Allocs → ℕ → List (ℕ × ℕ) → ℕ → Envir → ℕ → Machine S → Option (Machine S × Option ℕ)
  smon_create_task allocs init_task processes pid envir r m =
      if not allocs.task then some (m, none) else elim (smon_create_envir allocs.envir envir) [
        | none ↦ some (m, none)
        | some new ↦ get_rb m.rbs (some r) >>= λ rbs. deref rbs r >>= λ rb.
            smon_task_extra_create allocs.extra (some r) new >>= λ extra.
            let p = find_process init_task processes pid in
            some (
              record m {
                tasks =
                    m.tasks ++ some (new_task p pid (length m.envirs) (some r) (some extra)) ∷ [];
                envirs = m.envirs ++ some new ∷ [];
                rbs = store rbs r (some (set_batch envir.batch_size rb));
                rings = (length m.tasks ∷ []) ∷ m.rings;
              },
              some (length m.tasks),
            )
      ]

  -- `parent` is the address of a task, `p` and `pid` are the new process.
  unfoldable pub smon_create_child : Bool → ℕ → ℕ → ℕ → Machine S → Option (Machine S × Option ℕ)
  smon_create_child kzalloc parent p pid m =
      if not kzalloc
      then some (m, none)
      else deref m.tasks parent >>= λ task. get_rb m.rbs task.rb >>= λ rbs.
          get_envir m.envirs task.envir >>= λ envirs. some (
            record m {
              tasks =
                  m.tasks
                  ++ some (record (new_task p pid 0 task.rb none) { envir = task.envir }) ∷ [];
              envirs = envirs;
              rbs = rbs;
              rings = (length m.tasks ∷ []) ∷ m.rings;
            },
            some (length m.tasks),
          )

  -- The references go, and the task and its extra data are freed.
  unfoldable pub smon_destroy_task : ℕ → Machine S → Option (Machine S)
  smon_destroy_task t m = deref m.tasks t >>= λ task. release_rb m.rbs task.rb >>= λ rbs.
      release_envir m.envirs task.envir >>= λ envirs.
      some (record m { tasks = store m.tasks t none; rbs = rbs; envirs = envirs })
