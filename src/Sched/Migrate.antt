-- ===== src/Sched/Migrate.antt =====
-- smon_sched_migrate_task and the lists of the two cores.
use schedmon.Prelude.{
  ℕ, ◌+◌, ◌<◌, ◌≡◌, sym, ap, ◌∙◌, arith, Bool, true, Option, some, List, [], ◌∷◌, ltb, ◌>>=◌, ◌==◌,
  if◌then◌else◌, deref, store, ◌&&◌, Bool-cases, inl, inr, >>=-some,
}
use schedmon.Ring.{RingBuffer, sample_type_cpu, smon_rb_write}
use schedmon.Envir.{Envir, envir_option_cpu}
use schedmon.Sample.{SampleCpu, cpu_bytes}
use schedmon.Task.{Task, Machine}
use schedmon.Task.Sampling.{smon_sample_write}
use schedmon.Sched.{Pointers, list_del, is_process, find_task, set_cpu_list}
use schedmon.Sched.Hooks.{migration_sample, smon_sched_migrate_task}

-- How often an address is on a list.
abbrev pub occurs : ℕ → Pointers → ℕ
occurs x [] = 0
occurs x (y ∷ ys) = (if x == y then 1 else 0) + occurs x ys

-- A task whose environment and ring buffer are not freed.
pub record IsAlive {S : Type 0} (m : Machine S) (t : ℕ) : Type 0 where
  pub task : Task
  pub e : ℕ
  pub envir : Envir
  pub r : ℕ
  pub rb : RingBuffer
  pub at : deref m.tasks t ≡ some task
  pub points_envir : task.envir ≡ some e
  pub at_envir : deref m.envirs e ≡ some envir
  pub points_rb : task.rb ≡ some r
  pub at_rb : deref m.rbs r ≡ some rb

-- What is found is on the list, and passes the test.
pub record Found (test : Task → Bool) (tasks : List (Option Task)) (ts : Pointers) (t : ℕ)
    : Type 0 where
  pub task : Task
  pub at : deref tasks t ≡ some task
  pub passes : test task ≡ true
  pub on_list : 0 < occurs t ts

pub find_task-Found :
    (test : Task → Bool) (tasks : List (Option Task)) (ts : Pointers) (t : ℕ)
    → find_task test tasks ts ≡ some (some t)
    → Found test tasks ts t
unfolding find_task
find_task-Found test tasks [] t h = absurd (cc)
find_task-Found test tasks (x ∷ xs) t h =
    let (task, at, found) = >>=-some (deref tasks x) _ h in
    elim (Bool-cases (test task)) [
      | inl e ↦
          let same : x ≡ t = ground arith in
          record {
            task = task;
            at = ap (deref tasks) (sym same) ∙ at;
            passes = e;
            on_list = ground arith;
          }
      | inr e ↦
          let rest = find_task-Found test tasks xs t (ground arith) in
          record {
            task = rest.task;
            at = rest.at;
            passes = rest.passes;
            on_list = omega (arith, rest.on_list);
          }
    ]

-- A node is taken out once.
pub occurs-list_del :
    (t : ℕ) (ts : Pointers) (x : ℕ)
    → 0 < occurs t ts
    → occurs x ts ≡ occurs x (list_del t ts) + (if x == t then 1 else 0)
unfolding list_del
occurs-list_del t [] x h = absurd (omega (arith, h))
occurs-list_del t (y ∷ ys) x h = elim (Bool-cases (y == t)) [
  | inl e ↦ ground arith
  | inr e ↦ ground (arith, occurs-list_del t ys x)
]

-- A node goes from the list `old` to the list `dest`.
moved-occurs :
    (lists : ℕ → Pointers) (old dest t cpu x : ℕ)
    → 0 < occurs t (lists old)
    → let off = λ (c : ℕ). if c == old then list_del t (lists old) else lists c in
      let on = λ (c : ℕ). if c == dest then t ∷ off dest else off c in
      occurs x (on cpu) + (if cpu == old && x == t then 1 else 0)
      ≡ occurs x (lists cpu) + (if cpu == dest && x == t then 1 else 0)
moved-occurs lists old dest t cpu x h =
    let removed = occurs-list_del t (lists old) x h in
    elim (Bool-cases (cpu == old)) [
      | inl e ↦
          let same : cpu ≡ old = ground arith in
          let lists_same = ap (λ c. occurs x (lists c)) same in ground (arith, removed, lists_same)
      | inr e ↦ elim (Bool-cases (cpu == dest)) [
        | inl d ↦
            let same : cpu ≡ dest = ground arith in
            let lists_same = ap (λ c. occurs x (lists c)) same in ground (arith, lists_same)
        | inr d ↦ ground arith
      ]
    ]

-- The head of a list is found.
find_task-head :
    (test : Task → Bool) (tasks : List (Option Task)) (t : ℕ) (ts ts' : Pointers)
    → Found test tasks ts' t
    → find_task test tasks (t ∷ ts) ≡ some (some t)
unfolding find_task
find_task-head test tasks t ts ts' f = rw (f.at, ◌>>=◌, f.passes)

set_list_self :
    (lists : ℕ → Pointers) (dest : ℕ) (ts : Pointers)
    → (if dest == dest then ts else lists dest) ≡ ts
set_list_self lists dest ts = ground arith

module _ {S : Type 0} where
  migration_sample-returns :
      (rest : List ℕ) (tsc old_cpu dest_cpu t : ℕ) (m : Machine S) (lists : ℕ → Pointers)
      → IsAlive m t
      → (rbs : List (Option RingBuffer)) × (migration_sample rest tsc old_cpu dest_cpu t
            (record m { cpu_list = lists })
          ≡ some (record m { cpu_list = lists; rbs = rbs }))
  unfolding migration_sample smon_sample_write
  migration_sample-returns rest tsc old_cpu dest_cpu t m lists alive =
      let sample : SampleCpu = record {
        timestamp = tsc;
        pid = (alive.task).pid;
        old_cpu = old_cpu;
        new_cpu = dest_cpu;
      } in
      elim (Bool-cases (ltb 0 (envir_option_cpu alive.envir))) [
        | inl e ↦ (
          store m.rbs alive.r
              (some (smon_rb_write alive.rb sample_type_cpu (cpu_bytes rest sample))),
          rw (
            alive.at, ◌>>=◌, alive.points_envir, alive.at_envir, ◌>>=◌, e, alive.points_rb,
            alive.at_rb, ◌>>=◌,
          ),
        )
        | inr e ↦ (m.rbs, rw (alive.at, ◌>>=◌, alive.points_envir, alive.at_envir, ◌>>=◌, e))
      ]

  -- The migration of a task that a core has on its list, with an environment and a ring buffer that
  -- are not freed, runs without a fault, whether it writes a sample or not. It takes one node of the
  -- task off that list and puts one on the list of the other core, and leaves all other nodes of all
  -- lists; a search on the other core then finds the task.
  pub migrate_task-moves :
      (rest : List ℕ) (tsc old_cpu p dest_cpu t : ℕ) (m : Machine S)
      → find_task (is_process p) m.tasks (m.cpu_list old_cpu) ≡ some (some t)
      → IsAlive m t
      → (m' : Machine S) × (smon_sched_migrate_task rest tsc old_cpu p dest_cpu m ≡ some m')
        × ((cpu x : ℕ)
            → occurs x (m'.cpu_list cpu) + (if cpu == old_cpu && x == t then 1 else 0)
              ≡ occurs x (m.cpu_list cpu) + (if cpu == dest_cpu && x == t then 1 else 0))
        × (find_task (is_process p) m'.tasks (m'.cpu_list dest_cpu) ≡ some (some t))
  unfolding smon_sched_migrate_task
  migrate_task-moves rest tsc old_cpu p dest_cpu t m found alive =
      let off = set_cpu_list old_cpu (list_del t (m.cpu_list old_cpu)) m in
      let (rbs, e) = migration_sample-returns rest tsc old_cpu dest_cpu t m off.cpu_list alive in
      let f = find_task-Found (is_process p) m.tasks (m.cpu_list old_cpu) t found in
      let m' = set_cpu_list dest_cpu (t ∷ off.cpu_list dest_cpu) (record off { rbs = rbs }) in
      let here = set_list_self off.cpu_list dest_cpu (t ∷ off.cpu_list dest_cpu) in
      (
        m',
        rw (found, ◌>>=◌, e),
        λ cpu x. moved-occurs m.cpu_list old_cpu dest_cpu t cpu x f.on_list,
        ap (find_task (is_process p) m.tasks) here
            ∙ find_task-head (is_process p) m.tasks t (off.cpu_list dest_cpu) (m.cpu_list old_cpu)
                f,
      )
