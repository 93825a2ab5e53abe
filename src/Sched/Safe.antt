-- ===== src/Sched/Safe.antt =====
-- When the hooks do not fault: the tasks on the lists are not freed, and those whose process still
-- runs are ready to be sampled.
pub mod Steps
pub mod Timers
pub mod Lists
pub mod Fork
pub mod Hooks
pub mod Clock
pub mod Calls
pub mod Runs
pub mod Tests
pub mod Register
use schedmon.Prelude.{
  ℕ, ◌<◌, ◌≡◌, refl, sym, ap, subst, ◌∙◌, arith, Bool, true, false, Option, none, some, List,
  get_elem?, ltb, ◌==◌, if◌then◌else◌, ℤ, to_u32, deref, store, deref-store, Bool-cases, inl, inr,
}
use schedmon.Ring.Index.{u32}
use schedmon.Ring.{RingBuffer}
use schedmon.EvSet.{EvSet, EvSets, smon_get_evset}
use schedmon.Envir.{Envir}
use schedmon.Task.{Task, Extra, Machine}
use schedmon.Sched.{Pointers, put_task}

-- Place `i` of an environment names an event-set of the table.
pub record IsNamed (evsets : EvSets) (esids : List ℤ) (i : ℕ) : Type 0 where
  pub esid : ℤ
  pub evset : EvSet
  pub named : get_elem? esids i ≡ some esid
  pub found : smon_get_evset evsets (to_u32 esid) ≡ some evset

-- An environment whose event-sets exist.
pub record IsSound (evsets : EvSets) (envir : Envir) : Type 0 where
  pub bound : envir.n_esids < u32
  pub named : (i : ℕ) → i < envir.n_esids → IsNamed evsets envir.esids i

-- The object at an address is not freed.
pub record IsLive {A : Type 0} (xs : List (Option A)) (i : ℕ) : Type 0 where
  pub object : A
  pub at : deref xs i ≡ some object

-- `task->extra->rb`, if there is extra data.
abbrev pub extra_rb : Task → Option ℕ
extra_rb task = elim task.extra [ none ↦ none | some extra ↦ extra.rb ]

-- The task has the pointers that it had.
pub record HasPointers (task task' : Task) : Type 0 where
  pub envir : task'.envir ≡ task.envir
  pub rb : task'.rb ≡ task.rb
  pub extra : extra_rb task' ≡ extra_rb task

abbrev pub has_refl : (task : Task) → HasPointers task task
has_refl task = record { envir = refl; rb = refl; extra = refl }

module _ {S : Type 0} where
  -- A task that can be sampled.
  pub record IsReady (m : Machine S) (task : Task) : Type 0 where
    pub e : ℕ
    pub envir : Envir
    pub points_envir : task.envir ≡ some e
    pub at_envir : deref m.envirs e ≡ some envir
    pub sound : IsSound m.evsets envir
    pub turn : task.evset < envir.n_esids
    pub r : ℕ
    pub points_rb : task.rb ≡ some r
    pub live_rb : IsLive m.rbs r
    pub live_extra : (q : ℕ) → extra_rb task ≡ some q → IsLive m.rbs q

  -- The task at `t` is not freed, and ready if it has a process.
  pub record IsSafe (m : Machine S) (t : ℕ) : Type 0 where
    pub task : Task
    pub at : deref m.tasks t ≡ some task
    pub ready : (p : ℕ) → task.p ≡ some p → IsReady m task

  pub record ReadyAt (m : Machine S) (t : ℕ) : Type 0 where
    pub task : Task
    pub at : deref m.tasks t ≡ some task
    pub ready : IsReady m task

  -- From `m` to `m'`, what is not freed stays, environments keep their event-sets, safe tasks stay
  -- safe, and the lists are the same.
  pub record IsSafeStep (m m' : Machine S) : Type 0 where
    pub cpus : m'.cpu_list ≡ m.cpu_list
    pub waits : m'.wait_list ≡ m.wait_list
    pub safe : (t : ℕ) → IsSafe m t → IsSafe m' t

  pub step_refl : (m : Machine S) → IsSafeStep m m
  step_refl m = record { cpus = refl; waits = refl; safe = λ t h. h }

  pub step_trans : {m m' m'' : Machine S} → IsSafeStep m m' → IsSafeStep m' m'' → IsSafeStep m m''
  step_trans p q = record {
    cpus = q.cpus ∙ p.cpus;
    waits = q.waits ∙ p.waits;
    safe = λ t h. q.safe t (p.safe t h);
  }

  -- A step on the task at `t`, which is ready before and after it.
  pub record IsSafeAt (m : Machine S) (t : ℕ) (m' : Machine S) : Type 0 where
    pub step : IsSafeStep m m'
    pub after : ReadyAt m' t

  -- Objects that are not freed stay, and environments keep their event-sets.
  pub record IsKept (m m' : Machine S) : Type 0 where
    pub evsets : m'.evsets ≡ m.evsets
    pub envirs :
        (e : ℕ) (envir : Envir)
        → deref m.envirs e ≡ some envir
        → (envir' : Envir) × (deref m'.envirs e ≡ some envir')
          × (envir'.esids ≡ envir.esids)
          × (envir'.n_esids ≡ envir.n_esids)
    pub rbs : (r : ℕ) → IsLive m.rbs r → IsLive m'.rbs r

  pub IsReady-IsKept :
      {m m' : Machine S} {task task' : Task} (ready : IsReady m task)
      → IsKept m m'
      → HasPointers task task'
      → task'.evset < (ready.envir).n_esids
      → IsReady m' task'
  IsReady-IsKept {m} {m'} {task} {task'} ready kept has turn =
      let (envir', at, esids, n_esids) = kept.envirs ready.e ready.envir ready.at_envir in
      record {
        e = ready.e;
        envir = envir';
        points_envir = has.envir ∙ ready.points_envir;
        at_envir = at;
        sound = record {
          bound = omega (arith, n_esids, (ready.sound).bound);
          named = λ i b.
              let old = (ready.sound).named i (omega (arith, n_esids)) in
              record {
                esid = old.esid;
                evset = old.evset;
                named = ap (λ ids. get_elem? ids i) esids ∙ old.named;
                found =
                    ap (λ table. smon_get_evset table (to_u32 old.esid)) kept.evsets ∙ old.found;
              };
        };
        turn = omega (arith, n_esids, turn);
        r = ready.r;
        points_rb = has.rb ∙ ready.points_rb;
        live_rb = kept.rbs ready.r ready.live_rb;
        live_extra = λ q e. kept.rbs q (ready.live_extra q (sym has.extra ∙ e));
      }

  -- The tasks stay, what they point to is kept.
  pub IsSafe-IsKept :
      {m m' : Machine S} (t : ℕ)
      → IsKept m m'
      → deref m'.tasks t ≡ deref m.tasks t
      → IsSafe m t
      → IsSafe m' t
  IsSafe-IsKept t kept same safe = record {
    task = safe.task;
    at = same ∙ safe.at;
    ready = λ p e.
        let ready = safe.ready p e in IsReady-IsKept ready kept (has_refl safe.task) ready.turn;
  }
