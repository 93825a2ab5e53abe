-- ===== src/Task/Slices.antt =====
-- A task's counts over the slices of time for which it runs.
pub mod Carry
pub mod Turns
pub mod Tests
use schedmon.Prelude.{
  ℕ, zero, suc, ◌+◌, ◌-◌, ◌%◌, ◌^◌, ◌≤◌, ◌<◌, ◌≡◌, refl, sym, ap, ◌∙◌, subst, arith, Bool, true,
  false, Option, none, some, List, [], ◌∷◌, get_elem?, leb, ltb, ◌==◌, if◌then◌else◌, ℤ, pos,
  to_u32, ◌>>=◌,
}
use schedmon.Ring.Index.{u32}
use schedmon.Event.{Events}
use schedmon.EvSet.{EvSet, EvSets, smon_get_evset}
use schedmon.Envir.{Envir, smon_envir_get_evset}
use schedmon.Pmc.{Cpu}
use schedmon.Rapl.{sub64}
use schedmon.Task.{Task}
use schedmon.Task.Sampling.{add64, start_evset, stop_evset, smon_sample_start, smon_sample_stop}

-- The turn of `task` is that of `evset`.
pub record HasEvset (evsets : EvSets) (envir : Envir) (task : Task) (evset : EvSet) : Type 0 where
  pub esid : ℤ
  pub turn : task.evset < envir.n_esids
  pub bound : envir.n_esids < u32
  pub named : get_elem? envir.esids task.evset ≡ some esid
  pub found : smon_get_evset evsets (to_u32 esid) ≡ some evset

module _ {S : Type 0} (cpu : Cpu S) (events : Events) (evsets : EvSets) (envir : Envir) where
  -- The task is switched in and out at the times of each slice, each time on registers `s` as it
  -- finds them.
  unfoldable pub slices : List (S × ℕ × ℕ) → Task → Option Task
  slices [] task = some task
  slices ((s, on, off) ∷ rest) task =
      smon_sample_start cpu events evsets on envir task s >>= λ started.
      smon_sample_stop cpu evsets off envir started.0 started.1 >>= λ stopped. slices rest stopped.0

  -- The time of the slices.
  abbrev pub total : List (S × ℕ × ℕ) → ℕ
  total [] = 0
  total ((s, on, off) ∷ rest) = sub64 off on + total rest

  pub envir_evset :
      {evset : EvSet} (task : Task)
      → HasEvset evsets envir task evset
      → smon_envir_get_evset evsets envir (pos task.evset) ≡ some evset
  unfolding smon_envir_get_evset
  envir_evset task h = let exact : task.evset % 2 ^ 32 ≡ task.evset = omega arith in ground arith

  pub sample_start-evset :
      {evset : EvSet} (task : Task) (on : ℕ) (s : S)
      → HasEvset evsets envir task evset
      → smon_sample_start cpu events evsets on envir task s
        ≡ some (start_evset cpu events evset on task s)
  unfolding smon_sample_start
  sample_start-evset task on s h = rw (h.named, ◌>>=◌, h.found)

  pub sample_stop-evset :
      {evset : EvSet} (task : Task) (off : ℕ) (s : S)
      → HasEvset evsets envir task evset
      → smon_sample_stop cpu evsets off envir task s ≡ some (stop_evset cpu evset off task s)
  unfolding smon_sample_stop
  sample_stop-evset task off s h = rw (envir_evset task h)

  module _ (evset : EvSet) where
    -- A task after a slice.
    unfoldable pub slice : S → ℕ → ℕ → Task → Task
    slice s on off task =
        let (task', s') = start_evset cpu events evset on task s in
        (stop_evset cpu evset off task' s').0

    start-HasEvset :
        (on : ℕ) (task : Task) (s : S)
        → HasEvset evsets envir task evset
        → HasEvset evsets envir (start_evset cpu events evset on task s).0 evset
    unfolding start_evset
    start-HasEvset on task s h = record {
      esid = h.esid;
      turn = h.turn;
      bound = h.bound;
      named = h.named;
      found = h.found;
    }

    pub slice-HasEvset :
        (s : S) (on off : ℕ) (task : Task)
        → HasEvset evsets envir task evset
        → HasEvset evsets envir (slice s on off task) evset
    unfolding slice start_evset stop_evset
    slice-HasEvset s on off task h = record {
      esid = h.esid;
      turn = h.turn;
      bound = h.bound;
      named = h.named;
      found = h.found;
    }

    slice-duration :
        (s : S) (on off : ℕ) (task : Task)
        → (slice s on off task).sample_pmc.duration ≡ add64 task.sample_pmc.duration (sub64 off on)
    unfolding slice start_evset stop_evset
    slice-duration s on off task = refl

    pub slices-cons :
        (s : S) (on off : ℕ) (rest : List (S × ℕ × ℕ)) (task : Task)
        → HasEvset evsets envir task evset
        → slices ((s, on, off) ∷ rest) task ≡ slices rest (slice s on off task)
    unfolding slices slice
    slices-cons s on off rest task h =
        let started = start_evset cpu events evset on task s in
        rw (
          slices,
          sample_start-evset task on s h,
          ◌>>=◌,
          sample_stop-evset started.0 off started.1 (start-HasEvset on task s h),
          ◌>>=◌,
        )

  -- While its event-set is there, a task runs through its slices without a fault, whatever registers it
  -- finds; its sample then lasts as long as the slices together, added to what it lasted before,
  -- modulo 2^64, and its event-set is the same.
  pub slices-duration :
      {evset : EvSet} (run : List (S × ℕ × ℕ)) (task : Task)
      → HasEvset evsets envir task evset
      → (task' : Task) × (slices run task ≡ some task')
        × (task'.sample_pmc.duration % 2 ^ 64 ≡ (task.sample_pmc.duration + total run) % 2 ^ 64)
        × HasEvset evsets envir task' evset
  unfolding slices
  slices-duration [] task h = (task, refl, omega arith, h)
  slices-duration {evset} ((s, on, off) ∷ rest) task h =
      let (task', e, d, k) =
        slices-duration rest (slice evset s on off task) (slice-HasEvset evset s on off task h) in
      (
        task',
        slices-cons evset s on off rest task h ∙ e,
        omega (arith, slice-duration evset s on off task),
        k,
      )
