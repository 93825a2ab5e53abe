-- ===== src/Task/Slices/Tests.antt =====
-- Two slices of a task on a core whose registers are a function.
use schedmon.Prelude.{
  ℕ, zero, suc, ◌+◌, ◌%◌, ◌^◌, ◌<◌, ◌≡◌, List, Returns, refl, arith, some, none, [], ◌∷◌,
  if◌then◌else◌, ◌==◌, pos, negsuc, false,
}
use schedmon.EvSet.{EvSet, EvSets, smon_get_evset}
use schedmon.Envir.{Envir}
use schedmon.Pmc.{
  Cpu, ia32_perf_global_ctrl, smon_pmc_read, smon_pmc_start, smon_pmc_stop, read_ctrs, msr_read,
  msr_write, fx_used, gp_used,
}
use schedmon.Pmc.Keep.{Keeps, AllBelow}
use schedmon.Rapl.{sub64}
use schedmon.Task.{Task, no_pmc, no_sched}
use schedmon.Task.Sampling.{start_evset, stop_evset}
use schedmon.Task.Slices.{HasEvset, slices, slices-duration}
use schedmon.Task.Slices.Turns.{samples_taken, samples_taken-turn}
use schedmon.Sched.Safe.{IsNamed}
use schedmon.Sched.Example.{rb}
use schedmon.Task.Slices.Carry.{start_evset-stop_evset}

abbrev Registers : Type 0
Registers = ℕ → ℕ × ℕ

abbrev core : Cpu Registers
core = record { rdmsr = λ s n. s n; wrmsr = λ s n lo hi m. if m == n then (lo, hi) else s m }

-- The global control is 0.
abbrev IsStopped : Registers → Type 0
IsStopped s = s ia32_perf_global_ctrl ≡ (0, 0)

core-Keeps : Keeps core IsStopped
core-Keeps = record {
  own = λ s n lo hi stop c p q. ground arith;
  other = λ s m n lo hi stop c w d. ground arith;
  stays = λ s n lo hi stop w. ground (arith, stop);
  stops = λ s. refl;
}

-- A core that is stopped, with 6 in each counter.
abbrev other_core : Registers
other_core n = if n == ia32_perf_global_ctrl then (0, 0) else (6, 6)

abbrev evset : EvSet
evset = record {
  tag = [];
  evids = pos 0 ∷ negsuc 0 ∷ pos 3 ∷ negsuc 0 ∷ [];
  fixed_ctrl = 770;
  global_ctrl = 21474836485;
}

abbrev envir : Envir
envir = record {
  esids = pos 1 ∷ [];
  n_esids = 1;
  sample_time = 10;
  batch_size = 8;
  options = 0;
  count = 1;
}

abbrev task : Task
task = record {
  p = some 7;
  pid = 7;
  envir = some 0;
  evset = 0;
  n_children = 0;
  sample_pmc = record no_pmc { duration = 100 };
  tsc_tmp = 0;
  timer = none;
  kt_remain = pos 0;
  start_pending = false;
  stop_pending = false;
  timer_on = false;
  sample_sched = no_sched;
  extra = none;
  rb = some 0;
}

abbrev two_evsets : EvSets
two_evsets = evset ∷ evset ∷ []

second_found : smon_get_evset two_evsets 1 ≡ some evset
unfolding smon_get_evset
second_found = refl

task-HasEvset : HasEvset two_evsets envir task evset
task-HasEvset = record {
  esid = pos 1;
  turn = omega arith;
  bound = omega arith;
  named = refl;
  found = second_found;
}

-- The clock wraps in the second slice.
slices-duration_example :
    (task' : Task) × (slices core [] two_evsets envir
        (((λ n. (0, 0)), 1000, 1500) ∷ ((λ n. (1, 0)), 18446744073709551610, 4) ∷ [])
        task
      ≡ some task')
    × (task'.sample_pmc.duration % 2 ^ 64 ≡ (100 + 510) % 2 ^ 64)
    × HasEvset two_evsets envir task' evset
unfolding sub64
slices-duration_example =
    slices-duration core [] two_evsets envir
      (((λ n. (0, 0)), 1000, 1500) ∷ ((λ n. (1, 0)), 18446744073709551610, 4) ∷ []) task
      task-HasEvset

below_fx : AllBelow (smon_pmc_read core evset (smon_pmc_stop core (λ n. (5, 0)))).fx
unfolding smon_pmc_read smon_pmc_stop read_ctrs msr_read msr_write fx_used
below_fx = (ground arith, (ground arith, (ground arith, tt)))

below_gp : AllBelow (smon_pmc_read core evset (smon_pmc_stop core (λ n. (5, 0)))).gp
unfolding smon_pmc_read smon_pmc_stop read_ctrs msr_read msr_write gp_used
below_gp = (ground arith, (ground arith, (ground arith, (ground arith, tt))))

start_evset-stop_evset_example :
    IsStopped (stop_evset core evset 70 task (λ n. (5, 0))).1
    × ((ready : Registers) × IsStopped ready
        × ((start_evset core [] evset 90
              (stop_evset core evset 70 task (λ n. (5, 0))).0
              other_core).1
            ≡ smon_pmc_start core evset ready)
        × (smon_pmc_read core evset ready
            ≡ smon_pmc_read core evset (smon_pmc_stop core (λ n. (5, 0)))))
start_evset-stop_evset_example =
    start_evset-stop_evset core IsStopped core-Keeps [] evset 90 70 task (λ n. (5, 0)) other_core
      refl refl below_fx below_gp

-- Three samples, the second of two slices, with two event-sets in turn.
abbrev two_turns : Envir
two_turns = record envir { esids = pos 1 ∷ pos 0 ∷ []; n_esids = 2 }

first_found : smon_get_evset two_evsets 0 ≡ some evset
unfolding smon_get_evset
first_found = refl

evset_named : (i : ℕ) → i < 2 → IsNamed two_evsets (pos 1 ∷ pos 0 ∷ []) i
evset_named zero h = record { esid = pos 1; evset = evset; named = refl; found = second_found }
evset_named (suc zero) h = record { esid = pos 0; evset = evset; named = refl; found = first_found }
evset_named (suc (suc i)) h = absurd (omega (arith, h))

abbrev runs : List (List (Registers × ℕ × ℕ))
runs =
    (((λ n. (0, 0)), 1000, 1500) ∷ [])
    ∷ (((λ n. (1, 0)), 2000, 2500) ∷ ((λ n. (2, 0)), 3000, 3500) ∷ [])
    ∷ []
    ∷ []

samples_taken-turn_example :
    Returns
      (λ saved. (saved.0).evset ≡ (0 + 3) % 2)
      (samples_taken core [] two_evsets two_turns runs task (some rb ∷ []))
samples_taken-turn_example =
    samples_taken-turn core [] two_evsets two_turns runs task (some rb ∷ []) 0
      (record { bound = omega arith; named = evset_named }) (omega arith) refl
      (record { object = rb; at = refl })
