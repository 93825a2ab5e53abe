-- ===== src/Task.antt =====
-- The tasks of driver/smon.h. A pointer is an address in one of the heaps of `Machine`, or `none` for
-- NULL; a fault of the kernel (a NULL or freed pointer, a division by zero, an index past an array)
-- is `none` as the result of a call.
pub mod Sampling
pub mod Slices
pub mod Life
use schedmon.Prelude.{ℕ, Bool, true, false, Option, none, some, List, [], ◌∷◌, replicate, ℤ, pos}
use schedmon.Ring.{RingBuffer}
use schedmon.Event.{Events}
use schedmon.EvSet.{EvSets, max_gp_ctrs}
use schedmon.Envir.{Envir}
use schedmon.Pmc.{Pmc, max_fx_ctrs}
use schedmon.Rapl.{Rapl, Units}
use schedmon.Sample.{SamplePmc, SampleRapl, SampleSched, SampleInfo}

-- `struct smon_task_extra`. A timer is the time that it was started for, or `none` while it is off;
-- the works are pending from irq_work_queue until they run; `timer_on` is SMON_TIMER_ON.
pub record Extra : Type 0 where
  pub rapl_sample : SampleRapl
  pub rapl_sample_time : ℕ
  pub rapl_timer : Option ℤ
  pub start_pending : Bool
  pub stop_pending : Bool
  pub timer_on : Bool
  pub info_sample : SampleInfo
  pub rb : Option ℕ

-- `struct smon_task` without its list nodes; `p` is the kernel's task, `kt_remain` in nanoseconds.
pub record Task : Type 0 where
  pub p : Option ℕ
  pub pid : ℕ
  pub envir : Option ℕ
  pub evset : ℕ
  pub n_children : ℕ
  pub sample_pmc : SamplePmc
  pub tsc_tmp : ℕ
  pub timer : Option ℤ
  pub kt_remain : ℤ
  pub start_pending : Bool
  pub stop_pending : Bool
  pub timer_on : Bool
  pub sample_sched : SampleSched
  pub extra : Option Extra
  pub rb : Option ℕ

-- The lists of `struct smon_sched`, the rings that the `children` nodes form, the tables, and the
-- registers of each core. A ring is a circular list, written from any of its nodes on.
pub record Machine (S : Type 0) : Type 0 where
  pub tasks : List (Option Task)
  pub envirs : List (Option Envir)
  pub rbs : List (Option RingBuffer)
  pub task_list : List ℕ
  pub wait_list : List ℕ
  pub cpu_list : ℕ → List ℕ
  pub rings : List (List ℕ)
  pub core : ℕ → S
  pub events : Events
  pub evsets : EvSets

-- Samples in cleared memory.
abbrev pub no_pmc : SamplePmc
no_pmc = record {
  timestamp_start = 0;
  timestamp_stop = 0;
  duration = 0;
  pid = 0;
  pmc = record { fx = replicate max_fx_ctrs 0; gp = replicate max_gp_ctrs 0 };
  evset = 0;
}

abbrev pub no_rapl : SampleRapl
no_rapl = record { timestamp = 0; duration = 0; rapl = record { pkg = 0; pp0 = 0; pp1 = 0 } }

abbrev pub no_sched : SampleSched
no_sched = record { timestamp_in = 0; timestamp_out = 0; pid = 0; cpu = 0 }

abbrev pub no_info : SampleInfo
no_info = record {
  timestamp = 0;
  pmc_sample_time = 0;
  rapl_sample_time = 0;
  units = record { power_units = 0; energy_units = 0; time_units = 0 };
  tsc_frequency = 0;
  evsets = 0;
  n_cpus = 0;
}
