-- ===== src/Task/Sampling.antt =====
-- driver/sample.c. A read of the time-stamp counter is an argument `tsc`.
use schedmon.Prelude.{
  ℕ, ◌+◌, ◌/◌, ◌%◌, ◌^◌, Option, none, some, List, get_elem?, bit_and, ◌==◌, if◌then◌else◌, ℤ, pos,
  negsuc, to_u32, ◌>>=◌, deref, store,
}
use schedmon.Ring.{
  RingBuffer, smon_rb_write, sample_type_pmc, sample_type_rapl, sample_type_sched, sample_type_info,
}
use schedmon.Event.{Events}
use schedmon.EvSet.{EvSet, EvSets, smon_get_evset}
use schedmon.Envir.{Envir, smon_envir_get_evset, smon_envir_next_evset}
use schedmon.Pmc.{
  Cpu, msr_read, smon_pmc_set, smon_pmc_write, smon_pmc_start, smon_pmc_stop, smon_pmc_read,
}
use schedmon.Rapl.{sub64, smon_rapl_read, smon_rapl_sub, smon_rapl_get_info}
use schedmon.Sample.{SampleRapl, SampleInfo, pmc_bytes, rapl_bytes, sched_bytes, info_bytes}
use schedmon.Task.{Task, no_pmc}

abbrev pub Rbs : Type 0
Rbs = List (Option RingBuffer)

unfoldable pub smon_sample_init : ℕ → ℤ
smon_sample_init i = negsuc 0

unfoldable pub smon_sample_write : Rbs → Option ℕ → ℕ → List ℕ → Option Rbs
smon_sample_write rbs none type sample = some rbs
smon_sample_write rbs (some r) type sample =
    deref rbs r >>= λ rb. some (store rbs r (some (smon_rb_write rb type sample)))

abbrev pub msr_platform_info : ℕ
msr_platform_info = 206

unfoldable pub msr_tsc_frequency : {S : Type 0} → Cpu S → S → ℕ
msr_tsc_frequency cpu s = bit_and (msr_read cpu s msr_platform_info / 2 ^ 8) 255

-- `a += b` of a `long long`.
abbrev pub add64 : ℕ → ℕ → ℕ
add64 a b = (a + b) % 2 ^ 64

module _ {S : Type 0} (cpu : Cpu S) where
  -- smon_sample_start with an event-set that exists.
  unfoldable pub start_evset : Events → EvSet → ℕ → Task → S → Task × S
  start_evset events evset tsc task s =
      let s' = smon_pmc_write cpu task.sample_pmc.pmc (smon_pmc_set cpu events evset s) in
      let sample = record task.sample_pmc {
        timestamp_start =
            if task.sample_pmc.timestamp_start == 0 then tsc else task.sample_pmc.timestamp_start;
      } in
      (record task { tsc_tmp = tsc; sample_pmc = sample }, smon_pmc_start cpu evset s')

  unfoldable pub smon_sample_start : Events → EvSets → ℕ → Envir → Task → S → Option (Task × S)
  smon_sample_start events evsets tsc envir task s = get_elem? envir.esids task.evset >>= λ esid.
      elim (smon_get_evset evsets (to_u32 esid)) [
        | none ↦ some (task, s)
        | some evset ↦ some (start_evset events evset tsc task s)
      ]

  -- smon_sample_stop with an event-set that exists.
  unfoldable pub stop_evset : EvSet → ℕ → Task → S → Task × S
  stop_evset evset tsc task s =
      let s' = smon_pmc_stop cpu s in
      let sample = record task.sample_pmc {
        timestamp_stop = tsc;
        duration = add64 task.sample_pmc.duration (sub64 tsc task.tsc_tmp);
        pmc = smon_pmc_read cpu evset s';
      } in
      (record task { sample_pmc = sample }, s')

  unfoldable pub smon_sample_stop : EvSets → ℕ → Envir → Task → S → Option (Task × S)
  smon_sample_stop evsets tsc envir task s =
      smon_envir_get_evset evsets envir (pos task.evset) >>= λ evset.
      some (stop_evset evset tsc task s)

  unfoldable pub smon_sample_rapl_start : ℕ → SampleRapl → S → SampleRapl
  smon_sample_rapl_start tsc sample s = record sample {
    rapl = smon_rapl_read cpu s;
    timestamp = tsc;
  }

  unfoldable pub smon_sample_rapl_stop : ℕ → SampleRapl → S → SampleRapl
  smon_sample_rapl_stop tsc sample s = record sample {
    duration = sub64 tsc sample.timestamp;
    rapl = smon_rapl_sub (smon_rapl_read cpu s) sample.rapl;
  }

  unfoldable pub smon_sample_get_info : ℕ → ℕ → SampleInfo → Envir → S → SampleInfo
  smon_sample_get_info num_online_cpus tsc info envir s = record info {
    evsets = envir.n_esids;
    n_cpus = num_online_cpus;
    pmc_sample_time = envir.sample_time;
    rapl_sample_time = envir.sample_time;
    units = smon_rapl_get_info cpu s;
    tsc_frequency = msr_tsc_frequency cpu s;
    timestamp = tsc;
  }

unfoldable pub smon_sample_save : Envir → Task → Rbs → Option (Task × Rbs)
smon_sample_save envir task rbs =
    let sample = record task.sample_pmc { pid = task.pid; evset = task.evset } in
    smon_sample_write rbs task.rb sample_type_pmc (pmc_bytes sample) >>= λ rbs'.
    smon_envir_next_evset envir task.evset >>= λ next.
    some (record task { sample_pmc = no_pmc; evset = next }, rbs')

unfoldable pub smon_sample_rapl_save : Rbs → Option ℕ → SampleRapl → Option Rbs
smon_sample_rapl_save rbs rb sample = smon_sample_write rbs rb sample_type_rapl (rapl_bytes sample)

unfoldable pub smon_sample_sched_in : ℕ → ℕ → Task → Task
smon_sample_sched_in processor tsc task = record task {
  sample_sched = record task.sample_sched { cpu = processor; timestamp_in = tsc };
}

unfoldable pub smon_sample_sched_out : ℕ → Task → Task
smon_sample_sched_out tsc task = record task {
  sample_sched = record task.sample_sched { timestamp_out = tsc };
}

unfoldable pub smon_sample_sched_save : Task → Rbs → Option Rbs
smon_sample_sched_save task rbs =
    smon_sample_write rbs task.rb sample_type_sched (sched_bytes task.sample_sched)

unfoldable pub smon_sample_info_save : Rbs → Option ℕ → SampleInfo → Option Rbs
smon_sample_info_save rbs rb sample = smon_sample_write rbs rb sample_type_info (info_bytes sample)
