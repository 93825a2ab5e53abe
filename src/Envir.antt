-- ===== src/Envir.antt =====
-- driver/envir.c, the environment of a monitored task.
pub mod Options
pub mod Cycle
pub mod Tests
use schedmon.Prelude.{
  ℕ, suc, ◌+◌, ◌-◌, ◌%◌, ◌^◌, bit_and, Bool, true, false, Option, none, some, List, [], ◌∷◌,
  get_elem?, take, ltb, leb, ◌==◌, if◌then◌else◌, ℤ, pos, negsuc, to_u32, not,
}
use schedmon.Ring.Index.{u32, add32, sub32}
use schedmon.EvSet.{EvSet, EvSets, smon_get_evset}

abbrev pub mux_evsets : ℕ
mux_evsets = 32

abbrev pub envop_inh : ℕ
envop_inh = 1

abbrev pub envop_exe : ℕ
envop_exe = 2

abbrev pub envop_rap : ℕ
envop_rap = 4

abbrev pub envop_cpu : ℕ
envop_cpu = 8

abbrev pub envop_fork : ℕ
envop_fork = 16

abbrev pub envop_sched : ℕ
envop_sched = 32

abbrev pub envop_stat : ℕ
envop_stat = 64

abbrev pub default_sample_time : ℕ
default_sample_time = 10

-- `struct smon_envir`; `count` is the bit pattern of the reference count.
pub record Envir : Type 0 where
  pub esids : List ℤ
  pub n_esids : ℕ
  pub sample_time : ℕ
  pub batch_size : ℕ
  pub options : ℕ
  pub count : ℕ

unfoldable pub envir_option_inherit : Envir → ℕ
envir_option_inherit envir = bit_and envir.options envop_inh

unfoldable pub envir_option_exec : Envir → ℕ
envir_option_exec envir = bit_and envir.options envop_exe

unfoldable pub envir_option_rapl : Envir → ℕ
envir_option_rapl envir = bit_and envir.options envop_rap

unfoldable pub envir_option_cpu : Envir → ℕ
envir_option_cpu envir = bit_and envir.options envop_cpu

unfoldable pub envir_option_fork : Envir → ℕ
envir_option_fork envir = bit_and envir.options envop_fork

unfoldable pub envir_option_sched : Envir → ℕ
envir_option_sched envir = bit_and envir.options envop_sched

unfoldable pub envir_option_stat : Envir → ℕ
envir_option_stat envir = bit_and envir.options envop_stat

-- `options &= ~mask`, on an `unsigned int`.
abbrev pub clear : ℕ → ℕ → ℕ
clear options mask = bit_and options (u32 - 1 - mask)

-- The block under `if (envir_option_stat(new))`.
unfoldable pub stat_mode : Envir → Envir
stat_mode new = record new {
  n_esids = 1;
  options = clear (clear (clear (clear new.options envop_rap) envop_cpu) envop_fork) envop_sched;
}

-- The copy, up to that block.
unfoldable pub copy_envir : Envir → Envir
copy_envir envir = record {
  esids = take mux_evsets envir.esids;
  n_esids = envir.n_esids;
  sample_time = if ltb 0 envir.sample_time then envir.sample_time else default_sample_time;
  batch_size = envir.batch_size;
  options = envir.options;
  count = 1;
}

unfoldable pub smon_create_envir : Bool → Envir → Option Envir
smon_create_envir kzalloc envir =
    let new = copy_envir envir in
    if kzalloc then some (if ltb 0 (envir_option_stat new) then stat_mode new else new) else none

unfoldable pub smon_get_envir : Envir → Envir
smon_get_envir envir = record envir { count = add32 envir.count 1 }

-- `none`: the environment is freed.
unfoldable pub smon_release_envir : Envir → Option Envir
smon_release_envir envir =
    let left = sub32 envir.count 1 in
    if left == 0 then none else some (record envir { count = left })

-- The event-set in place `id` of the environment; `id` is compared as an `unsigned int`.
unfoldable pub smon_envir_get_evset : EvSets → Envir → ℤ → Option EvSet
smon_envir_get_evset evsets envir id =
    if leb envir.n_esids (to_u32 id) then none else elim (get_elem? envir.esids (to_u32 id)) [
      | none ↦ none
      | some esid ↦ smon_get_evset evsets (to_u32 esid)
    ]

-- `none`: the division by zero of an environment without event-sets.
unfoldable pub smon_envir_next_evset : Envir → ℕ → Option ℕ
smon_envir_next_evset envir id =
    if envir.n_esids == 0 then none else some (add32 id 1 % envir.n_esids)
