-- ===== src/Pmc.antt =====
-- driver/msr.c and driver/pmc.c: the model-specific registers of a core, and its performance
-- counters. The two instructions are a parameter; values are 64-bit patterns.
pub mod Keep
pub mod Program
pub mod Tests
use schedmon.Prelude.{
  ℕ, zero, suc, ◌+◌, ◌*◌, ◌/◌, ◌%◌, ◌^◌, ◌-◌, Bool, true, false, not, Option, none, some, List, [],
  ◌∷◌, get_elem?, replicate, bit_and, bit_or, ltb, if◌then◌else◌, ℤ, to_u32, is_neg,
}
use schedmon.Ring.Index.{u32}
use schedmon.Event.{Event, Events, smon_get_event}
use schedmon.EvSet.{EvSet, max_gp_ctrs}

-- The instructions, on states `S` of a core: rdmsr gives EAX and EDX, wrmsr takes them.
pub record Cpu (S : Type 0) : Type 0 where
  pub rdmsr : S → ℕ → ℕ × ℕ
  pub wrmsr : S → ℕ → ℕ → ℕ → S

abbrev pub max_fx_ctrs : ℕ
max_fx_ctrs = 3

abbrev pub ia32_perfevtsel : ℕ
ia32_perfevtsel = 390

abbrev pub ia32_fixed_ctr_ctrl : ℕ
ia32_fixed_ctr_ctrl = 909

abbrev pub ia32_perf_global_ctrl : ℕ
ia32_perf_global_ctrl = 911

abbrev pub ia32_perf_global_ovf_ctrl : ℕ
ia32_perf_global_ovf_ctrl = 912

abbrev pub ia32_fx_ctr : ℕ
ia32_fx_ctr = 777

abbrev pub ia32_gp_ctr : ℕ
ia32_gp_ctr = 1217

-- `struct smon_pmc`.
pub record Pmc : Type 0 where
  pub fx : List ℕ
  pub gp : List ℕ

module _ {S : Type 0} (cpu : Cpu S) where
  unfoldable pub msr_read : S → ℕ → ℕ
  msr_read s num = let (lo, hi) = cpu.rdmsr s num in bit_or lo (hi * u32)

  unfoldable pub msr_write : S → ℕ → ℕ → S
  msr_write s num val = cpu.wrmsr s num (bit_and val (u32 - 1)) (val / u32 % u32)

  unfoldable pub smon_pmc_clr_overflows : S → S
  smon_pmc_clr_overflows s = msr_write s ia32_perf_global_ovf_ctrl 0

  -- The loop of smon_pmc_set, from counter `i` on.
  unfoldable pub set_events : Events → ℕ → List ℤ → S → S
  set_events events i [] s = s
  set_events events i (e ∷ es) s = elim (smon_get_event events (to_u32 e)) [
    | none ↦ set_events events (suc i) es s
    | some event ↦ set_events events (suc i) es (msr_write s (ia32_perfevtsel + i) event.perfevtsel)
  ]

  unfoldable pub smon_pmc_set : Events → EvSet → S → S
  smon_pmc_set events evset s =
      smon_pmc_clr_overflows
        (set_events events 0 evset.evids (msr_write s ia32_fixed_ctr_ctrl evset.fixed_ctrl))

  -- A loop that writes `vs` to the counters from `base + i` on.
  unfoldable pub write_ctrs : ℕ → ℕ → List ℕ → S → S
  write_ctrs base i [] s = s
  write_ctrs base i (v ∷ vs) s = write_ctrs base (suc i) vs (msr_write s (base + i) v)

  -- A loop that reads `n` counters from `base + i` on; a counter that is not in use reads 0.
  unfoldable pub read_ctrs : ℕ → (ℕ → Bool) → S → ℕ → ℕ → List ℕ
  read_ctrs base used s i zero = []
  read_ctrs base used s i (suc n) =
      (if used i then msr_read s (base + i) else 0) ∷ read_ctrs base used s (suc i) n

  unfoldable pub smon_pmc_reset : S → S
  smon_pmc_reset s =
      write_ctrs ia32_gp_ctr 0 (replicate max_gp_ctrs 0)
        (write_ctrs ia32_fx_ctr 0 (replicate max_fx_ctrs 0) s)

  unfoldable pub smon_pmc_start : EvSet → S → S
  smon_pmc_start evset s = msr_write s ia32_perf_global_ctrl evset.global_ctrl

  unfoldable pub smon_pmc_stop : S → S
  smon_pmc_stop s = msr_write s ia32_perf_global_ctrl 0

  unfoldable pub smon_pmc_write : Pmc → S → S
  smon_pmc_write pmc s =
      smon_pmc_clr_overflows (write_ctrs ia32_gp_ctr 0 pmc.gp (write_ctrs ia32_fx_ctr 0 pmc.fx s))

-- The tests of smon_pmc_read.
unfoldable pub fx_used : EvSet → ℕ → Bool
fx_used evset i = ltb 0 (bit_and evset.fixed_ctrl (3 * 2 ^ (4 * i)))

unfoldable pub gp_used : EvSet → ℕ → Bool
gp_used evset i = elim (get_elem? evset.evids i) [ none ↦ false | some e ↦ not (is_neg e) ]

unfoldable pub smon_pmc_read : {S : Type 0} → Cpu S → EvSet → S → Pmc
smon_pmc_read cpu evset s = record {
  fx = read_ctrs cpu ia32_fx_ctr (fx_used evset) s 0 max_fx_ctrs;
  gp = read_ctrs cpu ia32_gp_ctr (gp_used evset) s 0 max_gp_ctrs;
}
