-- ===== src/Pmc/Tests.antt =====
-- The counters of a core whose registers are a function.
use schedmon.Prelude.{
  ◌+◌, get_elem?, some, ℕ, ◌≡◌, refl, arith, if◌then◌else◌, ◌==◌, [], ◌∷◌, pos, negsuc,
}
use schedmon.Event.{Event, Events, smon_get_event}
use schedmon.EvSet.{EvSet}
use schedmon.Pmc.{Cpu, Pmc, smon_pmc_read, smon_pmc_write, fx_used, gp_used}
use schedmon.Pmc.{ia32_perfevtsel, ia32_perf_global_ctrl, msr_read, smon_pmc_set}
use schedmon.Pmc.Program.{Selects, smon_pmc_set-selects}
use schedmon.Pmc.Keep.{Keeps, masked, smon_pmc_write-read}

abbrev Registers : Type 0
Registers = ℕ → ℕ × ℕ

abbrev core : Cpu Registers
core = record { rdmsr = λ s n. s n; wrmsr = λ s n lo hi m. if m == n then (lo, hi) else s m }

-- The global control is 0.
abbrev IsStopped : Registers → Type 0
IsStopped s = s ia32_perf_global_ctrl ≡ (0, 0)

core-Keeps : Keeps core IsStopped
core-Keeps = record {
  own = λ s n lo hi stop c p q. ground arith;
  other = λ s m n lo hi stop c w d. ground arith;
  stays = λ s n lo hi stop w. ground (arith, stop);
  stops = λ s. refl;
}

abbrev counts : Pmc
counts = record { fx = 1 ∷ 2 ∷ 281474976710655 ∷ []; gp = 4 ∷ 5 ∷ 6 ∷ 7 ∷ [] }

abbrev evset : EvSet
evset = record {
  tag = [];
  evids = pos 0 ∷ negsuc 0 ∷ pos 3 ∷ negsuc 0 ∷ [];
  fixed_ctrl = 770;
  global_ctrl = 21474836485;
}

smon_pmc_write-read_example :
    smon_pmc_read core evset (smon_pmc_write core counts (λ n. (0, 0)))
    ≡ record { fx = masked (fx_used evset) 0 counts.fx; gp = masked (gp_used evset) 0 counts.gp }
smon_pmc_write-read_example =
    smon_pmc_write-read core IsStopped core-Keeps counts evset (λ n. (0, 0)) refl refl refl
      (omega arith, (omega arith, (omega arith, tt)))
      (omega arith, (omega arith, (omega arith, (omega arith, tt))))

core-Selects : Selects core
core-Selects = record { own = λ s i lo c p. ground arith; other = λ s i n lo hi c d. ground arith }

abbrev misses : Event
misses = record { tag = 109 ∷ []; perfevtsel = 4407598 }

third_named : get_elem? evset.evids 2 ≡ some (pos 3)
third_named = refl

abbrev four_events : Events
four_events = misses ∷ misses ∷ misses ∷ misses ∷ []

third_found : smon_get_event four_events 3 ≡ some misses
unfolding smon_get_event
third_found = refl

smon_pmc_set-selects_example :
    msr_read core (smon_pmc_set core four_events evset (λ n. (0, 0))) (ia32_perfevtsel + 2)
    ≡ misses.perfevtsel
smon_pmc_set-selects_example =
    smon_pmc_set-selects core core-Selects four_events evset (λ n. (0, 0)) 2 third_named third_found
      (omega arith) (omega arith)
