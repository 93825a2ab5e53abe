-- ===== src/Task/Slices/Carry.antt =====
-- The counts of a task from one slice to the next.
use schedmon.Prelude.{
  ℕ, zero, suc, ◌+◌, ◌≤◌, ◌≡◌, refl, ap, ◌∙◌, arith, Bool, List, [], ◌∷◌, length, inl, inr, ℤ,
  to_u32, bit_and-mask, Option-cases,
}
use schedmon.Event.{Events, smon_get_event}
use schedmon.EvSet.{EvSet, max_gp_ctrs}
use schedmon.Pmc.{
  Cpu, Pmc, ia32_fx_ctr, ia32_gp_ctr, ia32_perfevtsel, ia32_fixed_ctr_ctrl,
  ia32_perf_global_ovf_ctrl, max_fx_ctrs, read_ctrs, msr_write, set_events, smon_pmc_clr_overflows,
  smon_pmc_set, smon_pmc_write, smon_pmc_read, smon_pmc_start, smon_pmc_stop, fx_used, gp_used,
}
use schedmon.Pmc.Keep.{
  Keeps, IsSetup, AllBelow, masked, stays, smon_pmc_write-IsStopped, smon_pmc_write-read,
}
use schedmon.Task.{Task}
use schedmon.Task.Sampling.{start_evset, stop_evset}

module _ {S : Type 0} (cpu : Cpu S) where
  length-read_ctrs :
      (base : ℕ) (used : ℕ → Bool) (s : S) (i n : ℕ) → length (read_ctrs cpu base used s i n) ≡ n
  unfolding read_ctrs
  length-read_ctrs base used s i zero = refl
  length-read_ctrs base used s i (suc n) = ap suc (length-read_ctrs base used s (suc i) n)

  masked-read_ctrs :
      (base : ℕ) (used : ℕ → Bool) (s : S) (i n : ℕ)
      → masked used i (read_ctrs cpu base used s i n) ≡ read_ctrs cpu base used s i n
  unfolding read_ctrs
  masked-read_ctrs base used s i zero = refl
  masked-read_ctrs base used s i (suc n) =
      let rest : masked used (suc i) (read_ctrs cpu base used s (suc i) n)
          ≡ read_ctrs cpu base used s (suc i) n =
        masked-read_ctrs base used s (suc i) n in
      ground arith

  module _ (IsStopped : S → Type 0) (keeps : Keeps cpu IsStopped) where
    set_events-IsStopped :
        (events : Events) (i : ℕ) (ids : List ℤ) (s : S)
        → IsStopped s
        → i + length ids ≤ max_gp_ctrs
        → IsStopped (set_events cpu events i ids s)
    unfolding set_events
    set_events-IsStopped events i [] s stop few = stop
    set_events-IsStopped events i (e ∷ es) s stop few =
        elim (Option-cases (smon_get_event events (to_u32 e))) [
          | inl unknown ↦
              rw (unknown, set_events) (set_events-IsStopped events (suc i) es s stop (omega arith))
          | inr (event, known) ↦
              let w : IsSetup (ia32_perfevtsel + i) = inr (inl (omega arith, omega arith)) in
              rw (known, set_events)
                (set_events-IsStopped events (suc i) es
                  (msr_write cpu s (ia32_perfevtsel + i) event.perfevtsel)
                  (stays cpu IsStopped keeps s (ia32_perfevtsel + i) event.perfevtsel stop w)
                  (omega arith))
        ]

    smon_pmc_set-IsStopped :
        (events : Events) (evset : EvSet) (s : S)
        → IsStopped s
        → length evset.evids ≡ max_gp_ctrs
        → IsStopped (smon_pmc_set cpu events evset s)
    unfolding smon_pmc_set smon_pmc_clr_overflows
    smon_pmc_set-IsStopped events evset s stop four =
        let fixed : S = msr_write cpu s ia32_fixed_ctr_ctrl evset.fixed_ctrl in
        let on =
          stays cpu IsStopped keeps s ia32_fixed_ctr_ctrl evset.fixed_ctrl stop
            (inr (inr (inl refl))) in
        stays cpu IsStopped keeps (set_events cpu events 0 evset.evids fixed)
          ia32_perf_global_ovf_ctrl 0
          (set_events-IsStopped events 0 evset.evids fixed on (omega arith)) (inr (inr (inr refl)))

    smon_pmc_stop-IsStopped : (s : S) → IsStopped (smon_pmc_stop cpu s)
    unfolding smon_pmc_stop msr_write
    smon_pmc_stop-IsStopped s = rw (bit_and-mask 32 0) (keeps.stops s)

    -- When a task is switched out of a core, the core is left stopped. When it is switched in again,
    -- on the same core or another that is stopped, with the same event-set of four places, its
    -- counters hold, at the moment when they are started, what they held when it was switched out,
    -- whatever `found` else is in the registers; all counts below 2^48, on cores that keep stopped
    -- counters as `Keeps` says.
    pub start_evset-stop_evset :
        (events : Events) (evset : EvSet) (on off : ℕ) (task : Task) (left found : S)
        → IsStopped found
        → length evset.evids ≡ max_gp_ctrs
        → AllBelow (smon_pmc_read cpu evset (smon_pmc_stop cpu left)).fx
        → AllBelow (smon_pmc_read cpu evset (smon_pmc_stop cpu left)).gp
        → IsStopped (stop_evset cpu evset off task left).1
          × ((ready : S) × IsStopped ready
              × ((start_evset cpu events evset on (stop_evset cpu evset off task left).0 found).1
                  ≡ smon_pmc_start cpu evset ready)
              × (smon_pmc_read cpu evset ready ≡ smon_pmc_read cpu evset (smon_pmc_stop cpu left)))
    unfolding start_evset stop_evset smon_pmc_read
    start_evset-stop_evset events evset on off task left found stop four a b =
        let stopped : S = smon_pmc_stop cpu left in
        let counts : Pmc = smon_pmc_read cpu evset stopped in
        let set : S = smon_pmc_set cpu events evset found in
        let quiet = smon_pmc_set-IsStopped events evset found stop four in
        let three = length-read_ctrs ia32_fx_ctr (fx_used evset) stopped 0 max_fx_ctrs in
        let gp_four = length-read_ctrs ia32_gp_ctr (gp_used evset) stopped 0 max_gp_ctrs in
        let fx = masked-read_ctrs ia32_fx_ctr (fx_used evset) stopped 0 max_fx_ctrs in
        let gp = masked-read_ctrs ia32_gp_ctr (gp_used evset) stopped 0 max_gp_ctrs in
        (
          smon_pmc_stop-IsStopped left,
          (
            smon_pmc_write cpu counts set,
            smon_pmc_write-IsStopped cpu IsStopped keeps counts set quiet three gp_four,
            refl,
            smon_pmc_write-read cpu IsStopped keeps counts evset set quiet three gp_four a b
                ∙ (λ i. record { fx = fx i; gp = gp i }),
          ),
        )
