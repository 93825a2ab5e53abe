-- ===== src/Pmc/Program.antt =====
-- smon_pmc_set: the events that an event-set programs.
use schedmon.Prelude.{
  ℕ, zero, suc, ◌+◌, ◌-◌, ◌*◌, ◌/◌, ◌%◌, ◌<◌, ◌≡◌, ◌≢◌, refl, sym, ◌∙◌, arith, some, List, [], ◌∷◌,
  get_elem?, bit_and, bit_and-mask, bit_or-join, bit_or_comm, ℤ, to_u32, Option-cases, inl, inr,
}
use schedmon.Ring.Index.{u32}
use schedmon.Event.{Event, Events, smon_get_event}
use schedmon.EvSet.{EvSet, max_gp_ctrs}
use schedmon.Pmc.{
  Cpu, ia32_perfevtsel, ia32_fixed_ctr_ctrl, ia32_perf_global_ovf_ctrl, msr_read, msr_write,
  set_events, smon_pmc_set, smon_pmc_clr_overflows,
}

-- The documented behaviour of the event select registers, whose upper halves are reserved: each keeps
-- what is written to its lower Half, and a write to another register leaves it alone.
pub record Selects {S : Type 0} (cpu : Cpu S) : Type 0 where
  pub own :
      (s : S) (i lo : ℕ)
      → i < max_gp_ctrs
      → lo < u32
      → cpu.rdmsr (cpu.wrmsr s (ia32_perfevtsel + i) lo 0) (ia32_perfevtsel + i) ≡ (lo, 0)
  pub other :
      (s : S) (i n lo hi : ℕ)
      → i < max_gp_ctrs
      → ia32_perfevtsel + i ≢ n
      → cpu.rdmsr (cpu.wrmsr s n lo hi) (ia32_perfevtsel + i) ≡ cpu.rdmsr s (ia32_perfevtsel + i)

module _ {S : Type 0} (cpu : Cpu S) (selects : Selects cpu) where
  select_own :
      (s : S) (i v : ℕ)
      → i < max_gp_ctrs
      → v < u32
      → msr_read cpu (msr_write cpu s (ia32_perfevtsel + i) v) (ia32_perfevtsel + i) ≡ v
  unfolding msr_read msr_write
  select_own s i v c h =
      let low : bit_and v (u32 - 1) ≡ v = bit_and-mask 32 v ∙ omega arith in
      let high : v / u32 % u32 ≡ 0 = omega arith in
      rw (low, high, selects.own s i v c h, msr_read, msr_write)
        (bit_or_comm v (0 * u32) ∙ bit_or-join 32 0 v h ∙ omega arith)

  select_other :
      (s : S) (i n v : ℕ)
      → i < max_gp_ctrs
      → ia32_perfevtsel + i ≢ n
      → msr_read cpu (msr_write cpu s n v) (ia32_perfevtsel + i)
        ≡ msr_read cpu s (ia32_perfevtsel + i)
  unfolding msr_read msr_write
  select_other s i n v c d = rw (selects.other s i n (bit_and v (u32 - 1)) (v / u32 % u32) c d) refl

  set_events-before :
      (events : Events) (i j : ℕ) (es : List ℤ) (s : S)
      → i < j
      → i < max_gp_ctrs
      → msr_read cpu (set_events cpu events j es s) (ia32_perfevtsel + i)
        ≡ msr_read cpu s (ia32_perfevtsel + i)
  unfolding set_events
  set_events-before events i j [] s h c = refl
  set_events-before events i j (e ∷ es) s h c =
      elim (Option-cases (smon_get_event events (to_u32 e))) [
        | inl n ↦ rw (set_events, n) (set_events-before events i (suc j) es s (omega arith) c)
        | inr (event, q) ↦
            rw (set_events, q)
              (set_events-before events i (suc j) es
                  (msr_write cpu s (ia32_perfevtsel + j) event.perfevtsel) (omega arith) c
                ∙ select_other s i (ia32_perfevtsel + j) event.perfevtsel c (omega arith))
      ]

  set_events-at :
      (events : Events) (j k : ℕ) (es : List ℤ) (s : S) {e : ℤ} {event : Event}
      → get_elem? es k ≡ some e
      → smon_get_event events (to_u32 e) ≡ some event
      → j + k < max_gp_ctrs
      → event.perfevtsel < u32
      → msr_read cpu (set_events cpu events j es s) (ia32_perfevtsel + (j + k)) ≡ event.perfevtsel
  unfolding set_events
  set_events-at events j k [] s f q c h = absurd (ground arith)
  set_events-at events j zero (x ∷ es) s {e} {event} f q c h =
      let found : smon_get_event events (to_u32 x) ≡ some event = ground arith in
      let here : j + 0 ≡ j = omega arith in
      rw (here, set_events, found)
        (set_events-before events j (suc j) es
            (msr_write cpu s (ia32_perfevtsel + j) event.perfevtsel) (omega arith) (omega arith)
          ∙ select_own s j event.perfevtsel (omega arith) h)
  set_events-at events j (suc k) (x ∷ es) s {e} {event} f q c h =
      let next : j + suc k ≡ suc j + k = omega arith in
      let rest : (t : S)
          → msr_read cpu (set_events cpu events (suc j) es t) (ia32_perfevtsel + (suc j + k))
            ≡ event.perfevtsel =
        λ t. set_events-at events (suc j) k es t {e = e} f q (omega arith) h in
      rw next (elim (Option-cases (smon_get_event events (to_u32 x))) [
        | inl n ↦ rw (set_events, n) (rest s)
        | inr (y, p) ↦
            rw (set_events, p) (rest (msr_write cpu s (ia32_perfevtsel + j) y.perfevtsel))
      ])

  -- smon_pmc_set programs counter `i` with the event that place `i` of the event-set names, of a
  -- select value below 2^32.
  pub smon_pmc_set-selects :
      (events : Events) (evset : EvSet) (s : S) (i : ℕ) {e : ℤ} {event : Event}
      → get_elem? evset.evids i ≡ some e
      → smon_get_event events (to_u32 e) ≡ some event
      → i < max_gp_ctrs
      → event.perfevtsel < u32
      → msr_read cpu (smon_pmc_set cpu events evset s) (ia32_perfevtsel + i) ≡ event.perfevtsel
  unfolding smon_pmc_set smon_pmc_clr_overflows
  smon_pmc_set-selects events evset s i {e} {event} f q c h =
      let start : S = msr_write cpu s ia32_fixed_ctr_ctrl evset.fixed_ctrl in
      let same : 0 + i ≡ i = omega arith in
      select_other (set_events cpu events 0 evset.evids start) i ia32_perf_global_ovf_ctrl 0 c
        (omega arith)
      ∙ (rw (sym same) (set_events-at events 0 i evset.evids start {e = e} f q (omega arith) h))
