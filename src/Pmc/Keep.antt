-- ===== src/Pmc/Keep.antt =====
-- What the counters of a core keep.
use schedmon.Prelude.{
  ℕ, suc, ◌+◌, ◌*◌, ◌-◌, ◌/◌, ◌%◌, ◌^◌, ◌≤◌, ◌<◌, ◌≡◌, ◌≢◌, ◌⊎◌, inl, inr, refl, subst, ◌∙◌, arith,
  Bool, List, [], ◌∷◌, length, bit_and, bit_and-mask, bit_or-join, bit_or_comm, if◌then◌else◌,
}
use schedmon.Ring.Index.{u32}
use schedmon.EvSet.{EvSet, max_gp_ctrs}
use schedmon.Pmc.{
  Cpu, Pmc, max_fx_ctrs, ia32_fx_ctr, ia32_gp_ctr, ia32_perf_global_ovf_ctrl, ia32_perf_global_ctrl,
  ia32_perfevtsel, ia32_fixed_ctr_ctrl, msr_read, msr_write, smon_pmc_clr_overflows, write_ctrs,
  read_ctrs, smon_pmc_write, fx_used, gp_used, smon_pmc_read,
}

-- The addresses of the counters.
abbrev pub IsCtr : ℕ → Type 0
IsCtr n =
    ((ia32_fx_ctr ≤ n) × (n < ia32_fx_ctr + max_fx_ctrs))
    ⊎ ((ia32_gp_ctr ≤ n) × (n < ia32_gp_ctr + max_gp_ctrs))

abbrev pub ctr_limit : ℕ
ctr_limit = 2 ^ 48

-- The registers that the driver writes while the counters are stopped: the counters, what they
-- select, the control of the fixed counters, and the register that clears overflows.
abbrev pub IsSetup : ℕ → Type 0
IsSetup n =
    IsCtr n
    ⊎ (((ia32_perfevtsel ≤ n) × (n < ia32_perfevtsel + max_gp_ctrs))
        ⊎ ((n ≡ ia32_fixed_ctr_ctrl) ⊎ (n ≡ ia32_perf_global_ovf_ctrl)))

-- The documented behaviour of stopped counters, which are 48 bits wide: a counter keeps what is
-- written to it, a write to another of these registers leaves it alone, and the counters stay
-- stopped. A write of 0 to the global control stops them and leaves them stopped.
pub record Keeps {S : Type 0} (cpu : Cpu S) (IsStopped : S → Type 0) : Type 0 where
  pub own :
      (s : S) (n lo hi : ℕ)
      → IsStopped s
      → IsCtr n
      → lo < u32
      → hi * u32 + lo < ctr_limit
      → cpu.rdmsr (cpu.wrmsr s n lo hi) n ≡ (lo, hi)
  pub other :
      (s : S) (m n lo hi : ℕ)
      → IsStopped s
      → IsCtr m
      → IsSetup n
      → m ≢ n
      → cpu.rdmsr (cpu.wrmsr s n lo hi) m ≡ cpu.rdmsr s m
  pub stays : (s : S) (n lo hi : ℕ) → IsStopped s → IsSetup n → IsStopped (cpu.wrmsr s n lo hi)
  pub stops : (s : S) → IsStopped (cpu.wrmsr s ia32_perf_global_ctrl 0 0)

abbrev pub AllBelow : List ℕ → Type 0
AllBelow [] = Unit {0}
AllBelow (v ∷ vs) = (v < ctr_limit) × AllBelow vs

-- The values of the counters in use, and 0 for the others.
abbrev pub masked : (ℕ → Bool) → ℕ → List ℕ → List ℕ
masked used i [] = []
masked used i (v ∷ vs) = (if used i then v else 0) ∷ masked used (suc i) vs

module _ {S : Type 0} (cpu : Cpu S) (IsStopped : S → Type 0) (keeps : Keeps cpu IsStopped) where
  own :
      (s : S) (n v : ℕ)
      → IsStopped s
      → IsCtr n
      → v < ctr_limit
      → msr_read cpu (msr_write cpu s n v) n ≡ v
  unfolding msr_read msr_write
  own s n v stop c h =
      let low : bit_and v (u32 - 1) ≡ v % u32 = bit_and-mask 32 v in
      let narrow : v % u32 < u32 = omega arith in
      let whole : v / u32 % u32 * u32 + v % u32 ≡ v = omega arith in
      rw
        (
          low,
          keeps.own s n (v % u32) (v / u32 % u32) stop c narrow (omega arith),
          msr_read,
          msr_write,
        )
        (bit_or_comm (v % u32) (v / u32 % u32 * u32)
          ∙ bit_or-join 32 (v / u32 % u32) (v % u32) narrow
          ∙ whole)

  other :
      (s : S) (m n v : ℕ)
      → IsStopped s
      → IsCtr m
      → IsSetup n
      → m ≢ n
      → msr_read cpu (msr_write cpu s n v) m ≡ msr_read cpu s m
  unfolding msr_read msr_write
  other s m n v stop c w d =
      rw (keeps.other s m n (bit_and v (u32 - 1)) (v / u32 % u32) stop c w d) refl

  pub stays : (s : S) (n v : ℕ) → IsStopped s → IsSetup n → IsStopped (msr_write cpu s n v)
  unfolding msr_write
  stays s n v stop w = keeps.stays s n (bit_and v (u32 - 1)) (v / u32 % u32) stop w

  abbrev AllCtr : ℕ → ℕ → List ℕ → Type 0
  AllCtr base i [] = Unit {0}
  AllCtr base i (v ∷ vs) = IsCtr (base + i) × AllCtr base (suc i) vs

  write_ctrs-IsStopped :
      (base i : ℕ) (vs : List ℕ) (s : S)
      → IsStopped s
      → AllCtr base i vs
      → IsStopped (write_ctrs cpu base i vs s)
  unfolding write_ctrs
  write_ctrs-IsStopped base i [] s stop all = stop
  write_ctrs-IsStopped base i (v ∷ vs) s stop all =
      write_ctrs-IsStopped base (suc i) vs (msr_write cpu s (base + i) v)
        (stays s (base + i) v stop (inl all.0)) all.1

  -- The counters of a loop that stands below `m`, or above it, leave `m` alone.
  write_ctrs-other :
      (base i m : ℕ) (vs : List ℕ) (s : S)
      → IsStopped s
      → AllCtr base i vs
      → IsCtr m
      → (m < base + i) ⊎ (base + i + length vs ≤ m)
      → msr_read cpu (write_ctrs cpu base i vs s) m ≡ msr_read cpu s m
  unfolding write_ctrs
  write_ctrs-other base i m [] s stop all c o = refl
  write_ctrs-other base i m (v ∷ vs) s stop all c o =
      let apart : m ≢ base + i = ground arith in
      let off : (m < base + suc i) ⊎ (base + suc i + length vs ≤ m) = ground arith in
      write_ctrs-other base (suc i) m vs (msr_write cpu s (base + i) v)
        (stays s (base + i) v stop (inl all.0)) all.1 c off
      ∙ other s m (base + i) v stop c (inl all.0) apart

  -- The values of the counters from `base + i` on.
  abbrev Stand : ℕ → ℕ → List ℕ → S → Type 0
  Stand base i [] s = Unit {0}
  Stand base i (v ∷ vs) s = (msr_read cpu s (base + i) ≡ v) × Stand base (suc i) vs s

  write_ctrs-Stand :
      (base i : ℕ) (vs : List ℕ) (s : S)
      → IsStopped s
      → AllCtr base i vs
      → AllBelow vs
      → Stand base i vs (write_ctrs cpu base i vs s)
  unfolding write_ctrs
  write_ctrs-Stand base i [] s stop c b = tt
  write_ctrs-Stand base i (v ∷ vs) s stop c b =
      let on = stays s (base + i) v stop (inl c.0) in
      (
        write_ctrs-other base (suc i) (base + i) vs (msr_write cpu s (base + i) v) on c.1 c.0
              (inl (omega arith))
            ∙ own s (base + i) v stop c.0 b.0,
        write_ctrs-Stand base (suc i) vs (msr_write cpu s (base + i) v) on c.1 b.1,
      )

  read_ctrs-Stand :
      (base i : ℕ) (used : ℕ → Bool) (vs : List ℕ) (s : S)
      → Stand base i vs s
      → read_ctrs cpu base used s i (length vs) ≡ masked used i vs
  unfolding read_ctrs
  read_ctrs-Stand base i used [] s r = refl
  read_ctrs-Stand base i used (v ∷ vs) s r =
      rw (r.0, read_ctrs-Stand base (suc i) used vs s r.1) refl

  AllCtr-range :
      (base i : ℕ) (vs : List ℕ)
      → ((m : ℕ) → base + i ≤ m → m < base + i + length vs → IsCtr m)
      → AllCtr base i vs
  AllCtr-range base i [] c = tt
  AllCtr-range base i (v ∷ vs) c = (
    c (base + i) (omega arith) (omega arith),
    AllCtr-range base (suc i) vs (λ m p q. c m (omega arith) (omega arith)),
  )

  -- Values stay when all the counters of a loop do.
  Stand-keep :
      (base i : ℕ) (vs : List ℕ) (s after : S)
      → ((m : ℕ)
          → base + i ≤ m
          → m < base + i + length vs
          → msr_read cpu after m ≡ msr_read cpu s m)
      → Stand base i vs s
      → Stand base i vs after
  Stand-keep base i [] s after keep r = tt
  Stand-keep base i (v ∷ vs) s after keep r = (
    keep (base + i) (omega arith) (omega arith) ∙ r.0,
    Stand-keep base (suc i) vs s after (λ m p q. keep m (omega arith) (omega arith)) r.1,
  )

  AllCtr-fx : (vs : List ℕ) → length vs ≡ max_fx_ctrs → AllCtr ia32_fx_ctr 0 vs
  AllCtr-fx vs f = AllCtr-range ia32_fx_ctr 0 vs (λ m p q. inl (omega arith, omega arith))

  AllCtr-gp : (vs : List ℕ) → length vs ≡ max_gp_ctrs → AllCtr ia32_gp_ctr 0 vs
  AllCtr-gp vs g = AllCtr-range ia32_gp_ctr 0 vs (λ m p q. inr (omega arith, omega arith))

  overflows-IsSetup : IsSetup ia32_perf_global_ovf_ctrl
  overflows-IsSetup = inr (inr (inr refl))

  module _ (pmc : Pmc) (s : S) (stop : IsStopped s) (f : length pmc.fx ≡ max_fx_ctrs)
      (g : length pmc.gp ≡ max_gp_ctrs) where
    abbrev with_fx : S
    with_fx = write_ctrs cpu ia32_fx_ctr 0 pmc.fx s

    abbrev with_gp : S
    with_gp = write_ctrs cpu ia32_gp_ctr 0 pmc.gp with_fx

    fx-IsStopped : IsStopped with_fx
    fx-IsStopped = write_ctrs-IsStopped ia32_fx_ctr 0 pmc.fx s stop (AllCtr-fx pmc.fx f)

    gp-IsStopped : IsStopped with_gp
    gp-IsStopped =
        write_ctrs-IsStopped ia32_gp_ctr 0 pmc.gp with_fx fx-IsStopped (AllCtr-gp pmc.gp g)

    pub smon_pmc_write-IsStopped : IsStopped (smon_pmc_write cpu pmc s)
    unfolding smon_pmc_write smon_pmc_clr_overflows
    smon_pmc_write-IsStopped =
        stays with_gp ia32_perf_global_ovf_ctrl 0 gp-IsStopped overflows-IsSetup

    fx_kept : AllBelow pmc.fx → Stand ia32_fx_ctr 0 pmc.fx (smon_pmc_clr_overflows cpu with_gp)
    unfolding smon_pmc_clr_overflows
    fx_kept a =
        Stand-keep ia32_fx_ctr 0 pmc.fx with_fx (smon_pmc_clr_overflows cpu with_gp)
          (λ m p q.
            other with_gp m ia32_perf_global_ovf_ctrl 0 gp-IsStopped
              (inl (omega arith, omega arith)) overflows-IsSetup (omega arith)
            ∙ write_ctrs-other ia32_gp_ctr 0 m pmc.gp with_fx fx-IsStopped (AllCtr-gp pmc.gp g)
                (inl (omega arith, omega arith)) (inl (omega arith)))
          (write_ctrs-Stand ia32_fx_ctr 0 pmc.fx s stop (AllCtr-fx pmc.fx f) a)

    gp_kept : AllBelow pmc.gp → Stand ia32_gp_ctr 0 pmc.gp (smon_pmc_clr_overflows cpu with_gp)
    unfolding smon_pmc_clr_overflows
    gp_kept b =
        Stand-keep ia32_gp_ctr 0 pmc.gp with_gp (smon_pmc_clr_overflows cpu with_gp)
          (λ m p q.
            other with_gp m ia32_perf_global_ovf_ctrl 0 gp-IsStopped
              (inr (omega arith, omega arith)) overflows-IsSetup (omega arith))
          (write_ctrs-Stand ia32_gp_ctr 0 pmc.gp with_fx fx-IsStopped (AllCtr-gp pmc.gp g) b)

  -- The counts that smon_pmc_write puts into the counters of a core are those that smon_pmc_read
  -- gives back, with 0 for a counter that the event-set does not use; with the counters stopped,
  -- all counts below 2^48, and a core that keeps stopped counters as `Keeps` says.
  pub smon_pmc_write-read :
      (pmc : Pmc) (evset : EvSet) (s : S)
      → IsStopped s
      → length pmc.fx ≡ max_fx_ctrs
      → length pmc.gp ≡ max_gp_ctrs
      → AllBelow pmc.fx
      → AllBelow pmc.gp
      → smon_pmc_read cpu evset (smon_pmc_write cpu pmc s)
        ≡ record { fx = masked (fx_used evset) 0 pmc.fx; gp = masked (gp_used evset) 0 pmc.gp }
  unfolding smon_pmc_read smon_pmc_write
  smon_pmc_write-read pmc evset s stop f g a b =
      let after : S = smon_pmc_clr_overflows cpu (with_gp pmc s stop f g) in
      let fx : read_ctrs cpu ia32_fx_ctr (fx_used evset) after 0 max_fx_ctrs
          ≡ masked (fx_used evset) 0 pmc.fx =
        subst
          (λ n.
            read_ctrs cpu ia32_fx_ctr (fx_used evset) after 0 n ≡ masked (fx_used evset) 0 pmc.fx)
          f
          (read_ctrs-Stand ia32_fx_ctr 0 (fx_used evset) pmc.fx after (fx_kept pmc s stop f g a)) in
      let gp : read_ctrs cpu ia32_gp_ctr (gp_used evset) after 0 max_gp_ctrs
          ≡ masked (gp_used evset) 0 pmc.gp =
        subst
          (λ n.
            read_ctrs cpu ia32_gp_ctr (gp_used evset) after 0 n ≡ masked (gp_used evset) 0 pmc.gp)
          g
          (read_ctrs-Stand ia32_gp_ctr 0 (gp_used evset) pmc.gp after (gp_kept pmc s stop f g b)) in
      λ i. record { fx = fx i; gp = gp i }
