-- ===== src/Cmd/Stat.antt =====
-- tool/src/cmd.c: the options of `smon stat`, in the form of those of `smon profile`.
use schedmon.Prelude.{
  ℕ, suc, ◌≡◌, ◌⊎◌, inl, inr, refl, ap, subst, arith, Bool, true, false, Option, none, some, List,
  [], ◌∷◌, bit_or, bit_and, ◌==◌, if◌then◌else◌, ℤ, pos, negsuc, replicate, Option-cases,
}
use schedmon.Envir.{
  Envir, mux_evsets, envop_inh, envop_exe, envop_stat, envop_rap, envop_cpu, envop_fork,
  envop_sched, clear, default_sample_time, copy_envir, stat_mode, smon_create_envir,
  envir_option_stat,
}
use schedmon.Cmd.Profile.{Profile, collect, add_option}

pub data StatOpt : Type 0 where
  stat_c : ℕ → StatOpt
  stat_e : List ℤ → StatOpt
  stat_i stat_unknown : StatOpt
  stat_o : List ℕ → StatOpt

-- Of the ids only the first stays.
unfoldable pub first_id : List ℤ → ℤ
first_id [] = negsuc 0
first_id (e ∷ es) = e

unfoldable pub set_first : List ℤ → Profile → Profile
set_first esids c = record c {
  envir = record c.envir { n_esids = 1; esids = first_id esids ∷ replicate 31 (negsuc 0) };
  eflag = suc c.eflag;
}

unfoldable pub scan_stat : Profile → List StatOpt → Option Profile
scan_stat c [] = some c
scan_stat c (stat_c tmp ∷ opts) = scan_stat (record c { cpumask = tmp }) opts
scan_stat c (stat_e [] ∷ opts) = none
scan_stat c (stat_e (e ∷ es) ∷ opts) = elim (collect [] (e ∷ es)) [
  | none ↦ none
  | some esids ↦ scan_stat (set_first esids c) opts
]
scan_stat c (stat_i ∷ opts) = scan_stat (add_option envop_inh c) opts
scan_stat c (stat_unknown ∷ opts) = scan_stat c opts
scan_stat c (stat_o file ∷ opts) = scan_stat (record c { out_file = file }) opts

-- What stands before the loop; the mask of processors is not set there.
unfoldable pub stat_defaults : ℕ → List ℕ → Profile
stat_defaults cpumask file = record {
  envir = record {
    esids = replicate mux_evsets (pos 0);
    n_esids = 0;
    sample_time = default_sample_time;
    batch_size = 1;
    options = bit_or envop_exe envop_stat;
    count = 0;
  };
  cpumask = cpumask;
  mmap_pages = 8;
  out_file = file;
  eflag = 0;
}

unfoldable pub parse_stat : Bool → ℕ → List ℕ → List StatOpt → Option Profile
parse_stat prog cpumask file opts = elim (scan_stat (stat_defaults cpumask file) opts) [
  | none ↦ none
  | some c ↦ if prog then if c.eflag == 0 then none else some c else none
]

-- The options on exec and stat, and perhaps inherit; one event-set, once there is any.
abbrev Asks : Profile → Type 0
Asks c = ((c.envir.options ≡ 66) ⊎ (c.envir.options ≡ 67)) × ((c.eflag ≡ 0) ⊎ (c.envir.n_esids ≡ 1))

inherited : (x : ℕ) → (x ≡ 66) ⊎ (x ≡ 67) → (bit_or x envop_inh ≡ 66) ⊎ (bit_or x envop_inh ≡ 67)
inherited x (inl p) = inr (ap (λ y. bit_or y 1) p)
inherited x (inr p) = inr (ap (λ y. bit_or y 1) p)

scan_stat-Asks :
    (opts : List StatOpt) (c : Profile) {r : Profile} → scan_stat c opts ≡ some r → Asks c → Asks r
unfolding scan_stat set_first add_option
scan_stat-Asks [] c {r} e v = let same : c ≡ r = ground arith in subst Asks same v
scan_stat-Asks (stat_c tmp ∷ opts) c e v = scan_stat-Asks opts _ e v
scan_stat-Asks (stat_e [] ∷ opts) c e v = absurd (ground arith)
scan_stat-Asks (stat_e (i ∷ is) ∷ opts) c {r} e (v, w) = elim (Option-cases (collect [] (i ∷ is))) [
  | inl n ↦ absurd (ground arith)
  | inr (esids, q) ↦
      let left : scan_stat (set_first esids c) opts ≡ some r = ground arith in
      scan_stat-Asks opts (set_first esids c) left (v, inr refl)
]
scan_stat-Asks (stat_i ∷ opts) c e (v, w) = scan_stat-Asks opts _ e (inherited c.envir.options v, w)
scan_stat-Asks (stat_unknown ∷ opts) c e v = scan_stat-Asks opts c e v
scan_stat-Asks (stat_o file ∷ opts) c e v = scan_stat-Asks opts _ e v

-- What the stat mode of the driver leaves.
abbrev dropped : ℕ → ℕ
dropped x = clear (clear (clear (clear x envop_rap) envop_cpu) envop_fork) envop_sched

stat_asked :
    (envir : Envir) {new : Envir}
    → (envir.options ≡ 66) ⊎ (envir.options ≡ 67)
    → envir.n_esids ≡ 1
    → smon_create_envir true envir ≡ some new
    → (new.options ≡ envir.options) × (new.n_esids ≡ envir.n_esids)
unfolding smon_create_envir copy_envir stat_mode envir_option_stat
stat_asked envir (inl p) n e =
    let stat : bit_and envir.options envop_stat ≡ 64 = ap (λ x. bit_and x envop_stat) p in
    let left : dropped envir.options ≡ 66 = ap dropped p in (ground arith, ground arith)
stat_asked envir (inr p) n e =
    let stat : bit_and envir.options envop_stat ≡ 64 = ap (λ x. bit_and x envop_stat) p in
    let left : dropped envir.options ≡ 67 = ap dropped p in (ground arith, ground arith)

-- The options and the number of event-sets that an accepted `smon stat` asks for are those that the
-- driver gives the environment of its task: what the stat mode drops was not asked for.
pub parse_stat-kept :
    (prog : Bool) (cpumask : ℕ) (file : List ℕ) (opts : List StatOpt) {c : Profile} {new : Envir}
    → parse_stat prog cpumask file opts ≡ some c
    → smon_create_envir true c.envir ≡ some new
    → (new.options ≡ c.envir.options) × (new.n_esids ≡ c.envir.n_esids)
unfolding parse_stat stat_defaults
parse_stat-kept prog cpumask file opts {c} e m =
    elim (Option-cases (scan_stat (stat_defaults cpumask file) opts)) [
      | inl n ↦ absurd (ground arith)
      | inr (r, q) ↦
          let same : r ≡ c = ground arith in
          let some_set : (c.eflag == 0) ≡ false = ground arith in
          let (options, sets) = subst Asks same (scan_stat-Asks opts _ q (inl refl, inl refl)) in
          stat_asked c.envir options (ground arith) m
    ]

-- An accepted `smon stat` is followed by a program and has one event-set.
pub parse_stat-one :
    (prog : Bool) (cpumask : ℕ) (file : List ℕ) (opts : List StatOpt) {c : Profile}
    → parse_stat prog cpumask file opts ≡ some c
    → (prog ≡ true) × (c.envir.n_esids ≡ 1)
unfolding parse_stat stat_defaults
parse_stat-one prog cpumask file opts {c} e =
    elim (Option-cases (scan_stat (stat_defaults cpumask file) opts)) [
      | inl n ↦ absurd (ground arith)
      | inr (r, q) ↦
          let same : r ≡ c = ground arith in
          let some_set : (c.eflag == 0) ≡ false = ground arith in
          let (options, sets) = subst Asks same (scan_stat-Asks opts _ q (inl refl, inl refl)) in
          (ground arith, ground arith)
    ]
