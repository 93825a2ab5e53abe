-- ===== src/Cmd/Roof.antt =====
-- tool/src/cmd.c: the options of `smon roof`, in the form of those of `smon profile`.
use schedmon.Prelude.{
  ℕ, ◌≡◌, ◌<◌, refl, subst, arith, Bool, true, Option, none, some, List, [], ◌∷◌, if◌then◌else◌,
  pos, negsuc, replicate, ltb,
}
use schedmon.Envir.{
  envop_inh, envop_exe, envop_rap, envop_cpu, envop_fork, envop_sched, default_sample_time,
}
use schedmon.Cmd.Profile.{
  ProfileOpt, opt_b, opt_c, opt_p, opt_t, opt_e, opt_f, opt_i, opt_m, opt_r, opt_s, opt_unknown,
  opt_o, Profile, default_burst, default_mmap_pages, mmap_case, add_option,
}

-- `count_mode` is set if no samples are wanted.
pub record Roof : Type 0 where
  pub cmd : Profile
  pub count_mode : ℕ

unfoldable pub roof_option : ℕ → Roof → Roof
roof_option op c = record c { cmd = add_option op c.cmd }

-- `-e` is not an option here: getopt reports it as unknown.
unfoldable pub scan_roof : Roof → List ProfileOpt → Roof
scan_roof c [] = c
scan_roof c (opt_b tmp ∷ opts) =
    scan_roof
      (record c {
        cmd = record c.cmd {
          envir = record c.cmd.envir { batch_size = if ltb 0 tmp then tmp else default_burst };
        };
      })
      opts
scan_roof c (opt_c tmp ∷ opts) = scan_roof (record c { cmd = record c.cmd { cpumask = tmp } }) opts
scan_roof c (opt_p tmp ∷ opts) =
    scan_roof
      (record c {
        cmd = record c.cmd { mmap_pages = if mmap_case tmp then tmp else default_mmap_pages };
      })
      opts
scan_roof c (opt_t tmp ∷ opts) =
    scan_roof
      (record c {
        cmd = record c.cmd {
          envir = record c.cmd.envir {
            sample_time = if ltb 0 tmp then tmp else c.cmd.envir.sample_time;
          };
        };
        count_mode = if ltb 0 tmp then c.count_mode else 1;
      })
      opts
scan_roof c (opt_e es ∷ opts) = scan_roof c opts
scan_roof c (opt_f ∷ opts) = scan_roof (roof_option envop_fork c) opts
scan_roof c (opt_i ∷ opts) = scan_roof (roof_option envop_inh c) opts
scan_roof c (opt_m ∷ opts) = scan_roof (roof_option envop_cpu c) opts
scan_roof c (opt_r ∷ opts) = scan_roof (roof_option envop_rap c) opts
scan_roof c (opt_s ∷ opts) = scan_roof (roof_option envop_sched c) opts
scan_roof c (opt_unknown ∷ opts) = scan_roof c opts
scan_roof c (opt_o file ∷ opts) =
    scan_roof (record c { cmd = record c.cmd { out_file = file } }) opts

-- What stands before the loop: the event-sets 0 and 1; the mask of processors is not set there.
unfoldable pub roof_defaults : ℕ → List ℕ → Roof
roof_defaults cpumask file = record {
  cmd = record {
    envir = record {
      esids = pos 0 ∷ pos 1 ∷ negsuc 0 ∷ replicate 29 (pos 0);
      n_esids = 2;
      sample_time = default_sample_time;
      batch_size = default_burst;
      options = envop_exe;
      count = 0;
    };
    cpumask = cpumask;
    mmap_pages = default_mmap_pages;
    out_file = file;
    eflag = 0;
  };
  count_mode = 0;
}

unfoldable pub parse_roof : Bool → ℕ → List ℕ → List ProfileOpt → Option Roof
parse_roof prog cpumask file opts =
    if prog then some (scan_roof (roof_defaults cpumask file) opts) else none

scan_roof-time :
    (opts : List ProfileOpt) (c : Roof)
    → 0 < c.cmd.envir.sample_time
    → c.cmd.envir.n_esids ≡ 2
    → (0 < (scan_roof c opts).cmd.envir.sample_time) × ((scan_roof c opts).cmd.envir.n_esids ≡ 2)
unfolding scan_roof roof_option add_option
scan_roof-time [] c p n = (p, n)
scan_roof-time (opt_b tmp ∷ opts) c p n = scan_roof-time opts _ p n
scan_roof-time (opt_c tmp ∷ opts) c p n = scan_roof-time opts _ p n
scan_roof-time (opt_p tmp ∷ opts) c p n = scan_roof-time opts _ p n
scan_roof-time (opt_t tmp ∷ opts) c p n =
    let positive : 0 < (if ltb 0 tmp then tmp else c.cmd.envir.sample_time) = ground arith in
    scan_roof-time opts _ positive n
scan_roof-time (opt_e es ∷ opts) c p n = scan_roof-time opts c p n
scan_roof-time (opt_f ∷ opts) c p n = scan_roof-time opts _ p n
scan_roof-time (opt_i ∷ opts) c p n = scan_roof-time opts _ p n
scan_roof-time (opt_m ∷ opts) c p n = scan_roof-time opts _ p n
scan_roof-time (opt_r ∷ opts) c p n = scan_roof-time opts _ p n
scan_roof-time (opt_s ∷ opts) c p n = scan_roof-time opts _ p n
scan_roof-time (opt_unknown ∷ opts) c p n = scan_roof-time opts c p n
scan_roof-time (opt_o file ∷ opts) c p n = scan_roof-time opts _ p n

-- Whatever its options, `smon roof` with a program asks for two event-sets and a sample time that is not
-- 0.
parse_roof-time :
    (cpumask : ℕ) (file : List ℕ) (opts : List ProfileOpt) {c : Roof}
    → parse_roof true cpumask file opts ≡ some c
    → (0 < c.cmd.envir.sample_time) × (c.cmd.envir.n_esids ≡ 2)
unfolding parse_roof roof_defaults
parse_roof-time cpumask file opts {c} e =
    let same : scan_roof (roof_defaults cpumask file) opts ≡ c = ground arith in
    subst (λ (c : Roof). (0 < c.cmd.envir.sample_time) × (c.cmd.envir.n_esids ≡ 2)) same
      (scan_roof-time opts (roof_defaults cpumask file) (omega arith) refl)
