-- ===== src/Cmd/Profile.antt =====
-- tool/src/cmd.c: the options of `smon profile`. The list is what getopt gives, with numbers read by
-- strtoul into an `unsigned int` and ids into an `int`; `prog` is whether a program follows them.
pub mod Bounds
use schedmon.Prelude.{
  ℕ, zero, suc, ◌+◌, ◌-◌, ◌%◌, Bool, true, false, not, ◌||◌, Option, none, some, List, [], ◌∷◌,
  ◌++◌, length, replicate, bit_or, ltb, leb, ◌==◌, if◌then◌else◌, ℤ, pos, negsuc, is_neg,
}
use schedmon.EvSet.{max_evsets}
use schedmon.Envir.{
  Envir, mux_evsets, envop_inh, envop_exe, envop_rap, envop_cpu, envop_fork, envop_sched,
  default_sample_time,
}

abbrev pub default_burst : ℕ
default_burst = 1000

abbrev pub default_mmap_pages : ℕ
default_mmap_pages = 1024

pub data ProfileOpt : Type 0 where
  opt_b opt_c opt_p opt_t : ℕ → ProfileOpt
  opt_e : List ℤ → ProfileOpt
  opt_f opt_i opt_m opt_r opt_s opt_unknown : ProfileOpt
  opt_o : List ℕ → ProfileOpt

-- The environment that is built, and the fields of struct smon_cmd that the command sets.
pub record Profile : Type 0 where
  pub envir : Envir
  pub cpumask : ℕ
  pub mmap_pages : ℕ
  pub out_file : List ℕ
  pub eflag : ℕ

-- `esids[ntok] >= MAX_EVSETS`.
unfoldable pub esid_out_of_range : ℤ → Bool
esid_out_of_range (pos n) = leb max_evsets n
esid_out_of_range (negsuc n) = false

-- The loop over the tokens of `-e`: the ids that it stores, which are the ones that are not negative.
unfoldable pub collect : List ℤ → List ℤ → Option (List ℤ)
collect esids [] = some esids
collect esids (e ∷ es) =
    let more = collect (esids ++ e ∷ []) es in
    let same = collect esids es in
    if length esids == mux_evsets
    then none
    else if esid_out_of_range e
    then none
    else if is_neg e
    then same
    else more

unfoldable pub set_esids : List ℤ → Profile → Profile
set_esids esids c = record c {
  envir = record c.envir {
    n_esids = length esids;
    esids = esids ++ replicate (mux_evsets - length esids) (negsuc 0);
  };
  eflag = suc c.eflag;
}

unfoldable pub add_option : ℕ → Profile → Profile
add_option op c = record c { envir = record c.envir { options = bit_or c.envir.options op } }

-- The cases of `-p`.
unfoldable pub mmap_case : ℕ → Bool
mmap_case n =
    n == 2
    || (n == 4
        || (n == 8
            || (n == 16
                || (n == 32
                    || (n == 64
                        || (n == 128
                            || (n == 256
                                || (n == 512
                                    || (n == 1024
                                        || (n == 2048 || (n == 4096 || n == 8192)))))))))))

unfoldable pub scan_profile : Profile → List ProfileOpt → Option Profile
scan_profile c [] = some c
scan_profile c (opt_b tmp ∷ opts) =
    scan_profile
      (record c {
        envir = record c.envir { batch_size = if ltb 0 tmp then tmp else default_burst };
      })
      opts
scan_profile c (opt_c tmp ∷ opts) = scan_profile (record c { cpumask = tmp }) opts
scan_profile c (opt_p tmp ∷ opts) =
    scan_profile (record c { mmap_pages = if mmap_case tmp then tmp else default_mmap_pages }) opts
scan_profile c (opt_t tmp ∷ opts) =
    scan_profile (record c { envir = record c.envir { sample_time = tmp } }) opts
scan_profile c (opt_e [] ∷ opts) = none
scan_profile c (opt_e (e ∷ es) ∷ opts) = elim (collect [] (e ∷ es)) [
  | none ↦ none
  | some esids ↦ scan_profile (set_esids esids c) opts
]
scan_profile c (opt_f ∷ opts) = scan_profile (add_option envop_fork c) opts
scan_profile c (opt_i ∷ opts) = scan_profile (add_option envop_inh c) opts
scan_profile c (opt_m ∷ opts) = scan_profile (add_option envop_cpu c) opts
scan_profile c (opt_r ∷ opts) = scan_profile (add_option envop_rap c) opts
scan_profile c (opt_s ∷ opts) = scan_profile (add_option envop_sched c) opts
scan_profile c (opt_unknown ∷ opts) = scan_profile c opts
scan_profile c (opt_o file ∷ opts) = scan_profile (record c { out_file = file }) opts

-- What stands before the loop; `file` is DEFAULT_OFILE.
unfoldable pub profile_defaults : List ℕ → Profile
profile_defaults file = record {
  envir = record {
    esids = replicate mux_evsets (pos 0);
    n_esids = 0;
    sample_time = default_sample_time;
    batch_size = default_burst;
    options = envop_exe;
    count = 0;
  };
  cpumask = 0;
  mmap_pages = default_mmap_pages;
  out_file = file;
  eflag = 0;
}

unfoldable pub parse_profile : Bool → List ℕ → List ProfileOpt → Option Profile
parse_profile prog file opts = elim (scan_profile (profile_defaults file) opts) [
  | none ↦ none
  | some c ↦ if prog then if c.eflag == 0 then none else some c else none
]
