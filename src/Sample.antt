-- ===== src/Sample.antt =====
-- The samples of driver/smon.h, the bytes in which the driver writes them, and the numbers that the
-- tool prints from those bytes (fprint_sample_* of tool/src/profile.c). All numbers are bit patterns.
pub mod Printed
pub mod Tests
use schedmon.Prelude.{ℕ, ◌*◌, List, [], ◌∷◌, ◌++◌, le, load, replicate}
use schedmon.Pmc.{Pmc}
use schedmon.Rapl.{Rapl, Units}

pub record SamplePmc : Type 0 where
  pub timestamp_start : ℕ
  pub timestamp_stop : ℕ
  pub duration : ℕ
  pub pid : ℕ
  pub pmc : Pmc
  pub evset : ℕ

pub record SampleRapl : Type 0 where
  pub timestamp : ℕ
  pub duration : ℕ
  pub rapl : Rapl

pub record SampleCpu : Type 0 where
  pub timestamp : ℕ
  pub pid : ℕ
  pub old_cpu : ℕ
  pub new_cpu : ℕ

pub record SampleFork : Type 0 where
  pub timestamp : ℕ
  pub parent : ℕ
  pub child : ℕ

pub record SampleSched : Type 0 where
  pub timestamp_in : ℕ
  pub timestamp_out : ℕ
  pub pid : ℕ
  pub cpu : ℕ

pub record SampleInfo : Type 0 where
  pub timestamp : ℕ
  pub pmc_sample_time : ℕ
  pub rapl_sample_time : ℕ
  pub units : Units
  pub tsc_frequency : ℕ
  pub evsets : ℕ
  pub n_cpus : ℕ

-- Four bytes of padding, zero in memory that is cleared when it is allocated.
abbrev pub padding : List ℕ
padding = replicate 4 0

abbrev pub words : List ℕ → List ℕ
words [] = []
words (v ∷ vs) = le 8 v ++ words vs

unfoldable pub pmc_bytes : SamplePmc → List ℕ
pmc_bytes s =
    le 8 s.timestamp_start
    ++ (le 8 s.timestamp_stop
        ++ (le 8 s.duration
            ++ (le 4 s.pid
                ++ (padding ++ (words s.pmc.fx ++ (words s.pmc.gp ++ (le 4 s.evset ++ padding)))))))

unfoldable pub rapl_bytes : SampleRapl → List ℕ
rapl_bytes s =
    le 8 s.timestamp
    ++ (le 8 s.duration ++ (le 8 s.rapl.pkg ++ (le 8 s.rapl.pp0 ++ le 8 s.rapl.pp1)))

-- A migration sample stands on the stack, uncleared: `rest` is what its padding holds.
unfoldable pub cpu_bytes : List ℕ → SampleCpu → List ℕ
cpu_bytes rest s = le 8 s.timestamp ++ (le 4 s.pid ++ (le 4 s.old_cpu ++ (le 4 s.new_cpu ++ rest)))

unfoldable pub fork_bytes : SampleFork → List ℕ
fork_bytes s = le 8 s.timestamp ++ (le 4 s.parent ++ le 4 s.child)

unfoldable pub sched_bytes : SampleSched → List ℕ
sched_bytes s = le 8 s.timestamp_in ++ (le 8 s.timestamp_out ++ (le 4 s.pid ++ le 4 s.cpu))

unfoldable pub info_bytes : SampleInfo → List ℕ
info_bytes s =
    le 8 s.timestamp
    ++ (le 4 s.pmc_sample_time
        ++ (le 4 s.rapl_sample_time
            ++ (le 8 s.units.energy_units
                ++ (le 8 s.units.power_units
                    ++ (le 8 s.units.time_units
                        ++ (le 4 s.tsc_frequency
                            ++ (le 4 s.evsets ++ (le 4 s.n_cpus ++ padding))))))))

-- The numbers of a line, in the order in which they are printed.
unfoldable pub fprint_sample_info : List ℕ → List ℕ
fprint_sample_info m =
    load 8 0 m
    ∷ (load 4 40 m * 100000000)
    ∷ load 4 48 m
    ∷ load 4 8 m
    ∷ load 4 12 m
    ∷ load 4 44 m
    ∷ load 8 16 m
    ∷ load 8 24 m
    ∷ load 8 32 m
    ∷ []

unfoldable pub fprint_sample_pmc : List ℕ → List ℕ
fprint_sample_pmc m =
    load 8 0 m
    ∷ load 8 8 m
    ∷ load 8 16 m
    ∷ load 4 24 m
    ∷ load 4 88 m
    ∷ load 8 32 m
    ∷ load 8 40 m
    ∷ load 8 48 m
    ∷ load 8 56 m
    ∷ load 8 64 m
    ∷ load 8 72 m
    ∷ load 8 80 m
    ∷ []

unfoldable pub fprint_sample_rapl : List ℕ → List ℕ
fprint_sample_rapl m = load 8 0 m ∷ load 8 8 m ∷ load 8 16 m ∷ load 8 24 m ∷ load 8 32 m ∷ []

unfoldable pub fprint_sample_cpu : List ℕ → List ℕ
fprint_sample_cpu m = load 8 0 m ∷ load 4 8 m ∷ load 4 12 m ∷ load 4 16 m ∷ []

unfoldable pub fprint_sample_sched : List ℕ → List ℕ
fprint_sample_sched m = load 8 0 m ∷ load 8 8 m ∷ load 4 16 m ∷ load 4 20 m ∷ []

unfoldable pub fprint_sample_fork : List ℕ → List ℕ
fprint_sample_fork m = load 8 0 m ∷ load 4 8 m ∷ load 4 12 m ∷ []
