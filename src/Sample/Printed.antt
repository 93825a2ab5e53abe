-- ===== src/Sample/Printed.antt =====
-- What the tool prints is what the driver wrote: samples of every type, their bytes and their lines.
use schedmon.Prelude.{
  ℕ, ◌*◌, ◌^◌, ◌<◌, ◌≡◌, refl, ap, arith, List, [], ◌∷◌, ◌++◌, length, of_le-le_4, of_le-le_8, some,
}
use schedmon.Ring.{
  sample_size, sample_type_pmc, sample_type_rapl, sample_type_cpu, sample_type_sched,
  sample_type_fork, sample_type_info,
}
use schedmon.Sample.{
  SamplePmc, SampleRapl, SampleCpu, SampleFork, SampleSched, SampleInfo, pmc_bytes, rapl_bytes,
  cpu_bytes, fork_bytes, sched_bytes, info_bytes, fprint_sample_info, fprint_sample_pmc,
  fprint_sample_rapl, fprint_sample_cpu, fprint_sample_sched, fprint_sample_fork,
}

pub data Sample : Type 0 where
  pmc : SamplePmc → Sample
  rapl : SampleRapl → Sample
  cpu : List ℕ → SampleCpu → Sample
  sched : SampleSched → Sample
  fork : SampleFork → Sample
  info : SampleInfo → Sample

abbrev pub kind : Sample → ℕ
kind (pmc s) = sample_type_pmc
kind (rapl s) = sample_type_rapl
kind (cpu rest s) = sample_type_cpu
kind (sched s) = sample_type_sched
kind (fork s) = sample_type_fork
kind (info s) = sample_type_info

abbrev pub bytes : Sample → List ℕ
bytes (pmc s) = pmc_bytes s
bytes (rapl s) = rapl_bytes s
bytes (cpu rest s) = cpu_bytes rest s
bytes (sched s) = sched_bytes s
bytes (fork s) = fork_bytes s
bytes (info s) = info_bytes s

-- What the tool prints from bytes of the type of a sample.
abbrev pub printed : Sample → List ℕ → List ℕ
printed (pmc s) = fprint_sample_pmc
printed (rapl s) = fprint_sample_rapl
printed (cpu rest s) = fprint_sample_cpu
printed (sched s) = fprint_sample_sched
printed (fork s) = fprint_sample_fork
printed (info s) = fprint_sample_info

-- The fields of a sample, in the order of its line.
abbrev pub fields : Sample → List ℕ
fields (pmc s) =
    s.timestamp_start ∷ s.timestamp_stop ∷ s.duration ∷ s.pid ∷ s.evset ∷ s.pmc.fx ++ s.pmc.gp
fields (rapl s) = s.timestamp ∷ s.duration ∷ s.rapl.pkg ∷ s.rapl.pp0 ∷ s.rapl.pp1 ∷ []
fields (cpu rest s) = s.timestamp ∷ s.pid ∷ s.old_cpu ∷ s.new_cpu ∷ []
fields (sched s) = s.timestamp_in ∷ s.timestamp_out ∷ s.pid ∷ s.cpu ∷ []
fields (fork s) = s.timestamp ∷ s.parent ∷ s.child ∷ []
fields (info s) =
    s.timestamp
    ∷ (s.tsc_frequency * 100000000)
    ∷ s.n_cpus
    ∷ s.pmc_sample_time
    ∷ s.rapl_sample_time
    ∷ s.evsets
    ∷ s.units.energy_units
    ∷ s.units.power_units
    ∷ s.units.time_units
    ∷ []

abbrev pub Word : ℕ → Type 0
Word n = n < 2 ^ 64

abbrev pub Half : ℕ → Type 0
Half n = n < 2 ^ 32

abbrev pub AllWords : List ℕ → Type 0
AllWords [] = Unit {0}
AllWords (v ∷ vs) = Word v × AllWords vs

-- Each field fits its type, and the arrays have their sizes.
abbrev pub Fits : Sample → Type 0
Fits (pmc s) =
    Word s.timestamp_start
    × Word s.timestamp_stop
    × Word s.duration
    × Half s.pid
    × Half s.evset
    × (length s.pmc.fx ≡ 3)
    × (length s.pmc.gp ≡ 4)
    × AllWords s.pmc.fx
    × AllWords s.pmc.gp
Fits (rapl s) =
    Word s.timestamp × Word s.duration × Word s.rapl.pkg × Word s.rapl.pp0 × Word s.rapl.pp1
Fits (cpu rest s) =
    Word s.timestamp × Half s.pid × Half s.old_cpu × Half s.new_cpu × (length rest ≡ 4)
Fits (sched s) = Word s.timestamp_in × Word s.timestamp_out × Half s.pid × Half s.cpu
Fits (fork s) = Word s.timestamp × Half s.parent × Half s.child
Fits (info s) =
    Word s.timestamp
    × Half s.pmc_sample_time
    × Half s.rapl_sample_time
    × Word s.units.energy_units
    × Word s.units.power_units
    × Word s.units.time_units
    × Half s.tsc_frequency
    × Half s.evsets
    × Half s.n_cpus

abbrev with_arrays : List ℕ → List ℕ → SamplePmc → Sample
with_arrays fx gp s = pmc (record s { pmc = record { fx = fx; gp = gp } })

pmc-bytes :
    (fx gp : List ℕ) (s : SamplePmc)
    → Fits (with_arrays fx gp s)
    → (fprint_sample_pmc (bytes (with_arrays fx gp s)) ≡ fields (with_arrays fx gp s))
      × (sample_size sample_type_pmc ≡ some (length (bytes (with_arrays fx gp s))))
unfolding fprint_sample_pmc pmc_bytes sample_size
pmc-bytes (x ∷ y ∷ z ∷ []) (a ∷ b ∷ c ∷ d ∷ []) s
      (p, q, r, i, e, f, g, (x', (y', (z', _))), (a', (b', (c', (d', _))))) =
    (
      rw (
        of_le-le_8 s.timestamp_start p,
        of_le-le_8 s.timestamp_stop q,
        of_le-le_8 s.duration r,
        of_le-le_4 s.pid i,
        of_le-le_4 s.evset e,
        of_le-le_8 x x',
        of_le-le_8 y y',
        of_le-le_8 z z',
        of_le-le_8 a a',
        of_le-le_8 b b',
        of_le-le_8 c c',
        of_le-le_8 d d',
      ),
      refl,
    )
pmc-bytes fx gp s (p, q, r, i, e, f, g, _, _) = absurd (omega arith)

-- The line that the tool prints for a sample has the fields that the driver wrote, for every type of
-- sample and whatever its padding holds; and its bytes are as many as smon_rb_write copies.
pub printed-bytes :
    (s : Sample)
    → Fits s
    → (printed s (bytes s) ≡ fields s) × (sample_size (kind s) ≡ some (length (bytes s)))
unfolding fprint_sample_rapl fprint_sample_cpu fprint_sample_sched fprint_sample_fork
    fprint_sample_info rapl_bytes cpu_bytes sched_bytes fork_bytes info_bytes sample_size
printed-bytes (pmc s) h = pmc-bytes s.pmc.fx s.pmc.gp s h
printed-bytes (rapl s) (a, b, c, d, e) = (
  rw (
    of_le-le_8 s.timestamp a,
    of_le-le_8 s.duration b,
    of_le-le_8 s.rapl.pkg c,
    of_le-le_8 s.rapl.pp0 d,
    of_le-le_8 s.rapl.pp1 e,
  ),
  refl,
)
printed-bytes (cpu rest s) (a, b, c, d, e) =
    let whole : 24 ≡ length (cpu_bytes rest s) = omega arith in
    (
      rw (
        of_le-le_8 s.timestamp a,
        of_le-le_4 s.pid b,
        of_le-le_4 s.old_cpu c,
        of_le-le_4 s.new_cpu d,
      ),
      ap some whole,
    )
printed-bytes (sched s) (a, b, c, d) = (
  rw (
    of_le-le_8 s.timestamp_in a,
    of_le-le_8 s.timestamp_out b,
    of_le-le_4 s.pid c,
    of_le-le_4 s.cpu d,
  ),
  refl,
)
printed-bytes (fork s) (a, b, c) =
    (rw (of_le-le_8 s.timestamp a, of_le-le_4 s.parent b, of_le-le_4 s.child c), refl)
printed-bytes (info s) (a, b, c, d, e, f, g, h, i) = (
  rw (
    of_le-le_8 s.timestamp a,
    of_le-le_4 s.pmc_sample_time b,
    of_le-le_4 s.rapl_sample_time c,
    of_le-le_8 s.units.energy_units d,
    of_le-le_8 s.units.power_units e,
    of_le-le_8 s.units.time_units f,
    of_le-le_4 s.tsc_frequency g,
    of_le-le_4 s.evsets h,
    of_le-le_4 s.n_cpus i,
  ),
  refl,
)
