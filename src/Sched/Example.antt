-- ===== src/Sched/Example.antt =====
-- One task on two cores whose registers are a function, for the tests.
use schedmon.Prelude.{
  ℕ, zero, suc, ◌<◌, ◌≡◌, refl, arith, false, none, some, [], ◌∷◌, if◌then◌else◌, ◌==◌, pos, negsuc,
}
use schedmon.Ring.{RingBuffer}
use schedmon.EvSet.{EvSet, smon_get_evset}
use schedmon.Envir.{Envir}
use schedmon.Pmc.{Cpu}
use schedmon.Task.{Task, Machine, no_pmc, no_sched}
use schedmon.Sched.{set_cpu_list}
use schedmon.Sched.Hooks.{Instant}
use schedmon.Sched.Safe.{IsNamed, IsSound, IsSafe}
use schedmon.Sched.Safe.Lists.{AllSafe, AllSafe-cons}

abbrev pub Registers : Type 0
Registers = ℕ → ℕ × ℕ

abbrev pub core : Cpu Registers
core = record { rdmsr = λ s n. s n; wrmsr = λ s n lo hi m. if m == n then (lo, hi) else s m }

abbrev pub evset : EvSet
evset = record {
  tag = [];
  evids = pos 0 ∷ negsuc 0 ∷ negsuc 0 ∷ negsuc 0 ∷ [];
  fixed_ctrl = 0;
  global_ctrl = 1;
}

-- Migrations and forks are sampled, and children inherit.
abbrev pub envir : Envir
envir = record {
  esids = pos 0 ∷ [];
  n_esids = 1;
  sample_time = 10;
  batch_size = 8;
  options = 25;
  count = 1;
}

abbrev pub task : Task
task = record {
  p = some 7;
  pid = 42;
  envir = some 0;
  evset = 0;
  n_children = 0;
  sample_pmc = record no_pmc { pid = 42 };
  tsc_tmp = 0;
  timer = none;
  kt_remain = pos 0;
  start_pending = false;
  stop_pending = false;
  timer_on = false;
  sample_sched = record no_sched { pid = 42 };
  extra = none;
  rb = some 0;
}

abbrev pub rb : RingBuffer
rb = record {
  n_pages = 2;
  size = 8192;
  pages = λ page offset. 0;
  head = 0;
  tail = 0;
  items = 0;
  batch = 1;
  active = 1;
  wakeups = 0;
}

abbrev pub unlisted : Machine Registers
unlisted = record {
  tasks = some task ∷ [];
  envirs = some envir ∷ [];
  rbs = some rb ∷ [];
  task_list = 0 ∷ [];
  wait_list = [];
  cpu_list = λ cpu. [];
  rings = (0 ∷ []) ∷ [];
  core = λ cpu n. (0, 0);
  events = [];
  evsets = evset ∷ [];
}

abbrev pub machine : Machine Registers
machine = set_cpu_list 1 (0 ∷ unlisted.cpu_list 1) unlisted

pub evset_found : smon_get_evset (evset ∷ []) 0 ≡ some evset
unfolding smon_get_evset
evset_found = refl

pub evset_named : (i : ℕ) → i < 1 → IsNamed (evset ∷ []) (pos 0 ∷ []) i
evset_named zero h = record { esid = pos 0; evset = evset; named = refl; found = evset_found }
evset_named (suc i) h = absurd (omega (arith, h))

pub envir-IsSound : IsSound (evset ∷ []) envir
envir-IsSound = record { bound = omega arith; named = evset_named }

pub task-IsSafe : IsSafe unlisted 0
task-IsSafe = record {
  task = task;
  at = refl;
  ready = λ p e. record {
    e = 0;
    envir = envir;
    points_envir = refl;
    at_envir = refl;
    sound = envir-IsSound;
    turn = omega arith;
    r = 0;
    points_rb = refl;
    live_rb = record { object = rb; at = refl };
    live_extra = λ q h. absurd (cc);
  };
}

pub unlisted-AllSafe : AllSafe unlisted
unlisted-AllSafe = record {
  cpus = λ cpu t h. absurd (omega (arith, h));
  waits = λ t h. absurd (omega (arith, h));
}

pub machine-AllSafe : AllSafe machine
machine-AllSafe = AllSafe-cons unlisted 1 0 unlisted-AllSafe task-IsSafe

abbrev pub now : Instant
now = record {
  processor = 1;
  tsc_stop = 500;
  tsc_out = 510;
  tsc_in = 520;
  tsc_start = 530;
  remaining = pos 0;
  num_online_cpus = 2;
}
