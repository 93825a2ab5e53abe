-- ===== src/Driver/Tests.antt =====
-- A driver with two events and an event-set.
use schedmon.Prelude.{
  ℕ, ◌<◌, ◌≡◌, refl, arith, Bool, true, none, some, [], ◌∷◌, ℤ, pos, negsuc, if◌then◌else◌, ◌==◌,
  take,
}
use schedmon.Event.{Event, done, fail}
use schedmon.EvSet.{EvSet, events_exist, smon_check_evset}
use schedmon.Envir.{Envir, smon_create_envir, copy_envir, envir_option_stat}
use schedmon.Pmc.{Cpu}
use schedmon.Task.{Machine}
use schedmon.Device.Ioctl.{
  Answer, returned, minus_one, event_out, evset_out, System, Request, smon_ioctl, dispatch,
}
use schedmon.Sched.Safe.{IsSound}
use schedmon.Driver.{ioctl, check_esids, smon_check_events, smon_check_evsets, smon_list_events}
use schedmon.Driver.Laws.{IsIoctl, smon_check_events-events_exist, smon_check_evsets-IsSound}
use schedmon.Cmd.{event_add_tag, event_add_mode, event_add_evsel, event_add_umask, add_event}
use schedmon.Driver.Printing.{local_print_event, local_print_event-add_event}
use schedmon.Driver.Listing.{smon_list_events-all}

abbrev pub Registers : Type 0
Registers = ℕ → ℕ × ℕ

abbrev pub core : Cpu Registers
core = record { rdmsr = λ s n. s n; wrmsr = λ s n lo hi m. if m == n then (lo, hi) else s m }

abbrev pub call : Answer → ℤ
call (returned done) = pos 0
call (returned (fail e)) = negsuc 0
call minus_one = negsuc 0
call (event_out n event) = pos n
call (evset_out n evset) = pos n

pub call-IsIoctl : IsIoctl call
call-IsIoctl = record {
  zero_done = refl;
  failed = λ e. refl;
  event_left = λ n event. refl;
  evset_left = λ n evset. refl;
}

abbrev pub sys : System
sys = record {
  kmalloc = true;
  left = 0;
  allocs = record { task = true; envir = true; extra = true };
  init_task = 1;
  processes = [];
  processor = 0;
  num_online_cpus = 2;
  tsc = 100;
  task_cpu = λ p. 0;
}

abbrev pub any_address : Request → Bool
any_address request = true

abbrev pub cycles : Event
cycles = record { tag = 99 ∷ []; perfevtsel = 4390972 }

abbrev pub misses : Event
misses = record { tag = 109 ∷ []; perfevtsel = 4407598 }

abbrev one_missing : EvSet
one_missing = record {
  tag = [];
  evids = pos 0 ∷ negsuc 0 ∷ pos 5 ∷ negsuc 0 ∷ [];
  fixed_ctrl = 0;
  global_ctrl = 5;
}

abbrev pub evset : EvSet
evset = record one_missing { evids = pos 0 ∷ negsuc 0 ∷ pos 1 ∷ negsuc 0 ∷ [] }

abbrev pub machine : Machine Registers
machine = record {
  tasks = [];
  envirs = [];
  rbs = [];
  task_list = [];
  wait_list = [];
  cpu_list = λ cpu. [];
  rings = [];
  core = λ cpu n. (0, 0);
  events = cycles ∷ misses ∷ [];
  evsets = evset ∷ [];
}

smon_check_events-events_exist_example :
    smon_check_events core call sys any_address none one_missing machine
    ≡ some (if events_exist machine.events one_missing.evids then pos 0 else negsuc 2)
smon_check_events-events_exist_example =
    smon_check_events-events_exist core call sys any_address none call-IsIoctl (λ request. refl)
      one_missing machine

abbrev envir : Envir
envir = record {
  esids = pos 0 ∷ [];
  n_esids = 1;
  sample_time = 10;
  batch_size = 8;
  options = 0;
  count = 1;
}

envir_checked :
    smon_check_evsets core call sys any_address none (pos 3) envir machine ≡ some (pos 0)
unfolding smon_check_evsets check_esids ioctl smon_ioctl dispatch smon_check_evset
envir_checked = refl

envir_created : smon_create_envir true envir ≡ some envir
unfolding smon_create_envir copy_envir envir_option_stat
envir_created = refl

smon_check_evsets-IsSound_example : IsSound (evset ∷ []) envir × (0 < 1)
smon_check_evsets-IsSound_example =
    smon_check_evsets-IsSound core call sys any_address none call-IsIoctl (λ request. refl) (pos 3)
      envir envir true machine envir_checked (omega arith) (omega arith) envir_created

smon_list_events-all_example :
    smon_list_events core call sys any_address none 3 (pos 3) machine
    ≡ some ((0, cycles) ∷ (1, misses) ∷ [], pos 2)
smon_list_events-all_example =
    smon_list_events-all core call sys any_address none call-IsIoctl (λ request. refl) refl 3
      (pos 3) machine refl (omega arith)

local_print_event-add_event_example :
    (event : Event) × (add_event
        (event_add_tag [] ∷ event_add_evsel 60 ∷ event_add_umask 1 ∷ event_add_mode 0 ∷ [])
      ≡ some event)
    × (take 4 (local_print_event event 7) ≡ 7 ∷ 60 ∷ 1 ∷ 3 ∷ [])
local_print_event-add_event_example = local_print_event-add_event [] 60 1 0 7
