-- ===== src/Device/Module/Tests.antt =====
-- A start of the module for which there is no memory for the second table, and one that succeeds.
use schedmon.Prelude.{ℕ, ◌≡◌, ◌≢◌, refl, true, false, [], pos, ◌⊎◌}
use schedmon.Event.{done}
use schedmon.Device.Module.{Kernel, init_code, smon_init}
use schedmon.Device.Module.Starts.{IsUnloaded, IsLoaded, smon_init-starts}

abbrev Registers : Type 0
Registers = ℕ → ℕ × ℕ

abbrev unloaded : Kernel Registers
unloaded = record {
  numbers = 0;
  event_table = false;
  evset_table = false;
  hooks = [];
  cdev = false;
  machine = record {
    tasks = [];
    envirs = [];
    rbs = [];
    task_list = [];
    wait_list = [];
    cpu_list = λ cpu. [];
    rings = [];
    core = λ cpu n. (0, 0);
    events = [];
    evsets = [];
  };
}

unloaded-IsUnloaded : IsUnloaded unloaded
unloaded-IsUnloaded = record {
  numbers = refl;
  event_table = refl;
  evset_table = refl;
  hooks = refl;
  cdev = refl;
  tasks = refl;
  envirs = refl;
  rbs = refl;
}

smon_init-starts_example :
    (((smon_init 1 (pos 0) true false true unloaded).1 ≡ init_code done)
      × IsLoaded 1 (smon_init 1 (pos 0) true false true unloaded).0)
    ⊎ (((smon_init 1 (pos 0) true false true unloaded).1 ≢ init_code done)
        × IsUnloaded (smon_init 1 (pos 0) true false true unloaded).0)
smon_init-starts_example = smon_init-starts 1 (pos 0) true false true unloaded unloaded-IsUnloaded
