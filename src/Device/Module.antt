-- ===== src/Device/Module.antt =====
-- driver/main.c: the start and end of the module. `Kernel` is what the module holds of the kernel:
-- device numbers, the memory of the two tables, its hooks at tracepoints, and its character device,
-- beside the machine of the driver. What the kernel's calls give are arguments.
pub mod Starts
pub mod Tests
use schedmon.Prelude.{
  ℕ, ◌+◌, ◌-◌, Bool, true, false, Option, some, none, List, [], ◌∷◌, if◌then◌else◌, ℤ, is_neg,
  ◌>>=◌,
}
use schedmon.Event.{Ret, done, fail, smon_event_init, smon_event_exit}
use schedmon.EvSet.{smon_evset_init, smon_evset_exit}
use schedmon.Task.{Machine}
use schedmon.Sched.Hooks.{smon_sched_init, smon_sched_exit}

pub data Hook : Type 0 where
  sched_switch sched_migrate_task sched_process_fork sched_process_exec sched_process_exit : Hook

abbrev pub all_hooks : List Hook
all_hooks =
    sched_switch ∷ sched_migrate_task ∷ sched_process_fork ∷ sched_process_exec ∷ sched_process_exit
    ∷ []

pub record Kernel (S : Type 0) : Type 0 where
  pub numbers : ℕ
  pub event_table : Bool
  pub evset_table : Bool
  pub hooks : List Hook
  pub cdev : Bool
  pub machine : Machine S

-- The result of smon_init: that of the registration of the numbers, if it is negative, or a code.
pub data InitResult : Type 0 where
  no_numbers : ℤ → InitResult
  init_code : Ret → InitResult

module _ {S : Type 0} where
  -- cdev_init and cdev_add; an error is only logged.
  unfoldable pub smon_setup_cdev : Bool → Kernel S → Kernel S
  smon_setup_cdev cdev_add k = record k { cdev = cdev_add }

  -- The three labels at the end of smon_init, each of which runs on into the next.
  unfoldable pub fail_event : ℕ → Kernel S → Kernel S
  fail_event smon_devs k = record k { numbers = k.numbers - smon_devs }

  unfoldable pub fail_evset : ℕ → Kernel S → Kernel S
  fail_evset smon_devs k = fail_event smon_devs (record k {
    event_table = false;
    machine = record k.machine { events = (smon_event_exit k.machine.events).1 };
  })

  unfoldable pub init_sched : Bool → Kernel S → Kernel S × InitResult
  init_sched cdev_add k =
      let k' = record k { hooks = all_hooks; machine = smon_sched_init k.machine } in
      (smon_setup_cdev cdev_add k', init_code done)

  unfoldable pub init_evset : ℕ → Bool → Bool → Kernel S → Kernel S × InitResult
  init_evset smon_devs kmalloc_evsets cdev_add k = elim (smon_evset_init kmalloc_evsets).0 [
    | fail e ↦ (fail_evset smon_devs k, init_code (fail e))
    | done ↦ init_sched cdev_add (record k {
      evset_table = true;
      machine = record k.machine { evsets = (smon_evset_init kmalloc_evsets).1 };
    })
  ]

  -- `res` is what the registration of `smon_devs` numbers gives; smon_sched_init gives 0, so that
  -- the label fail_sched is never reached.
  unfoldable pub smon_init : ℕ → ℤ → Bool → Bool → Bool → Kernel S → Kernel S × InitResult
  smon_init smon_devs res kmalloc_events kmalloc_evsets cdev_add k =
      if is_neg res
      then (k, no_numbers res)
      else let k' = record k { numbers = k.numbers + smon_devs } in
        elim (smon_event_init kmalloc_events).0 [
          | fail e ↦ (fail_event smon_devs k', init_code (fail e))
          | done ↦ init_evset smon_devs kmalloc_evsets cdev_add (record k' {
            event_table = true;
            machine = record k.machine { events = (smon_event_init kmalloc_events).1 };
          })
        ]

  -- One device number is given back, whatever `smon_devs` is.
  unfoldable pub smon_exit : Kernel S → Option (Kernel S)
  smon_exit k = smon_sched_exit k.machine >>= λ m. some (record {
    numbers = k.numbers - 1;
    event_table = false;
    evset_table = false;
    hooks = [];
    cdev = false;
    machine = record m {
      events = (smon_event_exit m.events).1;
      evsets = (smon_evset_exit m.evsets).1;
    };
  })
