-- ===== src/Device/Module/Starts.antt =====
-- The module starts whole or not at all.
use schedmon.Prelude.{
  ℕ, ◌-◌, ◌≡◌, ◌≢◌, refl, ap, arith, Bool, true, false, some, [], ℤ, pos, negsuc, ◌⊎◌, inl, inr,
}
use schedmon.Event.{done, smon_event_init}
use schedmon.EvSet.{smon_evset_init}
use schedmon.EvSet.Tables.{IsValid, empty-IsValid}
use schedmon.Task.{Machine}
use schedmon.Sched.Hooks.{smon_sched_init, smon_sched_exit, unregister_all}
use schedmon.Sched.Safe.Lists.{AllSafe}
use schedmon.Sched.Count.Calls.{IsCounted}
use schedmon.Device.Module.{
  all_hooks, Kernel, init_code, smon_setup_cdev, fail_event, fail_evset, init_sched, init_evset,
  smon_init, smon_exit,
}

module _ {S : Type 0} where
  -- Nothing is held, and there are no objects of the driver.
  pub record IsUnloaded (k : Kernel S) : Type 0 where
    pub numbers : k.numbers ≡ 0
    pub event_table : k.event_table ≡ false
    pub evset_table : k.evset_table ≡ false
    pub hooks : k.hooks ≡ []
    pub cdev : k.cdev ≡ false
    pub tasks : k.machine.tasks ≡ []
    pub envirs : k.machine.envirs ≡ []
    pub rbs : k.machine.rbs ≡ []

  -- All is held, and the invariants of the driver's parts hold.
  pub record IsLoaded (smon_devs : ℕ) (k : Kernel S) : Type 0 where
    pub numbers : k.numbers ≡ smon_devs
    pub event_table : k.event_table ≡ true
    pub evset_table : k.evset_table ≡ true
    pub hooks : k.hooks ≡ all_hooks
    pub tables : IsValid (record { events = k.machine.events; evsets = k.machine.evsets })
    pub counted : IsCounted k.machine
    pub safe : AllSafe k.machine
    pub unused : k.machine.task_list ≡ []

  empty-IsCounted : (m : Machine S) → m.tasks ≡ [] → m.envirs ≡ [] → m.rbs ≡ [] → IsCounted m
  empty-IsCounted m t e r = record { rbs = λ i. rw (t, r) refl; envirs = λ i. rw (t, e) refl }

  unlisted-AllSafe : (m : Machine S) → AllSafe (smon_sched_init m)
  unfolding smon_sched_init
  unlisted-AllSafe m = record {
    cpus = λ cpu t h. absurd (omega arith);
    waits = λ t h. absurd (omega arith);
  }

  -- A start of the module on a kernel where nothing is held ends in one of two ways. With the
  -- result 0 the device numbers, both tables and all five hooks are held, the tables are valid,
  -- the counts of references are right, and no task that is listed is unsafe. Otherwise nothing is
  -- held, whichever step failed.
  pub smon_init-starts :
      (smon_devs : ℕ) (res : ℤ) (kmalloc_events kmalloc_evsets cdev_add : Bool) (k : Kernel S)
      → IsUnloaded k
      → let (k', ret) = smon_init smon_devs res kmalloc_events kmalloc_evsets cdev_add k in
        ((ret ≡ init_code done) × IsLoaded smon_devs k') ⊎ ((ret ≢ init_code done) × IsUnloaded k')
  unfolding smon_init init_evset init_sched smon_setup_cdev fail_event fail_evset smon_event_init
      smon_evset_init smon_sched_init
  smon_init-starts smon_devs (negsuc n) kmalloc_events kmalloc_evsets cdev_add k v =
      inr ((λ e. absurd (cc)), v)
  smon_init-starts smon_devs (pos n) false kmalloc_evsets cdev_add k v = inr (
    (λ e. absurd (cc)),
    record {
      numbers = omega (arith, v.numbers);
      event_table = v.event_table;
      evset_table = v.evset_table;
      hooks = v.hooks;
      cdev = v.cdev;
      tasks = v.tasks;
      envirs = v.envirs;
      rbs = v.rbs;
    },
  )
  smon_init-starts smon_devs (pos n) true false cdev_add k v = inr (
    (λ e. absurd (cc)),
    record {
      numbers = omega (arith, v.numbers);
      event_table = refl;
      evset_table = v.evset_table;
      hooks = v.hooks;
      cdev = v.cdev;
      tasks = v.tasks;
      envirs = v.envirs;
      rbs = v.rbs;
    },
  )
  smon_init-starts smon_devs (pos n) true true cdev_add k v = inl (
    refl,
    record {
      numbers = omega (arith, v.numbers);
      event_table = refl;
      evset_table = refl;
      hooks = refl;
      tables = empty-IsValid;
      counted = empty-IsCounted _ v.tasks v.envirs v.rbs;
      safe = unlisted-AllSafe (record k.machine { events = []; evsets = [] });
      unused = refl;
    },
  )

  -- The end of a module that has been started, and not used, gives back all that it holds, but for
  -- the device numbers beyond the first.
  pub smon_exit-unloads :
      (smon_devs : ℕ) (k : Kernel S)
      → IsLoaded smon_devs k
      → (k' : Kernel S) × (smon_exit k ≡ some k')
        × (k'.numbers ≡ smon_devs - 1)
        × (k'.hooks ≡ [])
        × (k'.event_table ≡ false)
        × (k'.evset_table ≡ false)
        × (k'.cdev ≡ false)
  unfolding smon_exit smon_sched_exit unregister_all
  smon_exit-unloads smon_devs k v =
      rw v.unused (_, refl, ap (λ (n : ℕ). n - 1) v.numbers, refl, refl, refl, refl)
