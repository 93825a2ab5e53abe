-- ===== src/Device/Ioctl.antt =====
-- smon_ioctl of driver/main.c. A command is its type, its number and what it asks for, with the
-- fields of `struct smon_ioctl` that the case reads; `accessible` is what the system's test of the
-- address gives, and `left` how many bytes copy_to_user does not copy.
use schedmon.Prelude.{
  ℕ, List, Bool, not, Option, none, some, ltb, ◌==◌, if◌then◌else◌, ◌>>=◌, deref, store,
}
use schedmon.Ring.{smon_rb_read}
use schedmon.Event.{
  smeioctl, smenoevt, smenoevs, enotty, efault, Ret, done, fail, Event, smon_set_event,
  smon_get_event, smon_check_event,
}
use schedmon.EvSet.{EvSet, smon_set_evset, smon_get_evset, smon_check_evset}
use schedmon.Envir.{Envir}
use schedmon.Pmc.{Cpu}
use schedmon.Task.{Machine}
use schedmon.Task.Life.{Allocs}
use schedmon.Sched.Register.{smon_sched_register_task, smon_sched_unregister_task}

abbrev pub smon_ioc_magic : ℕ
smon_ioc_magic = 166

abbrev pub smon_ioc_maxnr : ℕ
smon_ioc_maxnr = 9

-- The commands that smon_ioctl knows, and any other.
pub data Request : Type 0 where
  reset : Request
  set_event : Option Event → Request
  get_event : ℕ → Request
  check_event : ℕ → Request
  set_evset : Option EvSet → Request
  get_evset : ℕ → Request
  check_evset : ℕ → Request
  set_task : ℕ → Option Envir → Request
  unset_task : ℕ → Request
  read_samples : ℕ → ℕ → Request
  other : Request

-- What smon_ioctl returns: a code, -1, or the bytes that are left of an object that it copies out.
pub data Answer : Type 0 where
  returned : Ret → Answer
  minus_one : Answer
  event_out : ℕ → Event → Answer
  evset_out : ℕ → EvSet → Answer

-- What the system gives to a call.
pub record System : Type 0 where
  pub kmalloc : Bool
  pub left : ℕ
  pub allocs : Allocs
  pub init_task : ℕ
  pub processes : List (ℕ × ℕ)
  pub processor : ℕ
  pub num_online_cpus : ℕ
  pub tsc : ℕ
  pub task_cpu : ℕ → ℕ

abbrev pub zero_or : Bool → Answer
zero_or registered = if registered then returned done else minus_one

module _ {S : Type 0} (core : Cpu S) where
  -- The cases of the switch; `rb` is the private data of the file.
  unfoldable pub dispatch : System → Option ℕ → Request → Machine S → Option (Machine S × Answer)
  dispatch sys rb reset m = some (m, returned done)
  dispatch sys rb (set_event none) m = some (m, returned (fail smeioctl))
  dispatch sys rb (set_event (some event)) m =
      let (ret, events) = smon_set_event sys.kmalloc m.events event in
      some (record m { events = events }, returned ret)
  dispatch sys rb (get_event id) m = some (
    m,
    elim (smon_get_event m.events id) [
      | none ↦ returned (fail smenoevt)
      | some event ↦ event_out sys.left event
    ],
  )
  dispatch sys rb (check_event id) m = some (m, returned (smon_check_event m.events id))
  dispatch sys rb (set_evset none) m = some (m, returned (fail smeioctl))
  dispatch sys rb (set_evset (some evset)) m =
      let (ret, evsets) = smon_set_evset sys.kmalloc m.events m.evsets evset in
      some (record m { evsets = evsets }, returned ret)
  dispatch sys rb (get_evset id) m = some (
    m,
    elim (smon_get_evset m.evsets id) [
      | none ↦ returned (fail smenoevs)
      | some evset ↦ evset_out sys.left evset
    ],
  )
  dispatch sys rb (check_evset id) m = some (m, returned (smon_check_evset m.evsets id))
  dispatch sys rb (set_task pid none) m = some (m, returned (fail smeioctl))
  dispatch sys none (set_task pid (some envir)) m = some (m, returned (fail smeioctl))
  dispatch sys (some r) (set_task pid (some envir)) m =
      smon_sched_register_task core sys.allocs sys.init_task sys.processes sys.processor
        sys.num_online_cpus sys.tsc sys.task_cpu pid envir r m
      >>= λ ended. some (ended.0, zero_or ended.1)
  dispatch sys rb (unset_task pid) m =
      smon_sched_unregister_task pid m >>= λ ended. some (ended.0, zero_or ended.1)
  dispatch sys none (read_samples items size) m = none
  dispatch sys (some r) (read_samples items size) m = deref m.rbs r >>= λ rb.
      some (
        record m { rbs = store m.rbs r (some (smon_rb_read rb items size)) },
        returned (fail enotty),
      )
  dispatch sys rb other m = some (m, returned (fail enotty))

  unfoldable pub smon_ioctl :
      System → ℕ → ℕ → Bool → Option ℕ → Request → Machine S → Option (Machine S × Answer)
  smon_ioctl sys type nr accessible rb request m =
      if not (type == smon_ioc_magic)
      then some (m, returned (fail enotty))
      else if ltb smon_ioc_maxnr nr
      then some (m, returned (fail enotty))
      else if not accessible
      then some (m, returned (fail efault))
      else dispatch sys rb request m
