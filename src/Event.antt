-- ===== src/Event.antt =====
-- driver/event.c, the table of performance events. The array is a list, whose length is `n_events`;
-- whether kmalloc succeeds is an argument.
pub mod Laws
use schedmon.Prelude.{
  ℕ, ◌≤◌, ◌<◌, ◌^◌, Bool, true, false, Option, none, some, List, [], ◌∷◌, ◌++◌, length, get_elem?,
  ltb, ◌==◌, if◌then◌else◌,
}

-- The error codes of driver/smon.h, and the two of the system that smon_ioctl returns.
pub data Error : Type 0 where
  smenomem smemaxev smenoevt smemaxes smenoevs smeioctl enotty efault : Error

-- A return value: 0, or a negated code.
pub data Ret : Type 0 where
  done : Ret
  fail : Error → Ret

-- `struct smon_event`; `perfevtsel` is the 64-bit pattern that the bit fields overlay.
pub record Event : Type 0 where
  pub tag : List ℕ
  pub perfevtsel : ℕ

abbrev pub max_events : ℕ
max_events = 64

abbrev pub Events : Type 0
Events = List Event

unfoldable pub smon_event_init : Bool → Ret × Events
smon_event_init kmalloc = if kmalloc then (done, []) else (fail smenomem, [])

-- Every event is freed, and the table is empty.
unfoldable pub smon_event_exit : Events → Ret × Events
smon_event_exit events = (done, [])

unfoldable pub smon_set_event : Bool → Events → Event → Ret × Events
smon_set_event kmalloc events event =
    if length events == max_events
    then (fail smemaxev, events)
    else if kmalloc
    then (done, events ++ event ∷ [])
    else (fail smenomem, events)

unfoldable pub smon_get_event : Events → ℕ → Option Event
smon_get_event events id = if ltb id (length events) then get_elem? events id else none

unfoldable pub smon_check_event : Events → ℕ → Ret
smon_check_event events id = if ltb id (length events) then done else fail smenoevt
