-- ===== src/EvSet/Tables.antt =====
-- The two tables together, under any sequence of the calls that change them.
use schedmon.Prelude.{
  ◌≤◌, ◌≡◌, refl, arith, Bool, true, List, [], ◌∷◌, ◌++◌, length, length-append, ℤ, to_u32,
}
use schedmon.Event.{Event, Events, max_events, smon_set_event}
use schedmon.Event.Laws.{smon_set_event-le, smon_get_event-set}
use schedmon.EvSet.{EvSet, EvSets, max_evsets, events_exist, smon_set_evset}

pub record Tables : Type 0 where
  pub events : Events
  pub evsets : EvSets

pub data Call : Type 0 where
  set_event : Bool → Event → Call
  set_evset : Bool → EvSet → Call

unfoldable pub step : Tables → Call → Tables
step s (set_event kmalloc event) = record s { events = (smon_set_event kmalloc s.events event).1 }
step s (set_evset kmalloc evset) = record s {
  evsets = (smon_set_evset kmalloc s.events s.evsets evset).1;
}

unfoldable pub run : Tables → List Call → Tables
run s [] = s
run s (c ∷ cs) = run (step s c) cs

-- Every event that a registered event-set names is registered.
abbrev pub AllExist : Events → EvSets → Type 0
AllExist events [] = Unit {0}
AllExist events (s ∷ ss) = (events_exist events s.evids ≡ true) × AllExist events ss

pub record IsValid (s : Tables) : Type 0 where
  pub few_events : length s.events ≤ max_events
  pub few_evsets : length s.evsets ≤ max_evsets
  pub exist : AllExist s.events s.evsets

AllExist-snoc :
    (events : Events) (ss : EvSets) (s : EvSet)
    → AllExist events ss
    → events_exist events s.evids ≡ true
    → AllExist events (ss ++ s ∷ [])
AllExist-snoc events [] s a h = (h, tt)
AllExist-snoc events (x ∷ ss) s a h = (a.0, AllExist-snoc events ss s a.1 h)

-- A registered event keeps its id.
events_exist-set :
    (kmalloc : Bool) (events : Events) (event : Event) (ids : List ℤ)
    → events_exist events ids ≡ true
    → events_exist (smon_set_event kmalloc events event).1 ids ≡ true
unfolding events_exist
events_exist-set kmalloc events event [] h = refl
events_exist-set kmalloc events event (e ∷ ids) h = ground (
  arith,
  events_exist-set kmalloc events event ids,
  smon_get_event-set kmalloc events event (to_u32 e),
)

AllExist-set :
    (kmalloc : Bool) (events : Events) (event : Event) (ss : EvSets)
    → AllExist events ss
    → AllExist (smon_set_event kmalloc events event).1 ss
AllExist-set kmalloc events event [] a = tt
AllExist-set kmalloc events event (s ∷ ss) a =
    (events_exist-set kmalloc events event s.evids a.0, AllExist-set kmalloc events event ss a.1)

module _ (kmalloc : Bool) (events : Events) (ss : EvSets) (s : EvSet) where
  set_evset-le : length ss ≤ max_evsets → length (smon_set_evset kmalloc events ss s).1 ≤ max_evsets
  unfolding smon_set_evset
  set_evset-le h = ground (arith, length-append ss (s ∷ []))

  set_evset-exist : AllExist events ss → AllExist events (smon_set_evset kmalloc events ss s).1
  unfolding smon_set_evset
  set_evset-exist a = ground (arith, AllExist-snoc events ss s a)

step-IsValid : (s : Tables) (c : Call) → IsValid s → IsValid (step s c)
unfolding step
step-IsValid s (set_event kmalloc event) v = record {
  few_events = smon_set_event-le kmalloc s.events event v.few_events;
  few_evsets = v.few_evsets;
  exist = AllExist-set kmalloc s.events event s.evsets v.exist;
}
step-IsValid s (set_evset kmalloc evset) v = record {
  few_events = v.few_events;
  few_evsets = set_evset-le kmalloc s.events s.evsets evset v.few_evsets;
  exist = set_evset-exist kmalloc s.events s.evsets evset v.exist;
}

-- From tables where it holds, no sequence of registrations, successful or not, makes a table exceed
-- its size or leaves an event-set that names a missing event.
pub run-IsValid : (s : Tables) (cs : List Call) → IsValid s → IsValid (run s cs)
unfolding run
run-IsValid s [] v = v
run-IsValid s (c ∷ cs) v = run-IsValid (step s c) cs (step-IsValid s c v)

-- The tables of a loaded driver.
pub empty-IsValid : IsValid (record { events = []; evsets = [] })
empty-IsValid = record { few_events = omega arith; few_evsets = omega arith; exist = tt }
