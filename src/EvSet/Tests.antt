-- ===== src/EvSet/Tests.antt =====
-- The table of event-sets at concrete entries.
use schedmon.Prelude.{true, List, [], ◌∷◌, pos, negsuc}
use schedmon.Event.{Event, Events}
use schedmon.EvSet.{EvSet}
use schedmon.EvSet.Tables.{Call, set_event, set_evset, IsValid, run, run-IsValid, empty-IsValid}

abbrev cycles : Event
cycles = record { tag = 99 ∷ []; perfevtsel = 4391228 }

abbrev one_event : Events
one_event = cycles ∷ []

-- It names the event 0, and leaves three counters free.
abbrev one_counter : EvSet
one_counter = record {
  tag = 115 ∷ [];
  evids = pos 0 ∷ negsuc 0 ∷ negsuc 0 ∷ negsuc 0 ∷ [];
  fixed_ctrl = 2;
  global_ctrl = 4294967297;
}

-- It names the event 5, which no table here has.
abbrev missing : EvSet
missing = record one_counter { evids = pos 5 ∷ [] }

abbrev calls : List Call
calls =
    set_evset true one_counter
    ∷ set_event true cycles
    ∷ set_evset true missing
    ∷ set_evset true one_counter
    ∷ []

run-IsValid_example : IsValid (run (record { events = []; evsets = [] }) calls)
run-IsValid_example = run-IsValid (record { events = []; evsets = [] }) calls empty-IsValid
