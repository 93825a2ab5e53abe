-- ===== src/Event/Laws.antt =====
-- What the event table promises.
use schedmon.Prelude.{
  ℕ, ◌≤◌, ◌≡◌, ◌↔◌, arith, Bool, true, none, some, [], ◌∷◌, ◌++◌, length, get_elem?, ltb, ◌==◌,
  if◌then◌else◌, length-append, get_elem?-snoc, not, ◌&&◌, get_elem?-some, get_elem?-none,
}
use schedmon.Event.{
  smenoevt, done, fail, Event, Events, max_events, smon_set_event, smon_get_event, smon_check_event,
}

-- The table never grows past MAX_EVENTS.
pub smon_set_event-le :
    (kmalloc : Bool) (events : Events) (event : Event)
    → length events ≤ max_events
    → length (smon_set_event kmalloc events event).1 ≤ max_events
unfolding smon_set_event
smon_set_event-le kmalloc events event h = ground (arith, length-append events (event ∷ []))

-- A lookup gives the entry of the array, and NULL past its end.
pub smon_get_event_lem : (events : Events) (id : ℕ) → smon_get_event events id ≡ get_elem? events id
unfolding smon_get_event
smon_get_event_lem events id = ground (arith, get_elem?-none events id)

-- An id passes the check exactly when a lookup finds it.
pub smon_check_event_iff :
    (events : Events) (id : ℕ)
    → (smon_check_event events id ≡ done) ↔ ((e : Event) × (smon_get_event events id ≡ some e))
unfolding smon_check_event smon_get_event
smon_check_event_iff events id = (λ h. found h, λ (e, h). ground arith)
  where
    found :
        (if ltb id (length events) then done else fail smenoevt) ≡ done
        → (e : Event) × ((if ltb id (length events) then get_elem? events id else none) ≡ some e)
    found h = let (e, p) = get_elem?-some events id (ground arith) in (e, ground arith)

-- A call registers the event unless the table is full or there is no memory.
abbrev pub accepts : Bool → Events → Bool
accepts kmalloc events = kmalloc && not (length events == max_events)

-- A registered event is found under the next id, and every other id keeps what it had; a call that
-- does not register changes no lookup.
pub smon_get_event-set :
    (kmalloc : Bool) (events : Events) (event : Event) (id : ℕ)
    → smon_get_event (smon_set_event kmalloc events event).1 id ≡ (
        if accepts kmalloc events && id == length events
        then some event
        else smon_get_event events id)
unfolding smon_set_event
smon_get_event-set kmalloc events event id = ground (
  arith,
  smon_get_event_lem events id,
  smon_get_event_lem (events ++ event ∷ []) id,
  get_elem?-snoc events event id,
)

-- The return value is 0 exactly when the event is registered, which takes room in the table and
-- memory.
pub smon_set_event-done :
    (kmalloc : Bool) (events : Events) (event : Event)
    → ((smon_set_event kmalloc events event).0 ≡ done) ↔ (accepts kmalloc events ≡ true)
unfolding smon_set_event
smon_set_event-done kmalloc events event = (λ h. ground arith, λ h. ground arith)
