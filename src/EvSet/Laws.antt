-- ===== src/EvSet/Laws.antt =====
-- What the table of event-sets promises.
use schedmon.Prelude.{
  ℕ, ◌≡◌, ◌↔◌, arith, Bool, true, not, ◌&&◌, none, some, [], ◌∷◌, ◌++◌, length, get_elem?, ltb,
  ◌==◌, if◌then◌else◌, get_elem?-snoc, get_elem?-some, get_elem?-none,
}
use schedmon.Event.{done, fail, smenoevs, Events}
use schedmon.EvSet.{
  EvSet, EvSets, max_evsets, events_exist, smon_set_evset, smon_get_evset, smon_check_evset,
}

pub smon_get_evset_lem : (evsets : EvSets) (id : ℕ) → smon_get_evset evsets id ≡ get_elem? evsets id
unfolding smon_get_evset
smon_get_evset_lem evsets id = ground (arith, get_elem?-none evsets id)

-- An id passes the check exactly when a lookup finds it.
pub smon_check_evset_iff :
    (evsets : EvSets) (id : ℕ)
    → (smon_check_evset evsets id ≡ done) ↔ ((e : EvSet) × (smon_get_evset evsets id ≡ some e))
unfolding smon_check_evset smon_get_evset
smon_check_evset_iff evsets id = (λ h. found h, λ (e, h). ground arith)
  where
    found :
        (if ltb id (length evsets) then done else fail smenoevs) ≡ done
        → (e : EvSet) × ((if ltb id (length evsets) then get_elem? evsets id else none) ≡ some e)
    found h = let (e, p) = get_elem?-some evsets id (ground arith) in (e, ground arith)

-- An event-set is registered if there is room and memory and all its events exist.
abbrev pub accepts : Bool → Events → EvSets → EvSet → Bool
accepts kmalloc events evsets evset =
    kmalloc && (not (length evsets == max_evsets) && events_exist events evset.evids)

-- A registered event-set is found under the next id, and every other id keeps what it had; a call
-- that does not register changes no lookup.
smon_get_evset-set :
    (kmalloc : Bool) (events : Events) (evsets : EvSets) (evset : EvSet) (id : ℕ)
    → smon_get_evset (smon_set_evset kmalloc events evsets evset).1 id ≡ (
        if accepts kmalloc events evsets evset && id == length evsets
        then some evset
        else smon_get_evset evsets id)
unfolding smon_set_evset
smon_get_evset-set kmalloc events evsets evset id = ground (
  arith,
  smon_get_evset_lem evsets id,
  smon_get_evset_lem (evsets ++ evset ∷ []) id,
  get_elem?-snoc evsets evset id,
)

-- The return value is 0 exactly when the event-set is registered, which takes room in the table,
-- memory, and that all the events exist that it names.
smon_set_evset-done :
    (kmalloc : Bool) (events : Events) (evsets : EvSets) (evset : EvSet)
    → ((smon_set_evset kmalloc events evsets evset).0 ≡ done)
      ↔ (accepts kmalloc events evsets evset ≡ true)
unfolding smon_set_evset
smon_set_evset-done kmalloc events evsets evset = (λ h. ground arith, λ h. ground arith)
