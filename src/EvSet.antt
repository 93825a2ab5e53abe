-- ===== src/EvSet.antt =====
-- driver/evset.c, the table of event-sets. An event-set names its events by id; a negative id
-- leaves a counter free.
pub mod Laws
pub mod Tables
pub mod Tests
use schedmon.Prelude.{
  ℕ, Bool, true, false, Option, none, some, List, [], ◌∷◌, ◌++◌, length, get_elem?, ltb, ◌==◌,
  if◌then◌else◌, ℤ, to_u32, is_neg,
}
use schedmon.Event.{
  Error, smenomem, smemaxes, smenoevt, smenoevs, Ret, done, fail, Events, smon_get_event,
}

-- `struct smon_evset`; the two controls are 64-bit patterns, `evids` has MAX_GP_CTRS ids.
pub record EvSet : Type 0 where
  pub tag : List ℕ
  pub evids : List ℤ
  pub fixed_ctrl : ℕ
  pub global_ctrl : ℕ

abbrev pub max_evsets : ℕ
max_evsets = 64

abbrev pub max_gp_ctrs : ℕ
max_gp_ctrs = 4

abbrev pub EvSets : Type 0
EvSets = List EvSet

unfoldable pub smon_evset_init : Bool → Ret × EvSets
smon_evset_init kmalloc = if kmalloc then (done, []) else (fail smenomem, [])

unfoldable pub smon_evset_exit : EvSets → Ret × EvSets
smon_evset_exit evsets = (done, [])

-- The loop over the ids: whether it ends without a jump to wrong_event.
unfoldable pub events_exist : Events → List ℤ → Bool
events_exist events [] = true
events_exist events (e ∷ es) =
    let rest = events_exist events es in
    if is_neg e
    then rest
    else elim (smon_get_event events (to_u32 e)) [ none ↦ false | some event ↦ rest ]

unfoldable pub smon_set_evset : Bool → Events → EvSets → EvSet → Ret × EvSets
smon_set_evset kmalloc events evsets evset =
    if length evsets == max_evsets
    then (fail smemaxes, evsets)
    else if kmalloc
    then if events_exist events evset.evids
      then (done, evsets ++ evset ∷ [])
      else (fail smenoevt, evsets)
    else (fail smenomem, evsets)

unfoldable pub smon_get_evset : EvSets → ℕ → Option EvSet
smon_get_evset evsets id = if ltb id (length evsets) then get_elem? evsets id else none

unfoldable pub smon_check_evset : EvSets → ℕ → Ret
smon_check_evset evsets id = if ltb id (length evsets) then done else fail smenoevs
