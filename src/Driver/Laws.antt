-- ===== src/Driver/Laws.antt =====
-- What the tool's calls do together with the driver.
use schedmon.Prelude.{
  ℕ, zero, suc, ◌+◌, ◌≤◌, ◌<◌, ◌≡◌, refl, sym, ap, subst, ◌∙◌, arith, Bool, true, Option, none,
  some, List, [], ◌∷◌, length, get_elem?, ltb, ◌==◌, if◌then◌else◌, ℤ, pos, negsuc, is_neg, to_u32,
  ◌>>=◌, Bool-cases, inl, inr, get_elem?-some, take, >>=-some,
}
use schedmon.Event.{
  Event, Events, Ret, done, fail, smenoevt, smenoevs, smon_get_event, smon_check_event,
}
use schedmon.EvSet.{EvSet, EvSets, events_exist, smon_get_evset, smon_check_evset}
use schedmon.Event.Laws.{smon_check_event_iff}
use schedmon.EvSet.Laws.{smon_check_evset_iff}
use schedmon.Envir.{Envir, smon_create_envir, copy_envir, stat_mode, mux_evsets}
use schedmon.Pmc.{Cpu}
use schedmon.Task.{Machine}
use schedmon.Device.Ioctl.{
  Request, get_event, check_event, check_evset, Answer, returned, event_out, evset_out, System,
  smon_ioctl, dispatch,
}
use schedmon.Sched.Safe.{IsNamed, IsSound}
use schedmon.Driver.{ioctl, check_evids, smon_check_events, check_esids, smon_check_evsets}

-- The C library's ioctl: 0 if the driver answers 0, -1 if it answers a code, and else the answer.
pub record IsIoctl (call : Answer → ℤ) : Type 0 where
  pub zero_done : call (returned done) ≡ pos 0
  pub failed : (e : schedmon.Event.Error) → call (returned (fail e)) ≡ negsuc 0
  pub event_left : (n : ℕ) (event : Event) → call (event_out n event) ≡ pos n
  pub evset_left : (n : ℕ) (evset : EvSet) → call (evset_out n evset) ≡ pos n

-- The rows of a table from number `i` on.
abbrev pub numbered : {A : Type 0} → ℕ → List A → List (ℕ × A)
numbered i [] = []
numbered i (x ∷ xs) = (i, x) ∷ numbered (suc i) xs

check_event-none :
    (events : Events) (id : ℕ)
    → smon_get_event events id ≡ none
    → smon_check_event events id ≡ fail smenoevt
unfolding smon_get_event smon_check_event
check_event-none events id h = elim (Bool-cases (ltb id (length events))) [
  | inl e ↦
      let (x, found) = get_elem?-some events id (ground arith) in
      absurd (none-some (sym (ground arith) ∙ found))
  | inr e ↦ ground arith
]
  where
    none-some : {x : Event} → none ≡ some x → ⊥
    none-some e = absurd (cc)

check_evset-none :
    (evsets : EvSets) (id : ℕ)
    → smon_get_evset evsets id ≡ none
    → smon_check_evset evsets id ≡ fail smenoevs
unfolding smon_get_evset smon_check_evset
check_evset-none evsets id h = elim (Bool-cases (ltb id (length evsets))) [
  | inl e ↦
      let (x, found) = get_elem?-some evsets id (ground arith) in
      absurd (none-some (sym (ground arith) ∙ found))
  | inr e ↦ ground arith
]
  where
    none-some : {x : EvSet} → none ≡ some x → ⊥
    none-some e = absurd (cc)

refused : some (negsuc 4) ≡ some (pos 0) → ⊥
refused e = absurd (cc)

get_elem?-take :
    {A : Type 0} (xs : List A) (n i : ℕ) → i < n → get_elem? (take n xs) i ≡ get_elem? xs i
get_elem?-take xs zero i h = absurd (omega arith)
get_elem?-take [] (suc n) i h = refl
get_elem?-take (x ∷ xs) (suc n) zero h = refl
get_elem?-take (x ∷ xs) (suc n) (suc i) h = get_elem?-take xs n i (omega arith)

create_envir-sets :
    (kzalloc : Bool) (envir new : Envir)
    → smon_create_envir kzalloc envir ≡ some new
    → 0 < envir.n_esids
    → (new.esids ≡ take mux_evsets envir.esids) × (new.n_esids ≤ envir.n_esids) × (0 < new.n_esids)
unfolding smon_create_envir copy_envir stat_mode
create_envir-sets kzalloc envir new made h =
    (ground (arith, made), ground (arith, made), ground (arith, made))

module _ {S : Type 0} (core : Cpu S) (call : Answer → ℤ) (sys : System)
    (accessible : Request → Bool) (rb : Option ℕ) (library : IsIoctl call)
    (open_to : (request : Request) → accessible request ≡ true) where
  check_event-answer :
      (id : ℕ) (m : Machine S)
      → ioctl core call sys accessible rb (check_event id) m
        ≡ some (m, returned (smon_check_event m.events id))
  unfolding ioctl smon_ioctl dispatch
  check_event-answer id m = rw (open_to (check_event id))

  check_evset-answer :
      (id : ℕ) (m : Machine S)
      → ioctl core call sys accessible rb (check_evset id) m
        ≡ some (m, returned (smon_check_evset m.evsets id))
  unfolding ioctl smon_ioctl dispatch
  check_evset-answer id m = rw (open_to (check_evset id))

  get_event-answer :
      (id : ℕ) (m : Machine S) (answer : Answer)
      → elim (smon_get_event m.events id) [
        | none ↦ returned (fail smenoevt)
        | some event ↦ event_out sys.left event
      ]
        ≡ answer
      → ioctl core call sys accessible rb (get_event id) m ≡ some (m, answer)
  unfolding ioctl smon_ioctl dispatch
  get_event-answer id m answer e = rw (open_to (get_event id), e)

  -- One id of smon_check_events.
  check_evids-cons :
      (e : ℤ) (es : List ℤ) (m : Machine S) (o : Option Event)
      → smon_get_event m.events (to_u32 e) ≡ o
      → check_evids core call sys accessible rb (e ∷ es) m ≡ (
          if is_neg e then check_evids core call sys accessible rb es m else elim o [
            | none ↦ some (negsuc 2)
            | some event ↦ check_evids core call sys accessible rb es m
          ])
  unfolding check_evids
  check_evids-cons e es m none h =
      let missing = check_event-none m.events (to_u32 e) h in
      rw (check_event-answer (to_u32 e) m, ◌>>=◌, missing, library.failed smenoevt)
  check_evids-cons e es m (some event) h =
      let there = (smon_check_event_iff m.events (to_u32 e)).1 (event, h) in
      rw (check_event-answer (to_u32 e) m, ◌>>=◌, there, library.zero_done)

  check_evids-exist :
      (es : List ℤ) (m : Machine S)
      → check_evids core call sys accessible rb es m
        ≡ some (if events_exist m.events es then pos 0 else negsuc 2)
  unfolding check_evids events_exist
  check_evids-exist [] m = refl
  check_evids-exist (e ∷ es) m =
      let rest = check_evids-exist es m in
      check_evids-cons e es m (smon_get_event m.events (to_u32 e)) refl ∙ ground (arith, rest)

  -- The tool's check of an event-set gives 0 exactly if the driver's check of its events at a
  -- registration passes, and -SMENOEVT otherwise; with a device that is open, addresses that the
  -- system lets pass, and a C library that gives 0 if the driver does, and -1 for an error.
  pub smon_check_events-events_exist :
      (evset : EvSet) (m : Machine S)
      → smon_check_events core call sys accessible rb evset m
        ≡ some (if events_exist m.events evset.evids then pos 0 else negsuc 2)
  unfolding smon_check_events
  smon_check_events-events_exist evset m = check_evids-exist evset.evids m

  check_esids-cons :
      (esids : List ℤ) (i n : ℕ) (m : Machine S) (esid : ℤ) (o : Option EvSet)
      → get_elem? esids i ≡ some esid
      → smon_get_evset m.evsets (to_u32 esid) ≡ o
      → check_esids core call sys accessible rb esids i (suc n) m ≡ elim o [
        | none ↦ some (negsuc 4)
        | some evset ↦ check_esids core call sys accessible rb esids (suc i) n m
      ]
  unfolding check_esids
  check_esids-cons esids i n m esid none e h =
      let missing = check_evset-none m.evsets (to_u32 esid) h in
      rw (e, ◌>>=◌, check_evset-answer (to_u32 esid) m, ◌>>=◌, missing, library.failed smenoevs)
  check_esids-cons esids i n m esid (some evset) e h =
      let there = (smon_check_evset_iff m.evsets (to_u32 esid)).1 (evset, h) in
      rw (e, ◌>>=◌, check_evset-answer (to_u32 esid) m, ◌>>=◌, there, library.zero_done)

  check_esids-place :
      (esids : List ℤ) (i n : ℕ) (m : Machine S)
      → check_esids core call sys accessible rb esids i (suc n) m ≡ some (pos 0)
      → IsNamed m.evsets esids i
        × (check_esids core call sys accessible rb esids (suc i) n m ≡ some (pos 0))
  unfolding check_esids
  check_esids-place esids i n m h =
      let (esid, at, _) = >>=-some (get_elem? esids i) _ h in
      named esid at (smon_get_evset m.evsets (to_u32 esid)) refl
    where
      named :
          (esid : ℤ)
          → get_elem? esids i ≡ some esid
          → (o : Option EvSet) → smon_get_evset m.evsets (to_u32 esid) ≡ o
          → IsNamed m.evsets esids i
            × (check_esids core call sys accessible rb esids (suc i) n m ≡ some (pos 0))
      named esid at none e =
          absurd (refused (sym (check_esids-cons esids i n m esid none at e) ∙ h))
      named esid at (some evset) e = (
        record { esid = esid; evset = evset; named = at; found = e },
        sym (check_esids-cons esids i n m esid (some evset) at e) ∙ h,
      )

  check_esids-IsNamed :
      (esids : List ℤ) (i n j : ℕ) (m : Machine S)
      → check_esids core call sys accessible rb esids i n m ≡ some (pos 0)
      → i ≤ j
      → j < i + n
      → IsNamed m.evsets esids j
  check_esids-IsNamed esids i zero j m h a b = absurd (omega arith)
  check_esids-IsNamed esids i (suc n) j m h a b =
      let (here, rest) = check_esids-place esids i n m h in
      elim (Bool-cases (i == j)) [
        | inl e ↦ let same : i ≡ j = ground arith in subst (IsNamed m.evsets esids) same here
        | inr e ↦
            let later : suc i ≤ j = ground arith in
            check_esids-IsNamed esids (suc i) n j m rest later (omega arith)
      ]

  -- An environment that passes the tool's check, with at least one and at most 32 event-sets, has a
  -- copy in the driver whose event-sets all exist, at least one, in either mode: what a registration
  -- needs that it and the hooks do not fault.
  pub smon_check_evsets-IsSound :
      (smon_dev : ℤ) (envir new : Envir) (kzalloc : Bool) (m : Machine S)
      → smon_check_evsets core call sys accessible rb smon_dev envir m ≡ some (pos 0)
      → 0 < envir.n_esids
      → envir.n_esids ≤ 32
      → smon_create_envir kzalloc envir ≡ some new
      → IsSound m.evsets new × (0 < new.n_esids)
  unfolding smon_check_evsets
  smon_check_evsets-IsSound smon_dev envir new kzalloc m h some_sets few made =
      let (esids, most, least) = create_envir-sets kzalloc envir new made some_sets in
      let checked : check_esids core call sys accessible rb envir.esids 0 envir.n_esids m
          ≡ some (pos 0) =
        ground (arith, h) in
      (
        record {
          bound = omega (arith, most, few);
          named = λ i b.
              let old =
                check_esids-IsNamed envir.esids 0 envir.n_esids i m checked (omega arith)
                  (omega (arith, most, b)) in
              record {
                esid = old.esid;
                evset = old.evset;
                named =
                    ap (λ ids. get_elem? ids i) esids
                    ∙ (get_elem?-take envir.esids 32 i (omega (arith, most, few, b)) ∙ old.named);
                found = old.found;
              };
        },
        least,
      )
