-- ===== src/Main/Laws.antt =====
-- What a run of the tool does to the driver.
use Prim.Native.String.{String}
use schedmon.Prelude.{
  ℕ, zero, suc, ◌<◌, ◌≡◌, refl, ◌∙◌, arith, Bool, true, false, not, ◌&&◌, Option, some, List, [],
  ◌∷◌, ◌++◌, length, ◌==◌, if◌then◌else◌, ℤ, pos, negsuc, ◌>>=◌, Bool-cases, inl, inr,
}
use schedmon.Event.{Event, Events, Ret, done, fail, max_events}
use schedmon.EvSet.{EvSet, EvSets, events_exist}
use schedmon.Pmc.{Cpu}
use schedmon.Task.{Machine}
use schedmon.Device.Ioctl.{
  Request, set_event, set_evset, Answer, returned, System, smon_ioctl, dispatch,
}
use schedmon.Driver.{ioctl, one_call, is_zero, smon_load_driver, smon_unload_driver}
use schedmon.Driver as Driver
use schedmon.Driver.Laws.{IsIoctl, smon_check_events-events_exist}
use schedmon.Event as Event
use schedmon.EvSet as EvSet
use schedmon.EvSet.Laws.{accepts}
use schedmon.Cmd.{sub_add}
use schedmon.Cmd.Input.{Getopt, Input, parsed, event_cmd, evset_cmd, smon_parse_input}
use schedmon.Profiling.Start.{Answers}
use schedmon.Main.{ran, event_command, evset_command, command, input_command, main}

unload-open : (fd : ℕ) → 0 < fd → smon_unload_driver (pos fd) ≡ (some (pos fd), pos 0)
unfolding smon_unload_driver
unload-open zero h = absurd (omega arith)
unload-open (suc fd) h = refl

module _ {S : Type 0} (core : Cpu S) (call : Answer → ℤ) (sys : System)
    (accessible : Request → Bool) (rb : Option ℕ) (fuel : ℕ) (getopt : Getopt)
    (default_ofile : List ℕ) (cpumask count_mode fd : ℕ) (answers : Answers) (argv : List String)
    (m : Machine S) where
  pub main-input :
      (i : Input)
      → smon_parse_input getopt default_ofile cpumask count_mode argv ≡ i
      → 0 < fd
      → main core call sys accessible rb fuel getopt default_ofile cpumask count_mode
          (pos fd)
          answers
          argv
          m
        ≡ (input_command core call sys accessible rb fuel (pos fd) answers i m >>= λ r.
            some (record { run = r; closed = some (pos fd) }))
  unfolding main smon_load_driver
  main-input i e h = rw (e, unload-open fd h)

module _ {S : Type 0} (core : Cpu S) (call : Answer → ℤ) (sys : System)
    (accessible : Request → Bool) (rb : Option ℕ) (library : IsIoctl call)
    (open_to : (request : Request) → accessible request ≡ true) where
  -- An answer of the driver, as the tool gets it.
  abbrev pub result : Ret → ℤ
  result done = pos 0
  result (fail e) = negsuc 0

  call-result : (r : Ret) → call (returned r) ≡ result r
  call-result done = library.zero_done
  call-result (fail e) = library.failed e

  set_event-answer :
      (smon_dev : ℤ) (event : Event) (m : Machine S)
      → is_zero smon_dev ≡ false
      → Driver.smon_set_event core call sys accessible rb smon_dev event m
        ≡ some (
          record m { events = (Event.smon_set_event sys.kmalloc m.events event).1 },
          result (Event.smon_set_event sys.kmalloc m.events event).0,
        )
  unfolding Driver.smon_set_event one_call ioctl smon_ioctl dispatch
  set_event-answer smon_dev event m is_open = rw (
    is_open,
    open_to (set_event (some event)),
    ◌>>=◌,
    call-result (Event.smon_set_event sys.kmalloc m.events event).0,
  )

  set_evset-answer :
      (smon_dev : ℤ) (evset : EvSet) (m : Machine S)
      → is_zero smon_dev ≡ false
      → Driver.smon_set_evset core call sys accessible rb smon_dev evset m
        ≡ some (
          record m { evsets = (EvSet.smon_set_evset sys.kmalloc m.events m.evsets evset).1 },
          result (EvSet.smon_set_evset sys.kmalloc m.events m.evsets evset).0,
        )
  unfolding Driver.smon_set_evset one_call ioctl smon_ioctl dispatch
  set_evset-answer smon_dev evset m is_open = rw (
    is_open,
    open_to (set_evset (some evset)),
    ◌>>=◌,
    call-result (EvSet.smon_set_evset sys.kmalloc m.events m.evsets evset).0,
  )

  evset_add-answer :
      (fuel : ℕ) (smon_dev : ℤ) (evset : EvSet) (m : Machine S)
      → is_zero smon_dev ≡ false
      → evset_command core call sys accessible rb fuel smon_dev (sub_add evset) m
        ≡ some (
            if events_exist m.events evset.evids
            then ran
                (record m { evsets = (EvSet.smon_set_evset sys.kmalloc m.events m.evsets evset).1 })
                (result (EvSet.smon_set_evset sys.kmalloc m.events m.evsets evset).0)
            else ran m (negsuc 2))
  unfolding evset_command
  evset_add-answer fuel smon_dev evset m is_open =
      let checked =
        smon_check_events-events_exist core call sys accessible rb library open_to evset m in
      elim (Bool-cases (events_exist m.events evset.evids)) [
        | inl exist ↦ rw (checked, exist, ◌>>=◌, set_evset-answer smon_dev evset m is_open)
        | inr missing ↦ rw (checked, missing, ◌>>=◌)
      ]

  evset-table :
      (events : Events) (evsets : EvSets) (evset : EvSet)
      → (EvSet.smon_set_evset sys.kmalloc events evsets evset).1
        ≡ (if accepts sys.kmalloc events evsets evset then evsets ++ evset ∷ [] else evsets)
  unfolding EvSet.smon_set_evset
  evset-table events evsets evset = ground arith

  evset-result :
      (events : Events) (evsets : EvSets) (evset : EvSet)
      → events_exist events evset.evids ≡ true
      → result (EvSet.smon_set_evset sys.kmalloc events evsets evset).0
        ≡ (if accepts sys.kmalloc events evsets evset then pos 0 else negsuc 0)
  unfolding EvSet.smon_set_evset
  evset-result events evsets evset e = ground arith

  event-table :
      (events : Events) (event : Event)
      → (Event.smon_set_event sys.kmalloc events event).1 ≡ (
          if not (length events == max_events) && sys.kmalloc then events ++ event ∷ [] else events)
  unfolding Event.smon_set_event
  event-table events event = ground arith

  event-result :
      (events : Events) (event : Event)
      → result (Event.smon_set_event sys.kmalloc events event).0
        ≡ (if not (length events == max_events) && sys.kmalloc then pos 0 else negsuc 0)
  unfolding Event.smon_set_event
  event-result events event = ground arith

  module _ (fuel : ℕ) (getopt : Getopt) (default_ofile : List ℕ) (cpumask count_mode fd : ℕ)
      (answers : Answers) (argv : List String) (m : Machine S) where
    -- A command line that the parser accepts as `evset -a` adds the event-set to the driver's table,
    -- and succeeds, exactly if all its events exist, there is memory and the table has room. If an
    -- event is missing, the result is -SMENOEVT, and otherwise -1; the driver is then as before.
    -- The device, which open gave as `fd`, is closed either way; addresses pass, and the C library
    -- gives 0 if the driver does, and -1 for an error.
    pub main-evset :
        (evset : EvSet)
        → smon_parse_input getopt default_ofile cpumask count_mode argv
          ≡ parsed (evset_cmd (sub_add evset))
        → 0 < fd
        → main core call sys accessible rb fuel getopt default_ofile cpumask count_mode
            (pos fd)
            answers
            argv
            m
          ≡ some (record {
            run =
                ran
                  (record m {
                    evsets =
                        if accepts sys.kmalloc m.events m.evsets evset
                        then m.evsets ++ evset ∷ []
                        else m.evsets;
                  })
                  (if accepts sys.kmalloc m.events m.evsets evset
                    then pos 0
                    else if events_exist m.events evset.evids
                    then negsuc 0
                    else negsuc 2);
            closed = some (pos fd);
          })
    unfolding input_command command
    main-evset evset e h =
        let is_open : is_zero (pos fd) ≡ false = ground arith in
        let step = evset_add-answer fuel (pos fd) evset m is_open in
        main-input core call sys accessible rb fuel getopt default_ofile cpumask count_mode fd
          answers argv m (parsed (evset_cmd (sub_add evset))) e h
        ∙ elim (Bool-cases (events_exist m.events evset.evids)) [
          | inl exist ↦
              let table = evset-table m.events m.evsets evset in
              let ret = evset-result m.events m.evsets evset exist in
              rw (step, exist, ◌>>=◌, rw exist at table, rw exist at ret)
          | inr missing ↦
              let refused : accepts sys.kmalloc m.events m.evsets evset ≡ false = ground arith in
              rw (step, missing, ◌>>=◌, rw missing at refused)
        ]

    -- The same for `event -a`: the event is added, and the result is 0, exactly if there is memory
    -- and room.
    pub main-event :
        (event : Event)
        → smon_parse_input getopt default_ofile cpumask count_mode argv
          ≡ parsed (event_cmd (sub_add event))
        → 0 < fd
        → main core call sys accessible rb fuel getopt default_ofile cpumask count_mode
            (pos fd)
            answers
            argv
            m
          ≡ some (record {
            run =
                ran
                  (record m {
                    events =
                        if not (length m.events == max_events) && sys.kmalloc
                        then m.events ++ event ∷ []
                        else m.events;
                  })
                  (if not (length m.events == max_events) && sys.kmalloc then pos 0 else negsuc 0);
            closed = some (pos fd);
          })
    unfolding input_command command event_command
    main-event event e h =
        let is_open : is_zero (pos fd) ≡ false = ground arith in
        let step = set_event-answer (pos fd) event m is_open in
        main-input core call sys accessible rb fuel getopt default_ofile cpumask count_mode fd
          answers argv m (parsed (event_cmd (sub_add event))) e h
        ∙ rw (step, ◌>>=◌, event-table m.events event, event-result m.events event)
