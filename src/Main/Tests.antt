-- ===== src/Main/Tests.antt =====
-- Runs of the tool on a driver with two events and one event-set.
use Prim.Native.String.{String}
use schedmon.Prelude.{
  ◌<◌, ◌≡◌, refl, arith, true, none, some, List, [], ◌∷◌, length, get_elem?, replicate, ◌≤◌, pos,
  negsuc, Returns, ◌⊎◌,
}
use schedmon.Event.{Event, smon_get_event}
use schedmon.EvSet.{EvSet, smon_check_evset, events_exist}
use schedmon.Task.{Machine}
use schedmon.Device.Ioctl.{smon_ioctl, dispatch}
use schedmon.Driver.{
  smon_set_task, smon_check_evsets, check_esids, ioctl, smon_load_driver, smon_unload_driver,
}
use schedmon.Driver.Tests.{Registers, core, call, sys, any_address, evset, machine, call-IsIoctl}
use schedmon.Sched.Safe.Lists.{AllSafe}
use schedmon.Reader.Tests.{ring}
use schedmon.Cmd.{
  opt_add, sub_add, event_add_tag, event_add_evsel, event_add_umask, evset_add_tag,
  evset_add_events, parse_event, parse_evset, add_event, scan_event, end_event, select, add_evset,
  scan_evset, set_ids, padded, enable_ids, check_ids, out_of_range,
}
use schedmon.Cmd.Profile.{
  opt_e, parse_profile, scan_profile, collect, esid_out_of_range, set_esids, profile_defaults,
}
use schedmon.Cmd.Input.{
  Getopt, parsed, event_cmd, evset_cmd, run_cmd, Run, cmd_profile, cmd_roof, smon_parse_input,
  from_parser, profile_cmd,
}
use schedmon.Cmd.Input.Program.{smon_parse_input-IsRunnable}
use schedmon.Profiling.Start.{Answers, start_profile, parent_profile, end_profile}
use schedmon.Main.{Exit, ran, main, input_command, command, run_command}
use schedmon.Main.Laws.{main-evset}
use schedmon.Main.Registers.{main-registers}

-- `smon event -a tag=c,evsel=0x3c,umask=0`, `smon evset -a tag=e,events=0:1` and
-- `smon profile -e 0 ls`.
abbrev getopt : Getopt
getopt = record {
  event =
      λ argv. opt_add (event_add_tag (99 ∷ []) ∷ event_add_evsel 60 ∷ event_add_umask 0 ∷ []) ∷ [];
  evset =
      λ argv. opt_add (evset_add_tag (101 ∷ []) ∷ evset_add_events (pos 0 ∷ pos 1 ∷ []) ∷ []) ∷ [];
  profile = λ argv. (opt_e (pos 0 ∷ []) ∷ [], 3);
  stat = λ argv. ([], 1);
  roof = λ argv. ([], 1);
}

abbrev event_line : List String
event_line = "smon" ∷ "event" ∷ "-a" ∷ "tag=c,evsel=0x3c,umask=0" ∷ []

abbrev evset_line : List String
evset_line = "smon" ∷ "evset" ∷ "-a" ∷ "tag=e,events=0:1" ∷ []

abbrev profile_line : List String
profile_line = "smon" ∷ "profile" ∷ "-e" ∷ "0" ∷ "ls" ∷ []

abbrev answers : Answers
answers = record {
  mkstemp = true;
  fopen = true;
  sem_open = true;
  fork = pos 77;
  addr = pos 4096;
  set_task = pos 0;
}

abbrev new_event : Event
new_event = record { tag = 99 ∷ []; perfevtsel = 196668 }

abbrev new_evset : EvSet
new_evset = record {
  tag = 101 ∷ [];
  evids = pos 0 ∷ pos 1 ∷ negsuc 0 ∷ negsuc 0 ∷ [];
  fixed_ctrl = 0;
  global_ctrl = 3;
}

event_parsed : smon_parse_input getopt [] 0 0 event_line ≡ parsed (event_cmd (sub_add new_event))
unfolding smon_parse_input from_parser parse_event add_event scan_event end_event select
event_parsed = refl

evset_parsed : smon_parse_input getopt [] 0 0 evset_line ≡ parsed (evset_cmd (sub_add new_evset))
unfolding smon_parse_input from_parser parse_evset add_evset scan_evset set_ids padded enable_ids
    check_ids out_of_range
evset_parsed = refl

main-evset_example :
    main core call sys any_address none 3 getopt [] 0 0 (pos 3) answers evset_line machine
    ≡ some (record {
      run = ran (record machine { evsets = evset ∷ new_evset ∷ [] }) (pos 0);
      closed = some (pos 3);
    })
unfolding events_exist smon_get_event
main-evset_example =
    main-evset core call sys any_address none call-IsIoctl (λ request. refl) 3 getopt [] 0 0 3
      answers evset_line machine new_evset evset_parsed (omega arith)

abbrev run : Run
run = record {
  kind = cmd_profile;
  profile = record {
    envir = record {
      esids = pos 0 ∷ replicate 31 (negsuc 0);
      n_esids = 1;
      sample_time = 10;
      batch_size = 1000;
      options = 2;
      count = 0;
    };
    cpumask = 0;
    mmap_pages = 1024;
    out_file = [];
    eflag = 1;
  };
  argindex = 4;
  count_mode = 0;
}

run_parsed : smon_parse_input getopt [] 0 0 profile_line ≡ parsed (run_cmd run)
unfolding smon_parse_input from_parser profile_cmd parse_profile scan_profile collect
    esid_out_of_range set_esids profile_defaults
run_parsed = refl

smon_parse_input-IsRunnable_example :
    (0 < 4)
    × ((program : String) × (get_elem? profile_line 4 ≡ some program))
    × ((cmd_profile ≡ cmd_roof) ⊎ (1 ≤ 32))
smon_parse_input-IsRunnable_example =
    smon_parse_input-IsRunnable getopt [] 0 0 profile_line run run_parsed

abbrev profiled_run : Exit Registers
profiled_run = record {
  run = record (ran machine (pos 0)) { steps = (start_profile answers run).0 };
  closed = some (pos 3);
}

main_ran :
    main core call sys any_address none 3 getopt [] 0 0 (pos 3) answers profile_line machine
    ≡ some profiled_run
unfolding main smon_load_driver smon_unload_driver input_command command run_command
    smon_parse_input from_parser profile_cmd parse_profile scan_profile collect esid_out_of_range
    set_esids profile_defaults smon_check_evsets check_esids ioctl smon_ioctl dispatch
    smon_check_evset start_profile parent_profile
main_ran = refl

steps_made : 0 < length profiled_run.run.steps
unfolding start_profile parent_profile end_profile
steps_made = omega arith

-- The machine once the buffer is mapped.
abbrev mapped_machine : Machine Registers
mapped_machine = record machine { rbs = some ring ∷ [] }

mapped_machine-AllSafe : AllSafe mapped_machine
mapped_machine-AllSafe = record {
  cpus = λ cpu t h. absurd (omega (arith, h));
  waits = λ t h. absurd (omega (arith, h));
}

main-registers_example :
    Returns
      (λ ended. AllSafe ended.0)
      (smon_set_task core call sys any_address (some 0) (pos 3) 77 run.profile.envir mapped_machine)
main-registers_example =
    main-registers core call sys any_address call-IsIoctl (λ request. refl) 3 getopt [] 0 0 3
      answers profile_line none machine run profiled_run run_parsed refl (omega arith) (omega arith)
      main_ran steps_made 77 0 mapped_machine refl mapped_machine-AllSafe
      (record { object = ring; at = refl }) refl
