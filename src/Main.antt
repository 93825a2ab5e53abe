-- ===== src/Main.antt =====
-- tool/src/main.c: one run of the tool, over the driver of the machine `m`. `opened` is what open
-- gives for the device, and `answers` is for start_profile, whose calls are listed as its steps;
-- what the driver does while the profiled program runs is not followed here. The parsers give
-- neither `-d` nor a type that the switch does not know.
pub mod Laws
pub mod Registers
pub mod Tests
use Prim.Native.String.{String}
use schedmon.Prelude.{
  ℕ, zero, suc, ◌+◌, Bool, true, false, not, Option, none, some, List, [], ◌∷◌, ◌==◌, if◌then◌else◌,
  ℤ, pos, negsuc, ◌>>=◌,
}
use schedmon.Event.{Event}
use schedmon.EvSet.{EvSet}
use schedmon.Pmc.{Cpu}
use schedmon.Task.{Machine}
use schedmon.Device.Ioctl.{Request, Answer, System}
use schedmon.Driver.{
  is_zero, smon_load_driver, smon_unload_driver, smon_set_event, smon_list_events,
  smon_check_events, smon_set_evset, smon_list_evsets, smon_check_evsets,
}
use schedmon.Cmd.{SubCmd, sub_add, sub_list}
use schedmon.Cmd.Input.{
  Getopt, SmonCmd, event_cmd, evset_cmd, run_cmd, Run, cmd_roof, Input, parsed, usage, unknown,
  rejected, smon_parse_input,
}
use schedmon.Profiling.Start.{Step, Answers, start_profile}

-- The driver after a command, the result, what was printed, and the calls of start_profile.
pub record Ran (S : Type 0) : Type 0 where
  pub machine : Machine S
  pub ret : ℤ
  pub events : List (ℕ × Event)
  pub evsets : List (ℕ × EvSet)
  pub steps : List Step

abbrev pub ran : {S : Type 0} → Machine S → ℤ → Ran S
ran m ret = record { machine = m; ret = ret; events = []; evsets = []; steps = [] }

-- The result of main, and the file that it closed.
pub record Exit (S : Type 0) : Type 0 where
  pub run : Ran S
  pub closed : Option ℤ

module _ {S : Type 0} (core : Cpu S) (call : Answer → ℤ) (sys : System)
    (accessible : Request → Bool) (rb : Option ℕ) (fuel : ℕ) where
  unfoldable pub event_command : ℤ → SubCmd Event → Machine S → Option (Ran S)
  event_command smon_dev (sub_add event) m =
      smon_set_event core call sys accessible rb smon_dev event m >>= λ r. some (ran r.0 r.1)
  event_command smon_dev sub_list m =
      smon_list_events core call sys accessible rb fuel smon_dev m >>= λ r.
      some (record (ran m (pos 0)) { events = r.0 })

  unfoldable pub evset_command : ℤ → SubCmd EvSet → Machine S → Option (Ran S)
  evset_command smon_dev (sub_add evset) m =
      smon_check_events core call sys accessible rb evset m >>= λ ret.
      if not (is_zero ret)
      then some (ran m ret)
      else (smon_set_evset core call sys accessible rb smon_dev evset m >>= λ r. some (ran r.0 r.1))
  evset_command smon_dev sub_list m =
      smon_list_evsets core call sys accessible rb fuel smon_dev m >>= λ r.
      some (record (ran m (pos 0)) { evsets = r.0 })

  abbrev pub profiled : Answers → Run → Machine S → Ran S
  profiled answers cmd m =
      let (steps, ret) = start_profile answers cmd in record (ran m ret) { steps = steps }

  -- CMD_PROFILE and CMD_STAT check the event-sets, and CMD_ROOF does not.
  unfoldable pub run_command : ℤ → Answers → Run → Machine S → Option (Ran S)
  run_command smon_dev answers cmd m =
      if cmd.kind == cmd_roof
      then some (profiled answers cmd m)
      else (smon_check_evsets core call sys accessible rb smon_dev cmd.profile.envir m >>= λ ret.
          some (if is_zero ret then profiled answers cmd m else ran m ret))

  unfoldable pub command : ℤ → Answers → SmonCmd → Machine S → Option (Ran S)
  command smon_dev answers (event_cmd sub) m = event_command smon_dev sub m
  command smon_dev answers (evset_cmd sub) m = evset_command smon_dev sub m
  command smon_dev answers (run_cmd cmd) m = run_command smon_dev answers cmd m

  unfoldable pub input_command : ℤ → Answers → Input → Machine S → Option (Ran S)
  input_command smon_dev answers (parsed cmd) m = command smon_dev answers cmd m
  input_command smon_dev answers usage m = some (ran m (pos 0))
  input_command smon_dev answers unknown m = some (ran m (pos 0))
  input_command smon_dev answers rejected m = some (ran m (pos 0))

  unfoldable pub main :
      Getopt → List ℕ → ℕ → ℕ → ℤ → Answers → List String → Machine S → Option (Exit S)
  main getopt default_ofile cpumask count_mode opened answers argv m =
      let (smon_dev, loaded) = smon_load_driver opened in
      if not (is_zero loaded)
      then some (record { run = ran m (negsuc 0); closed = none })
      else (input_command smon_dev answers
            (smon_parse_input getopt default_ofile cpumask count_mode argv) m
          >>= λ r. some (record { run = r; closed = (smon_unload_driver smon_dev).0 }))
