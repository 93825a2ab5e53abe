-- ===== src/Cmd/Input.antt =====
-- smon_parse_input of tool/src/cmd.c, and struct smon_cmd of tool/src/cmd.h. What getopt makes of a
-- command line, and for a command that runs a program its `optind` at the end, is an argument.
pub mod Program
use Prim.Native.String.{String}
use text.Mathlib.Text as Text
use mathlib.Core.Option
use schedmon.Prelude.{
  ℕ, suc, ◌+◌, ◌≡◌, Bool, true, false, ◌||◌, Option, none, some, List, [], ◌∷◌, length, get_elem?,
  ltb, leb, ◌==◌, if◌then◌else◌, ◌>>=◌,
}
use schedmon.Event.{Event}
use schedmon.EvSet.{EvSet}
use schedmon.Cmd.{Opt, EventOpt, EvsetOpt, SubCmd, parse_event, parse_evset}
use schedmon.Cmd.Profile.{Profile, ProfileOpt, parse_profile}
use schedmon.Cmd.Stat.{StatOpt, parse_stat}
use schedmon.Cmd.Roof.{Roof, parse_roof}

abbrev pub cmd_event : ℕ
cmd_event = 1

abbrev pub cmd_evset : ℕ
cmd_evset = 2

abbrev pub cmd_stat : ℕ
cmd_stat = 4

abbrev pub cmd_profile : ℕ
cmd_profile = 5

abbrev pub cmd_roof : ℕ
cmd_roof = 6

-- A command that runs a program: its type, what its options set, the place of the program in the
-- command line, and whether to count only.
pub record Run : Type 0 where
  pub kind : ℕ
  pub profile : Profile
  pub argindex : ℕ
  pub count_mode : ℕ

-- `struct smon_cmd` with what its pointer points to.
pub data SmonCmd : Type 0 where
  event_cmd : SubCmd Event → SmonCmd
  evset_cmd : SubCmd EvSet → SmonCmd
  run_cmd : Run → SmonCmd

-- The result 0, and the three ways to a result of 1: the help text, the message that there is no such
-- command, and a parser's own.
pub data Input : Type 0 where
  parsed : SmonCmd → Input
  usage unknown rejected : Input

unfoldable pub from_parser : Option SmonCmd → Input
from_parser none = rejected
from_parser (some c) = parsed c

-- getopt on a command line, for each command.
pub record Getopt : Type 0 where
  pub event : List String → List (Opt EventOpt)
  pub evset : List String → List (Opt EvsetOpt)
  pub profile : List String → List ProfileOpt × ℕ
  pub stat : List String → List StatOpt × ℕ
  pub roof : List String → List ProfileOpt × ℕ

-- DEFAULT_OFILE, and what is in the fields `cpumask` and `count_mode` before they are set.
module _ (getopt : Getopt) (default_ofile : List ℕ) (cpumask count_mode : ℕ) where
  -- The end of parse_profile, with `argc` and `argv` from the second word on.
  unfoldable pub profile_cmd : List String → Option SmonCmd
  profile_cmd argv =
      let (opts, optind) = getopt.profile argv in
      parse_profile (ltb optind (length argv)) default_ofile opts >>= λ c. some (
        run_cmd (record {
          kind = cmd_profile;
          profile = c;
          argindex = optind + 1;
          count_mode = count_mode;
        }))

  unfoldable pub stat_cmd : List String → Option SmonCmd
  stat_cmd argv =
      let (opts, optind) = getopt.stat argv in
      parse_stat (ltb optind (length argv)) cpumask default_ofile opts >>= λ c. some (
        run_cmd
          (record { kind = cmd_stat; profile = c; argindex = optind + 1; count_mode = count_mode }))

  unfoldable pub roof_cmd : List String → Option SmonCmd
  roof_cmd argv =
      let (opts, optind) = getopt.roof argv in
      parse_roof (ltb optind (length argv)) cpumask default_ofile opts >>= λ c. some (
        run_cmd (record {
          kind = cmd_roof;
          profile = c.cmd;
          argindex = optind + 1;
          count_mode = c.count_mode;
        }))

  -- The words of the command line.
  unfoldable pub smon_parse_input : List String → Input
  smon_parse_input [] = usage
  smon_parse_input (program ∷ []) = usage
  smon_parse_input (program ∷ word ∷ args) =
      let event = parse_event (getopt.event (program ∷ word ∷ args)) in
      let evset = parse_evset (getopt.evset (program ∷ word ∷ args)) in
      if Text.◌==◌ word "event"
      then from_parser (Option.map event_cmd event)
      else if Text.◌==◌ word "evset"
      then from_parser (Option.map evset_cmd evset)
      else if Text.◌==◌ word "profile"
      then from_parser (profile_cmd (word ∷ args))
      else if Text.◌==◌ word "stat"
      then from_parser (stat_cmd (word ∷ args))
      else if Text.◌==◌ word "roof"
      then from_parser (roof_cmd (word ∷ args))
      else if Text.◌==◌ word "help" || Text.◌==◌ word "--help"
      then usage
      else unknown
