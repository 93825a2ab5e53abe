-- ===== src/Cmd/Tests.antt =====
-- Command lines.
use schedmon.Prelude.{
  true, ◌≡◌, ◌↔◌, refl, arith, bit_and, bit_at, some, none, List, [], ◌∷◌, pos, negsuc,
}
use schedmon.Event.{Event}
use schedmon.EvSet.{EvSet}
use schedmon.Cmd.{
  EventOpt, event_add_tag, event_add_evsel, event_add_umask, scan_event, select, no_event,
  end_event, add_event, EvsetOpt, evset_add_tag, evset_add_events, evset_add_fixed, add_evset,
  scan_evset, set_ids, set_fixed, padded, enable_ids, enable_fixed, check_ids, out_of_range,
  EventScan,
}
use schedmon.Cmd.Profile.{
  ProfileOpt, opt_e, opt_i, opt_p, opt_t, opt_r, Profile, parse_profile, scan_profile, collect,
  esid_out_of_range, set_esids, add_option, mmap_case, profile_defaults,
}
use schedmon.Envir.{Envir, smon_create_envir, copy_envir, stat_mode, envir_option_stat}
use schedmon.Cmd.Stat.{
  StatOpt, stat_e, stat_i, parse_stat, scan_stat, set_first, first_id, stat_defaults,
  parse_stat-kept,
}
use schedmon.Cmd.Roof.{Roof, parse_roof, scan_roof, roof_option, roof_defaults}
use schedmon.Cmd.Profile.Bounds.{IsProfile, parse_profile-IsProfile}
use schedmon.Cmd.Events.{tags, evsels, umasks, add_event-enabled, add_event-none_iff}
use schedmon.Cmd.Sets.{FixedAgree, add_evset-agree}
use schedmon.Cmd.Enabled.{HasIds, events_given, add_evset-HasIds}

-- `-a tag=c,evsel=0x3c,umask=0`.
abbrev cycles_line : List EventOpt
cycles_line = event_add_tag (99 ∷ []) ∷ event_add_evsel 60 ∷ event_add_umask 0 ∷ []

abbrev cycles : Event
cycles = record { tag = 99 ∷ []; perfevtsel = 196668 }

cycles_added : add_event cycles_line ≡ some cycles
unfolding add_event scan_event end_event select
cycles_added = refl

add_event-enabled_example : bit_at cycles.perfevtsel 22 ≡ 0
add_event-enabled_example = add_event-enabled cycles_line cycles_added

-- `-a tag=a,tag=c,evsel=0x3c,umask=0`.
abbrev twice : List EventOpt
twice = event_add_tag (97 ∷ []) ∷ cycles_line

abbrev twice_end : EventScan
twice_end = record {
  event = record { tag = 99 ∷ []; perfevtsel = 60 };
  ftag = 2;
  fevsel = 1;
  fumask = 1;
}

twice_scan : scan_event no_event twice ≡ some twice_end
unfolding scan_event select
twice_scan = refl

add_event-none_iff_example :
    (add_event twice ≡ none) ↔ (bit_and (bit_and (tags twice) (evsels twice)) (umasks twice) ≡ 0)
add_event-none_iff_example = add_event-none_iff twice twice_scan

-- `-a tag=s,events=0:3,fixed=0x302`.
abbrev set_line : List EvsetOpt
set_line =
    evset_add_tag (115 ∷ []) ∷ evset_add_events (pos 0 ∷ pos 3 ∷ []) ∷ evset_add_fixed 770 ∷ []

abbrev evset : EvSet
evset = record {
  tag = 115 ∷ [];
  evids = pos 0 ∷ pos 3 ∷ negsuc 0 ∷ negsuc 0 ∷ [];
  fixed_ctrl = 770;
  global_ctrl = 21474836483;
}

set_added : add_evset set_line ≡ some evset
unfolding add_evset scan_evset set_ids set_fixed padded enable_ids enable_fixed check_ids
    out_of_range
set_added = refl

add_evset-agree_example : FixedAgree evset
add_evset-agree_example = add_evset-agree set_line set_added

add_evset-HasIds_example : HasIds (events_given set_line) 1 evset
add_evset-HasIds_example = add_evset-HasIds set_line 1 set_added refl (omega arith)

-- `smon profile -e 0:-1:2 -i -p 3 prog`.
abbrev profile_line : List ProfileOpt
profile_line = opt_e (pos 0 ∷ negsuc 0 ∷ pos 2 ∷ []) ∷ opt_i ∷ opt_p 3 ∷ []

profile_accepted :
    (c : Profile) × (parse_profile true [] profile_line ≡ some c) × (c.envir.n_esids ≡ 2)
unfolding parse_profile scan_profile collect esid_out_of_range set_esids add_option mmap_case
    profile_defaults
profile_accepted = (_, refl, refl)

parse_profile-IsProfile_example : IsProfile profile_accepted.0
parse_profile-IsProfile_example = parse_profile-IsProfile true [] profile_line profile_accepted.1

-- `smon stat -e 3:4 -i prog`.
abbrev stat_line : List StatOpt
stat_line = stat_e (pos 3 ∷ pos 4 ∷ []) ∷ stat_i ∷ []

stat_accepted :
    (c : Profile) × (new : Envir) × (parse_stat true 0 [] stat_line ≡ some c)
    × (smon_create_envir true c.envir ≡ some new)
    × (new.options ≡ 67)
unfolding parse_stat scan_stat collect esid_out_of_range set_first first_id add_option stat_defaults
    smon_create_envir copy_envir stat_mode envir_option_stat
stat_accepted = (_, _, refl, refl, refl)

parse_stat-kept_example :
    (stat_accepted.1.options ≡ stat_accepted.0.envir.options)
    × (stat_accepted.1.n_esids ≡ stat_accepted.0.envir.n_esids)
parse_stat-kept_example = parse_stat-kept true 0 [] stat_line stat_accepted.2 stat_accepted.3

-- `smon roof -t 0 -t 5 -r prog`.
abbrev roof_line : List ProfileOpt
roof_line = opt_t 0 ∷ opt_t 5 ∷ opt_r ∷ []

roof_accepted :
    (c : Roof) × (parse_roof true 0 [] roof_line ≡ some c) × (c.cmd.envir.sample_time ≡ 5)
unfolding parse_roof scan_roof roof_option add_option roof_defaults
roof_accepted = (_, refl, refl)
