-- ===== src/Cmd.antt =====
-- tool/src/cmd.c: the commands `smon event -a` and `smon evset -a`. What getopt and getsubopt split
-- the command line into, with numbers read by strtoul, is an argument; `none` is an error.
pub mod Events
pub mod Sets
pub mod Enabled
pub mod Profile
pub mod Stat
pub mod Roof
pub mod Input
pub mod Tests
use schedmon.Prelude.{
  ℕ, zero, suc, ◌+◌, ◌-◌, ◌*◌, ◌%◌, ◌^◌, Bool, true, false, not, ◌||◌, Option, none, some, List, [],
  ◌∷◌, ◌++◌, length, replicate, take, bit_and, bit_or, ltb, leb, ◌==◌, if◌then◌else◌, ℤ, pos,
  negsuc, is_neg,
}
use schedmon.Event.{Event, max_events}
use schedmon.EvSet.{EvSet, max_gp_ctrs}

-- A suboption of `event -a`; `event_bad` is any that getsubopt does not know.
pub data EventOpt : Type 0 where
  event_add_tag : List ℕ → EventOpt
  event_add_mode event_add_evsel event_add_umask : ℕ → EventOpt
  event_bad : EventOpt

-- The variables of the loop.
pub record EventScan : Type 0 where
  pub event : Event
  pub ftag : ℕ
  pub fevsel : ℕ
  pub fumask : ℕ

unfoldable pub select : EventScan → ℕ → Event
select s bits = record { tag = s.event.tag; perfevtsel = bit_or s.event.perfevtsel bits }

unfoldable pub scan_event : EventScan → List EventOpt → Option EventScan
scan_event s [] = some s
scan_event s (event_add_tag val ∷ opts) =
    scan_event
      (record s {
        event = record { tag = take 63 val; perfevtsel = s.event.perfevtsel };
        ftag = suc s.ftag;
      })
      opts
scan_event s (event_add_mode val ∷ opts) =
    scan_event
      (record s {
        event = record {
          tag = s.event.tag;
          perfevtsel = bit_or (bit_or s.event.perfevtsel (bit_and val 3 * 2 ^ 16)) (2 ^ 22);
        };
      })
      opts
scan_event s (event_add_evsel val ∷ opts) =
    scan_event (record s { event = select s (bit_and val 255); fevsel = suc s.fevsel }) opts
scan_event s (event_add_umask val ∷ opts) =
    scan_event (record s { event = select s (bit_and val 255 * 2 ^ 8); fumask = suc s.fumask }) opts
scan_event s (event_bad ∷ opts) = none

abbrev pub no_event : EventScan
no_event = record { event = record { tag = []; perfevtsel = 0 }; ftag = 0; fevsel = 0; fumask = 0 }

-- The test after the loop, and the default mode; the bits 16 and 17 are `usr` and `os`.
unfoldable pub end_event : EventScan → Option Event
end_event s =
    if bit_and (bit_and s.ftag s.fevsel) s.fumask == 0
    then none
    else some
        (if bit_and s.event.perfevtsel (3 * 2 ^ 16) == 0 then select s (3 * 2 ^ 16) else s.event)

unfoldable pub add_event : List EventOpt → Option Event
add_event opts = elim (scan_event no_event opts) [ none ↦ none | some s ↦ end_event s ]

-- An option of the command, and what it asks for.
pub data Opt (O : Type 0) : Type 0 where
  opt_add : List O → Opt O
  opt_list opt_other : Opt O

pub data SubCmd (A : Type 0) : Type 0 where
  sub_add : A → SubCmd A
  sub_list : SubCmd A

-- The getopt loop of parse_event, which the first `-a` or `-l` ends.
unfoldable pub parse_event : List (Opt EventOpt) → Option (SubCmd Event)
parse_event [] = none
parse_event (opt_add opts ∷ rest) = elim (add_event opts) [
  | none ↦ none
  | some e ↦ some (sub_add e)
]
parse_event (opt_list ∷ rest) = some sub_list
parse_event (opt_other ∷ rest) = parse_event rest

-- A suboption of `evset -a`; the ids are the tokens of `events`, each stored in an `int`.
pub data EvsetOpt : Type 0 where
  evset_add_tag : List ℕ → EvsetOpt
  evset_add_events : List ℤ → EvsetOpt
  evset_add_fixed : ℕ → EvsetOpt
  evset_bad : EvsetOpt

pub record EvsetScan : Type 0 where
  pub evset : EvSet
  pub ftag : ℕ
  pub fevents : ℕ

-- `evids[ntok++] >= MAX_EVENTS`.
unfoldable pub out_of_range : ℤ → Bool
out_of_range (pos n) = leb max_events n
out_of_range (negsuc n) = false

-- The loop over the tokens: whether it ends without an error.
unfoldable pub check_ids : ℕ → List ℤ → Bool
check_ids ntok [] = true
check_ids ntok (e ∷ es) =
    let rest = check_ids (suc ntok) es in
    if ntok == max_gp_ctrs then false else if out_of_range e then false else rest

-- The loop that enables the counters of the events, from counter `i` on.
unfoldable pub enable_ids : ℕ → List ℤ → ℕ → ℕ
enable_ids i [] global = global
enable_ids i (e ∷ es) global =
    enable_ids (suc i) es (if is_neg e then global else bit_or global (2 ^ i))

unfoldable pub padded : List ℤ → List ℤ
padded ids = ids ++ replicate (max_gp_ctrs - length ids) (negsuc 0)

unfoldable pub set_ids : List ℤ → EvsetScan → EvsetScan
set_ids ids s = record s {
  evset = record s.evset {
    evids = padded ids;
    global_ctrl = enable_ids 0 (padded ids) s.evset.global_ctrl;
  };
  fevents = suc s.fevents;
}

-- `if (tmp & mask) global_ctrl |= 1 << i`.
unfoldable pub enable_fixed : ℕ → ℕ → ℕ → ℕ → ℕ
enable_fixed tmp mask i global = if bit_and tmp mask == 0 then global else bit_or global (2 ^ i)

unfoldable pub set_fixed : ℕ → EvSet → EvSet
set_fixed val s =
    let tmp = bit_and val 819 in
    record s {
      fixed_ctrl = bit_or s.fixed_ctrl tmp;
      global_ctrl =
          enable_fixed tmp 768 34 (enable_fixed tmp 48 33 (enable_fixed tmp 3 32 s.global_ctrl));
    }

unfoldable pub scan_evset : EvsetScan → List EvsetOpt → Option EvsetScan
scan_evset s [] = some s
scan_evset s (evset_add_tag val ∷ opts) =
    scan_evset (record s { evset = record s.evset { tag = take 63 val }; ftag = suc s.ftag }) opts
scan_evset s (evset_add_events [] ∷ opts) = none
scan_evset s (evset_add_events (e ∷ es) ∷ opts) =
    let rest = scan_evset (set_ids (e ∷ es) s) opts in if check_ids 0 (e ∷ es) then rest else none
scan_evset s (evset_add_fixed val ∷ opts) =
    scan_evset (record s { evset = set_fixed val s.evset }) opts
scan_evset s (evset_bad ∷ opts) = none

-- The event-set that bzero leaves.
abbrev pub no_evset : EvsetScan
no_evset = record {
  evset = record {
    tag = [];
    evids = replicate max_gp_ctrs (pos 0);
    fixed_ctrl = 0;
    global_ctrl = 0;
  };
  ftag = 0;
  fevents = 0;
}

unfoldable pub add_evset : List EvsetOpt → Option EvSet
add_evset opts = elim (scan_evset no_evset opts) [
  | none ↦ none
  | some s ↦ if bit_and s.ftag s.fevents == 0 then none else some s.evset
]

unfoldable pub parse_evset : List (Opt EvsetOpt) → Option (SubCmd EvSet)
parse_evset [] = none
parse_evset (opt_add opts ∷ rest) = elim (add_evset opts) [
  | none ↦ none
  | some e ↦ some (sub_add e)
]
parse_evset (opt_list ∷ rest) = some sub_list
parse_evset (opt_other ∷ rest) = parse_evset rest
