-- ===== src/Driver/Listing.antt =====
-- smon_list_events prints the driver's table.
use schedmon.Prelude.{
  ℕ, zero, suc, ◌+◌, ◌<◌, ◌≡◌, refl, sym, ap, ◌∙◌, arith, Bool, true, false, Option, none, some,
  List, [], ◌∷◌, ◌++◌, length, get_elem?, ℤ, pos, ◌>>=◌, append_assoc, append-nil,
}
use schedmon.Event.{Event, Events, smenoevt, smon_get_event}
use schedmon.Pmc.{Cpu}
use schedmon.Task.{Machine}
use schedmon.Device.Ioctl.{Request, get_event, Answer, System, smon_ioctl, dispatch}
use schedmon.Driver.{ioctl, is_zero, list_events, smon_list_events}
use schedmon.Driver.Laws.{IsIoctl}

-- The rows of a table from number `i` on.
abbrev pub numbered : ℕ → Events → List (ℕ × Event)
numbered i [] = []
numbered i (x ∷ xs) = (i, x) ∷ numbered (suc i) xs

length_middle :
    (before after : Events) (x : Event)
    → length (before ++ x ∷ after) ≡ suc (length before + length after)
length_middle [] after x = omega arith
length_middle (y ∷ before) after x = omega (arith, length_middle before after x)

get_elem?-middle :
    (before after : Events) (x : Event) → get_elem? (before ++ x ∷ after) (length before) ≡ some x
get_elem?-middle [] after x = refl
get_elem?-middle (y ∷ before) after x = get_elem?-middle before after x

get_event-middle :
    (before after : Events) (x : Event)
    → smon_get_event (before ++ x ∷ after) (length before) ≡ some x
unfolding smon_get_event
get_event-middle before after x =
    ground (arith, length_middle before after x, get_elem?-middle before after x)

get_event-end : (events : Events) → smon_get_event events (length events) ≡ none
unfolding smon_get_event
get_event-end events = ground arith

module _ {S : Type 0} (core : Cpu S) (call : Answer → ℤ) (sys : System)
    (accessible : Request → Bool) (rb : Option ℕ) (library : IsIoctl call)
    (open_to : (request : Request) → accessible request ≡ true) (copied : sys.left ≡ 0) where
  list_events-end :
      (fuel i : ℕ) (m : Machine S)
      → smon_get_event m.events i ≡ none
      → list_events core call sys accessible rb (suc fuel) i m ≡ some ([], i)
  unfolding list_events ioctl smon_ioctl dispatch
  list_events-end fuel i m e = rw (open_to (get_event i), ◌>>=◌, e, library.failed smenoevt)

  list_events-next :
      (fuel i : ℕ) (m : Machine S) (x : Event) (lines : List (ℕ × Event)) (n : ℕ)
      → smon_get_event m.events i ≡ some x
      → list_events core call sys accessible rb fuel (suc i) m ≡ some (lines, n)
      → list_events core call sys accessible rb (suc fuel) i m ≡ some ((i, x) ∷ lines, n)
  unfolding list_events ioctl smon_ioctl dispatch
  list_events-next fuel i m x lines n e rest =
      rw (open_to (get_event i), ◌>>=◌, e, library.event_left sys.left x, copied, rest, ◌>>=◌)

  list_events-from :
      (before after : Events) (fuel i : ℕ) (m : Machine S)
      → m.events ≡ before ++ after
      → i ≡ length before
      → length after < fuel
      → list_events core call sys accessible rb fuel i m ≡ some (numbered i after, i + length after)
  list_events-from before after zero i m e at h = absurd (omega (arith, h))
  list_events-from before [] (suc fuel) i m e at h =
      let none_left : smon_get_event m.events i ≡ none =
        ap (λ es. smon_get_event es i) (e ∙ append-nil before)
        ∙ (ap (smon_get_event before) at ∙ get_event-end before) in
      list_events-end fuel i m none_left ∙ ap (λ n. some ([], n)) (omega arith)
  list_events-from before (x ∷ after) (suc fuel) i m e at h =
      let found : smon_get_event m.events i ≡ some x =
        ap (λ es. smon_get_event es i) e
        ∙ (ap (smon_get_event (before ++ x ∷ after)) at ∙ get_event-middle before after x) in
      let rest =
        list_events-from (before ++ x ∷ []) after fuel (suc i) m
          (e ∙ sym (append_assoc before (x ∷ []) after))
          (omega (arith, at, length_middle before [] x)) (omega (arith, h)) in
      list_events-next fuel i m x (numbered (suc i) after) (suc i + length after) found rest
      ∙ ap (λ n. some ((i, x) ∷ numbered (suc i) after, n)) (omega arith)

  -- With a device that is open, smon_list_events lists the driver's table: the loop ends
  -- after one call more than there are events, prints each event once, in order and with its id, and
  -- gives their number; addresses pass, events are copied whole, and the C library gives the
  -- driver's answer, or -1 for an error.
  pub smon_list_events-all :
      (fuel : ℕ) (smon_dev : ℤ) (m : Machine S)
      → is_zero smon_dev ≡ false
      → length m.events < fuel
      → smon_list_events core call sys accessible rb fuel smon_dev m
        ≡ some (numbered 0 m.events, pos (length m.events))
  unfolding smon_list_events
  smon_list_events-all fuel smon_dev m is_open h =
      let count : 0 + length m.events ≡ length m.events = omega arith in
      rw (is_open, list_events-from [] m.events fuel 0 m refl refl h, ◌>>=◌, count)
