-- ===== src/Driver.antt =====
-- tool/src/driver.c: the tool's calls of the driver. `smon_dev` is 0 while the device is not open.
-- What the C library makes of the driver's answer is the argument `call`; `accessible` is what the
-- system's test of each address gives, and `rb` the private data of the file.
pub mod Laws
pub mod Listing
pub mod Printing
pub mod Tests
use schedmon.Prelude.{
  ℕ, zero, suc, Bool, true, false, not, ◌&&◌, Option, none, some, List, [], ◌∷◌, ◌++◌, get_elem?,
  ltb, ◌==◌, if◌then◌else◌, ℤ, pos, negsuc, is_neg, to_u32, ◌>>=◌,
}
use schedmon.Event.{Event}
use schedmon.EvSet.{EvSet}
use schedmon.Envir.{Envir}
use schedmon.Pmc.{Cpu}
use schedmon.Task.{Machine}
use schedmon.Device.Ioctl.{
  Request, reset, set_event, get_event, check_event, set_evset, get_evset, check_evset, set_task,
  unset_task, read_samples, other, Answer, returned, minus_one, event_out, evset_out, System,
  smon_ioc_magic, smon_ioctl,
}

-- open of the device gives `fd`. The new `smon_dev`, and the result.
unfoldable pub smon_load_driver : ℤ → ℤ × ℤ
smon_load_driver (negsuc zero) = (pos 0, negsuc 0)
smon_load_driver fd = (fd, pos 0)

-- The file that is closed, if there is one, and the new `smon_dev`.
unfoldable pub smon_unload_driver : ℤ → Option ℤ × ℤ
smon_unload_driver (pos zero) = (none, pos 0)
smon_unload_driver fd = (some fd, pos 0)

abbrev pub smon_get_dev_fd : ℤ → ℤ
smon_get_dev_fd fd = fd

abbrev pub is_zero : ℤ → Bool
is_zero (pos n) = n == 0
is_zero (negsuc n) = false

-- The address, of what mmap of the device gives: NULL while it is not open.
unfoldable pub smon_mmap : ℤ → ℤ → ℤ
smon_mmap smon_dev mmap = if is_zero smon_dev then pos 0 else mmap

-- The numbers of the commands.
abbrev pub ioc_nr : Request → ℕ
ioc_nr reset = 0
ioc_nr (set_event e) = 1
ioc_nr (get_event id) = 2
ioc_nr (check_event id) = 3
ioc_nr (set_evset e) = 4
ioc_nr (get_evset id) = 5
ioc_nr (check_evset id) = 6
ioc_nr (set_task pid envir) = 7
ioc_nr (unset_task pid) = 8
ioc_nr (read_samples items size) = 9
ioc_nr other = 10

module _ {S : Type 0} (core : Cpu S) (call : Answer → ℤ) (sys : System)
    (accessible : Request → Bool) (rb : Option ℕ) where
  unfoldable pub ioctl : Request → Machine S → Option (Machine S × Answer)
  ioctl request m =
      smon_ioctl core sys smon_ioc_magic (ioc_nr request) (accessible request) rb request m

  -- `if (!smon_dev) return -1;`, and else the result of one command.
  unfoldable pub one_call : ℤ → Request → Machine S → Option (Machine S × ℤ)
  one_call smon_dev request m =
      if is_zero smon_dev
      then some (m, negsuc 0)
      else (ioctl request m >>= λ r. some (r.0, call r.1))

  unfoldable pub smon_set_event : ℤ → Event → Machine S → Option (Machine S × ℤ)
  smon_set_event smon_dev event m = one_call smon_dev (set_event (some event)) m

  unfoldable pub smon_set_evset : ℤ → EvSet → Machine S → Option (Machine S × ℤ)
  smon_set_evset smon_dev evset m = one_call smon_dev (set_evset (some evset)) m

  unfoldable pub smon_set_task : ℤ → ℕ → Envir → Machine S → Option (Machine S × ℤ)
  smon_set_task smon_dev pid envir m = one_call smon_dev (set_task pid (some envir)) m

  unfoldable pub smon_unset_task : ℤ → ℕ → Machine S → Option (Machine S × ℤ)
  smon_unset_task smon_dev pid m = one_call smon_dev (unset_task pid) m

  unfoldable pub smon_read_samples : ℤ → ℕ → ℕ → Machine S → Option (Machine S × ℤ)
  smon_read_samples smon_dev items size m = one_call smon_dev (read_samples items size) m

  -- The loop of smon_list_events from `i` on: the lines that are printed, and the last `i`. The
  -- driver gives an event, or a code, for this command; without fuel there is no result.
  unfoldable pub list_events : ℕ → ℕ → Machine S → Option (List (ℕ × Event) × ℕ)
  list_events zero i m = none
  list_events (suc fuel) i m = ioctl (get_event i) m >>= λ r.
      if not (is_zero (call r.1)) then some ([], i) else elim r.1 [
        | event_out left event ↦
            list_events fuel (suc i) r.0 >>= λ rest. some ((i, event) ∷ rest.0, rest.1)
        | _ ↦ none
      ]

  unfoldable pub list_evsets : ℕ → ℕ → Machine S → Option (List (ℕ × EvSet) × ℕ)
  list_evsets zero i m = none
  list_evsets (suc fuel) i m = ioctl (get_evset i) m >>= λ r.
      if not (is_zero (call r.1)) then some ([], i) else elim r.1 [
        | evset_out left evset ↦
            list_evsets fuel (suc i) r.0 >>= λ rest. some ((i, evset) ∷ rest.0, rest.1)
        | _ ↦ none
      ]

  -- The lines, and the result.
  unfoldable pub smon_list_events : ℕ → ℤ → Machine S → Option (List (ℕ × Event) × ℤ)
  smon_list_events fuel smon_dev m =
      if is_zero smon_dev
      then some ([], negsuc 0)
      else (list_events fuel 0 m >>= λ r. some (r.0, pos r.1))

  unfoldable pub smon_list_evsets : ℕ → ℤ → Machine S → Option (List (ℕ × EvSet) × ℤ)
  smon_list_evsets fuel smon_dev m =
      if is_zero smon_dev
      then some ([], negsuc 0)
      else (list_evsets fuel 0 m >>= λ r. some (r.0, pos r.1))

  -- The loop of smon_check_events over the ids of an event-set.
  unfoldable pub check_evids : List ℤ → Machine S → Option ℤ
  check_evids [] m = some (pos 0)
  check_evids (evt ∷ evts) m =
      let rest = check_evids evts m in
      if is_neg evt
      then rest
      else (ioctl (check_event (to_u32 evt)) m >>= λ r.
          if is_zero (call r.1) then rest else some (negsuc 2))

  unfoldable pub smon_check_events : EvSet → Machine S → Option ℤ
  smon_check_events evset m = check_evids evset.evids m

  -- The loop of smon_check_evsets, from place `i` of the array on, `n` places long.
  unfoldable pub check_esids : List ℤ → ℕ → ℕ → Machine S → Option ℤ
  check_esids esids i zero m = some (pos 0)
  check_esids esids i (suc n) m =
      let rest = check_esids esids (suc i) n m in
      get_elem? esids i >>= λ esid. ioctl (check_evset (to_u32 esid)) m >>= λ r.
      if is_zero (call r.1) then rest else some (negsuc 4)

  unfoldable pub smon_check_evsets : ℤ → Envir → Machine S → Option ℤ
  smon_check_evsets smon_dev envir m =
      if is_zero smon_dev then some (negsuc 0) else check_esids envir.esids 0 envir.n_esids m
