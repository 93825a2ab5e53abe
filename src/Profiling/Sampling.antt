-- ===== src/Profiling/Sampling.antt =====
-- start_sampling of tool/src/profile.c. What the driver does to the buffer until poll returns is a
-- list of its calls on it, one list for each call of poll; poll evaluates smon_poll of the driver,
-- and a result without events stands for a poll that still waits. `accepted` records what the
-- buffer took of the samples that were written; the code has no such variable.
pub mod Rows
pub mod Gains
pub mod Going
pub mod Turns
pub mod Delivery
use schedmon.Prelude.{
  ℕ, zero, suc, ◌+◌, ◌^◌, Bool, true, false, not, ◌||◌, Option, none, some, List, [], ◌∷◌, ◌++◌,
  length, bit_and, ltb, ◌==◌, if◌then◌else◌, ◌>>=◌,
}
use schedmon.Ring.{
  RingBuffer, header_size, sample_type_eof, smon_rb_write, smon_get_rb, smon_release_rb,
}
use schedmon.Ring.Write.{accepts}
use schedmon.Reader.{Reader, Line, smon_rb_init}
use schedmon.Reader.Session.{Batch, read_samples}
use schedmon.Device.{smon_poll}

-- A call of the driver on the buffer: a sample is written, a task joins, a task leaves.
pub data Act : Type 0 where
  writes : ℕ → List ℕ → Act
  joins leaves : Act

unfoldable pub drive : Act → RingBuffer → RingBuffer
drive (writes kind sample) ring = smon_rb_write ring kind sample
drive joins ring = smon_get_rb ring
drive leaves ring = smon_release_rb ring

-- What the queue of samples gains by a call.
unfoldable pub gained : Act → RingBuffer → List Line
gained (writes kind sample) ring =
    if accepts ring (length sample + header_size) then (kind, sample) ∷ [] else []
gained joins ring = []
gained leaves ring =
    if ring.active == 1
    then if accepts ring header_size then (sample_type_eof, []) ∷ [] else []
    else []

-- A call of poll: the driver's calls until it answers, or an answer of 0 or -1.
pub data Poll : Type 0 where
  waits : List Act → Poll
  stops : Poll

-- The mapping and the variables of the loop.
pub record Session : Type 0 where
  pub ring : RingBuffer
  pub reader : Reader
  pub lines : List Line
  pub accepted : List Line
  pub done : Bool
  pub err : Bool

abbrev pub act : Act → Session → Session
act a s = record s { ring = drive a s.ring; accepted = s.accepted ++ gained a s.ring }

abbrev pub acts : List Act → Session → Session
acts [] s = s
acts (a ∷ rest) s = acts rest (act a s)

-- An `unsigned int` passed as an `int`, where a negative number of samples counts like 0.
abbrev pub as_count : ℕ → ℕ
as_count n = if ltb n (2 ^ 31) then n else 0

-- A call of read_samples, on `steps` as its fuel, and what it leaves to the loop.
unfoldable pub read_batch : ℕ → ℕ → Bool → Session → Option Session
read_batch steps nr_samples done s = read_samples steps s.ring s.reader nr_samples >>= λ b.
    some (record s {
      ring = b.ring;
      reader = b.reader;
      lines = s.lines ++ b.lines;
      done = done;
      err = b.error;
    })

-- poll's masks, what the system makes of the driver's mask, and the batch size of the environment.
module _ (pollin pollrdnorm pollhup : ℕ) (revents : ℕ → ℕ) (batch_size steps : ℕ) where
  -- `case 1` of the switch.
  unfoldable pub poll_case : ℕ → Session → Option Session
  poll_case mask s =
      if not (bit_and mask pollin == 0)
      then read_batch steps (as_count batch_size) false s
      else if not (bit_and mask pollhup == 0)
      then read_batch steps (as_count s.reader.size) true s
      else some s

  -- One turn of the loop.
  unfoldable pub sampling_turn : Poll → Session → Option Session
  sampling_turn (waits calls) s =
      let s' = acts calls s in
      poll_case (revents (smon_poll pollin pollrdnorm pollhup (some s'.ring))) s'
  sampling_turn stops s = some (record s { done = true })

  unfoldable pub sampling_loop : List Poll → Session → Option Session
  sampling_loop [] s = some s
  sampling_loop (p ∷ ps) s =
      if s.done || s.err then some s else (sampling_turn p s >>= λ s'. sampling_loop ps s')

  unfoldable pub start_sampling : ℕ → RingBuffer → List Poll → Option Session
  start_sampling mmap_pages ring polls = sampling_loop polls (record {
    ring = ring;
    reader = smon_rb_init mmap_pages;
    lines = [];
    accepted = [];
    done = false;
    err = false;
  })
