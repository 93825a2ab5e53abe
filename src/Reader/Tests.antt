-- ===== src/Reader/Tests.antt =====
-- A run of the reader, and its theorem at a buffer with one sample.
use schedmon.Prelude.{ℕ, ◌≤◌, ◌≡◌, refl, arith, false, List, [], ◌∷◌, ◌++◌, length, replicate, some}
use schedmon.Ring.{RingBuffer, Pages, memcpy, sample_size, header_bytes}
use schedmon.Ring.Layout.{Entry, sample_entry, samples}
use schedmon.Ring.Write.{Holds}
use schedmon.Reader.{
  Reader, read_loop, take_sample, smon_rb_cursor, smon_rb_consume, header_case, stopped,
}
use schedmon.Reader.Sync.Memory.{mapped}
use schedmon.Reader.Sync.Scan.{Enough}
use schedmon.Reader.Session.{Batch, InSync, read_samples, read_samples-takes}

abbrev pub fork_bytes : List ℕ
fork_bytes = replicate 16 7

abbrev one_fork : Pages
one_fork = memcpy (memcpy (λ p o. 0) 0 0 (header_bytes 5) 4) 0 4 fork_bytes 16

abbrev pub ring : RingBuffer
ring = record {
  n_pages = 2;
  size = 8192;
  pages = one_fork;
  head = 20;
  tail = 0;
  items = 1;
  batch = 1;
  active = 1;
  wakeups = 1;
}

abbrev reader : Reader
reader = record { tail = 0; size = 8192; n_pages = 2; consumed = 0 }

abbrev pub row : List Entry
row = sample_entry 5 fork_bytes ∷ []

pub ring-Holds : Holds ring 0 20 row
unfolding memcpy sample_size
ring-Holds = record {
  valid = record {
    order = 1;
    several = omega arith;
    few = omega arith;
    whole = refl;
    bytes = refl;
    head_in = omega arith;
    tail_in = omega arith;
    aligned = refl;
  };
  ends = record { reader = refl; writer = refl; behind = omega arith; room = omega arith };
  row = ((refl, refl, omega arith, refl, refl), refl);
}

ring-InSync : InSync ring reader 0
ring-InSync = (
  1,
  refl,
  record {
    several = omega arith;
    few = omega arith;
    whole = refl;
    bytes = refl;
    cursor = refl;
    behind = omega arith;
    used = refl;
  },
)

row-Enough : Enough 1 row
unfolding Enough
row-Enough = tt

one_line :
    read_loop (mapped one_fork) 2 1 reader 0 []
    ≡ stopped ((5, fork_bytes) ∷ []) 1 (record reader { tail = 20; consumed = 20 })
unfolding read_loop take_sample smon_rb_cursor smon_rb_consume header_case memcpy
one_line = refl

read_samples-takes_example :
    (b : Batch) × (p : ℕ) × (rest : List Entry) × (read_samples 2 ring reader 1 ≡ some b)
    × (b.error ≡ false)
    × (b.lines ++ samples rest ≡ (5, fork_bytes) ∷ [])
    × (length b.lines ≤ 1)
    × Holds b.ring p 20 rest
    × InSync b.ring b.reader p
read_samples-takes_example =
    read_samples-takes 2 1 0 20 ring-Holds ring-InSync row-Enough (omega arith)
