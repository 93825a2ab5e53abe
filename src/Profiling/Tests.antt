-- ===== src/Profiling/Tests.antt =====
-- A session on a buffer with one sample: another is written, and then the only task leaves.
use schedmon.Prelude.{
  ◌≡◌, refl, subst, arith, Bool, true, false, ◌&&◌, Option, some, none, List, [], ◌∷◌, ◌++◌, ◌==◌,
  ltb, ◌⊎◌, inr,
}
use schedmon.Ring.{
  sample_size, sample_type_eof, memcpy, header_size, smon_rb_stuff_page, smon_rb_write, write_sized,
  put_record, put_on_next_page, smon_rb_read, smon_rb_is_active, smon_rb_batch_available,
}
use schedmon.Ring.Index.{
  head_page, head_offset, rb_page_space, rb_space, rb_count, head_trim_page, rb_pagemask,
}
use schedmon.Ring.Write.{accepts}
use schedmon.Reader.{
  Line, smon_rb_init, read_loop, take_sample, smon_rb_cursor, smon_rb_consume, header_case,
  smon_rb_flush,
}
use schedmon.Reader.Session.{read_samples, finish}
use schedmon.Reader.Tests.{ring, row, ring-Holds, fork_bytes}
use schedmon.Device.{smon_poll}
use schedmon.Profiling.Sampling.{
  Poll, waits, writes, leaves, Session, drive, read_batch, poll_case, sampling_turn, start_sampling,
}
use schedmon.Profiling.Sampling.Gains.{IsRuled, EofFits}
use schedmon.Profiling.Sampling.Turns.{IsPoll}
use schedmon.Profiling.Sampling.Delivery.{IsStart, Throughout, first, start_sampling-delivers}

linux_masks : IsPoll 1 64 16 (λ mask. mask)
linux_masks = record {
  no_data = refl;
  no_end = refl;
  data_ready = refl;
  end_only = refl;
  hung_up = refl;
}

one_sample : IsStart 2 1 ring 20 row
one_sample = record {
  holds = ring-Holds;
  pages = refl;
  counted = omega arith;
  batch = refl;
  joined = omega arith;
  few = omega arith;
  no_eof = (refl, tt);
}

abbrev polls : List Poll
polls = waits (writes 5 fork_bytes ∷ []) ∷ waits (leaves ∷ []) ∷ []

abbrev may_leave : Session → Bool
may_leave s = ltb 0 s.ring.active && accepts s.ring header_size

abbrev first_turn : Option Session
first_turn =
    sampling_turn 1 64 16 (λ mask. mask) 1 8192 (waits (writes 5 fork_bytes ∷ [])) (first 2 ring)

abbrev holds_then : Option Session → Bool
holds_then none = false
holds_then (some s) = may_leave s

turn_may : holds_then first_turn ≡ true
unfolding sampling_turn poll_case read_batch drive smon_poll accepts read_samples finish read_loop
    take_sample smon_rb_cursor smon_rb_consume header_case smon_rb_flush smon_rb_init smon_rb_read
    smon_rb_write write_sized put_record put_on_next_page smon_rb_stuff_page memcpy sample_size
    smon_rb_is_active smon_rb_batch_available head_page head_offset rb_page_space rb_space rb_count
    head_trim_page rb_pagemask
turn_may = refl

ruled : Throughout 1 64 16 (λ mask. mask) 1 8192 IsRuled polls (first 2 ring)
unfolding IsRuled sample_size
ruled = inr (
  ((omega arith, refl, refl), tt),
  λ s e.
      let ok : may_leave s ≡ true = subst (λ o. holds_then o ≡ true) e turn_may in
      inr ((ground arith, tt), λ s' _. tt),
)

fits : Throughout 1 64 16 (λ mask. mask) 1 8192 EofFits polls (first 2 ring)
unfolding EofFits
fits = inr (
  (tt, tt),
  λ s e.
      let ok : may_leave s ≡ true = subst (λ o. holds_then o ≡ true) e turn_may in
      inr ((inr (ground arith), tt), λ s' _. tt),
)

start_sampling-delivers_example :
    (s : Session) × (left : List Line) × (start_sampling 1 64 16 (λ mask. mask) 1 8192 2 ring polls
      ≡ some s)
    × (s.err ≡ false)
    × (s.done ≡ (s.ring.active == 0))
    × (s.lines ++ left ≡ (5, fork_bytes) ∷ s.accepted)
    × ((s.done ≡ false) ⊎ (left ≡ (sample_type_eof, []) ∷ []))
start_sampling-delivers_example =
    start_sampling-delivers 1 64 16 (λ mask. mask) 2 1 8192 20 polls linux_masks one_sample
      (omega arith) ruled fits
