-- ===== src/Ring/Tests.antt =====
-- Runs of the ring buffer, and its theorems at inputs that meet their hypotheses.
use schedmon.Prelude.{
  ℕ, ◌-◌, ◌<◌, ◌≡◌, refl, arith, Bool, true, List, [], ◌∷◌, replicate, ◌==◌, not, some, ◌⊎◌,
}
use schedmon.Ring.Index.{
  head_page, head_offset, rb_count, rb_space, rb_page_space, rb_next_page, head_trim_page,
  rb_pagemask,
}
use schedmon.Ring.{
  RingBuffer, Pages, smon_rb_write, write_sized, put_record, put_on_next_page, smon_rb_stuff_page,
  memcpy, sample_size, count, smon_rb_read, smon_release_rb,
}
use schedmon.Ring.Valid.{IsValid}
use schedmon.Ring.Write.{
  Holds, HoldsQueue, smon_rb_write-offers, KeepsUnread, smon_rb_write-KeepsUnread,
}
use schedmon.Ring.Consume.{smon_rb_read-consumes}
use schedmon.Ring.Create.{
  created, Unwound, unwound, below_zero, freed, Frees, smon_create_rb, smon_create_rb-leaks,
  smon_release_rb-offers, error_pages, first_failure, fresh_rb,
}

abbrev blank : Pages
blank p o = 0

-- Two pages, with both ends 12 bytes before the second page.
abbrev near_edge : RingBuffer
near_edge = record {
  n_pages = 2;
  size = 8192;
  pages = blank;
  head = 4084;
  tail = 4084;
  items = 0;
  batch = 1;
  active = 1;
  wakeups = 0;
}

abbrev fork_bytes : List ℕ
fork_bytes = replicate 16 7

near_edge-Holds : Holds near_edge 4084 4084 []
near_edge-Holds = record {
  valid = record {
    order = 1;
    several = omega arith;
    few = omega arith;
    whole = refl;
    bytes = refl;
    head_in = omega arith;
    tail_in = omega arith;
    aligned = refl;
  };
  ends = record { reader = refl; writer = refl; behind = omega arith; room = omega arith };
  row = refl;
}

fork_sized : sample_size 5 ≡ some 16
unfolding sample_size
fork_sized = refl

-- The sample goes to the second page, behind a PAD header.
write_near_edge :
    let rb = smon_rb_write near_edge 5 fork_bytes in
    (rb.head ≡ 4116)
    × (rb.pages 0 4084 ≡ 7)
    × (rb.pages 1 0 ≡ 5)
    × (rb.pages 1 4 ≡ 7)
    × (rb.wakeups ≡ 1)
unfolding smon_rb_write write_sized put_on_next_page put_record smon_rb_stuff_page memcpy
    sample_size head_page head_offset rb_count rb_space rb_page_space rb_next_page head_trim_page
    rb_pagemask
write_near_edge = (refl, refl, refl, refl, refl)

smon_rb_write-offers_example :
    HoldsQueue (smon_rb_write near_edge 5 fork_bytes) 4084 ((5, fork_bytes) ∷ [])
smon_rb_write-offers_example = smon_rb_write-offers 5 fork_bytes near_edge-Holds fork_sized

smon_rb_write-KeepsUnread_example : KeepsUnread near_edge 4084 4084 (smon_rb_write near_edge 6 [])
smon_rb_write-KeepsUnread_example =
    smon_rb_write-KeepsUnread 6 [] near_edge-Holds.valid near_edge-Holds.ends

smon_rb_read-consumes_example :
    IsValid (smon_rb_read near_edge 3 9999)
    × (count (smon_rb_read near_edge 3 9999) ≡ count near_edge - 9999)
    × ((smon_rb_read near_edge 3 9999).items ≡ near_edge.items - 3)
smon_rb_read-consumes_example = smon_rb_read-consumes 3 9999 near_edge-Holds.valid

smon_release_rb-offers_example : HoldsQueue (smon_release_rb near_edge) 4084 ((8, []) ∷ [])
smon_release_rb-offers_example = smon_release_rb-offers near_edge-Holds refl

abbrev all_but_third : ℕ → Bool
all_but_third i = not (i == 3)

third_fails : first_failure all_but_third 4 0 ≡ some 3
unfolding first_failure
third_fails = refl

smon_create_rb-leaks_example :
    (u : Unwound) × (smon_create_rb true true all_but_third blank 4 ≡ unwound u)
    × ¬ Frees u 0
    × ((0 < 3) ⊎ (u ≡ below_zero))
smon_create_rb-leaks_example =
    smon_create_rb-leaks all_but_third blank 4 3 (omega arith) third_fails

unwound_pages : error_pages 3 ≡ freed (2 ∷ 1 ∷ [])
unfolding error_pages
unwound_pages = refl

four_created : smon_create_rb true true (λ i. true) blank 4 ≡ created (fresh_rb 4 blank)
unfolding smon_create_rb first_failure
four_created = refl
