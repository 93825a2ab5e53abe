-- ===== src/Ring/Write/Accept.antt =====
-- Which offers smon_rb_write takes, by the code's own tests, and what it counts.
use schedmon.Prelude.{
  ℕ, ◌+◌, ◌-◌, ◌%◌, ◌≤◌, ◌≡◌, refl, arith, Bool, true, not, ◌&&◌, ◌||◌, List, length, ltb, leb,
  if◌then◌else◌, Bool-cases, inl, inr, some,
}
use schedmon.Ring.Index.{page_size, rb_page_space, add32}
use schedmon.Ring.{
  RingBuffer, header_size, sample_size, space, smon_rb_write, write_sized, put_on_next_page,
  put_record, smon_rb_stuff_page,
}
use schedmon.Ring.Layout.{Entry}
use schedmon.Ring.Valid.{
  space-distance, rb_page_space-at, writer-aligned, stuff_page-IsAt, stuff_page-IsValid,
}
use schedmon.Ring.Write.Refine.{Holds, has_room, stuff_size}

-- The tests of smon_rb_write on a record of `total_size` bytes.
unfoldable pub accepts : RingBuffer → ℕ → Bool
accepts rb total_size =
    not (ltb (space rb) total_size)
    && (not (ltb (rb_page_space rb.head) total_size)
        || not (ltb (space (smon_rb_stuff_page rb)) total_size))

-- The tests pass exactly if there is room for the record and for what it skips.
pub accepts-has_room :
    {rb : RingBuffer} {t h : ℕ} {es : List Entry} (n : ℕ)
    → Holds rb t h es
    → n ≤ 96
    → has_room rb.size t h (n + header_size) ≡ accepts rb (n + header_size)
unfolding accepts
accepts-has_room {rb} {t} {h} n v small =
    let room = space-distance v.valid v.ends in
    let page = rb_page_space-at v.valid v.ends in
    let start = writer-aligned v.valid v.ends in
    elim (Bool-cases (leb (page_size - h % page_size) (space rb))) [
      | inl fits ↦
          let ends = stuff_page-IsAt v.valid v.ends (ground arith) in
          let room' = space-distance (stuff_page-IsValid v.valid v.ends) ends in
          let size = stuff_size rb in ground arith
      | inr full ↦ ground arith
    ]

-- What a write counts, and what it leaves.
pub record IsCounted (rb : RingBuffer) (taken : Bool) (out : RingBuffer) : Type 0 where
  pub items : out.items ≡ (if taken then add32 rb.items 1 else rb.items)
  pub batch : out.batch ≡ rb.batch
  pub active : out.active ≡ rb.active
  pub n_pages : out.n_pages ≡ rb.n_pages

module _ (rb : RingBuffer) (kind n : ℕ) (sample : List ℕ) where
  put_record-IsCounted : IsCounted rb true (put_record rb kind sample n)
  unfolding put_record
  put_record-IsCounted = record {
    items = ground arith;
    batch = ground arith;
    active = ground arith;
    n_pages = ground arith;
  }

  put_on_next_page-IsCounted :
      IsCounted rb
        (not (ltb (space (smon_rb_stuff_page rb)) (n + header_size)))
        (put_on_next_page rb kind sample n)
  unfolding put_on_next_page smon_rb_stuff_page put_record
  put_on_next_page-IsCounted = record {
    items = ground arith;
    batch = ground arith;
    active = ground arith;
    n_pages = ground arith;
  }

  pub write_sized-IsCounted :
      IsCounted rb (accepts rb (n + header_size)) (write_sized rb kind sample n)
  unfolding write_sized accepts
  write_sized-IsCounted = elim (Bool-cases (ltb (space rb) (n + header_size))) [
    | inl full ↦ rw full (record { items = refl; batch = refl; active = refl; n_pages = refl })
    | inr some_room ↦
        rw some_room (elim (Bool-cases (ltb (rb_page_space rb.head) (n + header_size))) [
          | inl split ↦ rw split put_on_next_page-IsCounted
          | inr inside ↦ rw inside put_record-IsCounted
        ])
  ]

-- smon_rb_write counts a sample exactly if it takes it.
pub smon_rb_write-IsCounted :
    (rb : RingBuffer) (kind : ℕ) (sample : List ℕ)
    → sample_size kind ≡ some (length sample)
    → IsCounted rb (accepts rb (length sample + header_size)) (smon_rb_write rb kind sample)
unfolding smon_rb_write
smon_rb_write-IsCounted rb kind sample s =
    rw (s, smon_rb_write) (write_sized-IsCounted rb kind (length sample) sample)
