-- ===== src/Ring/Create/Release.antt =====
-- smon_release_rb: the last writer offers an EOF record to the queue.
use schedmon.Prelude.{ℕ, ◌^◌, ◌<◌, ◌≡◌, refl, arith, List, [], some, ◌==◌, true, false}
use schedmon.Ring.Index.{sub32}
use schedmon.Ring.{
  RingBuffer, header_size, sample_type_eof, sample_size, smon_rb_write_eof, smon_release_rb,
  irq_work_queue,
}
use schedmon.Ring.Layout.{Entry, samples}
use schedmon.Ring.Valid.{moved-IsValid}
use schedmon.Ring.Write.{Holds, HoldsQueue, offer, has_room, smon_rb_write-offers}

-- Only pages and ends matter to what a buffer holds.
pub Holds-active :
    {rb : RingBuffer} {t h : ℕ} {es : List Entry} (active : ℕ)
    → Holds rb t h es
    → Holds (record rb { active = active }) t h es
Holds-active {rb} active v = record {
  valid =
      moved-IsValid (record rb { active = active }) v.valid refl refl v.valid.head_in
        v.valid.tail_in v.valid.aligned;
  ends = record {
    reader = v.ends.reader;
    writer = v.ends.writer;
    behind = v.ends.behind;
    room = v.ends.room;
  };
  row = v.row;
}

Holds-wakeup :
    {rb : RingBuffer} {t h : ℕ} {es : List Entry}
    → Holds rb t h es
    → Holds (irq_work_queue rb) t h es
Holds-wakeup {rb} v = record {
  valid =
      moved-IsValid (irq_work_queue rb) v.valid refl refl v.valid.head_in v.valid.tail_in
        v.valid.aligned;
  ends = record {
    reader = v.ends.reader;
    writer = v.ends.writer;
    behind = v.ends.behind;
    room = v.ends.room;
  };
  row = v.row;
}

pub eof_sized : sample_size sample_type_eof ≡ some 0
unfolding sample_size
eof_sized = refl

-- The release of the last of the writers appends an EOF record if there is room for its header, and
-- otherwise loses it: the queue is then as before.
pub smon_release_rb-offers :
    {rb : RingBuffer} {t h : ℕ} {es : List Entry}
    → Holds rb t h es
    → rb.active ≡ 1
    → HoldsQueue
        (smon_release_rb rb)
        t
        (offer (has_room rb.size t h header_size) (samples es) (sample_type_eof, []))
unfolding smon_release_rb smon_rb_write_eof
smon_release_rb-offers {rb} {t} {h} {es} v one =
    let last : (sub32 rb.active 1 == 0) ≡ true = ground arith in
    let (h', es', w, q) =
      smon_rb_write-offers sample_type_eof [] (Holds-active (sub32 rb.active 1) v) eof_sized in
    rw last (h', es', Holds-wakeup w, q)

-- Every other release only counts.
pub smon_release_rb-others :
    (rb : RingBuffer)
    → 1 < rb.active
    → rb.active < 2 ^ 32
    → smon_release_rb rb ≡ record rb { active = sub32 rb.active 1 }
unfolding smon_release_rb
smon_release_rb-others rb p q =
    let more : (sub32 rb.active 1 == 0) ≡ false = ground arith in rw more
