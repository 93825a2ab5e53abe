-- ===== src/Ring.antt =====
-- driver/rb.c, the ring buffer between the tracepoint hooks and the tool. Each function that the
-- source runs under `rb->lock` is one step here. `data` is the contents of the pages, by page and
-- offset; `wakeups` counts the calls of irq_work_queue on `rb->irq`; `active` is a bit pattern.
pub mod Index
pub mod Layout
pub mod Valid
pub mod Write
pub mod Consume
pub mod Create
mod Tests
use schedmon.Prelude.{
  ℕ, zero, suc, ◌+◌, ◌-◌, ◌/◌, ◌%◌, ◌^◌, ◌*◌, Bool, true, false, ◌&&◌, not, Option, none, some,
  List, [], ◌∷◌, get_or, ltb, leb, ◌==◌, if◌then◌else◌,
}
use Index.{
  page_shift, page_size, u32, add32, sub32, head_page, head_offset, rb_count, rb_space,
  rb_page_space, rb_next_page, head_trim_page,
}

abbrev pub Pages : Type 0
Pages = ℕ → ℕ → ℕ

pub record RingBuffer : Type 0 where
  pub n_pages : ℕ
  pub size : ℕ
  pub pages : Pages
  pub head : ℕ
  pub tail : ℕ
  pub items : ℕ
  pub batch : ℕ
  pub active : ℕ
  pub wakeups : ℕ

-- The sample types of driver/smon.h.
abbrev pub sample_type_pmc : ℕ
sample_type_pmc = 1

abbrev pub sample_type_rapl : ℕ
sample_type_rapl = 2

abbrev pub sample_type_cpu : ℕ
sample_type_cpu = 3

abbrev pub sample_type_sched : ℕ
sample_type_sched = 4

abbrev pub sample_type_fork : ℕ
sample_type_fork = 5

abbrev pub sample_type_info : ℕ
sample_type_info = 6

abbrev pub sample_type_pad : ℕ
sample_type_pad = 7

abbrev pub sample_type_eof : ℕ
sample_type_eof = 8

-- sizeof(struct smon_sample_header), and of the structure of each type under the x86-64 ABI.
abbrev pub header_size : ℕ
header_size = 4

unfoldable pub sample_size : ℕ → Option ℕ
sample_size kind =
    if kind == sample_type_pmc
    then some 96
    else if kind == sample_type_rapl
    then some 40
    else if kind == sample_type_cpu
    then some 24
    else if kind == sample_type_sched
    then some 24
    else if kind == sample_type_fork
    then some 16
    else if kind == sample_type_info
    then some 56
    else if kind == sample_type_eof
    then some 0
    else none

-- A header in memory: its type, least significant byte first.
abbrev pub header_bytes : ℕ → List ℕ
header_bytes kind = kind % 256 ∷ kind / 256 % 256 ∷ kind / 65536 % 256 ∷ kind / 16777216 % 256 ∷ []

-- `n` bytes of `src` to `offset` of a page.
unfoldable pub memcpy : Pages → ℕ → ℕ → List ℕ → ℕ → Pages
memcpy pages page offset src n p o =
    if p == page && leb offset o && ltb o (offset + n) then get_or src (o - offset) 0 else pages p o

abbrev pub count : RingBuffer → ℕ
count rb = rb_count rb.head rb.tail rb.size

abbrev pub space : RingBuffer → ℕ
space rb = rb_space rb.head rb.tail rb.size

unfoldable pub smon_rb_is_full : RingBuffer → Bool
smon_rb_is_full rb = space rb == 0

unfoldable pub smon_rb_is_empty : RingBuffer → Bool
smon_rb_is_empty rb = count rb == 0

-- `atomic_read(&rb->active) > 0`, of a signed counter.
unfoldable pub smon_rb_is_active : RingBuffer → Bool
smon_rb_is_active rb = ltb 0 rb.active && ltb rb.active (2 ^ 31)

unfoldable pub smon_rb_batch_available : RingBuffer → Bool
smon_rb_batch_available rb = leb rb.batch rb.items

-- irq_work_queue(&rb->irq), whose handler wakes the readers up.
abbrev pub irq_work_queue : RingBuffer → RingBuffer
irq_work_queue rb = record rb { wakeups = suc rb.wakeups }

-- A PAD header at the writing position, which goes on to the next page.
unfoldable pub smon_rb_stuff_page : RingBuffer → RingBuffer
smon_rb_stuff_page rb = record rb {
  pages =
      memcpy rb.pages (head_page rb.head) (head_offset rb.head) (header_bytes sample_type_pad)
        header_size;
  head = rb_next_page rb.n_pages (head_page rb.head) * 2 ^ page_shift % u32;
}

-- The part of smon_rb_write that has found room.
unfoldable pub put_record : RingBuffer → ℕ → List ℕ → ℕ → RingBuffer
put_record rb kind sample n =
    let page = head_page rb.head in
    let offset = head_offset rb.head in
    let with_header = memcpy rb.pages page offset (header_bytes kind) header_size in
    let rb' = record rb {
      pages =
          if ltb 0 n then memcpy with_header page (offset + header_size) sample n else with_header;
      head = head_trim_page rb.n_pages (add32 rb.head (n + header_size));
      items = add32 rb.items 1;
    } in
    if leb rb'.batch rb'.items then irq_work_queue rb' else rb'

unfoldable pub put_on_next_page : RingBuffer → ℕ → List ℕ → ℕ → RingBuffer
put_on_next_page rb kind sample n =
    let stuffed = smon_rb_stuff_page rb in
    if ltb (space stuffed) (n + header_size) then stuffed else put_record stuffed kind sample n

unfoldable pub write_sized : RingBuffer → ℕ → List ℕ → ℕ → RingBuffer
write_sized rb kind sample n =
    let total_size = n + header_size in
    if ltb (space rb) total_size
    then rb
    else if ltb (rb_page_space rb.head) total_size
    then put_on_next_page rb kind sample n
    else put_record rb kind sample n

unfoldable pub smon_rb_write : RingBuffer → ℕ → List ℕ → RingBuffer
smon_rb_write rb kind sample = elim (sample_size kind) [
  | none ↦ rb
  | some n ↦ write_sized rb kind sample n
]

unfoldable pub smon_rb_write_eof : RingBuffer → RingBuffer
smon_rb_write_eof rb = smon_rb_write rb sample_type_eof []

-- The tool has consumed `items` samples, `sz` bytes.
unfoldable pub smon_rb_read : RingBuffer → ℕ → ℕ → RingBuffer
smon_rb_read rb items sz = record rb {
  tail = if ltb (count rb) sz then rb.head else head_trim_page rb.n_pages (add32 rb.tail sz);
  items = if ltb rb.items items then 0 else rb.items - items;
}

unfoldable pub smon_rb_get_page : RingBuffer → ℕ → Option ℕ
smon_rb_get_page rb i = if ltb i rb.n_pages then some i else none

unfoldable pub smon_get_rb : RingBuffer → RingBuffer
smon_get_rb rb = record rb { active = add32 rb.active 1 }

-- The last writer leaves an EOF record.
unfoldable pub smon_release_rb : RingBuffer → RingBuffer
smon_release_rb rb =
    let rb' = record rb { active = sub32 rb.active 1 } in
    if rb'.active == 0 then irq_work_queue (smon_rb_write_eof rb') else rb'
