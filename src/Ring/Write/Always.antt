-- ===== src/Ring/Write/Always.antt =====
-- smon_rb_write on any well-formed buffer, whatever its bytes are and whatever is written.
use schedmon.Prelude.{
  ℕ, zero, suc, ◌+◌, ◌-◌, ◌*◌, ◌/◌, ◌%◌, ◌≤◌, ◌<◌, ◌≡◌, refl, ◌∙◌, arith, List, ltb, lt→ltb,
  if◌then◌else◌, Bool-cases, inl, inr, Option-cases,
}
use schedmon.Ring.Index.{page_size, rb_page_space}
use schedmon.Ring.{
  RingBuffer, Pages, memcpy, header_size, header_bytes, smon_rb_stuff_page, space, sample_size,
  smon_rb_write, write_sized, put_on_next_page, put_record, sample_type_pad,
}
use schedmon.Ring.Layout.{byte_at, next_page}
use schedmon.Ring.Layout.Frame.{memcpy-before}
use schedmon.Ring.Valid.{
  IsValid, IsAt, head_page-at, head_offset-at, put_record-IsValid, put_record-IsAt,
  stuff_page-IsValid, stuff_page-IsAt, rb_page_space-at, space-distance, writer-aligned,
}
use schedmon.Ring.Write.Memory.{with_header}
use schedmon.Ring.Write.Refine.{sample_size_bounds}

-- From `rb`, with its reader at `t` and its writer at `h`, to `out`: the reader stays, the writer
-- goes on, at most to the byte before the reader, and the bytes between them are what they were.
pub record KeepsUnread (rb : RingBuffer) (t h : ℕ) (out : RingBuffer) : Type 0 where
  pub head : ℕ
  pub valid : IsValid out
  pub ends : IsAt out t head
  pub forward : h ≤ head
  pub unread :
      (x : ℕ) → t ≤ x → x < h → byte_at out.pages out.n_pages x ≡ byte_at rb.pages rb.n_pages x

-- What put_record leaves in the pages, at position `h`.
abbrev with_record : Pages → ℕ → ℕ → ℕ → List ℕ → ℕ → Pages
with_record pages n h kind sample k =
    if ltb 0 k
    then memcpy (with_header pages n h kind) (h / page_size % n) (h % page_size + header_size)
        sample k
    else with_header pages n h kind

-- The same, with the second copy at the position behind the header.
record_copies :
    (pages : Pages) (n h kind : ℕ) (sample : List ℕ) (k : ℕ)
    → 0 < k
    → h % page_size + (header_size + k) ≤ page_size
    → with_record pages n h kind sample k ≡ (
        memcpy
          (with_header pages n h kind)
          ((h + header_size) / page_size % n)
          ((h + header_size) % page_size)
          sample
          k)
record_copies pages n h kind sample k q p =
    let page : (h + header_size) / page_size ≡ h / page_size = omega arith in
    let offset : (h + header_size) % page_size ≡ h % page_size + header_size = omega arith in
    rw (lt→ltb 0 k q, page, offset)

with_record-before :
    (pages : Pages) (n h kind : ℕ) (sample : List ℕ) (k x : ℕ)
    → h % page_size + (header_size + k) ≤ page_size
    → x < h
    → h + (header_size + k) ≤ x + n * page_size
    → byte_at (with_record pages n h kind sample k) n x ≡ byte_at pages n x
with_record-before pages n h kind sample zero x p q r =
    memcpy-before pages n h header_size (header_bytes kind) (omega arith) x q (omega arith)
with_record-before pages n h kind sample (suc k) x p q r =
    rw (record_copies pages n h kind sample (suc k) (omega arith) p) (
      memcpy-before (with_header pages n h kind) n (h + header_size) (suc k) sample (omega arith) x
        (omega arith) (omega arith)
      ∙ memcpy-before pages n h header_size (header_bytes kind) (omega arith) x q (omega arith))

module _ {rb : RingBuffer} {t h : ℕ} (v : IsValid rb) (a : IsAt rb t h) where
  kept : KeepsUnread rb t h rb
  kept = record { head = h; valid = v; ends = a; forward = omega arith; unread = λ x p q. refl }

  put_pages :
      (kind : ℕ) (sample : List ℕ) (n : ℕ)
      → (put_record rb kind sample n).pages ≡ with_record rb.pages rb.n_pages h kind sample n
  unfolding put_record
  put_pages kind sample n = ground (arith, head_page-at v a, head_offset-at v a)

  put_n_pages :
      (kind : ℕ) (sample : List ℕ) (n : ℕ) → (put_record rb kind sample n).n_pages ≡ rb.n_pages
  unfolding put_record
  put_n_pages kind sample n = ground arith

  put-KeepsUnread :
      (kind : ℕ) (sample : List ℕ) (n : ℕ)
      → n ≤ 96
      → n % 4 ≡ 0
      → n + header_size ≤ space rb
      → h % page_size + (header_size + n) ≤ page_size
      → KeepsUnread rb t h (put_record rb kind sample n)
  put-KeepsUnread kind sample n small step p q =
      let room = space-distance v a in
      let bytes = v.bytes in
      record {
        head = h + (n + header_size);
        valid = put_record-IsValid v a kind sample n p small step;
        ends = put_record-IsAt v a kind sample n p small;
        forward = omega arith;
        unread = λ x low high.
            rw (put_pages kind sample n, put_n_pages kind sample n)
              (with_record-before rb.pages rb.n_pages h kind sample n x q high (omega arith));
      }

  stuff-KeepsUnread :
      page_size - h % page_size ≤ space rb → KeepsUnread rb t h (smon_rb_stuff_page rb)
  unfolding smon_rb_stuff_page
  stuff-KeepsUnread p =
      let room = space-distance v a in
      let bytes = v.bytes in
      let start = writer-aligned v a in
      record {
        head = next_page h;
        valid = stuff_page-IsValid v a;
        ends = stuff_page-IsAt v a p;
        forward = omega arith;
        unread = λ x low high.
            rw (head_page-at v a, head_offset-at v a)
              (memcpy-before rb.pages rb.n_pages h header_size (header_bytes sample_type_pad)
                (omega arith) x high (omega arith));
      }

KeepsUnread-trans :
    {rb : RingBuffer} {t h : ℕ} {mid out : RingBuffer} (first : KeepsUnread rb t h mid)
    → KeepsUnread mid t first.head out
    → KeepsUnread rb t h out
KeepsUnread-trans first then_ = record {
  head = then_.head;
  valid = then_.valid;
  ends = then_.ends;
  forward = omega (arith, first.forward, then_.forward);
  unread =
      λ x low high. then_.unread x low (omega (arith, first.forward)) ∙ first.unread x low high;
}

module _ {rb : RingBuffer} {t h : ℕ} (v : IsValid rb) (a : IsAt rb t h) (kind : ℕ) (sample : List ℕ)
    (n : ℕ) (small : n ≤ 96) (step : n % 4 ≡ 0) where
  next_page-KeepsUnread :
      n + header_size ≤ space rb
      → page_size < h % page_size + (n + header_size)
      → KeepsUnread rb t h (put_on_next_page rb kind sample n)
  unfolding put_on_next_page stuff-KeepsUnread
  next_page-KeepsUnread p q =
      let stuffed = stuff-KeepsUnread v a (omega arith) in
      elim (Bool-cases (ltb (space (smon_rb_stuff_page rb)) (n + header_size))) [
        | inl full ↦ rw full stuffed
        | inr open_ ↦
            let fits : next_page h % page_size + (header_size + n) ≤ page_size = omega arith in
            rw open_ (
              KeepsUnread-trans stuffed (
                put-KeepsUnread stuffed.valid stuffed.ends kind sample n small step (ground arith)
                  fits))
      ]

  write_sized-KeepsUnread : KeepsUnread rb t h (write_sized rb kind sample n)
  unfolding write_sized
  write_sized-KeepsUnread =
      let page = rb_page_space-at v a in
      elim (Bool-cases (ltb (space rb) (n + header_size))) [
        | inl full ↦ rw full (kept v a)
        | inr open_ ↦ rw open_ (elim (Bool-cases (ltb (rb_page_space rb.head) (n + header_size))) [
          | inl split ↦ rw split (next_page-KeepsUnread (ground arith) (ground arith))
          | inr inside ↦
              rw inside (put-KeepsUnread v a kind sample n small step (ground arith) (ground arith))
        ])
      ]

-- A call of smon_rb_write on a well formed buffer, with its reader at `t` and its writer at `h`,
-- for a header of any type and any sample, leaves it well formed and never overwrites what is
-- unread: the reader stays, the writer goes on and stops before the reader, and the bytes between
-- `t` and `h` are what they were.
pub smon_rb_write-KeepsUnread :
    {rb : RingBuffer} {t h : ℕ} (kind : ℕ) (sample : List ℕ)
    → IsValid rb
    → IsAt rb t h
    → KeepsUnread rb t h (smon_rb_write rb kind sample)
unfolding smon_rb_write
smon_rb_write-KeepsUnread kind sample v a = elim (Option-cases (sample_size kind)) [
  | inl unknown ↦ rw (unknown, smon_rb_write) (kept v a)
  | inr (n, known) ↦
      let (small, step) = sample_size_bounds kind n known in
      rw (known, smon_rb_write) (write_sized-KeepsUnread v a kind sample n small step)
]
