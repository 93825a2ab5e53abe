-- ===== src/Ring/Write/Refine.antt =====
-- smon_rb_write against a bounded queue that drops what does not fit.
use schedmon.Prelude.{
  ℕ, ◌+◌, ◌-◌, ◌*◌, ◌/◌, ◌%◌, ◌≤◌, ◌<◌, ◌≡◌, refl, ap, ◌∙◌, arith, List, [], ◌∷◌, ◌++◌, length, ltb,
  leb, if◌then◌else◌, Bool, Bool-cases, inl, inr, some, append-nil,
}
use schedmon.Ring.Index.{rb_page_space, page_size, head_page, head_offset}
use schedmon.Ring.{
  RingBuffer, Pages, memcpy, header_size, header_bytes, put_record, smon_rb_stuff_page, space,
  sample_size, smon_rb_write, write_sized, put_on_next_page, sample_type_pad,
}
use schedmon.Ring.Layout.{
  Entry, sample_entry, pad_entry, samples, IsRow, IsSampleAt, IsPadAt, next_page,
}
use schedmon.Ring.Layout.Frame.{
  IsRow-agree, IsRow-append, Agree, samples-append, memcpy-before, memcpy-at, bytes_at-eq,
}
use schedmon.Ring.Valid.{
  IsValid, IsAt, head_page-at, head_offset-at, put_record-IsAt, put_record-IsValid, stuff_page-IsAt,
  stuff_page-IsValid, space-distance, n_pages_bounds, rb_page_space-at, writer-aligned,
}
use schedmon.Ring.Write.Memory.{
  with_sample, with_sample-before, with_sample-header, with_sample-sample,
}

-- The buffer is well formed and the bytes from the reader at `t` to the writer at `h` are `es`.
pub record Holds (rb : RingBuffer) (t h : ℕ) (es : List Entry) : Type 0 where
  pub valid : IsValid rb
  pub ends : IsAt rb t h
  pub row : IsRow rb.pages rb.n_pages t es h

-- Every sample size is a multiple of 4, and none is above 96 bytes.
pub sample_size_bounds : (kind n : ℕ) → sample_size kind ≡ some n → (n ≤ 96) × (n % 4 ≡ 0)
unfolding sample_size
sample_size_bounds kind n e = ground arith

module _ {rb : RingBuffer} {t h : ℕ} {es : List Entry} (v : Holds rb t h es) where
  page-at : head_page rb.head ≡ h / page_size % rb.n_pages
  page-at = head_page-at v.valid v.ends

  offset-at : head_offset rb.head ≡ h % page_size
  offset-at = head_offset-at v.valid v.ends

  room_left : space rb ≡ rb.n_pages * page_size - 1 - (h - t)
  room_left = space-distance v.valid v.ends ∙ ap (λ (s : ℕ). s - 1 - (h - t)) v.valid.bytes

  put_pages :
      (kind : ℕ) (sample : List ℕ)
      → (put_record rb kind sample (length sample)).pages
        ≡ with_sample rb.pages rb.n_pages h kind sample
  unfolding put_record
  put_pages kind sample = ground (arith, page-at, offset-at)

  put_n_pages :
      (kind : ℕ) (sample : List ℕ) (n : ℕ) → (put_record rb kind sample n).n_pages ≡ rb.n_pages
  unfolding put_record
  put_n_pages kind sample n = ground arith

  put-Holds :
      (kind : ℕ) (sample : List ℕ)
      → sample_size kind ≡ some (length sample)
      → length sample + header_size ≤ space rb
      → h % page_size + (header_size + length sample) ≤ page_size
      → Holds
          (put_record rb kind sample (length sample))
          t
          (h + (header_size + length sample))
          (es ++ sample_entry kind sample ∷ [])
  put-Holds kind sample s p q =
      let (small, step) = sample_size_bounds kind (length sample) s in
      let pos : 1 ≤ rb.n_pages = omega (arith, n_pages_bounds v.valid) in
      let behind : t ≤ h = v.ends.behind in
      let moved : h + (header_size + length sample) ≡ h + (length sample + header_size) =
        omega arith in
      let after : Pages = with_sample rb.pages rb.n_pages h kind sample in
      let entry : IsSampleAt after rb.n_pages h kind sample = (
        s,
        writer-aligned v.valid v.ends,
        q,
        with_sample-header rb.pages rb.n_pages h kind pos sample q,
        with_sample-sample rb.pages rb.n_pages h kind pos sample q,
      ) in
      let agree : Agree rb.pages after rb.n_pages t h = λ x u w.
        with_sample-before rb.pages rb.n_pages h kind pos sample x q w (omega (arith, room_left)) in
      let kept = IsRow-agree rb.pages after rb.n_pages t es h agree v.row in
      let end : ℕ = h + (header_size + length sample) in
      record {
        valid = put_record-IsValid v.valid v.ends kind sample (length sample) p small step;
        ends = rw moved (put_record-IsAt v.valid v.ends kind sample (length sample) p small);
        row =
            rw (put_pages kind sample, put_n_pages kind sample (length sample))
              (IsRow-append after rb.n_pages t h end es (sample_entry kind sample ∷ []) kept
                (entry, refl));
      }

  stuff-Holds :
      page_size - h % page_size ≤ space rb
      → Holds (smon_rb_stuff_page rb) t (next_page h) (es ++ pad_entry ∷ [])
  unfolding smon_rb_stuff_page
  stuff-Holds p =
      let pos : 1 ≤ rb.n_pages = omega (arith, n_pages_bounds v.valid) in
      let behind : t ≤ h = v.ends.behind in
      let start : h % 4 ≡ 0 = writer-aligned v.valid v.ends in
      let fits : h % page_size + header_size ≤ page_size = omega arith in
      let mark : List ℕ = header_bytes sample_type_pad in
      let after : Pages =
        memcpy rb.pages (h / page_size % rb.n_pages) (h % page_size) mark header_size in
      let entry : IsPadAt after rb.n_pages h = (
        start,
        bytes_at-eq after rb.n_pages mark h (memcpy-at rb.pages rb.n_pages h header_size mark fits),
      ) in
      let agree : Agree rb.pages after rb.n_pages t h = λ x u w.
        memcpy-before rb.pages rb.n_pages h header_size mark fits x w (omega (arith, room_left)) in
      let kept = IsRow-agree rb.pages after rb.n_pages t es h agree v.row in
      record {
        valid = stuff_page-IsValid v.valid v.ends;
        ends = stuff_page-IsAt v.valid v.ends p;
        row =
            rw (page-at, offset-at)
              (IsRow-append after rb.n_pages t h (next_page h) es (pad_entry ∷ []) kept
                (entry, refl));
      }

-- The bytes left at the end of the writer's page, if a record of `total` bytes does not fit there.
abbrev pub skipped : ℕ → ℕ → ℕ
skipped h total = if ltb (page_size - h % page_size) total then page_size - h % page_size else 0

-- One byte of the buffer always stays free.
abbrev pub has_room : ℕ → ℕ → ℕ → ℕ → Bool
has_room size t h total = leb (skipped h total + total) (size - 1 - (h - t))

-- What the queue of samples is after an offer.
abbrev pub offer : Bool → List (ℕ × List ℕ) → ℕ × List ℕ → List (ℕ × List ℕ)
offer room queue item = if room then queue ++ item ∷ [] else queue

-- `rb` holds `queue`, between the reader at `t` and some writer.
abbrev pub HoldsQueue : RingBuffer → ℕ → List (ℕ × List ℕ) → Type 0
HoldsQueue rb t queue = (h : ℕ) × (es : List Entry) × Holds rb t h es × (samples es ≡ queue)

pub stuff_size : (rb : RingBuffer) → (smon_rb_stuff_page rb).size ≡ rb.size
unfolding smon_rb_stuff_page
stuff_size rb = refl

module _ {rb : RingBuffer} {t h : ℕ} {es : List Entry} (v : Holds rb t h es) (kind : ℕ)
    (sample : List ℕ) (s : sample_size kind ≡ some (length sample)) where
  abbrev total : ℕ
  total = length sample + header_size

  abbrev After : RingBuffer → Type 0
  After out = HoldsQueue out t (offer (has_room rb.size t h total) (samples es) (kind, sample))

  here_After :
      total ≤ space rb
      → h % page_size + total ≤ page_size
      → After (put_record rb kind sample (length sample))
  here_After p q =
      let room = space-distance v.valid v.ends in
      let item : List Entry = sample_entry kind sample ∷ [] in
      (
        h + (header_size + length sample),
        es ++ item,
        put-Holds v kind sample s p (omega arith),
        ground (arith, samples-append es item),
      )

  next_After :
      total ≤ space rb
      → page_size < h % page_size + total
      → After (put_on_next_page rb kind sample (length sample))
  unfolding put_on_next_page
  next_After p q =
      let room = space-distance v.valid v.ends in
      let (small, step) = sample_size_bounds kind (length sample) s in
      let w = stuff-Holds v (omega arith) in
      let room' = space-distance w.valid w.ends in
      let item : List Entry = sample_entry kind sample ∷ [] in
      let pad : List Entry = pad_entry ∷ [] in
      let size = stuff_size rb in
      elim (Bool-cases (ltb (space (smon_rb_stuff_page rb)) total)) [
        | inl full ↦ rw full (
          next_page h,
          es ++ pad,
          w,
          ground (arith, samples-append es pad, append-nil (samples es)),
        )
        | inr open_ ↦ rw open_ (
          next_page h + (header_size + length sample),
          (es ++ pad) ++ item,
          put-Holds w kind sample s (ground arith) (omega arith),
          ground (
            arith,
            samples-append (es ++ pad) item,
            samples-append es pad,
            append-nil (samples es),
          ),
        )
      ]

  write_sized-After : After (write_sized rb kind sample (length sample))
  unfolding write_sized
  write_sized-After =
      let room = space-distance v.valid v.ends in
      let page = rb_page_space-at v.valid v.ends in
      elim (Bool-cases (ltb (space rb) total)) [
        | inl full ↦ rw full (h, es, v, ground arith)
        | inr open_ ↦ rw open_ (elim (Bool-cases (ltb (rb_page_space rb.head) total)) [
          | inl split ↦ rw split (next_After (ground arith) (ground arith))
          | inr inside ↦ rw inside (here_After (ground arith) (ground arith))
        ])
      ]

-- A call of smon_rb_write on a buffer that holds `samples es`, with a known type and a sample of
-- its size, appends the sample, if there is room for it and for what it skips at the end of a
-- page, and otherwise leaves the queue as it is.
pub smon_rb_write-offers :
    {rb : RingBuffer} {t h : ℕ} {es : List Entry} (kind : ℕ) (sample : List ℕ)
    → Holds rb t h es
    → sample_size kind ≡ some (length sample)
    → HoldsQueue
        (smon_rb_write rb kind sample)
        t
        (offer (has_room rb.size t h (length sample + header_size)) (samples es) (kind, sample))
unfolding smon_rb_write
smon_rb_write-offers kind sample v s = rw (s, smon_rb_write) (write_sized-After v kind sample s)
