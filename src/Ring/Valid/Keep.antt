-- ===== src/Ring/Valid/Keep.antt =====
-- The operations of driver/rb.c keep a buffer well formed, and how far each moves its ends.
use native.Mathlib.Nat.{mod-lt, mod-eq_of_lt, mod-add-mod, div-add-mod, add-mod_right}
use schedmon.Prelude.{
  ℕ, ◌+◌, ◌-◌, ◌*◌, ◌/◌, ◌%◌, ◌≤◌, ◌<◌, ◌≡◌, refl, ap, sym, ◌∙◌, arith, List, leb, if◌then◌else◌,
}
use schedmon.Ring.Index.{page_size, u32, add32, head_page, rb_next_page, head_trim_page}
use schedmon.Ring.{RingBuffer, space, put_record, smon_rb_stuff_page, header_size}
use schedmon.Ring.Layout.{next_page}
use schedmon.Ring.Layout.Frame.{mod-pages}
use schedmon.Ring.Valid.Geometry.{
  IsValid, IsAt, n_pages_bounds, rb_next_page-mod, head_trim_page-mod, space-distance, head_page-at,
}

-- A multiple of 4 stays one when the buffer's size is taken off.
mod-aligned : (x s n : ℕ) → s ≡ n * page_size → x % 4 ≡ 0 → x % s % 4 ≡ 0
mod-aligned x s n e p = omega (arith, div-add-mod x s, ap (λ (t : ℕ). t * (x / s)) e)

-- An operation leaves the shape alone, and moves the ends.
pub moved-IsValid :
    {rb : RingBuffer} (out : RingBuffer)
    → IsValid rb
    → out.n_pages ≡ rb.n_pages
    → out.size ≡ rb.size
    → out.head < rb.size
    → out.tail < rb.size
    → out.head % 4 ≡ 0
    → IsValid out
moved-IsValid {rb} out v p s h t a = record {
  order = v.order;
  several = v.several;
  few = v.few;
  whole = p ∙ v.whole;
  bytes = s ∙ v.bytes ∙ ap (λ (n : ℕ). n * page_size) (sym p);
  head_in = omega arith;
  tail_in = omega arith;
  aligned = a;
}

module _ {rb : RingBuffer} (v : IsValid rb) where
  pub bytes_bounds : (1 ≤ rb.size) × (rb.size ≤ 4194304)
  bytes_bounds =
      let bytes : rb.size ≡ rb.n_pages * page_size = v.bytes in omega (arith, n_pages_bounds v)

  -- Every well-formed buffer has its ends somewhere.
  pub ends : IsAt rb rb.tail (if leb rb.tail rb.head then rb.head else rb.head + rb.size)
  ends =
      let head_in : rb.head < rb.size = v.head_in in
      let tail_in : rb.tail < rb.size = v.tail_in in
      ground (
        arith,
        mod-eq_of_lt {n = rb.head} {m = rb.size} head_in,
        mod-eq_of_lt {n = rb.tail} {m = rb.size} tail_in,
        add-mod_right rb.head rb.size,
      )

  -- An index inside the buffer, moved by `k` bytes and trimmed.
  pub trim_add :
      (x h k : ℕ)
      → x < rb.size
      → x ≡ h % rb.size
      → k ≤ 4194304
      → head_trim_page rb.n_pages (add32 x k) ≡ (h + k) % rb.size
  trim_add x h k inside w p =
      let exact : add32 x k ≡ x + k = omega (arith, bytes_bounds) in
      ap (head_trim_page rb.n_pages) exact
      ∙ head_trim_page-mod v (x + k)
      ∙ ap (λ (y : ℕ). (y + k) % rb.size) w
      ∙ mod-add-mod h rb.size k

  pub advance :
      (h k : ℕ)
      → rb.head ≡ h % rb.size
      → k ≤ 4096
      → head_trim_page rb.n_pages (add32 rb.head k) ≡ (h + k) % rb.size
  advance h k w p = trim_add rb.head h k v.head_in w (omega arith)

  module _ {t h : ℕ} (a : IsAt rb t h) where
    turn : rb_next_page rb.n_pages (head_page rb.head) * page_size % u32 ≡ next_page h % rb.size
    turn =
        let bytes : rb.size ≡ rb.n_pages * page_size = v.bytes in
        let page : head_page rb.head ≡ h / page_size % rb.n_pages = head_page-at v a in
        let in_pages : h / page_size % rb.n_pages < rb.n_pages =
          mod-lt (h / page_size) {m = rb.n_pages} (omega (arith, n_pages_bounds v)) in
        let step : rb_next_page rb.n_pages (head_page rb.head)
            ≡ (head_page rb.head + 1) % rb.n_pages =
          rb_next_page-mod v (head_page rb.head) (omega arith) in
        let moved : (head_page rb.head + 1) % rb.n_pages ≡ (h / page_size + 1) % rb.n_pages =
          ap (λ (x : ℕ). (x + 1) % rb.n_pages) page ∙ mod-add-mod (h / page_size) rb.n_pages 1 in
        let bound : (h / page_size + 1) % rb.n_pages < rb.n_pages =
          mod-lt (h / page_size + 1) {m = rb.n_pages} (omega (arith, n_pages_bounds v)) in
        let there : next_page h / page_size ≡ h / page_size + 1 = omega arith in
        let spread : next_page h % rb.size ≡ (h / page_size + 1) % rb.n_pages * page_size =
          ap (λ (s : ℕ). next_page h % s) bytes
          ∙ mod-pages rb.n_pages (next_page h) (omega (arith, n_pages_bounds v))
          ∙ ap (λ (x : ℕ). x % rb.n_pages * page_size + next_page h % page_size) there
          ∙ omega arith in
        omega (arith, n_pages_bounds v)

    -- Stuffing a page moves the writer to the next page.
    pub stuff_page-IsValid : IsValid (smon_rb_stuff_page rb)
    unfolding smon_rb_stuff_page
    stuff_page-IsValid =
        moved-IsValid (smon_rb_stuff_page rb) v refl refl
          (rw turn (mod-lt (next_page h) bytes_bounds.0)) v.tail_in
          (rw turn (mod-aligned (next_page h) rb.size rb.n_pages v.bytes (omega arith)))

    pub stuff_page-IsAt :
        page_size - h % page_size ≤ space rb → IsAt (smon_rb_stuff_page rb) t (next_page h)
    unfolding smon_rb_stuff_page
    stuff_page-IsAt p = record {
      reader = a.reader;
      writer = turn;
      behind = omega (arith, a.behind);
      room = omega (arith, space-distance v a, bytes_bounds, a.room);
    }

    pub writer-aligned : h % 4 ≡ 0
    writer-aligned =
        let bytes : rb.size ≡ rb.n_pages * page_size = v.bytes in
        omega (
          arith,
          v.aligned,
          a.writer,
          ap (λ (m : ℕ). m * (h / rb.size)) bytes,
          div-add-mod h rb.size,
        )

    -- A record moves the writer by its size.
    module _ (kind : ℕ) (sample : List ℕ) (n : ℕ) (fits : n + header_size ≤ space rb)
        (c : n ≤ 96) where
      pub put_record-IsAt : IsAt (put_record rb kind sample n) t (h + (n + header_size))
      unfolding put_record
      put_record-IsAt =
          let moved = advance h (n + header_size) a.writer (omega arith) in
          let reader : rb.tail ≡ t % rb.size = a.reader in
          let behind : t ≤ h + (n + header_size) = omega (arith, a.behind) in
          let room : h + (n + header_size) < t + rb.size =
            omega (arith, space-distance v a, bytes_bounds, a.room) in
          ground arith

      pub put_record-IsValid : n % 4 ≡ 0 → IsValid (put_record rb kind sample n)
      unfolding put_record
      put_record-IsValid q =
          let moved = advance h (n + header_size) a.writer (omega arith) in
          let inside : (h + (n + header_size)) % rb.size < rb.size =
            mod-lt (h + (n + header_size)) bytes_bounds.0 in
          let bytes : rb.size ≡ rb.n_pages * page_size = v.bytes in
          let start : h % 4 ≡ 0 = writer-aligned in
          let end = mod-aligned (h + (n + header_size)) rb.size rb.n_pages bytes (omega arith) in
          moved-IsValid (put_record rb kind sample n) v (ground arith) (ground arith) (ground arith)
            (ground (arith, v.tail_in)) (ground arith)
