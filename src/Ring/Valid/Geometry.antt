-- ===== src/Ring/Valid/Geometry.antt =====
-- The invariant of `struct smon_ring_buffer`, and the index macros in terms of the two ends.
use native.Mathlib.Nat.{pow-le-pow_right}
use schedmon.Prelude.{ℕ, ◌+◌, ◌-◌, ◌*◌, ◌/◌, ◌%◌, ◌^◌, ◌≤◌, ◌<◌, ◌≡◌, ap, ◌∙◌, arith}
use schedmon.Ring.Index.{
  page_size, head_page, head_offset, rb_page_space, rb_next_page, head_trim_page,
}
use schedmon.Ring.Index.Laws.{
  pow-split, head_page_lem, head_offset_lem, rb_count_lem, rb_space_lem, rb_next_page_lem,
  head_trim_page_lem,
}
use schedmon.Ring.{RingBuffer, count, space}
use schedmon.Ring.Layout.Frame.{mod-pages}

-- A power-of-two number of pages, from 2 up to SMON_MAX_PAGES, and both indices inside; the writer's
-- index is a multiple of 4.
pub record IsValid (rb : RingBuffer) : Type 0 where
  pub order : ℕ
  pub several : 1 ≤ order
  pub few : order ≤ 10
  pub whole : rb.n_pages ≡ 2 ^ order
  pub bytes : rb.size ≡ rb.n_pages * page_size
  pub head_in : rb.head < rb.size
  pub tail_in : rb.tail < rb.size
  pub aligned : rb.head % 4 ≡ 0

-- The reader is at `t` and the writer at `h` of an unbounded count of bytes.
pub record IsAt (rb : RingBuffer) (t h : ℕ) : Type 0 where
  pub reader : rb.tail ≡ t % rb.size
  pub writer : rb.head ≡ h % rb.size
  pub behind : t ≤ h
  pub room : h < t + rb.size

module _ {rb : RingBuffer} (v : IsValid rb) where
  pub n_pages_bounds : (2 ≤ rb.n_pages) × (rb.n_pages ≤ 1024)
  n_pages_bounds =
      let top : 2 ^ v.order ≤ 2 ^ 10 = pow-le-pow_right {n = 2} (omega arith) {j = 10} v.few in
      let low : 2 ^ 1 ≤ 2 ^ v.order = pow-le-pow_right {n = 2} (omega arith) {i = 1} v.several in
      let whole : rb.n_pages ≡ 2 ^ v.order = v.whole in omega arith

  size-pow : rb.size ≡ 2 ^ (v.order + 12)
  size-pow = v.bytes ∙ ap (λ (n : ℕ). n * page_size) v.whole ∙ pow-split v.order 12

  pub rb_next_page-mod :
      (page : ℕ) → page < rb.n_pages → rb_next_page rb.n_pages page ≡ (page + 1) % rb.n_pages
  rb_next_page-mod page h =
      let whole : rb.n_pages ≡ 2 ^ v.order = v.whole in
      let few : v.order ≤ 10 = v.few in
      let step : rb_next_page (2 ^ v.order) page ≡ (page + 1) % 2 ^ v.order =
        rb_next_page_lem v.order (omega arith) page (omega arith) in
      cc

  pub head_trim_page-mod : (x : ℕ) → head_trim_page rb.n_pages x ≡ x % rb.size
  head_trim_page-mod x =
      let whole : rb.n_pages ≡ 2 ^ v.order = v.whole in
      let bytes : rb.size ≡ rb.n_pages * page_size = v.bytes in
      let few : v.order ≤ 10 = v.few in
      let step : head_trim_page (2 ^ v.order) x ≡ x % (2 ^ v.order * 4096) =
        head_trim_page_lem v.order (omega arith) x in
      cc

  module _ {t h : ℕ} (a : IsAt rb t h) where
    pub count-distance : count rb ≡ h - t
    count-distance =
        let size : rb.size ≡ 2 ^ (v.order + 12) = size-pow in
        let few : v.order ≤ 10 = v.few in
        let reader : rb.tail ≡ t % rb.size = a.reader in
        let writer : rb.head ≡ h % rb.size = a.writer in
        let step = rb_count_lem (v.order + 12) (omega arith) t h a.behind (omega (arith, a.room)) in
        cc

    pub space-distance : space rb ≡ rb.size - 1 - (h - t)
    space-distance =
        let size : rb.size ≡ 2 ^ (v.order + 12) = size-pow in
        let few : v.order ≤ 10 = v.few in
        let reader : rb.tail ≡ t % rb.size = a.reader in
        let writer : rb.head ≡ h % rb.size = a.writer in
        let step = rb_space_lem (v.order + 12) (omega arith) t h a.behind (omega (arith, a.room)) in
        cc

    head-pages : rb.head ≡ h / page_size % rb.n_pages * page_size + h % page_size
    head-pages =
        let bytes : rb.size ≡ rb.n_pages * page_size = v.bytes in
        let writer : rb.head ≡ h % rb.size = a.writer in
        let step = mod-pages rb.n_pages h (omega (arith, n_pages_bounds)) in cc

    pub head_page-at : head_page rb.head ≡ h / page_size % rb.n_pages
    head_page-at = head_page_lem rb.head ∙ omega (arith, head-pages)

    pub head_offset-at : head_offset rb.head ≡ h % page_size
    head_offset-at = head_offset_lem rb.head ∙ omega (arith, head-pages)

    pub rb_page_space-at : rb_page_space rb.head ≡ page_size - h % page_size
    unfolding rb_page_space
    rb_page_space-at = omega (arith, head_offset-at)
