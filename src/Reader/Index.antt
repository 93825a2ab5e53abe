-- ===== src/Reader/Index.antt =====
-- The cursor of the tool, in terms of an unbounded count of bytes.
use native.Mathlib.Nat.{mod-lt, mod-add-mod, pow-le-pow_right}
use schedmon.Prelude.{
  ℕ, ◌+◌, ◌-◌, ◌*◌, ◌/◌, ◌%◌, ◌^◌, ◌≤◌, ◌<◌, ◌≡◌, refl, ap, sym, ◌∙◌, arith, bit_and, bit_or,
  bit_and-mask, bit_and-shifted,
}
use schedmon.Ring.Index.{page_size, u32, sub32, rb_pagemask, head_trim_page, rb_count, page_shift}
use schedmon.Ring.Index.Laws.{head_trim_page_lem, rb_count_lem, pow-split}
use schedmon.Ring.Layout.{next_page}
use schedmon.Ring.Layout.Frame.{mod-pages}
use schedmon.Reader.{Reader, u64, smon_rb_consume, smon_rb_count, smon_rb_page_next}

-- The reader maps 2 ^ m pages, is at `p`, and has consumed the bytes from `t` on.
pub record IsReading (rb : Reader) (m t p : ℕ) : Type 0 where
  pub several : 1 ≤ m
  pub few : m ≤ 10
  pub whole : rb.n_pages ≡ 2 ^ m
  pub bytes : rb.size ≡ 2 ^ m * page_size
  pub cursor : rb.tail ≡ p % (2 ^ m * page_size)
  pub behind : t ≤ p
  pub used : rb.consumed ≡ p - t

order_bounds : (m : ℕ) → 1 ≤ m → m ≤ 10 → (2 ≤ 2 ^ m) × (2 ^ m ≤ 1024)
order_bounds m p q =
    let top : 2 ^ m ≤ 2 ^ 10 = pow-le-pow_right {n = 2} (omega arith) {j = 10} q in
    let low : 2 ^ 1 ≤ 2 ^ m = pow-le-pow_right {n = 2} (omega arith) {i = 1} p in omega arith

-- The two masks of tool/src/rb.c.
page_mask :
    (m x : ℕ)
    → 1 ≤ m
    → m ≤ 10
    → bit_and x (sub32 (2 ^ m) 1 * 2 ^ page_shift % u32) ≡ x / page_size % 2 ^ m * page_size
unfolding rb_pagemask
page_mask m x p q =
    let exact : sub32 (2 ^ m) 1 * 2 ^ page_shift % u32 ≡ (2 ^ m - 1) * 2 ^ page_shift =
      omega (arith, order_bounds m p q) in
    rw (exact, bit_and-shifted page_shift x (2 ^ m - 1), bit_and-mask m (x / 2 ^ page_shift)) refl

byte_mask :
    (m x : ℕ)
    → m ≤ 10
    → bit_and x (bit_or (sub32 (2 ^ m) 1 * 2 ^ page_shift % u32) (page_size - 1))
      ≡ x % (2 ^ m * page_size)
unfolding head_trim_page rb_pagemask
byte_mask m x q = head_trim_page_lem m (omega arith) x

-- The count of the tool is the kernel's macro, for offsets inside the buffer.
count-same :
    (rb : Reader) (begin end : ℕ)
    → begin < u32
    → end < u32
    → smon_rb_count rb begin end ≡ rb_count end begin rb.size
unfolding smon_rb_count rb_count
count-same rb begin end p q =
    ap (λ (x : ℕ). bit_and x (sub32 rb.size 1))
      (let same : (end + u64 - begin) % u64 % u32 ≡ sub32 end begin = omega arith in same)

module _ {rb : Reader} {m t p : ℕ} (v : IsReading rb m t p) where
  pages_in : (2 ≤ 2 ^ m) × (2 ^ m ≤ 1024)
  pages_in = order_bounds m v.several v.few

  tail_in : rb.tail < 2 ^ m * page_size
  tail_in =
      let cursor : rb.tail ≡ p % (2 ^ m * page_size) = v.cursor in
      omega (arith, mod-lt p {m = 2 ^ m * page_size} (omega (arith, pages_in)))

  pub consume-IsReading :
      (k : ℕ)
      → k ≤ page_size
      → p + k ≤ t + 2 ^ m * page_size
      → IsReading (smon_rb_consume rb k) m t (p + k)
  unfolding smon_rb_consume
  consume-IsReading k small room =
      let exact : (rb.tail + k) % u64 ≡ rb.tail + k = omega (arith, tail_in, pages_in) in
      let pages : sub32 rb.n_pages 1 ≡ sub32 (2 ^ m) 1 = ap (λ (n : ℕ). sub32 n 1) v.whole in
      record {
        several = v.several;
        few = v.few;
        whole = v.whole;
        bytes = v.bytes;
        cursor =
            rw (exact, pages)
              (byte_mask m (rb.tail + k) v.few
                ∙ ap (λ (x : ℕ). (x + k) % (2 ^ m * page_size)) v.cursor
                ∙ mod-add-mod p (2 ^ m * page_size) k);
        behind = omega (arith, v.behind);
        used = omega (arith, v.behind, v.used, pages_in);
      }

  next_tail : ℕ
  next_tail = bit_and ((rb.tail + 2 ^ page_shift) % u64) (sub32 rb.n_pages 1 * 2 ^ page_shift % u32)

  next_tail-at : next_tail ≡ next_page p % (2 ^ m * page_size)
  unfolding next_tail
  next_tail-at =
      let exact : (rb.tail + 2 ^ page_shift) % u64 ≡ rb.tail + page_size =
        omega (arith, tail_in, pages_in) in
      let pages : sub32 rb.n_pages 1 ≡ sub32 (2 ^ m) 1 = ap (λ (n : ℕ). sub32 n 1) v.whole in
      let spread : rb.tail ≡ p / page_size % 2 ^ m * page_size + p % page_size =
        v.cursor ∙ mod-pages (2 ^ m) p (omega (arith, pages_in)) in
      let page : (rb.tail + page_size) / page_size ≡ p / page_size % 2 ^ m + 1 = omega arith in
      let there : next_page p / page_size ≡ p / page_size + 1 = omega arith in
      let edge : next_page p % page_size ≡ 0 = omega arith in
      let end : next_page p % (2 ^ m * page_size) ≡ (p / page_size + 1) % 2 ^ m * page_size =
        mod-pages (2 ^ m) (next_page p) (omega (arith, pages_in))
        ∙ ap (λ (x : ℕ). x % 2 ^ m * page_size + next_page p % page_size) there
        ∙ omega arith in
      rw (exact, pages)
        (page_mask m (rb.tail + page_size) v.several v.few
          ∙ ap (λ (x : ℕ). x % 2 ^ m * page_size) page
          ∙ ap (λ (x : ℕ). x * page_size) (mod-add-mod (p / page_size) (2 ^ m) 1)
          ∙ sym end)

  next_count : smon_rb_count rb rb.tail next_tail ≡ next_page p - p
  next_count =
      let size : 2 ^ m * page_size ≡ 2 ^ (m + 12) = pow-split m 12 in
      let bytes : rb.size ≡ 2 ^ m * page_size = v.bytes in
      let cursor : rb.tail ≡ p % (2 ^ m * page_size) = v.cursor in
      let few : m ≤ 10 = v.few in
      let moved = next_tail-at in
      let end_in = mod-lt (next_page p) {m = 2 ^ m * page_size} (omega (arith, pages_in)) in
      let same =
        count-same rb rb.tail next_tail (omega (arith, tail_in, pages_in))
          (omega (arith, pages_in)) in
      let step =
        rb_count_lem (m + 12) (omega arith) p (next_page p) (omega arith)
          (omega (arith, pages_in)) in
      cc

  pub page_next-IsReading :
      next_page p ≤ t + 2 ^ m * page_size → IsReading (smon_rb_page_next rb) m t (next_page p)
  unfolding smon_rb_page_next next_tail
  page_next-IsReading room =
      let counted = next_count in
      record {
        several = v.several;
        few = v.few;
        whole = v.whole;
        bytes = v.bytes;
        cursor = next_tail-at;
        behind = omega (arith, v.behind);
        used = omega (arith, v.behind, v.used, pages_in, counted);
      }
