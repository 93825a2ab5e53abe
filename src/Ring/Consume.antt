-- ===== src/Ring/Consume.antt =====
-- smon_rb_read, the reader's acknowledgement.
use native.Mathlib.Nat.{mod-lt}
use schedmon.Prelude.{
  ℕ, ◌+◌, ◌-◌, ◌%◌, ◌≤◌, ◌<◌, ◌≡◌, refl, sym, ap, ◌∙◌, arith, List, ltb, false, le→ltb, min,
  Bool-cases, inl, inr,
}
use schedmon.Ring.Index.{head_trim_page, add32}
use schedmon.Ring.{RingBuffer, count, smon_rb_read}
use schedmon.Ring.Layout.{Entry, IsRow}
use schedmon.Ring.Valid.{
  IsValid, IsAt, ends, count-distance, head_trim_page-mod, moved-IsValid, bytes_bounds, trim_add,
}
use schedmon.Ring.Write.{Holds}

read-IsValid : {rb : RingBuffer} (items sz : ℕ) → IsValid rb → IsValid (smon_rb_read rb items sz)
unfolding smon_rb_read
read-IsValid {rb} items sz v =
    let inside : rb.head < rb.size = v.head_in in
    let trimmed : head_trim_page rb.n_pages (add32 rb.tail sz) < rb.size =
      rw (head_trim_page-mod v (add32 rb.tail sz))
        (mod-lt (add32 rb.tail sz) (omega (arith, bytes_bounds v))) in
    moved-IsValid (smon_rb_read rb items sz) v refl refl v.head_in (ground arith) v.aligned

-- An acknowledgement of the bytes from `t` up to `p` leaves the row behind `p`.
pub smon_rb_read-Holds :
    {rb : RingBuffer} {t h : ℕ} {es : List Entry} (items p : ℕ) (rest : List Entry)
    → Holds rb t h es
    → t ≤ p
    → p ≤ h
    → IsRow rb.pages rb.n_pages p rest h
    → Holds (smon_rb_read rb items (p - t)) p h rest
unfolding smon_rb_read
smon_rb_read-Holds {rb} {t} {h} items p rest v tp ph row =
    let size : rb.size ≤ 4194304 = omega (arith, bytes_bounds v.valid) in
    let room : h < t + rb.size = v.ends.room in
    let stored = count-distance v.valid v.ends in
    let moved = trim_add v.valid rb.tail t (p - t) v.valid.tail_in v.ends.reader (omega arith) in
    let sum : t + (p - t) ≡ p = omega arith in
    let exact : head_trim_page rb.n_pages (add32 rb.tail (p - t)) ≡ p % rb.size =
      moved ∙ ap (λ (x : ℕ). x % rb.size) sum in
    let here : ltb (count rb) (p - t) ≡ false = le→ltb (count rb) (p - t) (omega arith) in
    record {
      valid = read-IsValid items (p - t) v.valid;
      ends = record {
        reader = rw here exact;
        writer = v.ends.writer;
        behind = ph;
        room = omega arith;
      };
      row = row;
    }

-- A claim of `sz` bytes moves the reader by them, and no farther than to the writer.
smon_rb_read-IsAt :
    {rb : RingBuffer} {t h : ℕ} (items sz : ℕ)
    → IsValid rb
    → IsAt rb t h
    → IsAt (smon_rb_read rb items sz) (t + min sz (h - t)) h
unfolding smon_rb_read
smon_rb_read-IsAt {rb} {t} {h} items sz v a =
    let size : rb.size ≤ 4194304 = omega (arith, bytes_bounds v) in
    let behind = a.behind in
    let room = a.room in
    let stored = count-distance v a in
    elim (Bool-cases (ltb (count rb) sz)) [
      | inl over ↦
          let end : t + min sz (h - t) ≡ h = ground arith in
          rw over (record {
            reader = a.writer ∙ ap (λ (x : ℕ). x % rb.size) (sym end);
            writer = a.writer;
            behind = omega (arith, end);
            room = omega (arith, end);
          })
      | inr inside ↦
          let within : sz ≤ h - t = ground arith in
          let sum : t + sz ≡ t + min sz (h - t) = omega (arith, within) in
          let moved = trim_add v rb.tail t sz v.tail_in a.reader (omega (arith, within)) in
          rw inside (record {
            reader = moved ∙ ap (λ (x : ℕ). x % rb.size) sum;
            writer = a.writer;
            behind = omega (arith, within);
            room = omega (arith, within);
          })
    ]

read_items : (rb : RingBuffer) (items sz : ℕ) → (smon_rb_read rb items sz).items ≡ rb.items - items
unfolding smon_rb_read
read_items rb items sz = ground arith

-- Whatever numbers of samples and bytes the tool claims to have read of a well formed buffer, the
-- buffer stays well formed, and its numbers of bytes and samples go down by what is claimed, and
-- to 0 if that is more than there is.
pub smon_rb_read-consumes :
    {rb : RingBuffer} (items sz : ℕ)
    → IsValid rb
    → IsValid (smon_rb_read rb items sz)
      × (count (smon_rb_read rb items sz) ≡ count rb - sz)
      × ((smon_rb_read rb items sz).items ≡ rb.items - items)
smon_rb_read-consumes {rb} items sz v =
    let a = ends v in
    let valid = read-IsValid items sz v in
    let before = count-distance v a in
    let after = count-distance valid (smon_rb_read-IsAt items sz v a) in
    (valid, omega (arith, before, after), read_items rb items sz)
