-- ===== src/Reader/Session.antt =====
-- read_samples of tool/src/profile.c, whose acknowledgement goes through the driver's SMON_IOCREAD
-- to smon_rb_read. `none` means that the fuel ran out.
use schedmon.Prelude.{
  ℕ, ◌+◌, ◌-◌, ◌*◌, ◌^◌, ◌≤◌, ◌<◌, ◌≡◌, refl, ap, sym, ◌∙◌, subst, arith, Bool, true, false, Option,
  none, some, List, [], ◌++◌, length,
}
use schedmon.Ring.Index.{page_size}
use schedmon.Ring.{RingBuffer, smon_rb_read}
use schedmon.Ring.Layout.{Entry, samples, IsRow}
use schedmon.Ring.Layout.Frame.{IsRow-le}
use schedmon.Ring.Write.{Holds}
use schedmon.Ring.Consume.{smon_rb_read-Holds}
use schedmon.Reader.{Reader, Line, Outcome, stopped, failed, out_of_fuel, read_loop, smon_rb_flush}
use schedmon.Reader.Index.{IsReading}
use schedmon.Reader.Sync.Memory.{mapped}
use schedmon.Reader.Sync.Scan.{scan, Enough, scan-splits, length-scan}
use schedmon.Reader.Sync.Reads.{reads}

-- `error` is the return value -1.
pub record Batch : Type 0 where
  pub error : Bool
  pub lines : List Line
  pub ring : RingBuffer
  pub reader : Reader

unfoldable pub finish : RingBuffer → Outcome → Option Batch
finish ring out_of_fuel = none
finish ring (failed out u) = some (record { error = true; lines = out; ring = ring; reader = u })
finish ring (stopped out n u) =
    let (bytes, u') = smon_rb_flush u in
    some (record { error = false; lines = out; ring = smon_rb_read ring n bytes; reader = u' })

unfoldable pub read_samples : ℕ → RingBuffer → Reader → ℕ → Option Batch
read_samples fuel ring u nr_samples =
    finish ring (read_loop (mapped ring.pages) fuel nr_samples u 0 [])

-- The tool's cursor is where the driver thinks that the reader is, `t`, with nothing to acknowledge.
abbrev pub InSync : RingBuffer → Reader → ℕ → Type 0
InSync ring u t = (m : ℕ) × (ring.n_pages ≡ 2 ^ m) × IsReading u m t t

flushed : (u : Reader) (m t p : ℕ) → IsReading u m t p → IsReading (smon_rb_flush u).1 m p p
unfolding smon_rb_flush
flushed u m t p v = record {
  several = v.several;
  few = v.few;
  whole = v.whole;
  bytes = v.bytes;
  cursor = v.cursor;
  behind = omega arith;
  used = omega arith;
}

n_pages-read :
    (ring : RingBuffer) (items sz : ℕ) → (smon_rb_read ring items sz).n_pages ≡ ring.n_pages
unfolding smon_rb_read
n_pages-read ring items sz = refl

-- The call takes off the buffer what `scan` takes off the row, and acknowledges it.
pub read_samples-scan :
    (fuel nr t h : ℕ) {ring : RingBuffer} {u : Reader} {es : List Entry}
    → Holds ring t h es
    → InSync ring u t
    → Enough nr es
    → length es < fuel
    → (p : ℕ) × (u' : Reader) × (read_samples fuel ring u nr
        ≡ some (record {
          error = false;
          lines = (scan nr es).lines;
          ring = smon_rb_read ring (0 + (scan nr es).taken) u'.consumed;
          reader = (smon_rb_flush u').1;
        }))
      × Holds (smon_rb_read ring (0 + (scan nr es).taken) u'.consumed) p h (scan nr es).rest
      × InSync (smon_rb_read ring (0 + (scan nr es).taken) u'.consumed) (smon_rb_flush u').1 p
unfolding read_samples finish smon_rb_flush
read_samples-scan fuel nr t h {ring} {u} {es} v (m, same, r) e f =
    let bytes : ring.size ≡ 2 ^ m * page_size =
      v.valid.bytes ∙ ap (λ (n : ℕ). n * page_size) same in
    let room : h < t + ring.size = v.ends.room in
    let row : IsRow ring.pages (2 ^ m) t es h =
      subst (λ (n : ℕ). IsRow ring.pages n t es h) same v.row in
    let (u', p, run, w, left) =
      reads ring.pages m t h (omega arith) es nr 0 nr fuel u [] t r row e (omega arith) f in
    let n : ℕ = 0 + (scan nr es).taken in
    let le = IsRow-le ring.pages (2 ^ m) p (scan nr es).rest h left in
    let back = subst (λ (k : ℕ). IsRow ring.pages k p (scan nr es).rest h) (sym same) left in
    let kept : Holds (smon_rb_read ring n (p - t)) p h (scan nr es).rest =
      smon_rb_read-Holds n p (scan nr es).rest v w.behind le back in
    (
      p,
      u',
      ap (finish ring) run,
      rw w.used kept,
      (m, n_pages-read ring n u'.consumed ∙ same, flushed u' m t p w),
    )

-- On a buffer that holds `es`, with the two sides in step, and `nr` samples or an EOF among
-- `es`, the call succeeds on fuel for more steps than there are records; it prints at most `nr`
-- samples, which with those that are left make up the queue in order; and the two sides are in
-- step again.
pub read_samples-takes :
    (fuel nr t h : ℕ) {ring : RingBuffer} {u : Reader} {es : List Entry}
    → Holds ring t h es
    → InSync ring u t
    → Enough nr es
    → length es < fuel
    → (b : Batch) × (p : ℕ) × (rest : List Entry) × (read_samples fuel ring u nr ≡ some b)
      × (b.error ≡ false)
      × (b.lines ++ samples rest ≡ samples es)
      × (length b.lines ≤ nr)
      × Holds b.ring p h rest
      × InSync b.ring b.reader p
read_samples-takes fuel nr t h {ring} {u} {es} v sync e f =
    let (p, u', run, kept, again) = read_samples-scan fuel nr t h v sync e f in
    (
      record {
        error = false;
        lines = (scan nr es).lines;
        ring = smon_rb_read ring (0 + (scan nr es).taken) u'.consumed;
        reader = (smon_rb_flush u').1;
      },
      p,
      (scan nr es).rest,
      run,
      refl,
      scan-splits nr es,
      length-scan nr es,
      kept,
      again,
    )
