-- ===== src/Profiling/Sampling/Going.antt =====
-- What holds between two calls of the sampling loop, and of the driver, and that both keep it.
use schedmon.Prelude.{
  ℕ, ◌+◌, ◌*◌, ◌^◌, ◌≤◌, ◌<◌, ◌≡◌, refl, sym, ap, ◌∙◌, subst, arith, Bool, false, List, [], ◌∷◌,
  ◌++◌, length, append_assoc, length-append, Returns, Returns-some, Returns-known,
}
use schedmon.Ring.Index.{page_size}
use schedmon.Ring.{RingBuffer, smon_rb_read}
use schedmon.Ring.Layout.{Entry, samples}
use schedmon.Ring.Valid.{bytes_bounds}
use schedmon.Ring.Write.{Holds}
use schedmon.Reader.{Line}
use schedmon.Reader.Sync.Scan.{scan, Enough, scan-splits}
use schedmon.Reader.Session.{InSync, read_samples, read_samples-scan}
use schedmon.Profiling.Sampling.{Act, Session, act, acts, drive, gained, read_batch}
use schedmon.Profiling.Sampling.Rows.{scan-taken, length-samples, IsRow-length}
use schedmon.Profiling.Sampling.Gains.{IsPhase, May, drive-Gains}

-- Between two calls: the buffer holds the samples that are accepted and not yet printed, and the
-- reader is in step with it.
pub record IsGoing (before : List Line) (batch_size steps : ℕ) (s : Session) : Type 0 where
  pub t : ℕ
  pub h : ℕ
  pub row : List Entry
  pub holds : Holds s.ring t h row
  pub sync : InSync s.ring s.reader t
  pub total : s.lines ++ samples row ≡ before ++ s.accepted
  pub counted : s.ring.items ≤ length (samples row)
  pub batch : s.ring.batch ≡ batch_size
  pub few : s.ring.active < 2 ^ 31
  pub phase : IsPhase s.ring.active (samples row)
  pub fuel : s.ring.n_pages * page_size ≤ steps
  pub good : s.err ≡ false

-- The driver keeps to its rules in each of its calls.
abbrev pub AllMay : List Act → RingBuffer → Type 0
AllMay [] ring = Unit {0}
AllMay (a ∷ calls) ring = May a ring × AllMay calls (drive a ring)

module _ {before : List Line} {batch_size steps : ℕ} where
  act-IsGoing :
      (a : Act) {s : Session}
      → IsGoing before batch_size steps s
      → May a s.ring
      → IsGoing before batch_size steps (act a s)
  act-IsGoing a {s} g m =
      let w = drive-Gains g.holds g.few g.phase a m in
      let (order, same, reading) = g.sync in
      record {
        t = g.t;
        h = w.head;
        row = w.row;
        holds = w.holds;
        sync = (order, w.n_pages ∙ same, reading);
        total =
            ap (λ q. s.lines ++ q) w.queued
            ∙ sym (append_assoc s.lines (samples g.row) (gained a s.ring))
            ∙ ap (λ q. q ++ gained a s.ring) g.total
            ∙ append_assoc before s.accepted (gained a s.ring);
        counted = omega (
          arith,
          w.items,
          g.counted,
          ap (λ (q : List Line). length q) w.queued,
          length-append (samples g.row) (gained a s.ring),
        );
        batch = w.batch ∙ g.batch;
        few = w.few;
        phase = w.phase;
        fuel = subst (λ (n : ℕ). n * page_size ≤ steps) (sym w.n_pages) g.fuel;
        good = g.good;
      }

  pub acts-IsGoing :
      (calls : List Act) {s : Session}
      → IsGoing before batch_size steps s
      → AllMay calls s.ring
      → IsGoing before batch_size steps (acts calls s)
  acts-IsGoing [] g m = g
  acts-IsGoing (a ∷ calls) g m = acts-IsGoing calls (act-IsGoing a g m.0) m.1

-- The reads that `nr` samples or an EOF allow.
module _ (before : List Line) (batch_size steps : ℕ) where
  abbrev pub After : Session → List Line → Bool → Session → Type 0
  After s left done s' =
      (g : IsGoing before batch_size steps s') × (samples g.row ≡ left)
      × (s'.done ≡ done)
      × (s'.ring.active ≡ s.ring.active)

  read_items :
      (ring : RingBuffer) (n bytes bound : ℕ)
      → ring.items ≤ n + bound
      → (smon_rb_read ring n bytes).items ≤ bound
  unfolding smon_rb_read
  read_items ring n bytes bound p = ground arith

  pub short :
      {s : Session} (g : IsGoing before batch_size steps s)
      → (length g.row < steps)
        × (length (samples g.row) < 2 ^ 31)
        × (length (samples g.row) < s.ring.size)
  short {s} g =
      let bytes : s.ring.size ≡ s.ring.n_pages * page_size = g.holds.valid.bytes in
      omega (
        arith,
        g.fuel,
        bytes_bounds g.holds.valid,
        g.holds.ends.room,
        IsRow-length s.ring.pages s.ring.n_pages g.t g.row g.h g.holds.row,
        length-samples g.row,
      )

  pub read-After :
      (nr : ℕ) (done : Bool) {s : Session} (g : IsGoing before batch_size steps s)
      → Enough nr g.row
      → IsPhase s.ring.active (samples (scan nr g.row).rest)
      → Returns (After s (samples (scan nr g.row).rest) done) (read_batch steps nr done s)
  unfolding read_batch smon_rb_read
  read-After nr done {s} g e phase =
      let (p, u', run, kept, again) =
        read_samples-scan steps nr g.t g.h g.holds g.sync e (short g).0 in
      let rest : List Entry = (scan nr g.row).rest in
      Returns-known (read_samples steps s.ring s.reader nr) _ run (
        Returns-some (
          record {
            t = p;
            h = g.h;
            row = rest;
            holds = kept;
            sync = again;
            total =
                append_assoc s.lines (scan nr g.row).lines (samples rest)
                ∙ ap (λ q. s.lines ++ q) (scan-splits nr g.row)
                ∙ g.total;
            counted =
                read_items s.ring (0 + (scan nr g.row).taken) u'.consumed (length (samples rest))
                  (omega (arith, g.counted, scan-taken nr g.row));
            batch = g.batch;
            few = g.few;
            phase = phase;
            fuel = g.fuel;
            good = refl;
          },
          refl,
          refl,
          refl,
        ))
