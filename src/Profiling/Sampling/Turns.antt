-- ===== src/Profiling/Sampling/Turns.antt =====
-- One turn of the sampling loop: while there are writers it goes on, and with none left it ends.
use schedmon.Prelude.{
  ℕ, ◌*◌, ◌^◌, ◌≤◌, ◌<◌, ◌≡◌, refl, sym, ap, ◌∙◌, subst, arith, true, false, some, List, [], ◌∷◌,
  length, bit_and, bit_or, ltb, ◌==◌, ◌⊎◌, inl, inr, Bool-cases, Returns, Returns-some, Returns-imp,
}
use schedmon.Ring.Index.{page_size}
use schedmon.Ring.{sample_type_eof}
use schedmon.Ring.Layout.{Entry, samples}
use schedmon.Ring.Valid.{bytes_bounds}
use schedmon.Reader.{Line}
use schedmon.Reader.Sync.Scan.{scan, scan-splits}
use schedmon.Device.{smon_poll}
use schedmon.Device.Laws.{smon_poll-Holds}
use schedmon.Profiling.Sampling.{Act, waits, Session, act, acts, as_count, poll_case, sampling_turn}
use schedmon.Profiling.Sampling.Rows.{
  NoEof, EndsEof, NoEof-right, EndsEof-Enough, length-Enough, scan-EndsEof, length-samples,
  IsRow-length,
}
use schedmon.Profiling.Sampling.Going.{IsGoing, AllMay, acts-IsGoing, short, read-After}

-- poll gives the driver's mask, in bits that are told apart.
pub record IsPoll (pollin pollrdnorm pollhup : ℕ) (revents : ℕ → ℕ) : Type 0 where
  pub no_data : (bit_and (revents 0) pollin == 0) ≡ true
  pub no_end : (bit_and (revents 0) pollhup == 0) ≡ true
  pub data_ready : (bit_and (revents (bit_or pollin pollrdnorm)) pollin == 0) ≡ false
  pub end_only : (bit_and (revents pollhup) pollin == 0) ≡ true
  pub hung_up : (bit_and (revents pollhup) pollhup == 0) ≡ false

small_count : (n : ℕ) → n < 2 ^ 31 → as_count n ≡ n
small_count n h = ground arith

EndsEof-pos : (es : List Entry) → EndsEof (samples es) → 0 < length (samples es)
EndsEof-pos es h = go (samples es) h
  where
    go : (q : List Line) → EndsEof q → 0 < length q
    go [] h = absurd h
    go (x ∷ q) h = omega arith

module _ (pollin pollrdnorm pollhup : ℕ) (revents : ℕ → ℕ) (batch_size steps : ℕ)
    (poll : IsPoll pollin pollrdnorm pollhup revents) (before : List Line) where
  abbrev pub Turn : Session → Type 0
  Turn s' =
      (g : IsGoing before batch_size steps s') × (s'.done ≡ (s'.ring.active == 0))
      × ((s'.done ≡ false) ⊎ (samples g.row ≡ (sample_type_eof, []) ∷ []))

  poll-with_writers :
      {s : Session} (g : IsGoing before batch_size steps s)
      → s.done ≡ false
      → 0 < s.ring.active
      → NoEof (samples g.row)
      → Returns Turn (
          poll_case pollin pollrdnorm pollhup revents batch_size steps
            (revents (smon_poll pollin pollrdnorm pollhup (some s.ring)))
            s)
  unfolding poll_case
  poll-with_writers {s} g open_ active quiet =
      let mask = smon_poll-Holds pollin pollrdnorm pollhup g.holds g.few in
      let on : (0 == s.ring.active) ≡ false = ground arith in
      let live : (s.ring.active == 0) ≡ false = ground arith in
      elim (Bool-cases (ltb s.ring.items s.ring.batch)) [
        | inl early ↦
            rw (mask, on, early, poll.no_data, poll.no_end)
              (Returns-some (g, open_ ∙ sym live, inl open_))
        | inr batch ↦
            let ready : batch_size ≤ length (samples g.row) =
              omega (arith, g.batch, g.counted, batch_there batch) in
            let nr =
              small_count batch_size (omega (arith, ready, (short before batch_size steps g).1)) in
            let left = (scan batch_size g.row).rest in
            let still : NoEof (samples left) =
              NoEof-right (scan batch_size g.row).lines (samples left)
                (subst NoEof (sym (scan-splits batch_size g.row)) quiet) in
            rw (mask, on, batch, poll.data_ready, nr)
              (Returns-imp
                (read-After before batch_size steps batch_size false g
                  (length-Enough batch_size g.row ready) (inl (active, still)))
                (λ s' (g', same, fin, act_).
                  (g', fin ∙ sym live ∙ ap (λ n. n == 0) (sym act_), inl fin)))
      ]
    where
      batch_there : ltb s.ring.items s.ring.batch ≡ false → s.ring.batch ≤ s.ring.items
      batch_there e = ground arith

  poll-none_left :
      {s : Session} (g : IsGoing before batch_size steps s)
      → s.ring.active ≡ 0
      → EndsEof (samples g.row)
      → Returns Turn (
          poll_case pollin pollrdnorm pollhup revents batch_size steps
            (revents (smon_poll pollin pollrdnorm pollhup (some s.ring)))
            s)
  unfolding poll_case
  poll-none_left {s} g none_left ends =
      let mask = smon_poll-Holds pollin pollrdnorm pollhup g.holds g.few in
      let some_rows = EndsEof-pos g.row ends in
      let off : (0 == s.ring.active) ≡ true = ground arith in
      let unread : (g.t == g.h) ≡ false = ground (
        arith,
        some_rows,
        length-samples g.row,
        IsRow-length s.ring.pages s.ring.n_pages g.t g.row g.h g.holds.row,
      ) in
      let (order, same_pages, reading) = g.sync in
      let size : s.reader.size ≡ s.ring.size =
        reading.bytes ∙ ap (λ (n : ℕ). n * page_size) (sym same_pages) ∙ sym g.holds.valid.bytes in
      let few = (short before batch_size steps g).2 in
      let nr : as_count s.reader.size ≡ s.ring.size =
        ap as_count size ∙ small_count s.ring.size (omega (arith, bytes_bounds g.holds.valid)) in
      let rest = scan-EndsEof s.ring.size g.row ends (omega (arith, few)) in
      rw (mask, off, unread, poll.end_only, poll.hung_up, nr)
        (Returns-imp
          (read-After before batch_size steps s.ring.size true g
            (EndsEof-Enough s.ring.size g.row ends)
            (inr (none_left, subst EndsEof (sym rest) refl)))
          (λ s' (g', same, fin, act_).
            (g', fin ∙ ground (arith, act_, none_left), inr (same ∙ rest))))

  pub sampling_turn-Turn :
      (calls : List Act) {s : Session}
      → IsGoing before batch_size steps s
      → s.done ≡ false
      → AllMay calls s.ring
      → Returns Turn
          (sampling_turn pollin pollrdnorm pollhup revents batch_size steps (waits calls) s)
  unfolding sampling_turn
  sampling_turn-Turn calls {s} g open_ may =
      let g' = acts-IsGoing calls g may in
      elim g'.phase [
        | inl p ↦ poll-with_writers g' (acts-done calls s ∙ open_) p.0 p.1
        | inr p ↦ poll-none_left g' p.0 p.1
      ]
    where
      acts-done : (calls : List Act) (s : Session) → (acts calls s).done ≡ s.done
      acts-done [] s = refl
      acts-done (a ∷ calls) s = acts-done calls (act a s)
