-- ===== src/Reader/Sync/Reads.antt =====
-- read_samples on the bytes of a row does what `scan` does on the row.
use schedmon.Prelude.{
  ℕ, zero, suc, ◌+◌, ◌^◌, ◌≤◌, ◌<◌, ◌≡◌, refl, ap, ap₂, ◌∙◌, arith, List, [], ◌∷◌, ◌++◌, length,
  inl, inr, ◌==◌, Bool-cases, ==→eq, append_assoc, append-nil,
}
use schedmon.Ring.{Pages, header_size, sample_type_eof, sample_type_pad}
use schedmon.Ring.Layout.{Entry, sample_entry, pad_entry, IsRow, next_page}
use schedmon.Ring.Layout.Frame.{IsRow-le}
use schedmon.Reader.{
  Reader, Line, stopped, is_pad, is_eof, header_case, read_loop, smon_rb_page_next,
}
use schedmon.Reader.Index.{IsReading, page_next-IsReading}
use schedmon.Reader.Sync.Memory.{mapped, header_case-sample, sample_kind_small}
use schedmon.Reader.Sync.Scan.{Scan, add_line, scan, Enough, scan-eof, scan-sample, Enough-sample}
use schedmon.Reader.Sync.Loop.{
  whole, round_done, round_sample, round_info, round_pad, round_eof, header-at, take_sample-line,
  take_info-line, take_sample-IsReading, take_info-IsReading,
}

header_case-eof : header_case sample_type_eof ≡ is_eof
unfolding header_case
header_case-eof = refl

header_case-pad : header_case sample_type_pad ≡ is_pad
unfolding header_case
header_case-pad = refl

module _ (pages : Pages) (m t h : ℕ) (in_turn : h ≤ t + whole pages m t) where
  -- The loop stops with the lines, the count and the rest of `s`.
  abbrev pub Reads : ℕ → ℕ → Reader → ℕ → List Line → Scan → Type 0
  Reads fuel nr u n out s =
      (u' : Reader) × (p' : ℕ) × (read_loop (mapped pages) fuel nr u n out
        ≡ stopped (out ++ s.lines) (n + s.taken) u')
      × IsReading u' m t p'
      × IsRow pages (2 ^ m) p' s.rest h

  turn_over :
      (es : List Entry) (n nr fuel : ℕ) (u : Reader) (out : List Line) (p : ℕ)
      → IsReading u m t p
      → IsRow pages (2 ^ m) p es h
      → n + 0 ≡ nr
      → 0 < fuel
      → Reads fuel nr u n out (record { lines = []; taken = 0; rest = es })
  turn_over es n nr zero u out p v r c f = absurd (omega arith)
  turn_over es n nr (suc fuel) u out p v r c f =
      let count : n + 0 ≡ n = omega arith in
      (
        u,
        p,
        rw (count, append-nil out) (round_done (mapped pages) fuel nr u n out (omega arith)),
        v,
        r,
      )

  turn_last :
      (rest : List Entry) (n nr fuel : ℕ) (u : Reader) (out : List Line) (p : ℕ)
      → IsReading u m t p
      → IsRow pages (2 ^ m) p rest h
      → read_loop (mapped pages) fuel nr u n out ≡ stopped out (n + 1) u
      → Reads fuel nr u n out (record { lines = []; taken = 1; rest = rest })
  turn_last rest n nr fuel u out p v r e = (u, p, rw (append-nil out) e, v, r)

  -- A round that prints a line, before a run that does the rest.
  turn_on :
      (n nr fuel kind : ℕ) (u u₁ : Reader) (out : List Line) (line sample : List ℕ) (s : Scan)
      → read_loop (mapped pages) (suc fuel) nr u n out
        ≡ read_loop (mapped pages) fuel nr u₁ (n + 1) (out ++ (kind, line) ∷ [])
      → line ≡ sample
      → Reads fuel nr u₁ (n + 1) (out ++ (kind, line) ∷ []) s
      → Reads (suc fuel) nr u n out (add_line (kind, sample) s)
  turn_on n nr fuel kind u u₁ out line sample s round same (u', p', e, v, r) =
      let count : n + 1 + s.taken ≡ n + suc s.taken = omega arith in
      let lines : (out ++ (kind, line) ∷ []) ++ s.lines ≡ out ++ (kind, sample) ∷ s.lines =
        append_assoc out ((kind, line) ∷ []) s.lines
        ∙ ap (λ (l : List ℕ). out ++ (kind, l) ∷ s.lines) same in
      (u', p', round ∙ e ∙ ap₂ (λ (l : List Line) (c : ℕ). stopped l c u') lines count, v, r)

  pub reads :
      (es : List Entry) (k n nr fuel : ℕ) (u : Reader) (out : List Line) (p : ℕ)
      → IsReading u m t p
      → IsRow pages (2 ^ m) p es h
      → Enough k es
      → n + k ≡ nr
      → length es < fuel
      → Reads fuel nr u n out (scan k es)
  unfolding scan Enough
  reads [] zero n nr fuel u out p v r e c f = turn_over [] n nr fuel u out p v r c (omega arith)
  reads [] (suc k) n nr fuel u out p v r e c f = absurd e
  reads (pad_entry ∷ es) zero n nr fuel u out p v r e c f =
      turn_over (pad_entry ∷ es) n nr fuel u out p v r c (omega arith)
  reads (pad_entry ∷ es) (suc k) n nr zero u out p v r e c f = absurd (omega arith)
  reads (pad_entry ∷ es) (suc k) n nr (suc fuel) u out p v r e c f =
      let le = IsRow-le pages (2 ^ m) (next_page p) es h r.1 in
      let at = header-at pages m t v sample_type_pad (omega arith) (omega (arith, r.0.0)) r.0.1 in
      let v' = page_next-IsReading v (omega arith) in
      let (u', p', e', w, r') =
        reads es (suc k) n nr fuel (smon_rb_page_next u) out (next_page p) v' r.1 e c
          (omega arith) in
      (
        u',
        p',
        round_pad (mapped pages) fuel nr u n out (omega arith) sample_type_pad at header_case-pad
            ∙ e',
        w,
        r',
      )
  reads (sample_entry kind sample ∷ es) zero n nr fuel u out p v r e c f =
      turn_over (sample_entry kind sample ∷ es) n nr fuel u out p v r c (omega arith)
  reads (sample_entry kind sample ∷ es) (suc k) n nr zero u out p v r e c f = absurd (omega arith)
  reads (sample_entry kind sample ∷ es) (suc k) n nr (suc fuel) u out p v r e c f =
      let next : ℕ = p + (header_size + length sample) in
      let le = IsRow-le pages (2 ^ m) next es h r.1 in
      let small = sample_kind_small kind (length sample) r.0.0 in
      let at = header-at pages m t v kind small (omega (arith, r.0.2)) r.0.3 in
      let mem = mapped pages in
      let more : n < nr = omega arith in
      elim (Bool-cases (kind == sample_type_eof)) [
        | inl eof ↦
            let case : header_case kind ≡ is_eof =
              ap header_case (==→eq kind sample_type_eof eof) ∙ header_case-eof in
            rw (scan-eof k kind sample es eof) (
              turn_last (sample_entry kind sample ∷ es) n nr (suc fuel) u out p v r
                (round_eof mem fuel nr u n out more kind at case))
        | inr other ↦
            let rest = Enough-sample k kind sample es other e in
            rw (scan-sample k kind sample es other)
              (elim (header_case-sample kind (length sample) r.0.0 (λ q. ground arith)) [
                | inl case ↦
                    turn_on n nr fuel kind u _ out _ sample (scan k es)
                      (round_sample mem fuel nr u n out more kind at (length sample) case)
                      (take_sample-line pages m t v sample r.0.2 r.0.4 (omega arith))
                      (reads es k (n + 1) nr fuel _ _ next
                        (take_sample-IsReading pages m t v sample r.0.2 r.0.4 (omega arith)) r.1
                        rest (omega arith) (omega arith))
                | inr case ↦
                    turn_on n nr fuel kind u _ out _ sample (scan k es)
                      (round_info mem fuel nr u n out more kind at (length sample) case)
                      (take_info-line pages m t v sample r.0.2 r.0.4 (omega arith))
                      (reads es k (n + 1) nr fuel _ _ next
                        (take_info-IsReading pages m t v sample r.0.2 r.0.4 (omega arith)) r.1 rest
                        (omega arith) (omega arith))
              ])
      ]
