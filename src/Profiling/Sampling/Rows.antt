-- ===== src/Profiling/Sampling/Rows.antt =====
-- Rows with and without an EOF record, and what read_samples takes off them.
use schedmon.Prelude.{
  ℕ, zero, suc, ◌+◌, ◌*◌, ◌≤◌, ◌≡◌, refl, sym, ap, ◌∙◌, arith, true, false, List, [], ◌∷◌, ◌++◌,
  length, ◌==◌, inl, inr, Bool-cases, length-append,
}
use schedmon.Ring.{sample_type_eof}
use schedmon.Ring.Layout.{Entry, sample_entry, pad_entry, samples, IsRow, next_page}
use schedmon.Ring.{Pages}
use schedmon.Reader.{Line}
use schedmon.Reader.Sync.Scan.{scan, Enough, scan-eof, scan-sample, scan-splits}

-- No EOF record is in the queue.
abbrev pub NoEof : List Line → Type 0
NoEof [] = Unit {0}
NoEof ((kind, sample) ∷ q) = ((kind == sample_type_eof) ≡ false) × NoEof q

-- The queue ends with its only EOF record.
abbrev pub EndsEof : List Line → Type 0
EndsEof [] = ⊥
EndsEof ((kind, sample) ∷ q) = elim (kind == sample_type_eof) [
  | true ↦ ((kind, sample) ∷ q) ≡ (sample_type_eof, []) ∷ []
  | false ↦ EndsEof q
]

pub NoEof-right : (p q : List Line) → NoEof (p ++ q) → NoEof q
NoEof-right [] q h = h
NoEof-right ((kind, sample) ∷ p) q h = NoEof-right p q h.1

pub NoEof-snoc :
    (q : List Line) (kind : ℕ) (sample : List ℕ)
    → NoEof q
    → (kind == sample_type_eof) ≡ false
    → NoEof (q ++ (kind, sample) ∷ [])
NoEof-snoc [] kind sample h k = (k, tt)
NoEof-snoc ((other, s) ∷ q) kind sample h k = (h.0, NoEof-snoc q kind sample h.1 k)

pub EndsEof-snoc : (q : List Line) → NoEof q → EndsEof (q ++ (sample_type_eof, []) ∷ [])
EndsEof-snoc [] h = refl
EndsEof-snoc ((kind, s) ∷ q) h = rw (EndsEof, h.0) (EndsEof-snoc q h.1)

-- An EOF record is enough for any number of samples.
pub EndsEof-Enough : (k : ℕ) (es : List Entry) → EndsEof (samples es) → Enough k es
unfolding Enough
EndsEof-Enough zero es h = tt
EndsEof-Enough (suc k) [] h = h
EndsEof-Enough (suc k) (pad_entry ∷ es) h = EndsEof-Enough (suc k) es h
EndsEof-Enough (suc k) (sample_entry kind sample ∷ es) h =
    elim (Bool-cases (kind == sample_type_eof)) [
      | inl eof ↦ rw (Enough, eof) tt
      | inr other ↦ rw (Enough, other) (EndsEof-Enough k es (rw (EndsEof, other) at h))
    ]

pub length-Enough : (k : ℕ) (es : List Entry) → k ≤ length (samples es) → Enough k es
unfolding Enough
length-Enough zero es h = tt
length-Enough (suc k) [] h = absurd (omega arith)
length-Enough (suc k) (pad_entry ∷ es) h = length-Enough (suc k) es h
length-Enough (suc k) (sample_entry kind sample ∷ es) h =
    elim (Bool-cases (kind == sample_type_eof)) [
      | inl eof ↦ rw (Enough, eof) tt
      | inr other ↦ rw (Enough, other) (length-Enough k es (omega arith))
    ]

-- A scan for more samples than there are stops at the EOF.
pub scan-EndsEof :
    (k : ℕ) (es : List Entry)
    → EndsEof (samples es)
    → length (samples es) ≤ k
    → samples (scan k es).rest ≡ (sample_type_eof, []) ∷ []
unfolding scan
scan-EndsEof zero [] h p = absurd h
scan-EndsEof zero (pad_entry ∷ es) h p = scan-EndsEof zero es h p
scan-EndsEof zero (sample_entry kind sample ∷ es) h p = absurd (omega arith)
scan-EndsEof (suc k) [] h p = absurd h
scan-EndsEof (suc k) (pad_entry ∷ es) h p = scan-EndsEof (suc k) es h p
scan-EndsEof (suc k) (sample_entry kind sample ∷ es) h p =
    elim (Bool-cases (kind == sample_type_eof)) [
      | inl eof ↦ rw (scan-eof k kind sample es eof) (rw (EndsEof, eof) at h)
      | inr other ↦
          rw (scan-sample k kind sample es other)
            (scan-EndsEof k es (rw (EndsEof, other) at h) (omega arith))
    ]

taken-lines : (k : ℕ) (es : List Entry) → length (scan k es).lines ≤ (scan k es).taken
unfolding scan
taken-lines zero es = omega arith
taken-lines (suc k) [] = omega arith
taken-lines (suc k) (pad_entry ∷ es) = taken-lines (suc k) es
taken-lines (suc k) (sample_entry kind sample ∷ es) = elim (Bool-cases (kind == sample_type_eof)) [
  | inl eof ↦ rw (scan-eof k kind sample es eof) (omega arith)
  | inr other ↦ rw (scan-sample k kind sample es other) (omega (arith, taken-lines k es))
]

-- What a scan counts covers what it takes off the queue.
pub scan-taken :
    (k : ℕ) (es : List Entry)
    → length (samples es) ≤ (scan k es).taken + length (samples (scan k es).rest)
scan-taken k es =
    let whole =
      sym (length-append (scan k es).lines (samples (scan k es).rest))
      ∙ ap (λ (q : List Line). length q) (scan-splits k es) in
    omega (arith, whole, taken-lines k es)

pub length-samples : (es : List Entry) → length (samples es) ≤ length es
length-samples [] = omega arith
length-samples (sample_entry kind sample ∷ es) = omega (arith, length-samples es)
length-samples (pad_entry ∷ es) = omega (arith, length-samples es)

-- Each record has at least 4 bytes.
pub IsRow-length :
    (pages : Pages) (n t : ℕ) (es : List Entry) (h : ℕ)
    → IsRow pages n t es h
    → t + 4 * length es ≤ h
IsRow-length pages n t [] h r = omega arith
IsRow-length pages n t (sample_entry kind sample ∷ es) h r =
    omega (arith, IsRow-length pages n (t + (4 + length sample)) es h r.1)
IsRow-length pages n t (pad_entry ∷ es) h r =
    omega (arith, r.0.0, IsRow-length pages n (next_page t) es h r.1)
