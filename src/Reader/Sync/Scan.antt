-- ===== src/Reader/Sync/Scan.antt =====
-- What read_samples is to do, on the row of entries instead of its bytes.
use schedmon.Prelude.{
  ℕ, zero, suc, ◌≤◌, ◌≡◌, refl, ap, arith, inl, inr, Bool-cases, true, false, List, [], ◌∷◌, ◌++◌,
  length, ◌==◌,
}
use schedmon.Ring.{sample_type_eof}
use schedmon.Ring.Layout.{Entry, sample_entry, pad_entry, samples}
use schedmon.Reader.{Line}

pub record Scan : Type 0 where
  pub lines : List Line
  pub taken : ℕ
  pub rest : List Entry

abbrev pub add_line : Line → Scan → Scan
add_line l s = record { lines = l ∷ s.lines; taken = suc s.taken; rest = s.rest }

-- At most `k` samples; an EOF is counted, and stays in the buffer.
unfoldable pub scan : ℕ → List Entry → Scan
scan zero es = record { lines = []; taken = 0; rest = es }
scan (suc k) [] = record { lines = []; taken = 0; rest = [] }
scan (suc k) (pad_entry ∷ es) = scan (suc k) es
scan (suc k) (sample_entry kind sample ∷ es) = elim (kind == sample_type_eof) [
  | true ↦ record { lines = []; taken = 1; rest = sample_entry kind sample ∷ es }
  | false ↦ add_line (kind, sample) (scan k es)
]

-- The row has `k` samples, or an EOF.
unfoldable pub Enough : ℕ → List Entry → Type 0
Enough zero es = Unit {0}
Enough (suc k) [] = ⊥
Enough (suc k) (pad_entry ∷ es) = Enough (suc k) es
Enough (suc k) (sample_entry kind sample ∷ es) = elim (kind == sample_type_eof) [
  | true ↦ Unit {0}
  | false ↦ Enough k es
]

module _ (k kind : ℕ) (sample : List ℕ) (es : List Entry) where
  pub scan-eof :
      (kind == sample_type_eof) ≡ true
      → scan (suc k) (sample_entry kind sample ∷ es)
        ≡ record { lines = []; taken = 1; rest = sample_entry kind sample ∷ es }
  unfolding scan
  scan-eof e = rw (e, scan)

  pub scan-sample :
      (kind == sample_type_eof) ≡ false
      → scan (suc k) (sample_entry kind sample ∷ es) ≡ add_line (kind, sample) (scan k es)
  unfolding scan
  scan-sample e = rw (e, scan)

  pub Enough-sample :
      (kind == sample_type_eof) ≡ false
      → Enough (suc k) (sample_entry kind sample ∷ es)
      → Enough k es
  unfolding Enough
  Enough-sample e h = rw (e, Enough) at h

-- What a scan prints and what it leaves make up the row; it prints `k` lines, or stops at an EOF.
pub scan-splits :
    (k : ℕ) (es : List Entry) → (scan k es).lines ++ samples (scan k es).rest ≡ samples es
unfolding scan
scan-splits zero es = refl
scan-splits (suc k) [] = refl
scan-splits (suc k) (pad_entry ∷ es) = scan-splits (suc k) es
scan-splits (suc k) (sample_entry kind sample ∷ es) = elim (Bool-cases (kind == sample_type_eof)) [
  | inl eof ↦ rw (scan-eof k kind sample es eof)
  | inr other ↦
      rw (scan-sample k kind sample es other)
        (ap (λ (l : List Line). (kind, sample) ∷ l) (scan-splits k es))
]

pub length-scan : (k : ℕ) (es : List Entry) → length (scan k es).lines ≤ k
unfolding scan
length-scan zero es = omega arith
length-scan (suc k) [] = omega arith
length-scan (suc k) (pad_entry ∷ es) = length-scan (suc k) es
length-scan (suc k) (sample_entry kind sample ∷ es) = elim (Bool-cases (kind == sample_type_eof)) [
  | inl eof ↦ rw (scan-eof k kind sample es eof) (omega arith)
  | inr other ↦ rw (scan-sample k kind sample es other) (omega (arith, length-scan k es))
]
