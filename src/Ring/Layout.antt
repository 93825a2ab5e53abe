-- ===== src/Ring/Layout.antt =====
-- What the bytes between the reader and the writer mean: a row of records and PAD headers.
-- Positions are unbounded counts of bytes; a position's page and offset are those of its remainder.
pub mod Frame
use schedmon.Prelude.{ℕ, zero, suc, ◌+◌, ◌*◌, ◌/◌, ◌%◌, ◌≤◌, ◌≡◌, List, [], ◌∷◌, some, length}
use schedmon.Ring.Index.{page_size}
use schedmon.Ring.{Pages, RingBuffer, header_size, header_bytes, sample_size, sample_type_pad}

pub data Entry : Type 0 where
  sample_entry : ℕ → List ℕ → Entry
  pad_entry : Entry

-- The samples of a row, in order: the queue that the two sides share.
abbrev pub samples : List Entry → List (ℕ × List ℕ)
samples [] = []
samples (sample_entry kind sample ∷ es) = (kind, sample) ∷ samples es
samples (pad_entry ∷ es) = samples es

abbrev pub next_page : ℕ → ℕ
next_page x = (x / page_size + 1) * page_size

module _ (pages : Pages) (n_pages : ℕ) where
  abbrev pub byte_at : ℕ → ℕ
  byte_at x = pages (x / page_size % n_pages) (x % page_size)

  abbrev pub bytes_at : ℕ → ℕ → List ℕ
  bytes_at x zero = []
  bytes_at x (suc k) = byte_at x ∷ bytes_at (x + 1) k

  -- A sample has the size of its type, starts on a multiple of 4 and lies within one page.
  abbrev pub IsSampleAt : ℕ → ℕ → List ℕ → Type 0
  IsSampleAt x kind sample =
      (sample_size kind ≡ some (length sample))
      × (x % 4 ≡ 0)
      × (x % page_size + (header_size + length sample) ≤ page_size)
      × (bytes_at x header_size ≡ header_bytes kind)
      × (bytes_at (x + header_size) (length sample) ≡ sample)

  abbrev pub IsPadAt : ℕ → Type 0
  IsPadAt x = (x % 4 ≡ 0) × (bytes_at x header_size ≡ header_bytes sample_type_pad)

  -- The row `es` fills the bytes from `t` up to `h`.
  abbrev pub IsRow : ℕ → List Entry → ℕ → Type 0
  IsRow t [] h = t ≡ h
  IsRow t (sample_entry kind sample ∷ es) h =
      IsSampleAt t kind sample × IsRow (t + (header_size + length sample)) es h
  IsRow t (pad_entry ∷ es) h = IsPadAt t × IsRow (next_page t) es h
