-- ===== src/Ring/Write/Memory.antt =====
-- The bytes that smon_rb_write leaves in the pages.
use schedmon.Prelude.{
  ℕ, ◌+◌, ◌*◌, ◌/◌, ◌%◌, ◌≤◌, ◌<◌, ◌≡◌, refl, ap, ◌∙◌, arith, List, [], ◌∷◌, length, ltb, lt→ltb,
  if◌then◌else◌,
}
use schedmon.Ring.Index.{page_size}
use schedmon.Ring.{Pages, memcpy, header_size, header_bytes}
use schedmon.Ring.Layout.{byte_at, bytes_at}
use schedmon.Ring.Layout.Frame.{memcpy-before, memcpy-at, bytes_at-eq, bytes_at-same}

module _ (pages : Pages) (n h kind : ℕ) where
  abbrev pub with_header : Pages
  with_header = memcpy pages (h / page_size % n) (h % page_size) (header_bytes kind) header_size

  abbrev pub with_sample : List ℕ → Pages
  with_sample sample =
      if ltb 0 (length sample)
      then memcpy with_header (h / page_size % n) (h % page_size + header_size) sample
          (length sample)
      else with_header

  -- The same, with the second copy at the position behind the header.
  abbrev behind_header : List ℕ → Pages
  behind_header sample =
      memcpy with_header ((h + header_size) / page_size % n) ((h + header_size) % page_size) sample
        (length sample)

  module _ (pos : 1 ≤ n) where
    second_copy :
        (sample : List ℕ)
        → 0 < length sample
        → h % page_size + (header_size + length sample) ≤ page_size
        → with_sample sample ≡ behind_header sample
    second_copy sample q p =
        let page : (h + header_size) / page_size ≡ h / page_size = omega arith in
        let offset : (h + header_size) % page_size ≡ h % page_size + header_size = omega arith in
        rw (lt→ltb 0 (length sample) q, page, offset)

    with_header-header :
        h % page_size + header_size ≤ page_size
        → bytes_at with_header n h header_size ≡ header_bytes kind
    with_header-header p =
        bytes_at-eq with_header n (header_bytes kind) h
          (memcpy-at pages n h header_size (header_bytes kind) p)

    pub with_sample-before :
        (sample : List ℕ) (x : ℕ)
        → h % page_size + (header_size + length sample) ≤ page_size
        → x < h
        → h + (header_size + length sample) ≤ x + n * page_size
        → byte_at (with_sample sample) n x ≡ byte_at pages n x
    with_sample-before [] x p q r =
        memcpy-before pages n h header_size (header_bytes kind) (omega arith) x q (omega arith)
    with_sample-before (b ∷ bs) x p q r = rw (second_copy (b ∷ bs) (omega arith) p) (
        memcpy-before with_header n (h + header_size) (length (b ∷ bs)) (b ∷ bs) (omega arith) x
          (omega arith) (omega arith)
        ∙ memcpy-before pages n h header_size (header_bytes kind) (omega arith) x q (omega arith))

    pub with_sample-header :
        (sample : List ℕ)
        → h % page_size + (header_size + length sample) ≤ page_size
        → bytes_at (with_sample sample) n h header_size ≡ header_bytes kind
    with_sample-header [] p = with_header-header (omega arith)
    with_sample-header (b ∷ bs) p = rw (second_copy (b ∷ bs) (omega arith) p) (
        bytes_at-same with_header (behind_header (b ∷ bs)) n h header_size (h + header_size)
          (omega arith)
          (λ x u w.
            memcpy-before with_header n (h + header_size) (length (b ∷ bs)) (b ∷ bs) (omega arith) x
              w (omega arith))
        ∙ with_header-header (omega arith))

    pub with_sample-sample :
        (sample : List ℕ)
        → h % page_size + (header_size + length sample) ≤ page_size
        → bytes_at (with_sample sample) n (h + header_size) (length sample) ≡ sample
    with_sample-sample [] p = refl
    with_sample-sample (b ∷ bs) p =
        ap (λ (q : Pages). bytes_at q n (h + header_size) (length (b ∷ bs)))
          (second_copy (b ∷ bs) (omega arith) p)
        ∙ bytes_at-eq (behind_header (b ∷ bs)) n (b ∷ bs) (h + header_size)
            (memcpy-at with_header n (h + header_size) (length (b ∷ bs)) (b ∷ bs) (omega arith))
