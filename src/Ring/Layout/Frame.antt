-- ===== src/Ring/Layout/Frame.antt =====
-- Rows under a change of memory, and end to end.
use native.Mathlib.Nat.{add-mul-mod_self_left, div-add-mod, mod-eq_of_lt, mod-lt}
use schedmon.Prelude.{
  ℕ, zero, suc, ◌+◌, ◌-◌, ◌*◌, ◌/◌, ◌%◌, ◌≤◌, ◌<◌, ◌≡◌, ◌≢◌, refl, ap, ◌∙◌, arith, List, [], ◌∷◌,
  ◌++◌, length, get_or,
}
use schedmon.Ring.Index.{page_size}
use schedmon.Ring.{Pages, memcpy, header_size}
use schedmon.Ring.Layout.{
  Entry, sample_entry, pad_entry, byte_at, bytes_at, IsRow, next_page, samples,
}

mod-ne : (a b n : ℕ) → a < b → b < a + n → a % n ≢ b % n
mod-ne a b n p q = grind arith

-- Page and offset of a remainder by the buffer's size.
pub mod-pages :
    (n h : ℕ) → 0 < n → h % (n * page_size) ≡ h / page_size % n * page_size + h % page_size
mod-pages n h p =
    let whole : h
        ≡ h / page_size % n * page_size + h % page_size + n * page_size * (h / page_size / n) =
      omega (arith, div-add-mod (h / page_size) n) in
    let inside : h / page_size % n * page_size + h % page_size < n * page_size =
      omega (arith, mod-lt (h / page_size) {m = n} p) in
    ap (λ (x : ℕ). x % (n * page_size)) whole
    ∙ add-mul-mod_self_left (h / page_size % n * page_size + h % page_size) (n * page_size)
        (h / page_size / n)
    ∙ mod-eq_of_lt inside

-- Positions of one offset, less than a turn apart, are on different pages.
page-ne :
    (n x y : ℕ)
    → x % page_size ≡ y % page_size
    → x < y
    → y < x + n * page_size
    → x / page_size % n ≢ y / page_size % n
page-ne n x y o p q = mod-ne (x / page_size) (y / page_size) n (omega arith) (omega arith)

module _ (pages : Pages) (n h c : ℕ) (src : List ℕ) (fits : h % page_size + c ≤ page_size) where
  abbrev written : Pages
  written = memcpy pages (h / page_size % n) (h % page_size) src c

  -- A copy to position `h` leaves the bytes that are less than a turn before its end.
  pub memcpy-before :
      (x : ℕ) → x < h → h + c ≤ x + n * page_size → byte_at written n x ≡ byte_at pages n x
  unfolding memcpy
  memcpy-before x p q =
      let y : ℕ = h - h % page_size + x % page_size in ground (arith, page-ne n x y)

  pub memcpy-at : (i : ℕ) → i < c → byte_at written n (h + i) ≡ get_or src i 0
  unfolding memcpy
  memcpy-at i p =
      let page : (h + i) / page_size ≡ h / page_size = omega arith in
      let offset : (h + i) % page_size ≡ h % page_size + i = omega arith in
      let back : h % page_size + i - h % page_size ≡ i = omega arith in
      rw (page, offset, back) (ground arith)

module _ (pages : Pages) (n : ℕ) where
  -- Bytes one by one, and as a list.
  pub bytes_at-eq :
      (src : List ℕ) (x : ℕ)
      → ((i : ℕ) → i < length src → byte_at pages n (x + i) ≡ get_or src i 0)
      → bytes_at pages n x (length src) ≡ src
  bytes_at-eq [] x h = refl
  bytes_at-eq (b ∷ src) x h =
      let here : x + 0 ≡ x = omega arith in
      let first : byte_at pages n x ≡ b = rw here at (h 0 (omega arith)) in
      let rest = bytes_at-eq src (x + 1) (λ i p.
        let there : x + suc i ≡ x + 1 + i = omega arith in rw there at (h (suc i) (omega arith))) in
      λ i. first i ∷ rest i

  pub IsRow-le : (t : ℕ) (es : List Entry) (h : ℕ) → IsRow pages n t es h → t ≤ h
  IsRow-le t [] h r = omega arith
  IsRow-le t (sample_entry kind sample ∷ es) h r =
      omega (arith, IsRow-le (t + (header_size + length sample)) es h r.1)
  IsRow-le t (pad_entry ∷ es) h r = omega (arith, IsRow-le (next_page t) es h r.1)

  pub IsRow-append :
      (t m h : ℕ) (es fs : List Entry)
      → IsRow pages n t es m
      → IsRow pages n m fs h
      → IsRow pages n t (es ++ fs) h
  IsRow-append t m h [] fs r s = rw r s
  IsRow-append t m h (sample_entry kind sample ∷ es) fs r s =
      (r.0, IsRow-append (t + (header_size + length sample)) m h es fs r.1 s)
  IsRow-append t m h (pad_entry ∷ es) fs r s = (r.0, IsRow-append (next_page t) m h es fs r.1 s)

pub samples-append : (es fs : List Entry) → samples (es ++ fs) ≡ samples es ++ samples fs
samples-append [] fs = refl
samples-append (sample_entry kind sample ∷ es) fs =
    ap (λ (q : List (ℕ × List ℕ)). (kind, sample) ∷ q) (samples-append es fs)
samples-append (pad_entry ∷ es) fs = samples-append es fs

-- Memories that agree on a stretch of bytes hold the same rows there.
module _ (old new : Pages) (n : ℕ) where
  abbrev pub Agree : ℕ → ℕ → Type 0
  Agree t h = (x : ℕ) → t ≤ x → x < h → byte_at new n x ≡ byte_at old n x

  pub bytes_at-same : (x k h : ℕ) → x + k ≤ h → Agree x h → bytes_at new n x k ≡ bytes_at old n x k
  bytes_at-same x zero h p a = refl
  bytes_at-same x (suc k) h p a = λ i.
      a x (omega arith) (omega arith) i
      ∷ bytes_at-same (x + 1) k h (omega arith) (λ y q. a y (omega arith)) i

  pub IsRow-agree :
      (t : ℕ) (es : List Entry) (h : ℕ) → Agree t h → IsRow old n t es h → IsRow new n t es h
  IsRow-agree t [] h a r = r
  IsRow-agree t (sample_entry kind sample ∷ es) h a r =
      let end : ℕ = t + (header_size + length sample) in
      let le : end ≤ h = IsRow-le old n end es h r.1 in
      let head = bytes_at-same t header_size h (omega arith) a in
      let body =
        bytes_at-same (t + header_size) (length sample) h (omega arith)
          (λ y q. a y (omega arith)) in
      (
        (r.0.0, r.0.1, r.0.2, head ∙ r.0.3, body ∙ r.0.4),
        IsRow-agree end es h (λ y q. a y (omega arith)) r.1,
      )
  IsRow-agree t (pad_entry ∷ es) h a r =
      let le : next_page t ≤ h = IsRow-le old n (next_page t) es h r.1 in
      let head = bytes_at-same t header_size h (omega arith) a in
      ((r.0.0, head ∙ r.0.1), IsRow-agree (next_page t) es h (λ y q. a y (omega arith)) r.1)
