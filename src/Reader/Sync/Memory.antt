-- ===== src/Reader/Sync/Memory.antt =====
-- The tool's mapping of the kernel's pages. smon_vma_fault gives page `i` of the buffer for page `i`
-- of the mapping.
use schedmon.Prelude.{
  ℕ, zero, suc, ◌+◌, ◌*◌, ◌/◌, ◌%◌, ◌≤◌, ◌<◌, ◌≡◌, refl, ap, ap₂, sym, ◌∙◌, arith, List, ◌∷◌, some,
  ◌⊎◌, ◌≢◌, get_or,
}
use schedmon.Ring.Index.{page_size}
use schedmon.Ring.{Pages, sample_size, header_size, header_bytes, sample_type_eof}
use schedmon.Ring.Layout.{byte_at, bytes_at}
use schedmon.Ring.Layout.Frame.{mod-pages}
use schedmon.Reader.{Mapping, load_u32, load_bytes, is_sample, is_info, header_case}

abbrev pub mapped : Pages → Mapping
mapped pages x = pages (x / page_size) (x % page_size)

module _ (pages : Pages) (n p : ℕ) (pos : 1 ≤ n) where
  mapped-at :
      (i : ℕ)
      → p % page_size + i < page_size
      → mapped pages (p % (n * page_size) + i) ≡ byte_at pages n (p + i)
  mapped-at i h =
      let spread = mod-pages n p pos in
      let page : (p % (n * page_size) + i) / page_size ≡ p / page_size % n = omega arith in
      let offset : (p % (n * page_size) + i) % page_size ≡ (p + i) % page_size = omega arith in
      let same : (p + i) / page_size ≡ p / page_size = omega arith in
      ap₂ pages (page ∙ ap (λ (q : ℕ). q % n) (sym same)) offset

  pub load_bytes-at :
      (k i : ℕ)
      → p % page_size + (i + k) ≤ page_size
      → load_bytes (mapped pages) (p % (n * page_size) + i) k ≡ bytes_at pages n (p + i) k
  load_bytes-at zero i h = refl
  load_bytes-at (suc k) i h =
      let rest = load_bytes-at k (i + 1) (omega arith) in
      let here : p % (n * page_size) + (i + 1) ≡ p % (n * page_size) + i + 1 = omega arith in
      let there : p + (i + 1) ≡ p + i + 1 = omega arith in
      ap₂ ◌∷◌ (mapped-at i (omega arith)) (rw (here, there) at rest)

  pub load_u32-at :
      (kind : ℕ)
      → kind < 256
      → p % page_size + header_size ≤ page_size
      → bytes_at pages n p header_size ≡ header_bytes kind
      → load_u32 (mapped pages) (p % (n * page_size)) ≡ kind
  load_u32-at kind small h e =
      let x : ℕ = p % (n * page_size) in
      let start : p + 0 ≡ p = omega arith in
      let x0 : x + 0 ≡ x = omega arith in
      let x2 : x + 1 + 1 ≡ x + 2 = omega arith in
      let x3 : x + 2 + 1 ≡ x + 3 = omega arith in
      let got : load_bytes (mapped pages) (x + 0) header_size ≡ header_bytes kind =
        load_bytes-at header_size 0 (omega arith)
        ∙ ap (λ (q : ℕ). bytes_at pages n q header_size) start
        ∙ e in
      let bytes : load_bytes (mapped pages) x header_size ≡ header_bytes kind = rw x0 at got in
      let b0 : mapped pages x ≡ kind % 256 = ap (λ (l : List ℕ). get_or l 0 0) bytes in
      let b1 : mapped pages (x + 1) ≡ kind / 256 % 256 = ap (λ (l : List ℕ). get_or l 1 0) bytes in
      let c2 : mapped pages (x + 1 + 1) ≡ kind / 65536 % 256 =
        ap (λ (l : List ℕ). get_or l 2 0) bytes in
      let c3 : mapped pages (x + 1 + 1 + 1) ≡ kind / 16777216 % 256 =
        ap (λ (l : List ℕ). get_or l 3 0) bytes in
      let b2 : mapped pages (x + 2) ≡ kind / 65536 % 256 = rw x2 at c2 in
      let b3 : mapped pages (x + 3) ≡ kind / 16777216 % 256 = rw (x2, x3) at c3 in
      sum (mapped pages x) (mapped pages (x + 1)) (mapped pages (x + 2)) (mapped pages (x + 3)) b0
        b1 b2 b3
    where
      sum :
          (a b c d : ℕ)
          → a ≡ kind % 256
          → b ≡ kind / 256 % 256
          → c ≡ kind / 65536 % 256
          → d ≡ kind / 16777216 % 256
          → a + 256 * b + 65536 * c + 16777216 * d ≡ kind
      sum a b c d p q r s = omega arith

-- Which case of the switch a written header takes.
pub header_case-sample :
    (kind n : ℕ)
    → sample_size kind ≡ some n
    → kind ≢ sample_type_eof
    → (header_case kind ≡ is_sample n) ⊎ (header_case kind ≡ is_info n)
unfolding sample_size header_case
header_case-sample kind n s ne = ground arith

pub sample_kind_small : (kind n : ℕ) → sample_size kind ≡ some n → kind < 256
unfolding sample_size
sample_kind_small kind n s = ground arith

pub eof_size : (n : ℕ) → sample_size sample_type_eof ≡ some n → n ≡ 0
unfolding sample_size
eof_size n s = ground arith
