-- ===== src/Reader.antt =====
-- tool/src/rb.c, the tool's side of the ring buffer, and read_samples of tool/src/profile.c, which
-- takes the samples off it. `tail` is an offset from the address of the mapping, whose bytes are
-- an argument; printing a sample appends its type and bytes to a list.
pub mod Index
pub mod Sync
pub mod Session
pub mod Tests
use schedmon.Prelude.{
  ℕ, zero, suc, ◌+◌, ◌-◌, ◌*◌, ◌/◌, ◌%◌, ◌^◌, bit_and, bit_or, Bool, true, false, ◌||◌, Option,
  none, some, List, [], ◌∷◌, ◌++◌, ltb, ◌==◌, if◌then◌else◌,
}
use schedmon.Ring.Index.{page_shift, page_size, u32, sub32, add32}
use schedmon.Ring.{
  header_size, sample_type_pmc, sample_type_rapl, sample_type_cpu, sample_type_sched,
  sample_type_fork, sample_type_info, sample_type_pad, sample_type_eof,
}

abbrev pub Mapping : Type 0
Mapping = ℕ → ℕ

-- `struct smon_rb`: `tail` is an `unsigned long`, the rest are `unsigned int`s.
pub record Reader : Type 0 where
  pub tail : ℕ
  pub size : ℕ
  pub n_pages : ℕ
  pub consumed : ℕ

abbrev pub u64 : ℕ
u64 = 2 ^ 64

unfoldable pub smon_rb_init : ℕ → Reader
smon_rb_init mmap_pages = record {
  tail = 0;
  consumed = 0;
  size = mmap_pages * page_size % u32;
  n_pages = mmap_pages;
}

unfoldable pub smon_rb_page : Reader → ℕ
smon_rb_page rb = rb.tail / 2 ^ page_shift % u32

unfoldable pub smon_rb_offset : Reader → ℕ
smon_rb_offset rb = bit_and rb.tail (page_size - 1) % u32

-- The address is the mapping's, and `tail`.
unfoldable pub smon_rb_cursor : Reader → ℕ
smon_rb_cursor rb = rb.tail

unfoldable pub smon_rb_consume : Reader → ℕ → Reader
smon_rb_consume rb size = record rb {
  tail =
      bit_and ((rb.tail + size) % u64)
        (bit_or (sub32 rb.n_pages 1 * 2 ^ page_shift % u32) (page_size - 1));
  consumed = add32 rb.consumed size;
}

unfoldable pub smon_rb_flush : Reader → ℕ × Reader
smon_rb_flush rb = (rb.consumed, record rb { consumed = 0 })

unfoldable pub smon_rb_count : Reader → ℕ → ℕ → ℕ
smon_rb_count rb begin end = bit_and ((end + u64 - begin) % u64 % u32) (sub32 rb.size 1)

unfoldable pub smon_rb_page_next : Reader → Reader
smon_rb_page_next rb =
    let tail =
      bit_and ((rb.tail + 2 ^ page_shift) % u64) (sub32 rb.n_pages 1 * 2 ^ page_shift % u32) in
    record rb { tail = tail; consumed = add32 rb.consumed (smon_rb_count rb rb.tail tail) }

-- The `unsigned int` at an address, least significant byte first.
abbrev pub load_u32 : Mapping → ℕ → ℕ
load_u32 mem x = mem x + 256 * mem (x + 1) + 65536 * mem (x + 2) + 16777216 * mem (x + 3)

abbrev pub load_bytes : Mapping → ℕ → ℕ → List ℕ
load_bytes mem x zero = []
load_bytes mem x (suc k) = mem x ∷ load_bytes mem (x + 1) k

-- What a header asks of the loop.
pub data Header : Type 0 where
  is_sample is_info : ℕ → Header
  is_pad is_eof is_unknown : Header

-- The cases of the switch, each sample with the size of its structure under the x86-64 ABI.
unfoldable pub header_case : ℕ → Header
header_case kind =
    if kind == sample_type_pmc
    then is_sample 96
    else if kind == sample_type_rapl
    then is_sample 40
    else if kind == sample_type_cpu
    then is_sample 24
    else if kind == sample_type_sched
    then is_sample 24
    else if kind == sample_type_fork
    then is_sample 16
    else if kind == sample_type_info
    then is_info 56
    else if kind == sample_type_pad
    then is_pad
    else if kind == sample_type_eof
    then is_eof
    else is_unknown

abbrev pub Line : Type 0
Line = ℕ × List ℕ

pub data Outcome : Type 0 where
  -- The lines printed, the samples counted and the reader, at the end of the loop.
  stopped : List Line → ℕ → Reader → Outcome
  -- `return -1`, on a header of no known type.
  failed : List Line → Reader → Outcome
  out_of_fuel : Outcome

module _ (mem : Mapping) where
  -- Header, print, structure.
  unfoldable pub take_sample : Reader → ℕ → List ℕ × Reader
  take_sample rb n =
      let rb' = smon_rb_consume rb header_size in
      (load_bytes mem (smon_rb_cursor rb') n, smon_rb_consume rb' n)

  -- The INFO case reads behind the header's address, and not at the cursor.
  unfoldable pub take_info : Reader → ℕ → List ℕ × Reader
  take_info rb n = (
    load_bytes mem (smon_rb_cursor rb + header_size) n,
    smon_rb_consume (smon_rb_consume rb header_size) n,
  )

  -- The loop, from `n` samples on; a negative `nr_samples` stops it like 0.
  unfoldable pub read_loop : ℕ → ℕ → Reader → ℕ → List Line → Outcome
  read_loop zero nr_samples rb n out = out_of_fuel
  read_loop (suc fuel) nr_samples rb n out =
      let kind = load_u32 mem (smon_rb_cursor rb) in
      elim (ltb n nr_samples) [
        | false ↦ stopped out n rb
        | true ↦ elim (header_case kind) [
          | is_sample size ↦
              let (line, rb') = take_sample rb size in
              read_loop fuel nr_samples rb' (n + 1) (out ++ (kind, line) ∷ [])
          | is_info size ↦
              let (line, rb') = take_info rb size in
              read_loop fuel nr_samples rb' (n + 1) (out ++ (kind, line) ∷ [])
          | is_pad ↦ read_loop fuel nr_samples (smon_rb_page_next rb) n out
          | is_eof ↦ stopped out (n + 1) rb
          | is_unknown ↦ failed out rb
        ]
      ]
