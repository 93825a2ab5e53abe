-- ===== src/Reader/Sync/Loop.antt =====
-- The loop of read_samples on the bytes of a row.
use native.Mathlib.Nat.{one-le-pow}
use schedmon.Prelude.{
  ℕ, suc, ◌+◌, ◌*◌, ◌%◌, ◌^◌, ◌≤◌, ◌<◌, ◌≡◌, ap, ◌∙◌, arith, List, [], ◌∷◌, ◌++◌, length, lt→ltb,
  le→ltb,
}
use schedmon.Ring.Index.{page_size}
use schedmon.Ring.{Pages, header_size, header_bytes}
use schedmon.Ring.Layout.{bytes_at}
use schedmon.Reader.{
  Reader, Mapping, Line, stopped, load_u32, load_bytes, is_sample, is_info, is_pad, is_eof,
  header_case, read_loop, take_sample, take_info, smon_rb_cursor, smon_rb_consume,
  smon_rb_page_next,
}
use schedmon.Reader.Index.{IsReading, consume-IsReading}
use schedmon.Reader.Sync.Memory.{mapped, load_bytes-at, load_u32-at}

-- One round of the loop, by the case that it takes.
module _ (mem : Mapping) (fuel nr : ℕ) (u : Reader) (n : ℕ) (out : List Line) where
  pub round_done : nr ≤ n → read_loop mem (suc fuel) nr u n out ≡ stopped out n u
  unfolding read_loop
  round_done p = rw (le→ltb n nr p, read_loop)

  module _ (more : n < nr) (kind : ℕ) (at : load_u32 mem (smon_rb_cursor u) ≡ kind) where
    pub round_sample :
        (size : ℕ)
        → header_case kind ≡ is_sample size
        → read_loop mem (suc fuel) nr u n out
          ≡ read_loop mem fuel nr
              (take_sample mem u size).1
              (n + 1)
              (out ++ (kind, (take_sample mem u size).0) ∷ [])
    unfolding read_loop
    round_sample size c = rw (lt→ltb n nr more, at, c, read_loop) (rw at)

    pub round_info :
        (size : ℕ)
        → header_case kind ≡ is_info size
        → read_loop mem (suc fuel) nr u n out
          ≡ read_loop mem fuel nr
              (take_info mem u size).1
              (n + 1)
              (out ++ (kind, (take_info mem u size).0) ∷ [])
    unfolding read_loop
    round_info size c = rw (lt→ltb n nr more, at, c, read_loop) (rw at)

    pub round_pad :
        header_case kind ≡ is_pad
        → read_loop mem (suc fuel) nr u n out ≡ read_loop mem fuel nr (smon_rb_page_next u) n out
    unfolding read_loop
    round_pad c = rw (lt→ltb n nr more, at, c, read_loop)

    pub round_eof :
        header_case kind ≡ is_eof → read_loop mem (suc fuel) nr u n out ≡ stopped out (n + 1) u
    unfolding read_loop
    round_eof c = rw (lt→ltb n nr more, at, c, read_loop)

module _ (pages : Pages) (m t : ℕ) where
  abbrev pub view : Mapping
  view = mapped pages

  abbrev pub whole : ℕ
  whole = 2 ^ m * page_size

  module _ {u : Reader} {p : ℕ} (v : IsReading u m t p) where
    pub header-at :
        (kind : ℕ)
        → kind < 256
        → p % page_size + header_size ≤ page_size
        → bytes_at pages (2 ^ m) p header_size ≡ header_bytes kind
        → load_u32 view (smon_rb_cursor u) ≡ kind
    unfolding smon_rb_cursor
    header-at kind small fits e =
        ap (load_u32 view) v.cursor
        ∙ load_u32-at pages (2 ^ m) p (one-le-pow m 2 (omega arith)) kind small fits e

    module _ (sample : List ℕ) (fits : p % page_size + (header_size + length sample) ≤ page_size)
        (body : bytes_at pages (2 ^ m) (p + header_size) (length sample) ≡ sample)
        (room : p + (header_size + length sample) ≤ t + whole) where
      start : IsReading (smon_rb_consume u header_size) m t (p + header_size)
      start = consume-IsReading v header_size (omega arith) (omega arith)

      end :
          IsReading
            (smon_rb_consume (smon_rb_consume u header_size) (length sample))
            m
            t
            (p + (header_size + length sample))
      end =
          let same : p + header_size + length sample ≡ p + (header_size + length sample) =
            omega arith in
          rw same at (consume-IsReading start (length sample) (omega (arith, fits)) (omega arith))

      several : 1 ≤ 2 ^ m
      several = one-le-pow m 2 (omega arith)

      pub take_sample-line : (take_sample view u (length sample)).0 ≡ sample
      unfolding take_sample smon_rb_cursor
      take_sample-line =
          let begin : (p + header_size) % whole + 0 ≡ (p + header_size) % whole = omega arith in
          let there : p + header_size + 0 ≡ p + header_size = omega arith in
          let got =
            load_bytes-at pages (2 ^ m) (p + header_size) several (length sample) 0 (omega arith) in
          ap (λ (x : ℕ). load_bytes view x (length sample)) (start.cursor)
          ∙ (rw (begin, there) at got)
          ∙ body

      pub take_info-line : (take_info view u (length sample)).0 ≡ sample
      unfolding take_info smon_rb_cursor
      take_info-line =
          let got =
            load_bytes-at pages (2 ^ m) p several (length sample) header_size (omega arith) in
          ap (λ (x : ℕ). load_bytes view (x + header_size) (length sample)) v.cursor ∙ got ∙ body

      pub take_sample-IsReading :
          IsReading (take_sample view u (length sample)).1 m t (p + (header_size + length sample))
      unfolding take_sample
      take_sample-IsReading = end

      pub take_info-IsReading :
          IsReading (take_info view u (length sample)).1 m t (p + (header_size + length sample))
      unfolding take_info
      take_info-IsReading = end
