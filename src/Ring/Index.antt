-- ===== src/Ring/Index.antt =====
-- The index macros of driver/rb.c, on `unsigned int` values.
pub mod Laws
use schedmon.Prelude.{ℕ, ◌+◌, ◌-◌, ◌*◌, ◌/◌, ◌%◌, ◌^◌, bit_and, bit_or}

abbrev pub page_shift : ℕ
page_shift = 12

abbrev pub page_size : ℕ
page_size = 4096

abbrev pub u32 : ℕ
u32 = 2 ^ 32

-- `a - b` and `a + b` wrap.
abbrev pub sub32 : ℕ → ℕ → ℕ
sub32 a b = (a + u32 - b) % u32

abbrev pub add32 : ℕ → ℕ → ℕ
add32 a b = (a + b) % u32

unfoldable pub rb_pagemask : ℕ → ℕ
rb_pagemask n_pages = sub32 n_pages 1

unfoldable pub head_page : ℕ → ℕ
head_page head = head / 2 ^ page_shift

unfoldable pub head_offset : ℕ → ℕ
head_offset head = bit_and head (page_size - 1)

unfoldable pub rb_count : ℕ → ℕ → ℕ → ℕ
rb_count head tail size = bit_and (sub32 head tail) (sub32 size 1)

unfoldable pub rb_space : ℕ → ℕ → ℕ → ℕ
rb_space head tail size = rb_count tail (add32 head 1) size

unfoldable pub rb_page_space : ℕ → ℕ
rb_page_space head = page_size - head_offset head

unfoldable pub rb_next_page : ℕ → ℕ → ℕ
rb_next_page n_pages page = bit_and (add32 page 1) (rb_pagemask n_pages)

unfoldable pub head_trim_page : ℕ → ℕ → ℕ
head_trim_page n_pages head =
    bit_and head (bit_or (rb_pagemask n_pages * 2 ^ page_shift % u32) (page_size - 1))
