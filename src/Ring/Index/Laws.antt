-- ===== src/Ring/Index/Laws.antt =====
-- The index macros of driver/rb.c as remainders, for a power-of-two number of pages.
use native.Mathlib.Nat.{two-pow-succ, one-le-pow, pow-le-pow_right, add-mul-mod_self_left}
use native.Mathlib.Nat.{mod-eq_of_lt, mod-eq-sub-mod, mod-add-mod, mod-lt, add-mod_right, mod_self}
use schedmon.Prelude.{
  ℕ, zero, suc, ◌+◌, ◌-◌, ◌*◌, ◌/◌, ◌%◌, ◌^◌, ◌≤◌, ◌<◌, ◌≡◌, refl, ap, sym, ◌∙◌, arith,
  bit_and-mask, bit_or-join, dec_lt,
}
use schedmon.Ring.Index.{
  u32, page_size, sub32, add32, rb_pagemask, head_page, head_offset, rb_count, rb_space,
  rb_next_page, head_trim_page,
}

-- 2 ^ (k + j) is a multiple of 2 ^ k.
pub pow-split : (k j : ℕ) → 2 ^ k * 2 ^ j ≡ 2 ^ (k + j)
pow-split zero j = let sum : 0 + j ≡ j = omega arith in rw sum (omega arith)
pow-split (suc k) j =
    let sum : suc k + j ≡ suc (k + j) = omega arith in
    rw sum (
      omega
        (arith, pow-split k j, two-pow-succ (k + j), ap (λ (m : ℕ). m * 2 ^ j) (two-pow-succ k)))

sub-mod : (s c a b : ℕ) → s * c ≡ u32 → a < s → b ≤ s → sub32 a b % s ≡ (a + s - b) % s
sub-mod s zero a b e ha hb = absurd (omega arith)
sub-mod s (suc c) a b e ha hb = elim (dec_lt a b) [
  | yes less ↦
      let small : sub32 a b ≡ a + u32 - b = omega arith in
      let split : a + u32 - b ≡ a + s - b + s * c = omega arith in
      rw (small, split) (add-mul-mod_self_left (a + s - b) s c)
  | no more ↦
      let small : sub32 a b ≡ a - b = omega arith in
      let split : a + s - b ≡ a - b + s = omega arith in
      rw (small, split) (sym (add-mod_right (a - b) s))
]

-- Between two positions less than `s` apart.
distance-mod : (s t h : ℕ) → t ≤ h → h < t + s → (h % s + s - t % s) % s ≡ h - t
distance-mod s t h p q =
    let t_in : t % s < s = mod-lt t (omega arith) in
    let split : t + (h - t) ≡ h = omega arith in
    let shifted : h % s ≡ (t % s + (h - t)) % s = rw (mod-add-mod t s (h - t), split) refl in
    elim (dec_lt (t % s + (h - t)) s) [
      | yes short ↦
          let here : h % s ≡ t % s + (h - t) = shifted ∙ mod-eq_of_lt short in
          let sum : h % s + s - t % s ≡ h - t + s = omega arith in
          rw (sum, add-mod_right (h - t) s) (mod-eq_of_lt (omega arith))
      | no long ↦
          let wrapped : (t % s + (h - t)) % s ≡ t % s + (h - t) - s =
            mod-eq-sub-mod {n = t % s + (h - t)} {m = s} (omega arith)
            ∙ mod-eq_of_lt (omega arith) in
          let sum : h % s + s - t % s ≡ h - t = omega arith in rw sum (mod-eq_of_lt (omega arith))
    ]

pub head_page_lem : (x : ℕ) → head_page x ≡ x / page_size
unfolding head_page
head_page_lem x = refl

pub head_offset_lem : (x : ℕ) → head_offset x ≡ x % page_size
unfolding head_offset
head_offset_lem x = bit_and-mask 12 x

-- For a buffer of 2 ^ k bytes, with the writer at `h` and the reader at `t` of an unbounded count.
module _ (k : ℕ) (small : k < 32) where
  size_bounds : (1 ≤ 2 ^ k) × (2 ^ k < u32)
  size_bounds =
      let top : 2 ^ k ≤ 2 ^ 31 = pow-le-pow_right {n = 2} (omega arith) {j = 31} (omega arith) in
      (one-le-pow k 2 (omega arith), omega arith)

  whole : 2 ^ k * 2 ^ (32 - k) ≡ u32
  whole = let sum : k + (32 - k) ≡ 32 = omega arith in rw (pow-split k (32 - k), sum) refl

  pub rb_count-mod :
      (a b : ℕ) → a < 2 ^ k → b ≤ 2 ^ k → rb_count a b (2 ^ k) ≡ (a + 2 ^ k - b) % 2 ^ k
  unfolding rb_count
  rb_count-mod a b ha hb =
      let mask : sub32 (2 ^ k) 1 ≡ 2 ^ k - 1 = omega (arith, size_bounds) in
      rw (mask, bit_and-mask k (sub32 a b)) (sub-mod (2 ^ k) (2 ^ (32 - k)) a b whole ha hb)

  pub rb_count_lem :
      (t h : ℕ) → t ≤ h → h < t + 2 ^ k → rb_count (h % 2 ^ k) (t % 2 ^ k) (2 ^ k) ≡ h - t
  rb_count_lem t h p q =
      rb_count-mod (h % 2 ^ k) (t % 2 ^ k) (mod-lt h size_bounds.0)
        (omega (arith, mod-lt t size_bounds.0))
      ∙ distance-mod (2 ^ k) t h p q

  space-mod :
      (t h : ℕ)
      → t ≤ h
      → h < t + 2 ^ k
      → (t % 2 ^ k + 2 ^ k - (h % 2 ^ k + 1)) % 2 ^ k ≡ 2 ^ k - 1 - (h - t)
  space-mod t h p q =
      let far = distance-mod (2 ^ k) (h + 1) (t + 2 ^ k) (omega arith) (omega arith) in
      let back : (t + 2 ^ k) % 2 ^ k ≡ t % 2 ^ k = add-mod_right t (2 ^ k) in
      let next : (h + 1) % 2 ^ k ≡ (h % 2 ^ k + 1) % 2 ^ k = sym (mod-add-mod h (2 ^ k) 1) in
      let room : h % 2 ^ k < 2 ^ k = mod-lt h size_bounds.0 in
      elim (dec_lt (h % 2 ^ k + 1) (2 ^ k)) [
        | yes inside ↦
            let same : (h + 1) % 2 ^ k ≡ h % 2 ^ k + 1 = next ∙ mod-eq_of_lt inside in
            let moved : (t + 2 ^ k) % 2 ^ k + 2 ^ k - (h + 1) % 2 ^ k
                ≡ t % 2 ^ k + 2 ^ k - (h % 2 ^ k + 1) =
              omega arith in
            rw (← moved, far) (omega arith)
        | no edge ↦
            let full : h % 2 ^ k + 1 ≡ 2 ^ k = omega arith in
            let zero_next : (h + 1) % 2 ^ k ≡ 0 = next ∙ rw full (mod_self (2 ^ k)) in
            let moved : (t + 2 ^ k) % 2 ^ k + 2 ^ k - (h + 1) % 2 ^ k
                ≡ t % 2 ^ k + 2 ^ k - (h % 2 ^ k + 1) + 2 ^ k =
              omega arith in
            let turn = add-mod_right (t % 2 ^ k + 2 ^ k - (h % 2 ^ k + 1)) (2 ^ k) in
            rw (← turn, ← moved, far) (omega arith)
      ]

  pub rb_space_lem :
      (t h : ℕ)
      → t ≤ h
      → h < t + 2 ^ k
      → rb_space (h % 2 ^ k) (t % 2 ^ k) (2 ^ k) ≡ 2 ^ k - 1 - (h - t)
  unfolding rb_space
  rb_space_lem t h p q =
      let room : h % 2 ^ k < 2 ^ k = mod-lt h size_bounds.0 in
      let exact : add32 (h % 2 ^ k) 1 ≡ h % 2 ^ k + 1 = omega (arith, size_bounds) in
      rw exact (
        rb_count-mod (t % 2 ^ k) (h % 2 ^ k + 1) (mod-lt t size_bounds.0) (omega arith)
        ∙ space-mod t h p q)

-- For 2 ^ m pages.
module _ (m : ℕ) (small : m + 12 < 32) where
  pages_bounds : (1 ≤ 2 ^ m) × (2 ^ m * 4096 < u32) × (2 ^ m * 4096 ≡ 2 ^ (m + 12))
  pages_bounds = (
    one-le-pow m 2 (omega arith),
    omega (arith, (size_bounds (m + 12) small).1, pow-split m 12),
    pow-split m 12,
  )

  pub rb_pagemask_lem : rb_pagemask (2 ^ m) ≡ 2 ^ m - 1
  unfolding rb_pagemask
  rb_pagemask_lem = omega (arith, pages_bounds)

  pub rb_next_page_lem : (page : ℕ) → page < 2 ^ m → rb_next_page (2 ^ m) page ≡ (page + 1) % 2 ^ m
  unfolding rb_next_page
  rb_next_page_lem page h =
      let exact : add32 page 1 ≡ page + 1 = omega (arith, pages_bounds) in
      rw (exact, rb_pagemask_lem) (bit_and-mask m (page + 1))

  pub head_trim_page_lem : (x : ℕ) → head_trim_page (2 ^ m) x ≡ x % (2 ^ m * 4096)
  unfolding head_trim_page
  head_trim_page_lem x =
      let exact : (2 ^ m - 1) * 4096 % u32 ≡ (2 ^ m - 1) * 4096 = omega (arith, pages_bounds) in
      let mask : (2 ^ m - 1) * 4096 + 4095 ≡ 2 ^ (m + 12) - 1 = omega (arith, pages_bounds) in
      rw (rb_pagemask_lem, exact, bit_or-join 12 (2 ^ m - 1) 4095 (omega arith), mask)
        (rw pages_bounds.2 (bit_and-mask (m + 12) x))
