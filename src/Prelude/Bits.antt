-- ===== src/Prelude/Bits.antt =====
-- Laws of `&` and `|` at variables, from the digit recursion that the native operations stand for.
use Prim.Native.Nat.{
  ℕ, zero, suc, ◌+◌, ◌-◌, ◌*◌, ◌/◌, ◌%◌, ◌^◌, ◌≤◌, ◌<◌, min, max, bit_and, bit_or,
}
use Prim.Native.Nat.{digits, bitwise, bit_and-bitwise, bit_or-bitwise}
use native.Mathlib.Nat.{two-pow-succ, one-le-pow, div-div-eq-div-mul}
use mathlib.Core.Path.{◌≡◌, refl, ap, sym, ◌∙◌}
use native.Mathlib.Omega.{arith}

-- Any two fuels that cover the first number give the same digits.
module _ (rest : ℕ → ℕ) (op : ℕ → ℕ → ℕ) where
  digits-fuel_irrelevant :
      (k l x y : ℕ) → x ≤ k → x ≤ l → digits rest op k x y ≡ digits rest op l x y
  digits-fuel_irrelevant zero zero x y hk hl = refl
  digits-fuel_irrelevant zero (suc l) zero y hk hl = refl
  digits-fuel_irrelevant (suc k) zero zero y hk hl = refl
  digits-fuel_irrelevant (suc k) (suc l) zero y hk hl = refl
  digits-fuel_irrelevant zero (suc l) (suc x) y hk hl = absurd (omega arith)
  digits-fuel_irrelevant (suc k) zero (suc x) y hk hl = absurd (omega arith)
  digits-fuel_irrelevant (suc k) (suc l) (suc x) y hk hl =
      ap (λ (t : ℕ). t * 2 + op (suc x % 2) (y % 2))
        (digits-fuel_irrelevant k l (suc x / 2) (y / 2) (omega arith) (omega arith))

  bitwise_unroll :
      (x y : ℕ)
      → bitwise rest op (suc x) y ≡ bitwise rest op (suc x / 2) (y / 2) * 2 + op (suc x % 2) (y % 2)
  bitwise_unroll x y =
      ap (λ (t : ℕ). t * 2 + op (suc x % 2) (y % 2))
        (digits-fuel_irrelevant x (suc x / 2) (suc x / 2) (y / 2) (omega arith) (omega arith))

pub bit_and-lowest : (x y : ℕ) → bit_and x y ≡ bit_and (x / 2) (y / 2) * 2 + min (x % 2) (y % 2)
bit_and-lowest zero y = simp bit_and-bitwise (omega arith)
bit_and-lowest (suc x) y = simp bit_and-bitwise (bitwise_unroll (λ b. 0) min x y)

pub bit_or-lowest : (x y : ℕ) → bit_or x y ≡ bit_or (x / 2) (y / 2) * 2 + max (x % 2) (y % 2)
bit_or-lowest zero y = simp bit_or-bitwise (omega arith)
bit_or-lowest (suc x) y = simp bit_or-bitwise (bitwise_unroll (λ b. b) max x y)

-- Bit `i` of `x`.
abbrev pub bit_at : ℕ → ℕ → ℕ
bit_at x zero = x % 2
bit_at x (suc i) = bit_at (x / 2) i

pub bit_at-le : (x i : ℕ) → bit_at x i ≤ 1
bit_at-le x zero = omega arith
bit_at-le x (suc i) = bit_at-le (x / 2) i

pub bit_at-bit_and : (x y i : ℕ) → bit_at (bit_and x y) i ≡ min (bit_at x i) (bit_at y i)
bit_at-bit_and x y zero = omega (arith, bit_and-lowest x y)
bit_at-bit_and x y (suc i) =
    let Half : bit_and x y / 2 ≡ bit_and (x / 2) (y / 2) = omega (arith, bit_and-lowest x y) in
    rw Half (bit_at-bit_and (x / 2) (y / 2) i)

pub bit_at-bit_or : (x y i : ℕ) → bit_at (bit_or x y) i ≡ max (bit_at x i) (bit_at y i)
bit_at-bit_or x y zero = omega (arith, bit_or-lowest x y)
bit_at-bit_or x y (suc i) =
    let Half : bit_or x y / 2 ≡ bit_or (x / 2) (y / 2) = omega (arith, bit_or-lowest x y) in
    rw Half (bit_at-bit_or (x / 2) (y / 2) i)

bit_and-zero_below : (n x : ℕ) → x < n → bit_and x 0 ≡ 0
bit_and-zero_below zero x h = absurd (omega arith)
bit_and-zero_below (suc n) zero h = refl
bit_and-zero_below (suc n) (suc x) h =
    omega (arith, bit_and-lowest (suc x) 0, bit_and-zero_below n (suc x / 2) (omega arith))

pub bit_and-zero : (x : ℕ) → bit_and x 0 ≡ 0
bit_and-zero x = bit_and-zero_below (suc x) x (omega arith)

bit_or-zero_below : (n x : ℕ) → x < n → bit_or x 0 ≡ x
bit_or-zero_below zero x h = absurd (omega arith)
bit_or-zero_below (suc n) zero h = refl
bit_or-zero_below (suc n) (suc x) h =
    omega (arith, bit_or-lowest (suc x) 0, bit_or-zero_below n (suc x / 2) (omega arith))

pub bit_or-zero : (x : ℕ) → bit_or x 0 ≡ x
bit_or-zero x = bit_or-zero_below (suc x) x (omega arith)

bit_or_comm_below : (n x y : ℕ) → x < n → y < n → bit_or x y ≡ bit_or y x
bit_or_comm_below zero x y p q = absurd (omega arith)
bit_or_comm_below (suc zero) x y p q =
    let first : x ≡ 0 = omega arith in let second : y ≡ 0 = omega arith in rw (first, second) refl
bit_or_comm_below (suc (suc n)) x y p q =
    let rest : bit_or (x / 2) (y / 2) ≡ bit_or (y / 2) (x / 2) =
      bit_or_comm_below (suc n) (x / 2) (y / 2) (omega arith) (omega arith) in
    omega (arith, bit_or-lowest x y, bit_or-lowest y x)

pub bit_or_comm : (x y : ℕ) → bit_or x y ≡ bit_or y x
bit_or_comm x y = bit_or_comm_below (suc (x + y)) x y (omega arith) (omega arith)

mod-double : (x m : ℕ) → 0 < m → x % (m + m) ≡ x / 2 % m * 2 + x % 2
mod-double x m h = grind arith

pub bit_and-mask : (k x : ℕ) → bit_and x (2 ^ k - 1) ≡ x % 2 ^ k
bit_and-mask zero x = omega (arith, bit_and-zero x)
bit_and-mask (suc k) x =
    let one : 1 ≤ 2 ^ k = one-le-pow k 2 (omega arith) in
    let double : 2 ^ suc k ≡ 2 ^ k + 2 ^ k = two-pow-succ k in
    let Half : (2 ^ suc k - 1) / 2 ≡ 2 ^ k - 1 = omega arith in
    let step : bit_and (x / 2) ((2 ^ suc k - 1) / 2) ≡ x / 2 % 2 ^ k =
      rw Half (bit_and-mask k (x / 2)) in
    let modulus : x % 2 ^ suc k ≡ x % (2 ^ k + 2 ^ k) = ap (λ (m : ℕ). x % m) double in
    omega (arith, bit_and-lowest x (2 ^ suc k - 1), mod-double x (2 ^ k) one)

pub bit_or-join : (k q r : ℕ) → r < 2 ^ k → bit_or (q * 2 ^ k) r ≡ q * 2 ^ k + r
bit_or-join zero q r h =
    let none_left : r ≡ 0 = omega arith in rw none_left (omega (arith, bit_or-zero (q * 1)))
bit_or-join (suc k) q r h =
    let double : 2 ^ suc k ≡ 2 ^ k + 2 ^ k = two-pow-succ k in
    let twice : q * 2 ^ suc k ≡ q * 2 ^ k + q * 2 ^ k = rw double (omega arith) in
    let Half : q * 2 ^ suc k / 2 ≡ q * 2 ^ k = omega arith in
    let step : bit_or (q * 2 ^ suc k / 2) (r / 2) ≡ q * 2 ^ k + r / 2 =
      rw Half (bit_or-join k q (r / 2) (omega arith)) in
    omega (arith, bit_or-lowest (q * 2 ^ suc k) r)

-- Bits above `k` are joined above `k`.
pub bit_or-high :
    (k a b r : ℕ) → r < 2 ^ k → bit_or (a * 2 ^ k + r) (b * 2 ^ k) ≡ bit_or a b * 2 ^ k + r
bit_or-high zero a b r h =
    let none_left : a * 1 + r ≡ a = omega arith in
    let same : b * 1 ≡ b = omega arith in rw (none_left, same) (omega arith)
bit_or-high (suc k) a b r h =
    let double : 2 ^ suc k ≡ 2 ^ k + 2 ^ k = two-pow-succ k in
    let twice_a : a * 2 ^ suc k ≡ a * 2 ^ k + a * 2 ^ k = rw double (omega arith) in
    let twice_b : b * 2 ^ suc k ≡ b * 2 ^ k + b * 2 ^ k = rw double (omega arith) in
    let twice : bit_or a b * 2 ^ suc k ≡ bit_or a b * 2 ^ k + bit_or a b * 2 ^ k =
      rw double (omega arith) in
    let half_a : (a * 2 ^ suc k + r) / 2 ≡ a * 2 ^ k + r / 2 = omega arith in
    let half_b : b * 2 ^ suc k / 2 ≡ b * 2 ^ k = omega arith in
    let step : bit_or ((a * 2 ^ suc k + r) / 2) (b * 2 ^ suc k / 2) ≡ bit_or a b * 2 ^ k + r / 2 =
      rw (half_a, half_b) (bit_or-high k a b (r / 2) (omega arith)) in
    omega (arith, bit_or-lowest (a * 2 ^ suc k + r) (b * 2 ^ suc k))

pub bit_and-shifted : (k x q : ℕ) → bit_and x (q * 2 ^ k) ≡ bit_and (x / 2 ^ k) q * 2 ^ k
bit_and-shifted zero x q =
    let same : q * 1 ≡ q = omega arith in
    let whole : x / 1 ≡ x = omega arith in rw (same, whole) (omega arith)
bit_and-shifted (suc k) x q =
    let double : 2 ^ suc k ≡ 2 * 2 ^ k = omega (arith, two-pow-succ k) in
    let Half : q * 2 ^ suc k / 2 ≡ q * 2 ^ k = rw double (omega arith) in
    let even : q * 2 ^ suc k % 2 ≡ 0 = rw double (omega arith) in
    let deep : x / 2 / 2 ^ k ≡ x / 2 ^ suc k =
      div-div-eq-div-mul x 2 (2 ^ k) ∙ ap (λ (d : ℕ). x / d) (sym double) in
    let step : bit_and (x / 2) (q * 2 ^ suc k / 2) ≡ bit_and (x / 2 ^ suc k) q * 2 ^ k =
      rw Half (bit_and-shifted k (x / 2) q ∙ ap (λ (d : ℕ). bit_and d q * 2 ^ k) deep) in
    omega (
      arith,
      bit_and-lowest x (q * 2 ^ suc k),
      ap (λ (d : ℕ). bit_and (x / 2 ^ suc k) q * d) double,
    )

bit_at-div : (i x : ℕ) → bit_at x i ≡ x / 2 ^ i % 2
bit_at-div zero x = omega arith
bit_at-div (suc i) x =
    bit_at-div i (x / 2)
    ∙ ap (λ (y : ℕ). y % 2)
        (div-div-eq-div-mul x 2 (2 ^ i)
          ∙ ap (λ (d : ℕ). x / d)
              (let same : 2 * 2 ^ i ≡ 2 ^ suc i = omega (arith, two-pow-succ i) in same))

-- A test of one bit.
pub bit_and-bit : (i x : ℕ) → bit_and x (1 * 2 ^ i) ≡ bit_at x i * 2 ^ i
bit_and-bit i x =
    bit_and-shifted i x 1
    ∙ ap (λ (b : ℕ). b * 2 ^ i) (bit_and-mask 1 (x / 2 ^ i) ∙ sym (bit_at-div i x))
