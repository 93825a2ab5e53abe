-- ===== src/Profiling/Start/Affinity.antt =====
-- The processors to which smon_set_affinity binds.
use native.Mathlib.Nat.{one-le-pow}
use schedmon.Prelude.{
  ℕ, zero, suc, ◌+◌, ◌*◌, ◌^◌, ◌≤◌, ◌≡◌, ap, sym, ◌∙◌, arith, Bool, false, ◌&&◌, ◌||◌, List, [],
  ◌∷◌, leb, ltb, ◌==◌, if◌then◌else◌, bit_and, bit_at, bit_at-le, bit_and-bit, Bool-cases, inl, inr,
  ℤ, pos,
}
use schedmon.Driver.{is_zero}
use schedmon.Profiling.Start.{cpu_set, smon_set_affinity}

abbrev pub contains : ℕ → List ℕ → Bool
contains j [] = false
contains j (i ∷ set) = (i == j) || contains j set

bit-test : (i x : ℕ) → (bit_and x (2 ^ i) == 0) ≡ (bit_at x i == 0)
bit-test i x =
    let one : 1 * 2 ^ i ≡ 2 ^ i = omega arith in
    let bit : bit_and x (2 ^ i) ≡ bit_at x i * 2 ^ i = ap (bit_and x) (sym one) ∙ bit_and-bit i x in
    elim (Bool-cases (bit_at x i == 0)) [
      | inl off ↦
          let zero_bit : bit_at x i ≡ 0 = ground arith in
          let none_set : bit_and x (2 ^ i) ≡ 0 =
            bit ∙ ap (λ (b : ℕ). b * 2 ^ i) zero_bit ∙ omega arith in
          ground arith
      | inr on ↦
          let low = bit_at-le x i in
          let one_bit : bit_at x i ≡ 1 = ground arith in
          let set : bit_and x (2 ^ i) ≡ 1 * 2 ^ i = bit ∙ ap (λ (b : ℕ). b * 2 ^ i) one_bit in
          let some_power : 1 ≤ 2 ^ i = one-le-pow i 2 (omega arith) in ground arith
    ]

contains-cpu_set :
    (cpumask j i n : ℕ)
    → contains j (cpu_set cpumask i n) ≡ (leb i j && (ltb j (i + n) && (bit_at cpumask j == 1)))
unfolding cpu_set
contains-cpu_set cpumask j i zero = ground arith
contains-cpu_set cpumask j i (suc n) =
    let rest = contains-cpu_set cpumask j (suc i) n in
    let test = bit-test i cpumask in
    let low = bit_at-le cpumask i in
    elim (Bool-cases (i == j)) [
      | inl same ↦
          let equal : i ≡ j = ground arith in
          let low_j = bit_at-le cpumask j in
          let test_j : (bit_and cpumask (2 ^ i) == 0) ≡ (bit_at cpumask j == 0) =
            test ∙ ap (λ k. bit_at cpumask k == 0) equal in
          ground (arith, rest, test_j)
      | inr other ↦ ground (arith, rest, test)
    ]

-- A mask of 0 binds to no set of processors, and succeeds. For any other mask the result is that
-- of sched_setaffinity, as 0 or 1, for a set that has exactly the processors below 32 whose bits
-- the mask has.
pub smon_set_affinity-bits :
    (sched_setaffinity : List ℕ → ℤ) (cpumask j : ℕ)
    → (smon_set_affinity sched_setaffinity cpumask ≡ (
        if cpumask == 0 || is_zero (sched_setaffinity (cpu_set cpumask 0 32))
        then pos 0
        else pos 1))
      × (contains j (cpu_set cpumask 0 32) ≡ (ltb j 32 && (bit_at cpumask j == 1)))
unfolding smon_set_affinity
smon_set_affinity-bits sched_setaffinity cpumask j =
    (ground arith, ground (arith, contains-cpu_set cpumask j 0 32))
