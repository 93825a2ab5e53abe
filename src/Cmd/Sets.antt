-- ===== src/Cmd/Sets.antt =====
-- `smon evset -a`: which counters an event-set turns on.
use schedmon.Prelude.{
  ℕ, zero, suc, ◌+◌, ◌-◌, ◌/◌, ◌^◌, ◌≤◌, ◌≡◌, refl, ap, subst, ◌∙◌, arith, max, true, some, List,
  [], ◌∷◌, bit_and, bit_or, bit_at, bit_at-bit_or, bit_at-le, bit_and-mask, bit_and-shifted, ◌==◌,
  if◌then◌else◌, ◌&&◌, not, Option-cases, inl, inr, ℤ, negsuc, is_neg, length, replicate,
  length-append,
}
use schedmon.EvSet.{EvSet, max_gp_ctrs}
use schedmon.Cmd.{
  EvsetOpt, evset_add_tag, evset_add_events, evset_add_fixed, evset_bad, EvsetScan, enable_ids,
  check_ids, padded, set_ids, enable_fixed, set_fixed, scan_evset, no_evset, add_evset,
}

-- A fixed counter is enabled exactly if it is configured: bit `32 + k` of the global control, and
-- the two low bits of field `k` of the fixed control.
abbrev pub FixedAgree : EvSet → Type 0
FixedAgree s =
    (bit_at s.global_ctrl 32 ≡ max (bit_at s.fixed_ctrl 0) (bit_at s.fixed_ctrl 1))
    × (bit_at s.global_ctrl 33 ≡ max (bit_at s.fixed_ctrl 4) (bit_at s.fixed_ctrl 5))
    × (bit_at s.global_ctrl 34 ≡ max (bit_at s.fixed_ctrl 8) (bit_at s.fixed_ctrl 9))

module _ (tmp global : ℕ) where
  fixed_0 :
      bit_at (enable_fixed tmp 3 32 global) 32
      ≡ max (bit_at global 32) (max (bit_at tmp 0) (bit_at tmp 1))
  unfolding enable_fixed
  fixed_0 =
      ground (arith, bit_and-mask 2 tmp, bit_at-bit_or global (2 ^ 32) 32, bit_at-le global 32)

  fixed_1 :
      bit_at (enable_fixed tmp 48 33 global) 33
      ≡ max (bit_at global 33) (max (bit_at tmp 4) (bit_at tmp 5))
  unfolding enable_fixed
  fixed_1 = ground (
    arith,
    bit_and-shifted 4 tmp 3,
    bit_and-mask 2 (tmp / 16),
    bit_at-bit_or global (2 ^ 33) 33,
    bit_at-le global 33,
  )

  pub fixed_other :
      (mask i j : ℕ)
      → bit_at (2 ^ i) j ≡ 0
      → bit_at (enable_fixed tmp mask i global) j ≡ bit_at global j
  unfolding enable_fixed
  fixed_other mask i j d = ground (arith, bit_at-bit_or global (2 ^ i) j)

  fixed_2 :
      bit_at (enable_fixed tmp 768 34 global) 34
      ≡ max (bit_at global 34) (max (bit_at tmp 8) (bit_at tmp 9))
  unfolding enable_fixed
  fixed_2 = ground (
    arith,
    bit_and-shifted 8 tmp 3,
    bit_and-mask 2 (tmp / 256),
    bit_at-bit_or global (2 ^ 34) 34,
    bit_at-le global 34,
  )

join_max :
    (f t i j : ℕ) {g after : ℕ}
    → g ≡ max (bit_at f i) (bit_at f j)
    → after ≡ max g (max (bit_at t i) (bit_at t j))
    → after ≡ max (bit_at (bit_or f t) i) (bit_at (bit_or f t) j)
join_max f t i j a b = omega (arith, bit_at-bit_or f t i, bit_at-bit_or f t j)

set_fixed-agree : (val : ℕ) (s : EvSet) → FixedAgree s → FixedAgree (set_fixed val s)
unfolding set_fixed
set_fixed-agree val s (a, b, c) =
    let tmp : ℕ = bit_and val 819 in
    let g0 : ℕ = enable_fixed tmp 3 32 s.global_ctrl in
    let g1 : ℕ = enable_fixed tmp 48 33 g0 in
    (
      join_max s.fixed_ctrl tmp 0 1 a (
          fixed_other tmp g1 768 34 32 refl
          ∙ (fixed_other tmp g0 48 33 32 refl ∙ fixed_0 tmp s.global_ctrl)),
      join_max s.fixed_ctrl tmp 4 5 b (
          fixed_other tmp g1 768 34 33 refl
          ∙ (fixed_1 tmp g0
              ∙ ap (λ x. max x (max (bit_at tmp 4) (bit_at tmp 5)))
                  (fixed_other tmp s.global_ctrl 3 32 33 refl))),
      join_max s.fixed_ctrl tmp 8 9 c (
          fixed_2 tmp g1
          ∙ ap (λ x. max x (max (bit_at tmp 8) (bit_at tmp 9)))
              (fixed_other tmp g0 48 33 34 refl ∙ fixed_other tmp s.global_ctrl 3 32 34 refl)),
    )

pub bit_at-zero : (j : ℕ) → bit_at 0 j ≡ 0
bit_at-zero zero = refl
bit_at-zero (suc j) = bit_at-zero j

pub bit_at-pow : (i j : ℕ) → bit_at (2 ^ i) j ≡ (if i == j then 1 else 0)
bit_at-pow zero zero = refl
bit_at-pow zero (suc j) = bit_at-zero j ∙ ground arith
bit_at-pow (suc i) zero = ground arith
bit_at-pow (suc i) (suc j) =
    let Half : 2 ^ suc i / 2 ≡ 2 ^ i = omega arith in rw Half (bit_at-pow i j ∙ ground arith)

-- Whether the ids from place `i` on give counter `j` an event.
abbrev pub uses : ℕ → List ℤ → ℕ → ℕ
uses i [] j = 0
uses i (e ∷ es) j = if i == j && not (is_neg e) then 1 else uses (suc i) es j

pub uses-le : (i : ℕ) (ids : List ℤ) (j : ℕ) → uses i ids j ≤ 1
uses-le i [] j = omega arith
uses-le i (e ∷ es) j = ground (arith, uses-le (suc i) es j)

pub enable_ids-uses :
    (i : ℕ) (ids : List ℤ) (global j : ℕ)
    → bit_at (enable_ids i ids global) j ≡ max (bit_at global j) (uses i ids j)
unfolding enable_ids
enable_ids-uses i [] global j = omega arith
enable_ids-uses i (e ∷ es) global j = ground (
  arith,
  enable_ids-uses (suc i) es global j,
  enable_ids-uses (suc i) es (bit_or global (2 ^ i)) j,
  bit_at-bit_or global (2 ^ i) j,
  bit_at-pow i j,
  bit_at-le global j,
  uses-le (suc i) es j,
)

uses-beyond : (i : ℕ) (ids : List ℤ) (j : ℕ) → i + length ids ≤ j → uses i ids j ≡ 0
uses-beyond i [] j h = refl
uses-beyond i (e ∷ es) j h = ground (arith, uses-beyond (suc i) es j (omega arith))

check_ids-length :
    (n : ℕ) (ids : List ℤ) → check_ids n ids ≡ true → n ≤ max_gp_ctrs → n + length ids ≤ max_gp_ctrs
unfolding check_ids
check_ids-length n [] c h = omega arith
check_ids-length n (e ∷ es) c h = ground (arith, check_ids-length (suc n) es)

pub length-replicate : (n : ℕ) (x : ℤ) → length (replicate n x) ≡ n
length-replicate zero x = refl
length-replicate (suc n) x = ap suc (length-replicate n x)

length-padded : (ids : List ℤ) → length ids ≤ max_gp_ctrs → length (padded ids) ≡ max_gp_ctrs
unfolding padded
length-padded ids h = omega (
  arith,
  length-append ids (replicate (max_gp_ctrs - length ids) (negsuc 0)),
  length-replicate (max_gp_ctrs - length ids) (negsuc 0),
)

set_ids-high :
    (ids : List ℤ) (s : EvsetScan) (j : ℕ)
    → check_ids 0 ids ≡ true
    → max_gp_ctrs ≤ j
    → bit_at (set_ids ids s).evset.global_ctrl j ≡ bit_at s.evset.global_ctrl j
unfolding set_ids
set_ids-high ids s j c h =
    let four : length (padded ids) ≡ max_gp_ctrs =
      length-padded ids (omega (arith, check_ids-length 0 ids c (omega arith))) in
    omega (
      arith,
      enable_ids-uses 0 (padded ids) s.evset.global_ctrl j,
      uses-beyond 0 (padded ids) j (omega arith),
    )

set_ids-agree :
    (ids : List ℤ) (s : EvsetScan)
    → check_ids 0 ids ≡ true
    → FixedAgree s.evset
    → FixedAgree (set_ids ids s).evset
unfolding set_ids
set_ids-agree ids s h (a, b, c) = (
  set_ids-high ids s 32 h (omega arith) ∙ a,
  set_ids-high ids s 33 h (omega arith) ∙ b,
  set_ids-high ids s 34 h (omega arith) ∙ c,
)

scan_evset-agree :
    (opts : List EvsetOpt) (s : EvsetScan) {r : EvsetScan}
    → scan_evset s opts ≡ some r
    → FixedAgree s.evset
    → FixedAgree r.evset
unfolding scan_evset
scan_evset-agree [] s {r} e a =
    let same : s.evset ≡ r.evset = ground arith in subst FixedAgree same a
scan_evset-agree (evset_add_tag val ∷ opts) s e a = scan_evset-agree opts _ e a
scan_evset-agree (evset_add_events [] ∷ opts) s e a = absurd (ground arith)
scan_evset-agree (evset_add_events (i ∷ is) ∷ opts) s {r} e a =
    let c : check_ids 0 (i ∷ is) ≡ true = ground arith in
    scan_evset-agree opts (set_ids (i ∷ is) s) {r = r} (ground arith) (set_ids-agree (i ∷ is) s c a)
scan_evset-agree (evset_add_fixed val ∷ opts) s e a =
    scan_evset-agree opts _ e (set_fixed-agree val s.evset a)
scan_evset-agree (evset_bad ∷ opts) s e a = absurd (ground arith)

-- An event-set that the command accepts enables a fixed counter exactly if it configures it.
pub add_evset-agree : (opts : List EvsetOpt) {s : EvSet} → add_evset opts ≡ some s → FixedAgree s
unfolding add_evset
add_evset-agree opts {s} h = elim (Option-cases (scan_evset no_evset opts)) [
  | inl n ↦ absurd (ground arith)
  | inr (r, q) ↦
      let same : r.evset ≡ s = ground arith in
      subst FixedAgree same (scan_evset-agree opts no_evset q (refl, refl, refl))
]
