-- ===== src/Envir/Cycle.antt =====
-- The life of an environment.
use schedmon.Prelude.{ℕ, zero, suc, ◌-◌, ◌<◌, ◌≡◌, refl, ap, sym, ◌∙◌, arith, Option, none, some}
use schedmon.Ring.Index.{u32, sub32}
use schedmon.Envir.{Envir, smon_release_envir}

-- `k` releases; `none` once the environment is freed.
unfoldable pub releases : ℕ → Envir → Option Envir
releases zero envir = some envir
releases (suc k) envir = elim (smon_release_envir envir) [
  | none ↦ none
  | some left ↦ releases k left
]

release_one :
    (envir : Envir)
    → envir.count < u32
    → 1 < envir.count
    → smon_release_envir envir ≡ some (record envir { count = envir.count - 1 })
unfolding smon_release_envir
release_one envir p q =
    let exact : sub32 envir.count 1 ≡ envir.count - 1 = omega arith in ground arith

release_last : (envir : Envir) → envir.count ≡ 1 → smon_release_envir envir ≡ none
unfolding smon_release_envir
release_last envir p = let exact : sub32 envir.count 1 ≡ 0 = omega arith in ground arith

releases_before :
    (k : ℕ) (envir : Envir)
    → envir.count < u32
    → k < envir.count
    → releases k envir ≡ some (record envir { count = envir.count - k })
unfolding releases
releases_before zero envir p q =
    let same : envir.count - 0 ≡ envir.count = omega arith in
    ap (λ c. some (record envir { count = c })) (sym same)
releases_before (suc k) envir p q =
    let fewer : envir.count - 1 < u32 = omega arith in
    let users : k < envir.count - 1 = omega arith in
    let several : 1 < envir.count = omega arith in
    let same : envir.count - 1 - k ≡ envir.count - suc k = omega arith in
    rw (release_one envir p several, releases)
      (releases_before k (record envir { count = envir.count - 1 }) fewer users
        ∙ ap (λ c. some (record envir { count = c })) same)

releases_all :
    (k : ℕ) (envir : Envir) → envir.count ≡ suc k → suc k < u32 → releases (suc k) envir ≡ none
unfolding releases
releases_all zero envir e p = rw (release_last envir e, releases) refl
releases_all (suc k) envir e p =
    let bound : envir.count < u32 = omega arith in
    let several : 1 < envir.count = omega arith in
    let left : envir.count - 1 ≡ suc k = omega arith in
    let fewer : suc k < u32 = omega arith in
    rw (release_one envir bound several, releases)
      (releases_all k (record envir { count = envir.count - 1 }) left fewer)

-- An environment with `c` users, `c` positive and below 2^32, stays, with its users counted, through
-- any `k < c` releases, and the `c`-th release frees it.
pub releases-count :
    (k c : ℕ) (envir : Envir)
    → envir.count ≡ suc c
    → suc c < u32
    → k < suc c
    → (releases k envir ≡ some (record envir { count = suc c - k }))
      × (releases (suc c) envir ≡ none)
releases-count k c envir e p q =
    let bound : envir.count < u32 = omega arith in
    let users : k < envir.count = omega arith in
    let same : envir.count - k ≡ suc c - k = omega arith in
    (
      releases_before k envir bound users ∙ ap (λ c. some (record envir { count = c })) same,
      releases_all c envir e p,
    )
