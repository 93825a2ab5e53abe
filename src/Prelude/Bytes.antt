-- ===== src/Prelude/Bytes.antt =====
-- Numbers in memory, least significant byte first.
use Prim.Native.Nat.{ℕ, zero, suc, ◌+◌, ◌*◌, ◌/◌, ◌%◌, ◌^◌, ◌<◌}
use mathlib.Core.Path.{◌≡◌}
use mathlib.Core.List.{List, [], ◌∷◌}
use native.Mathlib.Omega.{arith}
use schedmon.Prelude.Lists.{take}

abbrev pub le : ℕ → ℕ → List ℕ
le zero n = []
le (suc k) n = n % 256 ∷ le k (n / 256)

abbrev pub of_le : List ℕ → ℕ
of_le [] = 0
of_le (b ∷ bs) = b + 256 * of_le bs

abbrev pub drop : ℕ → List ℕ → List ℕ
drop zero bs = bs
drop (suc i) [] = []
drop (suc i) (b ∷ bs) = drop i bs

-- The number in the `k` bytes from `offset` on.
abbrev pub load : ℕ → ℕ → List ℕ → ℕ
load k offset bs = of_le (take k (drop offset bs))

pub of_le-le_4 : (n : ℕ) → n < 2 ^ 32 → of_le (le 4 n) ≡ n
of_le-le_4 n h = omega arith

pub of_le-le_8 : (n : ℕ) → n < 2 ^ 64 → of_le (le 8 n) ≡ n
of_le-le_8 n h = omega arith
