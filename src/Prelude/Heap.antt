-- ===== src/Prelude/Heap.antt =====
-- Calls that can fault, and a heap: the object at address `i` is place `i`; `none` is freed memory.
use Prim.Native.Nat.{ℕ, zero, suc, ◌+◌, ◌<◌, ◌≤◌}
use mathlib.Core.Path.{◌≡◌, refl, sym, subst}
use mathlib.Core.List.{List, [], ◌∷◌, ◌++◌}
use mathlib.Core.Bool.{Bool, true, false}
use mathlib.Core.Option.{Option, none, some, some-injective}
use native.Mathlib.Omega.{arith}
use schedmon.Prelude.Tests.{◌==◌, if◌then◌else◌}
use schedmon.Prelude.Lists.{length}

-- `none` is a fault.
infixl 5 ◌>>=◌
abbrev pub ◌>>=◌ : {A B : Type 0} → Option A → (A → Option B) → Option B
none >>= f = none
some a >>= f = f a

pub >>=-some :
    {A B : Type 0} (m : Option A) (f : A → Option B) {b : B}
    → (m >>= f) ≡ some b
    → (a : A) × (m ≡ some a) × (f a ≡ some b)
>>=-some none f h = absurd (cc)
>>=-some (some a) f h = (a, refl, h)

-- Whatever the call returns has the property; a call that faults returns nothing.
pub record Ends {A : Type 0} (P : A → Type 0) (m : Option A) : Type 0 where
  pub holds : (a : A) → m ≡ some a → P a

module _ {A : Type 0} {P : A → Type 0} where
  pub Ends-some : {a : A} → P a → Ends P (some a)
  Ends-some {a} p = record { holds = λ b e. subst P (some-injective a b e) p }

  pub Ends-bind :
      {B : Type 0} (m : Option B) (f : B → Option A)
      → ((b : B) → m ≡ some b → Ends P (f b))
      → Ends P (m >>= f)
  Ends-bind none f h = record { holds = λ a e. absurd (cc) }
  Ends-bind (some b) f h = h b refl

  -- A call whose result is known.
  pub Ends-known :
      {B : Type 0} (m : Option B) (f : B → Option A) {b : B}
      → m ≡ some b
      → Ends P (f b)
      → Ends P (m >>= f)
  Ends-known none f e h = absurd (cc)
  Ends-known (some c) f {b = b} e h = subst (λ x. Ends P (f x)) (sym (some-injective c b e)) h

  pub Ends-if : (b : Bool) {m n : Option A} → Ends P m → Ends P n → Ends P (if b then m else n)
  Ends-if true h k = h
  Ends-if false h k = k

  pub Ends-elim :
      {B : Type 0} (o : Option B) (m : Option A) (f : B → Option A)
      → Ends P m
      → ((b : B) → o ≡ some b → Ends P (f b))
      → Ends P (elim o [ none ↦ m | some b ↦ f b ])
  Ends-elim none m f h k = h
  Ends-elim (some b) m f h k = k b refl

-- The call does not fault, and what it returns has the property.
pub record Returns {A : Type 0} (P : A → Type 0) (m : Option A) : Type 0 where
  pub result : A
  pub runs : m ≡ some result
  pub holds : P result

module _ {A : Type 0} {P : A → Type 0} where
  pub Returns-some : {a : A} → P a → Returns P (some a)
  Returns-some {a} p = record { result = a; runs = refl; holds = p }

  pub Returns-imp :
      {Q : A → Type 0} {m : Option A} → Returns Q m → ((a : A) → Q a → P a) → Returns P m
  Returns-imp r h = record { result = r.result; runs = r.runs; holds = h r.result r.holds }

  pub Returns-known :
      {B : Type 0} (m : Option B) (f : B → Option A) {b : B}
      → m ≡ some b
      → Returns P (f b)
      → Returns P (m >>= f)
  Returns-known m f e h = subst (λ o. Returns P (o >>= f)) (sym e) h

  pub Returns-then :
      {B : Type 0} {Q : B → Type 0} (m : Option B) (f : B → Option A)
      → Returns Q m
      → ((b : B) → Q b → Returns P (f b))
      → Returns P (m >>= f)
  Returns-then m f h k = Returns-known m f h.runs (k h.result h.holds)

  pub Returns-if :
      (b : Bool) {m n : Option A} → Returns P m → Returns P n → Returns P (if b then m else n)
  Returns-if true h k = h
  Returns-if false h k = k

  pub Returns-split :
      (b : Bool) {m n : Option A}
      → (b ≡ true → Returns P m)
      → Returns P n
      → Returns P (if b then m else n)
  Returns-split true h k = h refl
  Returns-split false h k = k

  pub Returns-elim :
      {B : Type 0} (o : Option B) (m : Option A) (f : B → Option A)
      → Returns P m
      → ((b : B) → o ≡ some b → Returns P (f b))
      → Returns P (elim o [ none ↦ m | some b ↦ f b ])
  Returns-elim none m f h k = h
  Returns-elim (some b) m f h k = k b refl

module _ {A : Type 0} where
  abbrev pub deref : List (Option A) → ℕ → Option A
  deref [] i = none
  deref (x ∷ xs) zero = x
  deref (x ∷ xs) (suc i) = deref xs i

  abbrev pub store : List (Option A) → ℕ → Option A → List (Option A)
  store [] i v = []
  store (x ∷ xs) zero v = v ∷ xs
  store (x ∷ xs) (suc i) v = x ∷ store xs i v

  -- The sum of `f` over what is allocated.
  abbrev pub tally : (A → ℕ) → List (Option A) → ℕ
  tally f [] = 0
  tally f (none ∷ xs) = tally f xs
  tally f (some a ∷ xs) = f a + tally f xs

  abbrev pub weight : (A → ℕ) → Option A → ℕ
  weight f none = 0
  weight f (some a) = f a

  pub deref-store :
      (xs : List (Option A)) (i j : ℕ) (v : Option A) {a : A}
      → deref xs i ≡ some a
      → deref (store xs i v) j ≡ (if i == j then v else deref xs j)
  deref-store [] i j v h = absurd (cc)
  deref-store (x ∷ xs) zero zero v h = ground arith
  deref-store (x ∷ xs) zero (suc j) v h = ground arith
  deref-store (x ∷ xs) (suc i) zero v h = ground arith
  deref-store (x ∷ xs) (suc i) (suc j) v h = ground (arith, deref-store xs i j v h)

  pub length-store :
      (xs : List (Option A)) (i : ℕ) (v : Option A) → length (store xs i v) ≡ length xs
  length-store [] i v = refl
  length-store (x ∷ xs) zero v = refl
  length-store (x ∷ xs) (suc i) v = omega (arith, length-store xs i v)

  pub tally-store :
      (f : A → ℕ) (xs : List (Option A)) (i : ℕ) (v : Option A) {a : A}
      → deref xs i ≡ some a
      → tally f (store xs i v) + f a ≡ tally f xs + weight f v
  tally-store f [] i v h = absurd (cc)
  tally-store f (none ∷ xs) zero v h = absurd (cc)
  tally-store f (some x ∷ xs) zero none h = ground arith
  tally-store f (some x ∷ xs) zero (some y) h = ground arith
  tally-store f (none ∷ xs) (suc i) v h = tally-store f xs i v h
  tally-store f (some x ∷ xs) (suc i) v h = omega (arith, tally-store f xs i v h)

  pub tally-alloc :
      (f : A → ℕ) (xs : List (Option A)) (v : Option A)
      → tally f (xs ++ v ∷ []) ≡ tally f xs + weight f v
  tally-alloc f [] none = omega arith
  tally-alloc f [] (some y) = omega arith
  tally-alloc f (none ∷ xs) v = tally-alloc f xs v
  tally-alloc f (some x ∷ xs) v = omega (arith, tally-alloc f xs v)

  pub deref-alloc :
      (xs : List (Option A)) (v : Option A) (j : ℕ)
      → deref (xs ++ v ∷ []) j ≡ (if length xs == j then v else deref xs j)
  deref-alloc [] v zero = ground arith
  deref-alloc [] v (suc j) = ground arith
  deref-alloc (x ∷ xs) v zero = ground arith
  deref-alloc (x ∷ xs) v (suc j) = ground (arith, deref-alloc xs v j)

  pub deref_bounds : (xs : List (Option A)) (i : ℕ) {a : A} → deref xs i ≡ some a → i < length xs
  deref_bounds [] i h = absurd (cc)
  deref_bounds (x ∷ xs) zero h = omega arith
  deref_bounds (x ∷ xs) (suc i) h = omega (arith, deref_bounds xs i h)

  pub deref-length : (xs : List (Option A)) → deref xs (length xs) ≡ none
  deref-length [] = refl
  deref-length (x ∷ xs) = deref-length xs

  pub tally_bounds :
      (f : A → ℕ) (xs : List (Option A)) → ((a : A) → f a ≤ 1) → tally f xs ≤ length xs
  tally_bounds f [] h = omega arith
  tally_bounds f (none ∷ xs) h = omega (arith, tally_bounds f xs h)
  tally_bounds f (some a ∷ xs) h = omega (arith, tally_bounds f xs h, h a)

  pub tally-deref :
      (f : A → ℕ) (xs : List (Option A)) (i : ℕ) {a : A} → deref xs i ≡ some a → f a ≤ tally f xs
  tally-deref f [] i h = absurd (cc)
  tally-deref f (none ∷ xs) zero h = absurd (cc)
  tally-deref f (some x ∷ xs) zero h = ground arith
  tally-deref f (none ∷ xs) (suc i) h = tally-deref f xs i h
  tally-deref f (some x ∷ xs) (suc i) h = omega (arith, tally-deref f xs i h)
