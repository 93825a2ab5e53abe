-- ===== src/Ring/Create/Unwind.antt =====
-- smon_create_rb. Whether each allocation succeeds is an argument: `get_page i` is the success of
-- the i-th call of __get_free_pages, `content` what a fresh page holds.
use schedmon.Prelude.{
  ℕ, zero, suc, ◌+◌, ◌*◌, ◌≤◌, ◌<◌, ◌≡◌, ◌⊎◌, refl, arith, Bool, true, false, List, [], ◌∷◌, ltb,
  if◌then◌else◌, Option, none, some, inl, inr, ◌==◌, ◌||◌,
}
use schedmon.Ring.Index.{page_size}
use schedmon.Ring.{RingBuffer, Pages}

abbrev pub max_pages : ℕ
max_pages = 1024

abbrev pub rb_default_batch : ℕ
rb_default_batch = 1

-- What the error path does with the pages that it had: the indices that it frees, in order, or a
-- free through an index below 0.
pub data Unwound : Type 0 where
  freed : List ℕ → Unwound
  below_zero : Unwound

pub data Created : Type 0 where
  created : RingBuffer → Created
  refused no_memory : Created
  unwound : Unwound → Created

-- `while (--i)`, entered with `i` pages allocated.
unfoldable pub error_pages : ℕ → Unwound
error_pages zero = below_zero
error_pages (suc zero) = freed []
error_pages (suc (suc j)) = elim (error_pages (suc j)) [
  | freed rest ↦ freed (suc j ∷ rest)
  | below_zero ↦ below_zero
]

-- The first of the `n` pages from `i` on that is not to be had.
unfoldable pub first_failure : (ℕ → Bool) → ℕ → ℕ → Option ℕ
first_failure get_page zero i = none
first_failure get_page (suc n) i =
    let later = first_failure get_page n (i + 1) in if get_page i then later else some i

unfoldable pub fresh_rb : ℕ → Pages → RingBuffer
fresh_rb n_pages content = record {
  n_pages = n_pages;
  size = n_pages * page_size;
  pages = content;
  head = 0;
  tail = 0;
  items = 0;
  batch = rb_default_batch;
  active = 0;
  wakeups = 0;
}

unfoldable pub smon_create_rb : Bool → Bool → (ℕ → Bool) → Pages → ℕ → Created
smon_create_rb get_rb get_data get_page content n_pages =
    if ltb max_pages n_pages
    then refused
    else if get_rb
    then if get_data
      then elim (first_failure get_page n_pages 0) [
        | none ↦ created (fresh_rb n_pages content)
        | some i ↦ unwound (error_pages i)
      ]
      else no_memory
    else no_memory

-- smon_destroy_rb: the pages that it frees, in order.
unfoldable pub destroy_from : ℕ → ℕ → List ℕ
destroy_from zero i = []
destroy_from (suc n) i = i ∷ destroy_from n (i + 1)

unfoldable pub smon_destroy_rb : RingBuffer → List ℕ
smon_destroy_rb rb = destroy_from rb.n_pages 0

abbrev pub has : ℕ → List ℕ → Bool
has i [] = false
has i (j ∷ js) = (i == j) || has i js

-- `i` is among the freed pages.
abbrev pub Frees : Unwound → ℕ → Type 0
Frees (freed js) i = has i js ≡ true
Frees below_zero i = ⊥

error_pages-freed :
    (i : ℕ) → 0 < i → (js : List ℕ) × (error_pages i ≡ freed js) × (has 0 js ≡ false)
unfolding error_pages
error_pages-freed zero h = absurd (omega arith)
error_pages-freed (suc zero) h = ([], refl, refl)
error_pages-freed (suc (suc j)) h =
    let (js, e, z) = error_pages-freed (suc j) (omega arith) in
    (suc j ∷ js, rw (e, error_pages), ground arith)

-- When a page of a buffer of at most SMON_MAX_PAGES cannot be allocated, after the two arrays
-- were, the error path does not free page 0: it stops before it if it was allocated, and frees
-- below the array if it is page 0 that failed.
pub smon_create_rb-leaks :
    (get_page : ℕ → Bool) (content : Pages) (n_pages i : ℕ)
    → n_pages ≤ max_pages
    → first_failure get_page n_pages 0 ≡ some i
    → (u : Unwound) × (smon_create_rb true true get_page content n_pages ≡ unwound u)
      × ¬ Frees u 0
      × ((0 < i) ⊎ (u ≡ below_zero))
unfolding smon_create_rb error_pages
smon_create_rb-leaks get_page content n_pages zero h e =
    (below_zero, ground arith, (λ f. f), inr refl)
smon_create_rb-leaks get_page content n_pages (suc i) h e =
    let (js, run, z) = error_pages-freed (suc i) (omega arith) in
    (freed js, ground arith, (λ f. cc), inl (omega arith))
