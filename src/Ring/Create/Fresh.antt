-- ===== src/Ring/Create/Fresh.antt =====
-- What smon_create_rb makes is a well-formed empty buffer.
use native.Mathlib.Nat.{pow-le-pow_right, zero-mod}
use schedmon.Prelude.{ℕ, ◌*◌, ◌%◌, ◌^◌, ◌≤◌, ◌≡◌, refl, sym, arith, Bool, [], dec_lt}
use schedmon.Ring.Index.{page_size}
use schedmon.Ring.{RingBuffer, Pages}
use schedmon.Ring.Write.{Holds}
use schedmon.Ring.Create.Unwind.{created, fresh_rb, smon_create_rb, max_pages}

order_of_pages : (m : ℕ) → 2 ^ m ≤ max_pages → m ≤ 10
order_of_pages m h = elim (dec_lt 10 m) [
  | yes big ↦
      let over : 2 ^ 11 ≤ 2 ^ m = pow-le-pow_right {n = 2} (omega arith) {i = 11} big in
      absurd (omega arith)
  | no small ↦ omega arith
]

pub created-fresh :
    (get_rb get_data : Bool) (get_page : ℕ → Bool) (content : Pages) (n_pages : ℕ) {rb : RingBuffer}
    → smon_create_rb get_rb get_data get_page content n_pages ≡ created rb
    → (n_pages ≤ max_pages) × (rb ≡ fresh_rb n_pages content)
unfolding smon_create_rb
created-fresh get_rb get_data get_page content n_pages e = ground arith

fresh-Holds :
    (m : ℕ) (content : Pages) → 1 ≤ m → 2 ^ m ≤ max_pages → Holds (fresh_rb (2 ^ m) content) 0 0 []
unfolding fresh_rb
fresh-Holds m content p q =
    let low : 2 ^ 1 ≤ 2 ^ m = pow-le-pow_right {n = 2} (omega arith) {i = 1} p in
    let zero_in : 0 % (2 ^ m * page_size) ≡ 0 = zero-mod (2 ^ m * page_size) in
    record {
      valid = record {
        order = m;
        several = p;
        few = order_of_pages m q;
        whole = refl;
        bytes = refl;
        head_in = omega arith;
        tail_in = omega arith;
        aligned = refl;
      };
      ends = record {
        reader = sym zero_in;
        writer = sym zero_in;
        behind = omega arith;
        room = omega arith;
      };
      row = refl;
    }

-- A created buffer of 2, 4, 8, … pages is well formed and holds no sample.
pub smon_create_rb-Holds :
    (get_rb get_data : Bool) (get_page : ℕ → Bool) (content : Pages) (n_pages m : ℕ)
    {rb : RingBuffer}
    → smon_create_rb get_rb get_data get_page content n_pages ≡ created rb
    → 1 ≤ m
    → n_pages ≡ 2 ^ m
    → Holds rb 0 0 []
smon_create_rb-Holds get_rb get_data get_page content n_pages m e p q =
    let (small, fresh) = created-fresh get_rb get_data get_page content n_pages e in
    rw (fresh, q) (fresh-Holds m content p (omega arith))
