-- ===== src/Sched/Count.antt =====
-- The reference counts of ring buffers and environments, and the tasks that hold them.
pub mod Samples
pub mod Timers
pub mod Tasks
pub mod Register
pub mod Hooks
pub mod Calls
pub mod Alive
use schedmon.Prelude.{
  ℕ, suc, ◌+◌, ◌%◌, ◌^◌, ◌<◌, ◌≡◌, refl, sym, ap, ◌∙◌, subst, arith, Bool, true, false, Option,
  none, some, List, [], ◌∷◌, ◌++◌, length, ◌==◌, if◌then◌else◌, deref, store, ◌>>=◌, Ends,
  Ends-bind, tally, weight, deref-store, tally-store, tally-alloc, deref-alloc, deref-length,
  Bool-cases, inl, inr,
}
use schedmon.Ring.Index.{u32, add32, sub32}
use schedmon.Ring.{RingBuffer}
use schedmon.Envir.{Envir}
use schedmon.Task.{Task, Machine}
use schedmon.Sched.{Pointers, put_task, set_core}

-- 1 if the pointer is `i`.
abbrev pub points : ℕ → Option ℕ → ℕ
points i none = 0
points i (some j) = if j == i then 1 else 0

abbrev pub holds : ℕ → Task → ℕ
holds r task = points r task.rb

abbrev pub uses : ℕ → Task → ℕ
uses e task = points e task.envir

-- From the objects `xs` and the tasks `ts` to `xs'` and `ts'`, each count changes as the number of
-- references does, modulo 2^32.
pub record IsEven {A B : Type 0} (count : A → ℕ) (refs : ℕ → B → ℕ) (xs xs' : List (Option A))
    (ts ts' : List (Option B)) : Type 0 where
  pub even :
      (i : ℕ)
      → (weight count (deref xs' i) + tally (refs i) ts) % u32
        ≡ (weight count (deref xs i) + tally (refs i) ts') % u32

module _ {A B : Type 0} {count : A → ℕ} {refs : ℕ → B → ℕ} where
  pub IsEven-refl : (xs : List (Option A)) (ts : List (Option B)) → IsEven count refs xs xs ts ts
  IsEven-refl xs ts = record { even = λ i. refl }

  pub IsEven-trans :
      {xs xs' xs'' : List (Option A)} {ts ts' ts'' : List (Option B)}
      → IsEven count refs xs xs' ts ts'
      → IsEven count refs xs' xs'' ts' ts''
      → IsEven count refs xs xs'' ts ts''
  IsEven-trans p q = record { even = λ i. omega (arith, p.even i, q.even i) }

  -- A task changes, and refers to what it did before.
  pub IsEven-store :
      (xs : List (Option A)) (ts : List (Option B)) (t : ℕ) (w : Option B) {b : B}
      → deref ts t ≡ some b
      → ((i : ℕ) → weight (refs i) w ≡ refs i b)
      → IsEven count refs xs xs ts (store ts t w)
  IsEven-store xs ts t w h same = record {
    even = λ i. omega (arith, tally-store (refs i) ts t w h, same i);
  }

  -- An object changes, and not its count.
  pub store-IsEven :
      (xs : List (Option A)) (ts : List (Option B)) (r : ℕ) {a : A} (a' : A)
      → deref xs r ≡ some a
      → count a' ≡ count a
      → IsEven count refs xs (store xs r (some a')) ts ts
  store-IsEven xs ts r {a} a' h same = record {
    even = λ i. ground (arith, deref-store xs r i (some a') h);
  }

  -- The task at `t` lets an object go.
  pub IsEven-drop :
      (xs : List (Option A)) (ts : List (Option B)) (r t : ℕ) (v : Option A) (w : Option B)
      → {a : A} {b : B} → deref xs r ≡ some a
      → weight count v ≡ sub32 (count a) 1
      → deref ts t ≡ some b
      → ((i : ℕ) → refs i b ≡ points i (some r))
      → ((i : ℕ) → weight (refs i) w ≡ 0)
      → IsEven count refs xs (store xs r v) ts (store ts t w)
  IsEven-drop xs ts r t v w h c k one zero = record {
    even =
        λ i. ground (arith, deref-store xs r i v h, tally-store (refs i) ts t w k, one i, zero i);
  }

  -- A new task gets hold of an object.
  pub IsEven-take :
      (xs : List (Option A)) (ts : List (Option B)) (r : ℕ) (b : B) {a : A} (a' : A)
      → deref xs r ≡ some a
      → count a' ≡ add32 (count a) 1
      → ((i : ℕ) → refs i b ≡ points i (some r))
      → IsEven count refs xs (store xs r (some a')) ts (ts ++ some b ∷ [])
  IsEven-take xs ts r b {a} a' h c one = record {
    even = λ i.
        ground (arith, deref-store xs r i (some a') h, tally-alloc (refs i) ts (some b), one i);
  }

  -- A new task gets a new object.
  pub IsEven-alloc :
      (xs : List (Option A)) (ts : List (Option B)) (a : A) (b : B)
      → count a ≡ 1
      → ((i : ℕ) → refs i b ≡ points i (some (length xs)))
      → IsEven count refs xs (xs ++ some a ∷ []) ts (ts ++ some b ∷ [])
  IsEven-alloc xs ts a b c one = record {
    even = λ i.
        let new = deref-alloc xs (some a) i in
        let more = tally-alloc (refs i) ts (some b) in
        let far = deref-length xs in
        elim (Bool-cases (length xs == i)) [
          | inl e ↦ ground (arith, new, more, one i, far)
          | inr e ↦ ground (arith, new, more, one i)
        ];
  }

-- The task points to what it pointed to.
abbrev pub KeepsRefs : Task → Task → Type 0
KeepsRefs task task' = (task'.rb ≡ task.rb) × (task'.envir ≡ task.envir)

module _ {S : Type 0} where
  -- Both kinds of counts follow the references.
  pub record Balanced (m m' : Machine S) : Type 0 where
    pub rbs : IsEven (λ rb. rb.active) holds m.rbs m'.rbs m.tasks m'.tasks
    pub envirs : IsEven (λ envir. envir.count) uses m.envirs m'.envirs m.tasks m'.tasks

  pub Balanced-refl : (m : Machine S) → Balanced m m
  Balanced-refl m = record {
    rbs = IsEven-refl m.rbs m.tasks;
    envirs = IsEven-refl m.envirs m.tasks;
  }

  pub Balanced-trans : {m m' m'' : Machine S} → Balanced m m' → Balanced m' m'' → Balanced m m''
  Balanced-trans p q = record {
    rbs = IsEven-trans p.rbs q.rbs;
    envirs = IsEven-trans p.envirs q.envirs;
  }

  pub put_task-Balanced :
      (m : Machine S) (t : ℕ) {task : Task} (task' : Task)
      → deref m.tasks t ≡ some task
      → task'.rb ≡ task.rb
      → task'.envir ≡ task.envir
      → Balanced m (put_task t task' m)
  put_task-Balanced m t task' h r e = record {
    rbs = IsEven-store m.rbs m.tasks t (some task') h (λ i. ap (points i) r);
    envirs = IsEven-store m.envirs m.tasks t (some task') h (λ i. ap (points i) e);
  }

  -- A task and the contents of a ring buffer change, and no pointer or count.
  pub update-Balanced :
      (m : Machine S) (t : ℕ) {task : Task} (task' : Task) (rbs' : List (Option RingBuffer))
      → deref m.tasks t ≡ some task
      → KeepsRefs task task'
      → IsEven (λ rb. rb.active) holds m.rbs rbs' m.tasks m.tasks
      → Balanced m (record (put_task t task' m) { rbs = rbs' })
  update-Balanced m t task' rbs' h (r, e) even =
      let put = put_task-Balanced (record m { rbs = rbs' }) t task' h r e in
      record { rbs = IsEven-trans even put.rbs; envirs = put.envirs }

  pub Ends-after :
      {m m' : Machine S} {o : Option (Machine S)}
      → Balanced m m'
      → Ends (Balanced m') o
      → Ends (Balanced m) o
  Ends-after b h = record { holds = λ m'' e. Balanced-trans b (h.holds m'' e) }

  pub Ends-then :
      {m : Machine S} (o : Option (Machine S)) (f : Machine S → Option (Machine S))
      → Ends (Balanced m) o
      → ((m' : Machine S) → Ends (Balanced m') (f m'))
      → Ends (Balanced m) (o >>= f)
  Ends-then o f h k = Ends-bind o f (λ m' e. Ends-after (h.holds m' e) (k m'))

  -- The registers of a core change.
  pub set_core-Balanced :
      {m m' : Machine S} (processor : ℕ) (s : S)
      → Balanced m m'
      → Balanced m (set_core processor s m')
  set_core-Balanced processor s b = record { rbs = b.rbs; envirs = b.envirs }

  -- Lists change.
  pub relist :
      {m m' : Machine S} (a b : Pointers) (c : ℕ → Pointers) (d : List Pointers)
      → Balanced m m'
      → Balanced m (record m' { task_list = a; wait_list = b; cpu_list = c; rings = d })
  relist a b c d h = record { rbs = h.rbs; envirs = h.envirs }
