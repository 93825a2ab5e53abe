-- ===== src/Sched.antt =====
-- driver/sched.c. The lists of the kernel are lists of addresses: list_add puts a node behind the
-- head of a list, list_del takes it out, list_for_each_entry goes through the rest. A task that is
-- looked at must not be freed.
pub mod Timers
pub mod Register
pub mod Hooks
pub mod Calls
pub mod Count
pub mod Dangling
pub mod Migrate
pub mod Safe
pub mod Example
pub mod Tests
use schedmon.Prelude.{
  ℕ, ◌+◌, ◌*◌, ◌%◌, Bool, true, false, Option, none, some, List, [], ◌∷◌, ◌++◌, ◌==◌, if◌then◌else◌,
  ℤ, pos, negsuc, ◌>>=◌, deref, store, replicate,
}
use schedmon.Ring.Index.{u32}
use schedmon.Envir.{Envir}
use schedmon.Task.{Task, Machine}

abbrev pub Pointers : Type 0
Pointers = List ℕ

unfoldable pub list_del : ℕ → Pointers → Pointers
list_del t [] = []
list_del t (x ∷ xs) = if x == t then xs else x ∷ list_del t xs

-- `task->p == p`.
abbrev pub is_process : ℕ → Task → Bool
is_process p task = elim task.p [ none ↦ false | some q ↦ q == p ]

abbrev pub is_pid : ℕ → Task → Bool
is_pid pid task = task.pid == pid

-- The loops that look for a task: the first that passes the test, or NULL.
unfoldable pub find_task : (Task → Bool) → List (Option Task) → Pointers → Option (Option ℕ)
find_task test tasks [] = some none
find_task test tasks (t ∷ ts) =
    let rest = find_task test tasks ts in
    deref tasks t >>= λ task. if test task then some (some t) else rest

-- Rings. `after t` is the ring of `t` from its next node on, up to `t`.
unfoldable pub split_at : ℕ → Pointers → Pointers → Option Pointers
split_at t before [] = none
split_at t before (x ∷ xs) =
    let rest = split_at t (before ++ x ∷ []) xs in if x == t then some (xs ++ before) else rest

unfoldable pub after : ℕ → List Pointers → Pointers
after t [] = []
after t (ring ∷ rings) =
    let rest = after t rings in elim (split_at t [] ring) [ none ↦ rest | some others ↦ others ]

unfoldable pub insert_after : ℕ → ℕ → Pointers → Pointers
insert_after t new [] = []
insert_after t new (x ∷ xs) = if x == t then x ∷ new ∷ xs else x ∷ insert_after t new xs

-- list_add(new, t) and list_del on `children` nodes.
unfoldable pub ring_add : ℕ → ℕ → List Pointers → List Pointers
ring_add new t [] = []
ring_add new t (ring ∷ rings) = insert_after t new (list_del new ring) ∷ ring_add new t rings

unfoldable pub ring_del : ℕ → List Pointers → List Pointers
ring_del t [] = []
ring_del t (ring ∷ rings) = list_del t ring ∷ ring_del t rings

-- MS_TO_NS, on an `unsigned int`.
unfoldable pub ms_to_ns : ℕ → ℕ
ms_to_ns msec = msec * 1000000 % u32

-- `kt <= 0`.
abbrev pub not_positive : ℤ → Bool
not_positive (pos n) = n == 0
not_positive (negsuc n) = true

module _ {S : Type 0} where
  abbrev pub put_task : ℕ → Task → Machine S → Machine S
  put_task t task m = record m { tasks = store m.tasks t (some task) }

  abbrev pub set_core : ℕ → S → Machine S → Machine S
  set_core processor s m = record m { core = λ c. if c == processor then s else m.core c }

  -- `task->envir`, which must not be NULL or freed.
  abbrev pub task_envir : Machine S → Task → Option Envir
  task_envir m task = elim task.envir [ none ↦ none | some e ↦ deref m.envirs e ]

  -- Takes in a list `ts` of a core.
  abbrev pub set_cpu_list : ℕ → Pointers → Machine S → Machine S
  set_cpu_list cpu ts m = record m { cpu_list = λ c. if c == cpu then ts else m.cpu_list c }
