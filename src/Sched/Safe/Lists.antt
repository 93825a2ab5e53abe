-- ===== src/Sched/Safe/Lists.antt =====
-- The lists that the hooks search.
use schedmon.Prelude.{
  ℕ, ◌<◌, ◌≡◌, refl, ap, subst, arith, Bool, true, false, Option, none, some, List, [], ◌∷◌, ◌==◌,
  if◌then◌else◌, Returns, Returns-known, Returns-some, Returns-split, Bool-cases, inl, inr,
}
use mathlib.Core.Option.{some-injective}
use schedmon.Task.{Machine}
use schedmon.Sched.{Pointers, list_del, is_process, find_task, set_cpu_list}
use schedmon.Sched.Migrate.{occurs}
use schedmon.Sched.Safe.{
  IsSafe, ReadyAt, IsSafeStep, IsKept, has_refl, IsReady-IsKept, IsSafe-IsKept,
}

-- The addresses of a list are those of another.
abbrev pub IsWithin : Pointers → Pointers → Type 0
IsWithin ts us = (t : ℕ) → 0 < occurs t ts → 0 < occurs t us

pub list_del-IsWithin : (t : ℕ) (ts : Pointers) → IsWithin (list_del t ts) ts
unfolding list_del
list_del-IsWithin t [] x h = h
list_del-IsWithin t (y ∷ ys) x h = elim (Bool-cases (y == t)) [
  | inl e ↦ ground arith
  | inr e ↦ ground (arith, list_del-IsWithin t ys x)
]

process_of :
    (p : ℕ) (o : Option ℕ)
    → elim o [ none ↦ false | some q ↦ q == p ] ≡ true
    → (q : ℕ) × (o ≡ some q)
process_of p none h = absurd (cc)
process_of p (some q) h = (q, refl)

module _ {S : Type 0} where
  abbrev pub AreSafe : Machine S → Pointers → Type 0
  AreSafe m ts = (t : ℕ) → 0 < occurs t ts → IsSafe m t

  -- All tasks on the lists of the cores and on wait_list are safe.
  pub record AllSafe (m : Machine S) : Type 0 where
    pub cpus : (cpu : ℕ) → AreSafe m (m.cpu_list cpu)
    pub waits : AreSafe m m.wait_list

  pub AllSafe-step : {m m' : Machine S} → AllSafe m → IsSafeStep m m' → AllSafe m'
  AllSafe-step {m} {m'} all step = record {
    cpus = λ cpu t h.
        step.safe t (all.cpus cpu t (subst (λ ts. 0 < occurs t ts) (ap (λ l. l cpu) step.cpus) h));
    waits = λ t h. step.safe t (all.waits t (subst (λ ts. 0 < occurs t ts) step.waits h));
  }

  pub AreSafe-cons :
      (m : Machine S) (t : ℕ) (ts : Pointers) → IsSafe m t → AreSafe m ts → AreSafe m (t ∷ ts)
  AreSafe-cons m t ts safe rest x h = elim (Bool-cases (x == t)) [
    | inl e ↦ let same : t ≡ x = ground arith in subst (IsSafe m) same safe
    | inr e ↦ rest x (ground arith)
  ]

  pub relist_kept :
      (m : Machine S) (a b : Pointers) (c : ℕ → Pointers) (d : List Pointers)
      → IsKept m (record m { task_list = a; wait_list = b; cpu_list = c; rings = d })
  relist_kept m a b c d = record {
    evsets = refl;
    envirs = λ e envir h. (envir, h, refl, refl);
    rbs = λ r h. h;
  }

  pub IsSafe-relist :
      {m : Machine S} {t : ℕ} (a b : Pointers) (c : ℕ → Pointers) (d : List Pointers)
      → IsSafe m t
      → IsSafe (record m { task_list = a; wait_list = b; cpu_list = c; rings = d }) t
  IsSafe-relist {m} {t} a b c d h = IsSafe-IsKept t (relist_kept m a b c d) refl h

  pub ReadyAt-relist :
      {m : Machine S} {t : ℕ} (a b : Pointers) (c : ℕ → Pointers) (d : List Pointers)
      → ReadyAt m t
      → ReadyAt (record m { task_list = a; wait_list = b; cpu_list = c; rings = d }) t
  ReadyAt-relist {m} a b c d h = record {
    task = h.task;
    at = h.at;
    ready = IsReady-IsKept h.ready (relist_kept m a b c d) (has_refl h.task) (h.ready).turn;
  }

  pub ReadyAt-IsSafe : {m : Machine S} {t : ℕ} → ReadyAt m t → IsSafe m t
  ReadyAt-IsSafe h = record { task = h.task; at = h.at; ready = λ p e. h.ready }

  AreSafe-if :
      (m : Machine S) (b : Bool) (ts us : Pointers)
      → AreSafe m ts
      → AreSafe m us
      → AreSafe m (if b then ts else us)
  AreSafe-if m true ts us h k = h
  AreSafe-if m false ts us h k = k

  -- The lists of the cores change, and hold safe tasks.
  pub AllSafe-cpus :
      (m : Machine S) (c : ℕ → Pointers)
      → AllSafe m
      → ((cpu : ℕ) → AreSafe m (c cpu))
      → AllSafe (record m { cpu_list = c })
  AllSafe-cpus m c all safe = record {
    cpus = λ cpu t h. IsSafe-relist _ _ _ _ (safe cpu t h);
    waits = λ t h. IsSafe-relist _ _ _ _ (all.waits t h);
  }

  pub AllSafe-rings :
      (m : Machine S) (rings : List Pointers) → AllSafe m → AllSafe (record m { rings = rings })
  AllSafe-rings m rings all = record {
    cpus = λ cpu x h. IsSafe-relist _ _ _ _ (all.cpus cpu x h);
    waits = λ x h. IsSafe-relist _ _ _ _ (all.waits x h);
  }

  pub AllSafe-waits :
      (m : Machine S) (t : ℕ)
      → AllSafe m
      → AllSafe (record m { wait_list = list_del t m.wait_list })
  AllSafe-waits m t all = record {
    cpus = λ cpu x h. IsSafe-relist _ _ _ _ (all.cpus cpu x h);
    waits = λ x h. IsSafe-relist _ _ _ _ (all.waits x (list_del-IsWithin t m.wait_list x h));
  }

  pub AllSafe-cons :
      (m : Machine S) (cpu t : ℕ)
      → AllSafe m
      → IsSafe m t
      → AllSafe (set_cpu_list cpu (t ∷ m.cpu_list cpu) m)
  AllSafe-cons m cpu t all safe = AllSafe-cpus m _ all (λ c.
      AreSafe-if m (c == cpu) _ _ (AreSafe-cons m t (m.cpu_list cpu) safe (all.cpus cpu))
        (all.cpus c))

  pub AllSafe-list_del :
      (m : Machine S) (cpu t : ℕ)
      → AllSafe m
      → AllSafe (set_cpu_list cpu (list_del t (m.cpu_list cpu)) m)
  AllSafe-list_del m cpu t all = AllSafe-cpus m _ all (λ c.
      AreSafe-if m (c == cpu) _ _ (λ x h. all.cpus cpu x (list_del-IsWithin t (m.cpu_list cpu) x h))
        (all.cpus c))

  found_ready :
      {m : Machine S} {t : ℕ} (p : ℕ) (safe : IsSafe m t)
      → is_process p safe.task ≡ true
      → ReadyAt m t
  found_ready p safe e =
      let (q, h) = process_of p (safe.task).p e in
      record { task = safe.task; at = safe.at; ready = safe.ready q h }

  -- A search among safe tasks returns, and what it finds is ready.
  pub find_task-safe :
      (m : Machine S) (p : ℕ) (ts : Pointers)
      → AreSafe m ts
      → Returns
          (λ found. (t : ℕ) → found ≡ some t → ReadyAt m t)
          (find_task (is_process p) m.tasks ts)
  unfolding find_task
  find_task-safe m p [] safe = Returns-some (λ t e. absurd (cc))
  find_task-safe m p (t ∷ ts) safe =
      let here = safe t (ground arith) in
      Returns-known _ _ here.at (
        Returns-split (is_process p here.task)
          (λ e.
            Returns-some (λ x k. subst (ReadyAt m) (some-injective t x k) (found_ready p here e)))
          (find_task-safe m p ts (λ x h. safe x (ground arith))))
