-- ===== src/Sched/Safe/Steps.antt =====
-- The steps of which the calls consist: a task changes, a ring buffer changes, an environment changes.
use schedmon.Prelude.{
  ℕ, ◌<◌, ◌≡◌, refl, arith, Option, none, some, List, ◌==◌, ◌>>=◌, deref, store, deref-store,
  Bool-cases, inl, inr, Returns, Returns-known, Returns-then, Returns-some,
}
use schedmon.Ring.{smon_rb_write}
use schedmon.Task.{Task, Machine}
use schedmon.Task.Sampling.{Rbs, smon_sample_write}
use schedmon.Sched.{put_task, set_core}
use schedmon.Sched.Safe.{
  IsLive, IsReady, ReadyAt, IsSafeStep, IsSafeAt, IsKept, HasPointers, has_refl, step_refl,
  step_trans, IsReady-IsKept, IsSafe-IsKept,
}

pub IsLive-store :
    {A : Type 0} (xs : List (Option A)) (r q : ℕ) (a : A)
    → IsLive xs r
    → IsLive xs q
    → IsLive (store xs r (some a)) q
IsLive-store xs r q a live h =
    let stored = deref-store xs r q (some a) live.at in
    elim (Bool-cases (r == q)) [
      | inl e ↦ record { object = a; at = ground (arith, stored) }
      | inr e ↦ record { object = h.object; at = ground (arith, stored, h.at) }
    ]

-- A write to a live ring buffer, or to none, returns.
pub sample_write-Returns :
    (rbs : Rbs) (o : Option ℕ) (type : ℕ) (sample : List ℕ)
    → ((r : ℕ) → o ≡ some r → IsLive rbs r)
    → Returns (λ rbs'. (q : ℕ) → IsLive rbs q → IsLive rbs' q) (smon_sample_write rbs o type sample)
unfolding smon_sample_write
sample_write-Returns rbs none type sample live = Returns-some (λ q h. h)
sample_write-Returns rbs (some r) type sample live =
    let h = live r refl in
    Returns-known (deref rbs r) _ h.at
      (Returns-some (λ q k. IsLive-store rbs r q (smon_rb_write h.object type sample) h k))

module _ {S : Type 0} where
  pub kept_refl : (m : Machine S) → IsKept m m
  kept_refl m = record {
    evsets = refl;
    envirs = λ e envir h. (envir, h, refl, refl);
    rbs = λ r h. h;
  }

  -- Ring buffers change.
  pub rbs_kept :
      (m : Machine S) (rbs : Rbs)
      → ((q : ℕ) → IsLive m.rbs q → IsLive rbs q)
      → IsKept m (record m { rbs = rbs })
  rbs_kept m rbs live = record {
    evsets = refl;
    envirs = λ e envir h. (envir, h, refl, refl);
    rbs = live;
  }

  pub IsSafeStep-rbs :
      (m : Machine S) (rbs : Rbs)
      → ((q : ℕ) → IsLive m.rbs q → IsLive rbs q)
      → IsSafeStep m (record m { rbs = rbs })
  IsSafeStep-rbs m rbs live = record {
    cpus = refl;
    waits = refl;
    safe = λ t. IsSafe-IsKept t (rbs_kept m rbs live) refl;
  }

  -- The task at `t` becomes another, which is safe.
  pub IsSafeStep-put :
      (m : Machine S) (t : ℕ) {task : Task} (task' : Task)
      → deref m.tasks t ≡ some task
      → ((p : ℕ) → task'.p ≡ some p → IsReady m task')
      → IsSafeStep m (put_task t task' m)
  IsSafeStep-put m t task' at ready = record {
    cpus = refl;
    waits = refl;
    safe = λ q h.
        let stored = deref-store m.tasks t q (some task') at in
        let put : Machine S = put_task t task' m in
        let kept : IsKept m put = record {
          evsets = refl;
          envirs = λ e envir h. (envir, h, refl, refl);
          rbs = λ r h. h;
        } in
        elim (Bool-cases (t == q)) [
          | inl e ↦ record {
            task = task';
            at = ground (arith, stored);
            ready = λ p k. IsReady-IsKept (ready p k) kept (has_refl task') (ready p k).turn;
          }
          | inr e ↦ IsSafe-IsKept q kept (ground (arith, stored)) h
        ];
  }

  pub at_refl : {m : Machine S} {t : ℕ} → ReadyAt m t → IsSafeAt m t m
  at_refl {m} a = record { step = step_refl m; after = a }

  pub at_trans :
      {m : Machine S} {t : ℕ} {m' m'' : Machine S}
      → IsSafeAt m t m'
      → IsSafeAt m' t m''
      → IsSafeAt m t m''
  at_trans p q = record { step = step_trans p.step q.step; after = q.after }

  -- A task that is ready changes, and keeps its pointers.
  pub IsSafeAt-put :
      (m : Machine S) (t : ℕ) (ready : ReadyAt m t) (task' : Task)
      → HasPointers ready.task task'
      → task'.evset < ((ready.ready).envir).n_esids
      → IsSafeAt m t (put_task t task' m)
  IsSafeAt-put m t a task' has turn =
      let ready = IsReady-IsKept a.ready (kept_refl m) has turn in
      let step = IsSafeStep-put m t task' a.at (λ p e. ready) in
      let put : Machine S = put_task t task' m in
      let kept : IsKept m put = record {
        evsets = refl;
        envirs = λ e envir h. (envir, h, refl, refl);
        rbs = λ r h. h;
      } in
      record {
        step = step;
        after = record {
          task = task';
          at = ground (arith, deref-store m.tasks t t (some task') a.at);
          ready = IsReady-IsKept a.ready kept has turn;
        };
      }

  pub IsSafeAt-rbs :
      (m : Machine S) (t : ℕ) (rbs : Rbs)
      → ReadyAt m t
      → ((q : ℕ) → IsLive m.rbs q → IsLive rbs q)
      → IsSafeAt m t (record m { rbs = rbs })
  IsSafeAt-rbs m t rbs a live = record {
    step = IsSafeStep-rbs m rbs live;
    after = record {
      task = a.task;
      at = a.at;
      ready = IsReady-IsKept a.ready (rbs_kept m rbs live) (has_refl a.task) (a.ready).turn;
    };
  }

  pub IsSafeAt-update :
      (m : Machine S) (t : ℕ) (ready : ReadyAt m t) (task' : Task) (rbs : Rbs)
      → HasPointers ready.task task'
      → task'.evset < ((ready.ready).envir).n_esids
      → ((q : ℕ) → IsLive m.rbs q → IsLive rbs q)
      → IsSafeAt m t (record (put_task t task' m) { rbs = rbs })
  unfolding IsSafeAt-rbs IsReady-IsKept rbs_kept
  IsSafeAt-update m t a task' rbs has turn live =
      let written = IsSafeAt-rbs m t rbs a live in
      at_trans written (IsSafeAt-put (record m { rbs = rbs }) t written.after task' has turn)

  pub IsSafeAt-core :
      {m : Machine S} {t : ℕ} {m' : Machine S} (processor : ℕ) (s : S)
      → IsSafeAt m t m'
      → IsSafeAt m t (set_core processor s m')
  IsSafeAt-core {m' = m'} processor s a =
      let moved : Machine S = set_core processor s m' in
      let kept : IsKept m' moved = record {
        evsets = refl;
        envirs = λ e envir h. (envir, h, refl, refl);
        rbs = λ r h. h;
      } in
      record {
        step = record {
          cpus = (a.step).cpus;
          waits = (a.step).waits;
          safe = λ q h. IsSafe-IsKept q kept refl ((a.step).safe q h);
        };
        after = record {
          task = (a.after).task;
          at = (a.after).at;
          ready =
              IsReady-IsKept (a.after).ready kept (has_refl (a.after).task) ((a.after).ready).turn;
        };
      }

  pub Returns-after :
      {m m' : Machine S} {t : ℕ} {o : Option (Machine S)}
      → IsSafeAt m t m'
      → Returns (IsSafeAt m' t) o
      → Returns (IsSafeAt m t) o
  Returns-after p h = record { result = h.result; runs = h.runs; holds = at_trans p h.holds }

  pub Returns-chain :
      {m : Machine S} {t : ℕ} (o : Option (Machine S)) (f : Machine S → Option (Machine S))
      → Returns (IsSafeAt m t) o
      → ((m' : Machine S) → ReadyAt m' t → Returns (IsSafeAt m' t) (f m'))
      → Returns (IsSafeAt m t) (o >>= f)
  Returns-chain o f h k = Returns-then o f h (λ m' a. Returns-after a (k m' a.after))
