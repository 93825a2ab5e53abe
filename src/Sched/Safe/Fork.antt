-- ===== src/Sched/Safe/Fork.antt =====
-- A fork of a safe task: the child that inherits its monitoring is safe too.
use schedmon.Prelude.{
  ℕ, suc, ◌≡◌, refl, sym, ap, ◌∙◌, arith, Bool, not, Option, none, some, List, [], ◌∷◌, ◌++◌,
  length, ◌==◌, deref, store, deref-store, deref-alloc, deref_bounds, Bool-cases, inl, inr, Returns,
  Returns-known, Returns-then, Returns-some, Returns-if, Returns-elim,
}
use mathlib.Core.Option.{some-injective}
use schedmon.Ring.{RingBuffer, smon_get_rb, sample_type_fork}
use schedmon.Envir.{Envir, smon_get_envir}
use schedmon.Task.{Task, Machine}
use schedmon.Task.Life.{new_task, get_rb, get_envir, smon_create_child}
use schedmon.Sched.Register.{adopt, smon_sched_register_child}
use schedmon.Sched.Hooks.{inherit, fork_sample, smon_sched_process_fork}
use schedmon.Sched.Safe.{
  IsLive, IsReady, IsSafe, ReadyAt, IsSafeStep, IsKept, extra_rb, has_refl, IsReady-IsKept,
  IsSafe-IsKept,
}
use schedmon.Sched.Safe.Steps.{IsLive-store, IsSafeAt-put, IsSafeAt-rbs, at_refl}
use schedmon.Sched.Safe.Timers.{task_envir-ready, ready_write}
use schedmon.Sched.Safe.Lists.{
  AllSafe, AllSafe-step, AllSafe-cons, AllSafe-rings, ReadyAt-relist, find_task-safe,
}

-- What is allocated stays when an object is allocated.
pub deref_alloc-old :
    {A : Type 0} (xs : List (Option A)) (v : Option A) (i : ℕ) {a : A}
    → deref xs i ≡ some a
    → deref (xs ++ v ∷ []) i ≡ some a
deref_alloc-old xs v i h =
    let far = deref_bounds xs i h in ground (arith, deref-alloc xs v i, far, h)

pub get_rb-live :
    {rbs : List (Option RingBuffer)} {o : Option ℕ} (r : ℕ) (live : IsLive rbs r)
    → o ≡ some r
    → get_rb rbs o ≡ some (store rbs r (some (smon_get_rb live.object)))
unfolding get_rb
get_rb-live r live e = rw (e, live.at)

get_envir-live :
    (envirs : List (Option Envir)) {o : Option ℕ} (e : ℕ) (envir : Envir)
    → deref envirs e ≡ some envir
    → o ≡ some e
    → get_envir envirs o ≡ some (store envirs e (some (smon_get_envir envir)))
unfolding get_envir
get_envir-live envirs e envir at h = rw (h, at)

-- A reference more leaves the event-sets of an environment.
get_envir-sets :
    (envirs : List (Option Envir)) (e : ℕ) (envir : Envir) (i : ℕ) (old : Envir)
    → deref envirs e ≡ some envir
    → deref envirs i ≡ some old
    → (new : Envir) × (deref (store envirs e (some (smon_get_envir envir))) i ≡ some new)
      × (new.esids ≡ old.esids)
      × (new.n_esids ≡ old.n_esids)
unfolding smon_get_envir
get_envir-sets envirs e envir i old at h =
    let stored = deref-store envirs e i (some (smon_get_envir envir)) at in
    elim (Bool-cases (e == i)) [
      | inl k ↦
          let index : e ≡ i = ground arith in
          let same : envir ≡ old =
            some-injective envir old (sym at ∙ (ap (deref envirs) index ∙ h)) in
          (
            smon_get_envir envir,
            ground (arith, stored),
            ap (λ x. x.esids) same,
            ap (λ x. x.n_esids) same,
          )
      | inr k ↦ (old, ground (arith, stored), refl, refl)
    ]

none-some : {i : ℕ} → none ≡ some i → ⊥
none-some e = absurd (cc)

module _ {S : Type 0} where
  -- After a child is created.
  record HasChild (m : Machine S) (parent : ℕ) (made : Machine S × Option ℕ) : Type 0 where
    step : IsSafeStep m made.0
    parent_ready : ReadyAt made.0 parent
    child : (c : ℕ) → made.1 ≡ some c → IsSafe made.0 c

  -- The machine after `child` has got hold of what the parent holds.
  abbrev grown : (m : Machine S) → Task → ℕ → Envir → ℕ → RingBuffer → Machine S
  grown m child e envir r rb = record m {
    tasks = m.tasks ++ some child ∷ [];
    envirs = store m.envirs e (some (smon_get_envir envir));
    rbs = store m.rbs r (some (smon_get_rb rb));
    rings = (length m.tasks ∷ []) ∷ m.rings;
  }

  grown-safe :
      (m : Machine S) (parent : ℕ) (a : ReadyAt m parent) (child : Task)
      → child.envir ≡ (a.task).envir
      → child.rb ≡ (a.task).rb
      → child.evset ≡ 0
      → extra_rb child ≡ none
      → HasChild m parent (
        grown m child (a.ready).e (a.ready).envir (a.ready).r ((a.ready).live_rb).object,
        some (length m.tasks),
      )
  grown-safe m parent a child envir rb evset extra =
      let m' = grown m child (a.ready).e (a.ready).envir (a.ready).r ((a.ready).live_rb).object in
      let kept : IsKept m m' = record {
        evsets = refl;
        envirs = λ i old h.
            get_envir-sets m.envirs (a.ready).e (a.ready).envir i old (a.ready).at_envir h;
        rbs = λ q h. IsLive-store m.rbs (a.ready).r q _ (a.ready).live_rb h;
      } in
      let before : IsReady m' a.task =
        IsReady-IsKept a.ready kept (has_refl a.task) (a.ready).turn in
      let turn = before.turn in
      record {
        step = record {
          cpus = refl;
          waits = refl;
          safe = λ t h.
              let stays = deref_alloc-old m.tasks (some child) t h.at in
              IsSafe-IsKept t kept (stays ∙ sym h.at) h;
        };
        parent_ready = record {
          task = a.task;
          at = deref_alloc-old m.tasks (some child) parent a.at;
          ready = before;
        };
        child = λ c e.
            let index : length m.tasks ≡ c = some-injective (length m.tasks) c e in
            record {
              task = child;
              at = ground (arith, deref-alloc m.tasks (some child) c, index);
              ready = λ p k. record {
                e = before.e;
                envir = before.envir;
                points_envir = envir ∙ before.points_envir;
                at_envir = before.at_envir;
                sound = before.sound;
                turn = omega (arith, turn, evset);
                r = before.r;
                points_rb = rb ∙ before.points_rb;
                live_rb = before.live_rb;
                live_extra = λ q h. absurd (none-some (sym extra ∙ h));
              };
            };
      }

  create_child-safe :
      (kzalloc : Bool) (parent p pid : ℕ) (m : Machine S)
      → ReadyAt m parent
      → Returns (HasChild m parent) (smon_create_child kzalloc parent p pid m)
  unfolding smon_create_child new_task
  create_child-safe kzalloc parent p pid m a =
      Returns-if (not kzalloc)
        (Returns-some
          record { step = (at_refl a).step; parent_ready = a; child = λ c e. absurd (cc) })
        (Returns-known _ _ a.at (
          Returns-known _ _ (get_rb-live (a.ready).r (a.ready).live_rb (a.ready).points_rb) (
            Returns-known _ _
              (get_envir-live m.envirs (a.ready).e (a.ready).envir (a.ready).at_envir
                (a.ready).points_envir)
              (Returns-some (grown-safe m parent a _ refl refl refl refl)))))

  adopt-safe :
      (parent cpu child : ℕ) (m : Machine S)
      → AllSafe m
      → ReadyAt m parent
      → IsSafe m child
      → Returns (λ m'. AllSafe m' × ReadyAt m' parent) (adopt parent cpu child m)
  unfolding adopt
  adopt-safe parent cpu child m all a safe =
      let put =
        IsSafeAt-put m parent a (record (a.task) { n_children = suc (a.task).n_children })
          (record { envir = refl; rb = refl; extra = refl }) (a.ready).turn in
      let listed =
        AllSafe-cons _ cpu child (AllSafe-step all put.step) ((put.step).safe child safe) in
      Returns-known _ _ a.at
        (Returns-some (AllSafe-rings _ _ listed, ReadyAt-relist _ _ _ _ put.after))

  register_child-safe :
      (kzalloc : Bool) (cpu p pid parent : ℕ) (m : Machine S)
      → AllSafe m
      → ReadyAt m parent
      → Returns
          (λ m'. AllSafe m' × ReadyAt m' parent)
          (smon_sched_register_child kzalloc cpu p pid parent m)
  unfolding smon_sched_register_child
  register_child-safe kzalloc cpu p pid parent m all a =
      Returns-then _ _ (create_child-safe kzalloc parent p pid m a) (λ made h.
        let all' = AllSafe-step all h.step in
        Returns-elim made.1 _ _ (Returns-some (all', h.parent_ready))
          (λ c e. adopt-safe parent cpu c made.0 all' h.parent_ready (h.child c e)))

  inherit-safe :
      (kzalloc : Bool) (cpu child pid t : ℕ) (m : Machine S)
      → AllSafe m
      → ReadyAt m t
      → Returns (λ m'. AllSafe m' × ReadyAt m' t) (inherit kzalloc cpu child pid t m)
  unfolding inherit
  inherit-safe kzalloc cpu child pid t m all a = Returns-known _ _ a.at (
      Returns-known _ _ (task_envir-ready m a.task a.ready) (
        Returns-if _ (register_child-safe kzalloc cpu child pid t m all a) (Returns-some (all, a))))

  fork_sample-safe :
      (tsc pid t : ℕ) (m : Machine S)
      → AllSafe m
      → ReadyAt m t
      → Returns AllSafe (fork_sample tsc pid t m)
  unfolding fork_sample
  fork_sample-safe tsc pid t m all a = Returns-known _ _ a.at (
      Returns-known _ _ (task_envir-ready m a.task a.ready) (
        Returns-if _
          (Returns-then _ _ (ready_write m a.task sample_type_fork _ a.ready)
            (λ rbs live. Returns-some (AllSafe-step all (IsSafeAt-rbs m t rbs a live).step)))
          (Returns-some all)))

  pub fork-safe :
      (kzalloc : Bool) (tsc cpu parent child_cpu child pid : ℕ) (m : Machine S)
      → AllSafe m
      → Returns AllSafe (smon_sched_process_fork kzalloc tsc cpu parent child_cpu child pid m)
  unfolding smon_sched_process_fork
  fork-safe kzalloc tsc cpu parent child_cpu child pid m all =
      Returns-then _ _ (find_task-safe m parent (m.cpu_list cpu) (all.cpus cpu)) (λ found ready.
        Returns-elim found _ _ (Returns-some all) (λ t e.
          Returns-then _ _ (inherit-safe kzalloc child_cpu child pid t m all (ready t e))
            (λ m' (all', a). fork_sample-safe tsc pid t m' all' a)))
