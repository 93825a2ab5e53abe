-- ===== src/Sched/Count/Tasks.antt =====
-- The creation, the inheritance and the end of tasks keep the counts.
use schedmon.Prelude.{
  ℕ, ◌≡◌, refl, sym, ap, ◌∙◌, arith, Bool, not, Option, none, some, List, [], ◌∷◌, ◌++◌, length,
  Ends, Ends-bind, Ends-some, Ends-if, Ends-elim, deref, store, weight,
}
use schedmon.Ring.Index.{sub32}
use schedmon.Ring.{RingBuffer, smon_get_rb, smon_release_rb, smon_rb_write_eof, sample_type_eof}
use schedmon.Envir.{
  Envir, smon_create_envir, smon_get_envir, smon_release_envir, copy_envir, stat_mode,
}
use schedmon.Task.{Task, Machine}
use schedmon.Task.Life.{
  Allocs, find_process, new_task, set_batch, get_rb, get_envir, drop_rb, release_rb, release_envir,
  smon_task_extra_create, smon_create_task, smon_create_child, smon_destroy_task,
}
use schedmon.Sched.Count.{
  IsEven, Balanced, points, holds, uses, IsEven-trans, IsEven-store, store-IsEven, IsEven-drop,
  IsEven-take, IsEven-alloc, Balanced-refl,
}
use schedmon.Sched.Count.Samples.{smon_rb_write-active}

release_rb-active : (rb : RingBuffer) → (smon_release_rb rb).active ≡ sub32 rb.active 1
unfolding smon_release_rb smon_rb_write_eof
release_rb-active rb =
    let same = smon_rb_write-active (record rb { active = sub32 rb.active 1 }) sample_type_eof [] in
    ground (arith, same)

release_envir-count :
    (envir : Envir) → weight (λ x. x.count) (smon_release_envir envir) ≡ sub32 envir.count 1
unfolding smon_release_envir
release_envir-count envir = ground arith

-- The task at `t` becomes `w`, which holds no ring buffer, and its reference is released.
pub drop_rb-IsEven :
    (rbs : List (Option RingBuffer)) (ts : List (Option Task)) (t : ℕ) (w : Option Task) (r : ℕ)
    {task : Task}
    → deref ts t ≡ some task
    → task.rb ≡ some r
    → ((i : ℕ) → weight (holds i) w ≡ 0)
    → Ends (λ rbs'. IsEven (λ rb. rb.active) holds rbs rbs' ts (store ts t w)) (drop_rb rbs r)
unfolding drop_rb
drop_rb-IsEven rbs ts t w r h e z = Ends-bind (deref rbs r) _ (λ rb k. Ends-some (
    IsEven-drop rbs ts r t (some (smon_release_rb rb)) w k (release_rb-active rb) h
      (λ i. ap (points i) e) z))

pub release_rb-IsEven :
    (rbs : List (Option RingBuffer)) (ts : List (Option Task)) (t : ℕ) (w : Option Task)
    (r : Option ℕ) {task : Task}
    → deref ts t ≡ some task
    → task.rb ≡ r
    → ((i : ℕ) → weight (holds i) w ≡ 0)
    → Ends (λ rbs'. IsEven (λ rb. rb.active) holds rbs rbs' ts (store ts t w)) (release_rb rbs r)
unfolding release_rb
release_rb-IsEven rbs ts t w none h e z =
    Ends-some (IsEven-store rbs ts t w h (λ i. z i ∙ sym (ap (points i) e)))
release_rb-IsEven rbs ts t w (some r) h e z = drop_rb-IsEven rbs ts t w r h e z

release_envir-IsEven :
    (envirs : List (Option Envir)) (ts : List (Option Task)) (t : ℕ) (r : Option ℕ) {task : Task}
    → deref ts t ≡ some task
    → task.envir ≡ r
    → Ends
        (λ envirs'. IsEven (λ envir. envir.count) uses envirs envirs' ts (store ts t none))
        (release_envir envirs r)
unfolding release_envir
release_envir-IsEven envirs ts t none h e =
    Ends-some (IsEven-store envirs ts t none h (λ i. sym (ap (points i) e)))
release_envir-IsEven envirs ts t (some r) h e = Ends-bind (deref envirs r) _ (λ envir k. Ends-some (
    IsEven-drop envirs ts r t (smon_release_envir envir) none k (release_envir-count envir) h
      (λ i. ap (points i) e) (λ i. refl)))

get_rb-IsEven :
    (rbs : List (Option RingBuffer)) (ts : List (Option Task)) (r : Option ℕ) (task : Task)
    → task.rb ≡ r
    → Ends
        (λ rbs'. IsEven (λ rb. rb.active) holds rbs rbs' ts (ts ++ some task ∷ []))
        (get_rb rbs r)
unfolding get_rb smon_get_rb
get_rb-IsEven rbs ts none task e = record { holds = λ a h. absurd (cc) }
get_rb-IsEven rbs ts (some r) task e =
    Ends-bind (deref rbs r) _
      (λ rb k. Ends-some (IsEven-take rbs ts r task (smon_get_rb rb) k refl (λ i. ap (points i) e)))

get_envir-IsEven :
    (envirs : List (Option Envir)) (ts : List (Option Task)) (r : Option ℕ) (task : Task)
    → task.envir ≡ r
    → Ends
        (λ envirs'. IsEven (λ envir. envir.count) uses envirs envirs' ts (ts ++ some task ∷ []))
        (get_envir envirs r)
unfolding get_envir smon_get_envir
get_envir-IsEven envirs ts none task e = record { holds = λ a h. absurd (cc) }
get_envir-IsEven envirs ts (some r) task e = Ends-bind (deref envirs r) _ (λ envir k.
    Ends-some (IsEven-take envirs ts r task (smon_get_envir envir) k refl (λ i. ap (points i) e)))

create_envir-count :
    (kzalloc : Bool) (envir : Envir) → Ends (λ new. new.count ≡ 1) (smon_create_envir kzalloc envir)
unfolding smon_create_envir copy_envir stat_mode
create_envir-count kzalloc envir = record { holds = λ new e. ground arith }

set_batch-active : (n : ℕ) (rb : RingBuffer) → (set_batch n rb).active ≡ rb.active
unfolding set_batch
set_batch-active n rb = ground arith

module _ {S : Type 0} where
  pub destroy_task-Balanced : (t : ℕ) (m : Machine S) → Ends (Balanced m) (smon_destroy_task t m)
  unfolding smon_destroy_task
  destroy_task-Balanced t m = Ends-bind (deref m.tasks t) _ (λ task h.
      Ends-bind (release_rb m.rbs task.rb) _ (λ rbs e.
        Ends-bind (release_envir m.envirs task.envir) _ (λ envirs e'. Ends-some record {
          rbs = (release_rb-IsEven m.rbs m.tasks t none task.rb h refl (λ i. refl)).holds rbs e;
          envirs = (release_envir-IsEven m.envirs m.tasks t task.envir h refl).holds envirs e';
        })))

  pub create_child-Balanced :
      (kzalloc : Bool) (parent p pid : ℕ) (m : Machine S)
      → Ends (λ made. Balanced m made.0) (smon_create_child kzalloc parent p pid m)
  unfolding smon_create_child new_task
  create_child-Balanced kzalloc parent p pid m =
      Ends-if (not kzalloc) (Ends-some (Balanced-refl m)) (
        Ends-bind (deref m.tasks parent) _ (λ task h. Ends-bind (get_rb m.rbs task.rb) _ (λ rbs e.
          Ends-bind (get_envir m.envirs task.envir) _ (λ envirs e'.
            let child = record (new_task p pid 0 task.rb none) { envir = task.envir } in
            Ends-some record {
              rbs = (get_rb-IsEven m.rbs m.tasks task.rb child refl).holds rbs e;
              envirs = (get_envir-IsEven m.envirs m.tasks task.envir child refl).holds envirs e';
            }))))

  pub create_task-Balanced :
      (allocs : Allocs) (init_task : ℕ) (processes : List (ℕ × ℕ)) (pid : ℕ) (envir : Envir) (r : ℕ)
      (m : Machine S)
      → Ends (λ made. Balanced m made.0) (smon_create_task allocs init_task processes pid envir r m)
  unfolding smon_create_task new_task
  create_task-Balanced allocs init_task processes pid envir r m =
      Ends-if (not allocs.task) (Ends-some (Balanced-refl m)) (
        Ends-elim (smon_create_envir allocs.envir envir) _ _ (Ends-some (Balanced-refl m)) (λ new c.
          Ends-bind (get_rb m.rbs (some r)) _ (λ rbs e. Ends-bind (deref rbs r) _ (λ rb k.
            Ends-bind (smon_task_extra_create allocs.extra (some r) new) _ (λ extra _.
              let p = find_process init_task processes pid in
              let task = new_task p pid (length m.envirs) (some r) (some extra) in
              let batch = set_batch envir.batch_size rb in
              let taken = (get_rb-IsEven m.rbs m.tasks (some r) task refl).holds rbs e in
              Ends-some record {
                rbs =
                    IsEven-trans taken
                      (store-IsEven rbs _ r batch k (set_batch-active envir.batch_size rb));
                envirs =
                    IsEven-alloc m.envirs m.tasks new task
                      ((create_envir-count allocs.envir envir).holds new c) (λ i. refl);
              })))))
