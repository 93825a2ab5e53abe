-- ===== src/Sched/Count/Alive.antt =====
-- What the counts are for: a task never points to freed memory, and a ring buffer is active while a
-- task writes to it.
use schedmon.Prelude.{
  ℕ, ◌^◌, ◌≤◌, ◌<◌, ◌≡◌, ◌≢◌, ap, ◌∙◌, arith, Option, none, some, List, length, ltb, deref, tally,
  weight, tally_bounds, tally-deref,
}
use schedmon.Ring.Index.{u32}
use schedmon.Ring.{RingBuffer, smon_rb_is_active}
use schedmon.Pmc.{Cpu}
use schedmon.Task.{Task, Machine}
use schedmon.Sched.Calls.{Call, serve_all}
use schedmon.Sched.Count.{points, holds, uses}
use schedmon.Sched.Count.Calls.{IsCounted, serve_all-IsCounted}

points_bounds : (i : ℕ) (o : Option ℕ) → points i o ≤ 1
points_bounds i none = omega arith
points_bounds i (some j) = ground arith

points_self : (i : ℕ) → points i (some i) ≡ 1
points_self i = ground arith

module _ {S : Type 0} (core : Cpu S) where
  -- After any calls from counts that are right, with fewer than 2^32 tasks created, the environment
  -- of a task that is not freed is not freed.
  pub serve_all-envir :
      (calls : List Call) (m m' : Machine S) (t e : ℕ) (task : Task)
      → IsCounted m
      → serve_all core calls m ≡ some m'
      → length m'.tasks < u32
      → deref m'.tasks t ≡ some task
      → task.envir ≡ some e
      → deref m'.envirs e ≢ none
  serve_all-envir calls m m' t e task c run few h k gone =
      let counted = (serve_all-IsCounted core calls m m' c run).envirs e in
      let zero_count = ap (weight (λ envir. envir.count)) gone in
      let one : uses e task ≡ 1 = ap (points e) k ∙ points_self e in
      omega (
        arith,
        counted,
        zero_count,
        one,
        tally-deref (uses e) m'.tasks t h,
        tally_bounds (uses e) m'.tasks (λ task'. points_bounds e task'.envir),
      )

  -- After any calls from counts that are right, with fewer than 2^31 tasks created, a ring buffer
  -- whose count is a 32-bit pattern is active if and only if there is a task that holds it.
  pub serve_all-active :
      (calls : List Call) (m m' : Machine S) (r : ℕ) (rb : RingBuffer)
      → IsCounted m
      → serve_all core calls m ≡ some m'
      → length m'.tasks < 2 ^ 31
      → deref m'.rbs r ≡ some rb
      → rb.active < u32
      → smon_rb_is_active rb ≡ ltb 0 (tally (holds r) m'.tasks)
  unfolding smon_rb_is_active
  serve_all-active calls m m' r rb c run few h Word =
      let counted = (serve_all-IsCounted core calls m m' c run).rbs r in
      let count = ap (weight (λ x. x.active)) h in
      let bounds = tally_bounds (holds r) m'.tasks (λ task. points_bounds r task.rb) in
      let same : rb.active ≡ tally (holds r) m'.tasks = omega (arith, counted, count, bounds) in
      ground (arith, same, bounds)
