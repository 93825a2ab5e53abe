-- ===== src/Main/Registers.antt =====
-- From the command line to the registration in the driver.
use Prim.Native.String.{String}
use schedmon.Prelude.{
  ℕ, ◌≤◌, ◌<◌, ◌≡◌, sym, ap, subst, ◌∙◌, arith, Bool, true, false, Option, some, List, length, ◌==◌,
  ℤ, pos, negsuc, >>=-some, Bool-cases, inl, inr, Returns, Returns-then, Returns-some,
}
use mathlib.Core.Option.{some-injective}
use schedmon.Envir.{Envir, smon_create_envir}
use schedmon.Pmc.{Cpu}
use schedmon.Task.{Machine}
use schedmon.Device.Ioctl.{Request, set_task, Answer, System, smon_ioctl, dispatch}
use schedmon.Driver.{ioctl, one_call, is_zero, smon_check_evsets, smon_set_task}
use schedmon.Driver.Laws.{IsIoctl, smon_check_evsets-IsSound}
use schedmon.Sched.Safe.{IsSound, IsLive}
use schedmon.Sched.Safe.Lists.{AllSafe}
use schedmon.Sched.Safe.Register.{register_task-Returns}
use schedmon.Cmd.Input.{Getopt, parsed, run_cmd, Run, cmd_roof, smon_parse_input}
use schedmon.Cmd.Input.Program.{smon_parse_input-IsRunnable}
use schedmon.Profiling.Start.{Answers}
use schedmon.Main.{Ran, Exit, run_command, command, input_command, main}
use schedmon.Main.Laws.{main-input}

is_zero-pos : (i : ℤ) → is_zero i ≡ true → i ≡ pos 0
is_zero-pos (pos n) e = ap pos (ground arith)
is_zero-pos (negsuc n) e = absurd (cc)

module _ {S : Type 0} (core : Cpu S) (call : Answer → ℤ) (sys : System)
    (accessible : Request → Bool) (library : IsIoctl call)
    (open_to : (request : Request) → accessible request ≡ true) where
  -- The calls of start_profile are made only after the check of the event-sets has passed.
  run_command-checked :
      (rb : Option ℕ) (fuel : ℕ) (smon_dev : ℤ) (answers : Answers) (cmd : Run) (m : Machine S)
      (r : Ran S)
      → (cmd.kind == cmd_roof) ≡ false
      → run_command core call sys accessible rb fuel smon_dev answers cmd m ≡ some r
      → 0 < length r.steps
      → smon_check_evsets core call sys accessible rb smon_dev cmd.profile.envir m ≡ some (pos 0)
  unfolding run_command
  run_command-checked rb fuel smon_dev answers cmd m r k e p =
      let (ret, checked, e') =
        >>=-some (smon_check_evsets core call sys accessible rb smon_dev cmd.profile.envir m) _
          (rw k at e) in
      elim (Bool-cases (is_zero ret)) [
        | inl passed ↦ checked ∙ ap (λ i. some i) (is_zero-pos ret passed)
        | inr failed ↦
            let same = some-injective _ _ (rw failed at e') in
            absurd (omega (arith, p, ap (λ (r : Ran S). length r.steps) same))
      ]

  set_task-Returns :
      (smon_dev : ℤ) (pid r : ℕ) (envir : Envir) (m : Machine S)
      → is_zero smon_dev ≡ false
      → AllSafe m
      → IsLive m.rbs r
      → sys.allocs.extra ≡ true
      → ((new : Envir)
          → smon_create_envir sys.allocs.envir envir ≡ some new
          → IsSound m.evsets new × (0 < new.n_esids))
      → Returns
          (λ ended. AllSafe ended.0)
          (smon_set_task core call sys accessible (some r) smon_dev pid envir m)
  unfolding smon_set_task one_call ioctl smon_ioctl dispatch
  set_task-Returns smon_dev pid r envir m is_open all live extra sound =
      let made =
        register_task-Returns core sys.allocs sys.init_task sys.processes sys.processor
          sys.num_online_cpus sys.tsc sys.task_cpu pid envir r m all live extra sound in
      rw (is_open, open_to (set_task pid (some envir)))
        (Returns-then _ _ (Returns-then _ _ made (λ ended safe. Returns-some safe))
          (λ ended safe. Returns-some safe))

  -- If the parser accepts a profile or stat with at least one event-set, and main gets so far as to
  -- make the calls of start_profile, which it does only after its check of the event-sets, then
  -- smon_set_task on the driver's tables runs without a fault, whatever the pid: in any machine
  -- with these event-sets, whose ring buffer is not freed and whose listed tasks are safe, and
  -- while there is memory for the extra data. The tasks are safe afterwards too.
  pub main-registers :
      (fuel : ℕ) (getopt : Getopt) (default_ofile : List ℕ) (cpumask count_mode fd : ℕ)
      (answers : Answers) (argv : List String) (rb : Option ℕ) (m : Machine S) (cmd : Run)
      (x : Exit S)
      → smon_parse_input getopt default_ofile cpumask count_mode argv ≡ parsed (run_cmd cmd)
      → (cmd.kind == cmd_roof) ≡ false
      → 0 < cmd.profile.envir.n_esids
      → 0 < fd
      → main core call sys accessible rb fuel getopt default_ofile cpumask count_mode
          (pos fd)
          answers
          argv
          m
        ≡ some x
      → 0 < length x.run.steps
      → (pid r : ℕ) (m' : Machine S) → m'.evsets ≡ m.evsets
      → AllSafe m'
      → IsLive m'.rbs r
      → sys.allocs.extra ≡ true
      → Returns
          (λ ended. AllSafe ended.0)
          (smon_set_task core call sys accessible (some r) (pos fd) pid cmd.profile.envir m')
  unfolding input_command command
  main-registers fuel getopt default_ofile cpumask count_mode fd answers argv rb m cmd x e k
        some_sets h run steps pid r m' same all live extra =
      let whole =
        sym (
          main-input core call sys accessible rb fuel getopt default_ofile cpumask count_mode fd
            answers argv m (parsed (run_cmd cmd)) e h)
        ∙ run in
      let (y, ran_to, end) =
        >>=-some (run_command core call sys accessible rb fuel (pos fd) answers cmd m) _ whole in
      let made : 0 < length y.steps =
        subst (λ (x : Exit S). 0 < length x.run.steps) (sym (some-injective _ _ end)) steps in
      let checked = run_command-checked rb fuel (pos fd) answers cmd m y k ran_to made in
      let few : cmd.profile.envir.n_esids ≤ 32 =
        elim (smon_parse_input-IsRunnable getopt default_ofile cpumask count_mode argv cmd e).2 [
          | inl roof ↦ absurd (ground arith)
          | inr few ↦ few
        ] in
      set_task-Returns (pos fd) pid r cmd.profile.envir m' (ground arith) all live extra
        (λ new copied.
          subst (λ evsets. IsSound evsets new × (0 < new.n_esids)) (sym same)
            (smon_check_evsets-IsSound core call sys accessible rb library open_to (pos fd)
              cmd.profile.envir new sys.allocs.envir m checked some_sets few copied))
