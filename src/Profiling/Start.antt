-- ===== src/Profiling/Start.antt =====
-- start_profile and smon_set_affinity of tool/src/profile.c: the calls that the tool makes, in order,
-- as the answers of the system and of the driver have it. The child is a process of its own.
pub mod Resources
pub mod Affinity
pub mod Tests
use schedmon.Prelude.{
  ℕ, zero, suc, ◌+◌, ◌*◌, ◌^◌, Bool, true, false, not, Option, none, some, List, [], ◌∷◌, ◌++◌,
  bit_and, ltb, ◌==◌, if◌then◌else◌, ℤ, pos, negsuc,
}
use schedmon.Ring.Index.{page_size}
use schedmon.Driver.{is_zero}
use schedmon.Cmd.Input.{Run, cmd_roof}

-- A call of the parent. Calls that fail and change nothing are among them: `name_fails`,
-- `open_fails`, `sem_fails`, `fork_fails`, `map_fails` and `set_fails`. `names` is mkstemp, which
-- opens a descriptor; `opens_sem` and `closes_sem` are sem_open and sem_close; `handles_sigint` is
-- the call of signal.
pub data Step : Type 0 where
  names name_fails opens_sem sem_fails closes_sem handles_sigint : Step
  opens closes : List ℕ → Step
  open_fails fork_fails map_fails set_fails : Step
  forks kills reaps : ℕ → Step
  maps unmaps : ℕ → Step
  sets unsets : ℕ → Step
  posts samples : Step
  parses_roof parses_prof : List ℕ → Step

-- What mkstemp, fopen, sem_open, fork, smon_mmap and smon_set_task give; the results of mkstemp and
-- sem_open are not looked at.
pub record Answers : Type 0 where
  pub mkstemp : Bool
  pub fopen : Bool
  pub sem_open : Bool
  pub fork : ℤ
  pub addr : ℤ
  pub set_task : ℤ

-- `addr == MAP_FAILED`, which is the address -1.
abbrev pub is_map_failed : ℤ → Bool
is_map_failed (pos n) = false
is_map_failed (negsuc n) = n == 0

-- fclose and the script that reads the output file.
unfoldable pub end_profile : Run → List Step
end_profile cmd =
    closes cmd.profile.out_file
    ∷ (if cmd.kind == cmd_roof
        then parses_roof cmd.profile.out_file
        else parses_prof cmd.profile.out_file)
    ∷ []

-- The parent after fork; `pid` is the child's.
unfoldable pub parent_profile : Answers → Run → ℕ → List Step × ℤ
parent_profile a cmd pid =
    let length = cmd.profile.mmap_pages * page_size in
    if is_map_failed a.addr
    then (map_fails ∷ kills pid ∷ reaps pid ∷ [], pos 1)
    else if not (is_zero a.set_task)
    then (maps length ∷ set_fails ∷ kills pid ∷ unmaps length ∷ [], a.set_task)
    else (
      maps length
          ∷ sets pid
          ∷ posts
          ∷ closes_sem
          ∷ samples
          ∷ reaps pid
          ∷ unsets pid
          ∷ unmaps length
          ∷ end_profile cmd,
      pos 0,
    )

abbrev pub preceded : List Step → List Step × ℤ → List Step × ℤ
preceded steps (more, ret) = (steps ++ more, ret)

-- mkstemp, and sem_open.
abbrev pub name_step : Answers → Step
name_step a = if a.mkstemp then names else name_fails

abbrev pub sem_step : Answers → Step
sem_step a = if a.sem_open then opens_sem else sem_fails

-- The parent's calls and result; a pid of 0 is the child, which never returns.
unfoldable pub start_profile : Answers → Run → List Step × ℤ
start_profile a cmd =
    if not a.fopen then (name_step a ∷ open_fails ∷ [], negsuc 0) else elim a.fork [
      | pos pid ↦
          preceded
            (name_step a
              ∷ opens cmd.profile.out_file
              ∷ sem_step a
              ∷ forks pid
              ∷ handles_sigint
              ∷ [])
            (parent_profile a cmd pid)
      | negsuc n ↦ (
        name_step a ∷ opens cmd.profile.out_file ∷ sem_step a ∷ fork_fails ∷ end_profile cmd,
        pos 1,
      )
    ]

-- The processors of a mask, which CPU_SET puts into an empty set: bits `i` up to `i + n`.
unfoldable pub cpu_set : ℕ → ℕ → ℕ → List ℕ
cpu_set cpumask i zero = []
cpu_set cpumask i (suc n) =
    let rest = cpu_set cpumask (suc i) n in if bit_and cpumask (2 ^ i) == 0 then rest else i ∷ rest

-- The result, of what sched_setaffinity gives for the set.
unfoldable pub smon_set_affinity : (List ℕ → ℤ) → ℕ → ℤ
smon_set_affinity sched_setaffinity cpumask =
    if cpumask == 0
    then pos 0
    else if is_zero (sched_setaffinity (cpu_set cpumask 0 32))
    then pos 0
    else pos 1

-- A call of the child, which waits for the semaphore and closes it; execv comes back only with an
-- error.
pub data ChildStep : Type 0 where
  changes_dir waits_for_parent closes_child_sem executes exits : ChildStep
  binds : List ℕ → ChildStep

unfoldable pub child_profile : Bool → Run → List ChildStep
child_profile execv cmd =
    changes_dir
      ∷ (if ltb 0 cmd.profile.cpumask then binds (cpu_set cmd.profile.cpumask 0 32) ∷ [] else [])
    ++ waits_for_parent ∷ closes_child_sem ∷ executes ∷ (if execv then [] else exits ∷ [])
