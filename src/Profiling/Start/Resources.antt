-- ===== src/Profiling/Start/Resources.antt =====
-- What start_profile holds: the descriptor of mkstemp, the output file, the semaphore, the child, the
-- handler of SIGINT, the mapping and the registration.
use schedmon.Prelude.{
  ◌≡◌, arith, Bool, true, false, not, ◌&&◌, ◌||◌, Option, none, some, List, [], ◌∷◌, if◌then◌else◌,
  pos, negsuc, ◌>>=◌,
}
use schedmon.Driver.{is_zero}
use schedmon.Cmd.Input.{Run}
use schedmon.Profiling.Start.{
  Step, names, name_fails, opens_sem, sem_fails, closes_sem, handles_sigint, opens, closes,
  open_fails, fork_fails, map_fails, set_fails, forks, kills, reaps, maps, unmaps, sets, unsets,
  posts, samples, parses_roof, parses_prof, Answers, is_map_failed, end_profile, parent_profile,
  start_profile,
}

-- `killed` and `started` are of the child: it runs only once it has been posted.
pub record Held : Type 0 where
  pub descriptor : Bool
  pub sem : Bool
  pub handler : Bool
  pub file : Bool
  pub child : Bool
  pub started : Bool
  pub killed : Bool
  pub mapping : Bool
  pub task : Bool

abbrev pub nothing_held : Held
nothing_held = record {
  descriptor = false;
  sem = false;
  handler = false;
  file = false;
  child = false;
  started = false;
  killed = false;
  mapping = false;
  task = false;
}

abbrev only_if : Bool → Held → Option Held
only_if b h = if b then some h else none

-- When a call may be made, and what is held then; a child is waited for only if it ends: by a
-- signal, or having been started. Samples are read, and the child started, only while it is
-- monitored and the buffer is mapped; a semaphore that sem_open did not give is not used.
abbrev pub allow : Step → Held → Option Held
allow (opens f) h = only_if (not h.file) (record h { file = true })
allow (closes f) h = only_if h.file (record h { file = false })
allow names h = only_if (not h.descriptor) (record h { descriptor = true })
allow name_fails h = some h
allow opens_sem h = only_if (not h.sem) (record h { sem = true })
allow sem_fails h = some h
allow closes_sem h = only_if h.sem (record h { sem = false })
allow handles_sigint h = only_if h.child (record h { handler = true })
allow open_fails h = some h
allow fork_fails h = some h
allow map_fails h = some h
allow set_fails h = some h
allow (forks pid) h = only_if (not h.child) (record h { child = true })
allow (kills pid) h = only_if h.child (record h { killed = true })
allow (reaps pid) h =
    if h.killed
    then some (record h { child = false; started = false; killed = false })
    else only_if h.started (record h { child = false; started = false })
allow (maps n) h = only_if (not h.mapping) (record h { mapping = true })
allow (unmaps n) h = only_if (h.mapping && not h.task) (record h { mapping = false })
allow (sets pid) h = only_if (h.child && h.mapping && not h.task) (record h { task = true })
allow (unsets pid) h = only_if h.task (record h { task = false })
allow posts h = only_if (h.child && h.task && h.sem) (record h { started = true })
allow samples h = only_if (h.started && h.task && h.mapping && h.file) h
allow (parses_roof f) h = only_if (not h.file) h
allow (parses_prof f) h = only_if (not h.file) h

abbrev pub allow_all : List Step → Held → Option Held
allow_all [] h = some h
allow_all (s ∷ steps) h = allow s h >>= λ h'. allow_all steps h'

-- The parent has a child to go on with.
abbrev pub forked : Answers → Bool
forked a = a.fopen && elim a.fork [ pos pid ↦ true | negsuc n ↦ false ]

abbrev pub map_failed : Answers → Bool
map_failed a = forked a && is_map_failed a.addr

abbrev pub refused : Answers → Bool
refused a = forked a && (not (is_map_failed a.addr) && not (is_zero a.set_task))

abbrev pub runs_program : Answers → Bool
runs_program a = forked a && (not (is_map_failed a.addr) && is_zero a.set_task)

-- start_profile makes its calls in an order in which each may be made, whatever the system and the
-- driver answer, unless it gets to start the program with a semaphore that sem_open did not give,
-- whose result it does not test: the program starts, and samples are read, only while its task is
-- registered and the buffer mapped, and a script reads the output file only once it is closed. At
-- the end neither the mapping nor the registration is held. The descriptor that mkstemp opened is
-- still held, and the semaphore unless the program was started; the handler of SIGINT stays once
-- there was a child. If the mapping fails, the output file stays open; and if the registration
-- fails, so does it, and the child is killed and not waited for.
pub start_profile-holds :
    (a : Answers) (cmd : Run)
    → allow_all (start_profile a cmd).0 nothing_held ≡ (
        if runs_program a && not a.sem_open
        then none
        else some (record nothing_held {
          descriptor = a.mkstemp;
          sem = a.fopen && (a.sem_open && not (runs_program a));
          handler = forked a;
          file = map_failed a || refused a;
          child = refused a;
          killed = refused a;
        }))
unfolding start_profile parent_profile end_profile
start_profile-holds a cmd = ground arith
