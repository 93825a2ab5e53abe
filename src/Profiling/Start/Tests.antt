-- ===== src/Profiling/Start/Tests.antt =====
-- A session whose registration the driver refuses, and a mask of processors.
use schedmon.Prelude.{◌≡◌, true, some, [], ◌∷◌, pos, negsuc}
use schedmon.Cmd.Input.{Run, cmd_stat}
use schedmon.Profiling.Start.{Answers, start_profile}
use schedmon.Profiling.Start.Resources.{allow_all, nothing_held, start_profile-holds}

abbrev run : Run
run = record {
  kind = cmd_stat;
  profile = record {
    envir = record {
      esids = pos 0 ∷ [];
      n_esids = 1;
      sample_time = 10;
      batch_size = 1;
      options = 66;
      count = 0;
    };
    cpumask = 5;
    mmap_pages = 8;
    out_file = 100 ∷ [];
    eflag = 1;
  };
  argindex = 4;
  count_mode = 0;
}

abbrev not_registered : Answers
not_registered = record {
  mkstemp = true;
  fopen = true;
  sem_open = true;
  fork = pos 77;
  addr = pos 4096;
  set_task = negsuc 0;
}

start_profile-holds_example :
    allow_all (start_profile not_registered run).0 nothing_held
    ≡ some (record nothing_held {
      descriptor = true;
      sem = true;
      handler = true;
      file = true;
      child = true;
      killed = true;
    })
start_profile-holds_example = start_profile-holds not_registered run
