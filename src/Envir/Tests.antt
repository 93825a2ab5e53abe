-- ===== src/Envir/Tests.antt =====
-- Environments at concrete options.
use schedmon.Prelude.{◌-◌, ◌≡◌, ◌≢◌, refl, arith, true, some, none, [], ◌∷◌, pos}
use schedmon.Envir.{Envir, smon_create_envir, envir_option_stat, copy_envir, stat_mode}
use schedmon.Envir.Cycle.{releases, releases-count}

-- All seven options, two event-sets.
abbrev asked : Envir
asked = record {
  esids = pos 0 ∷ pos 1 ∷ [];
  n_esids = 2;
  sample_time = 0;
  batch_size = 64;
  options = 127;
  count = 0;
}

abbrev made : Envir
made = record {
  esids = pos 0 ∷ pos 1 ∷ [];
  n_esids = 1;
  sample_time = 10;
  batch_size = 64;
  options = 67;
  count = 1;
}

asked-made : smon_create_envir true asked ≡ some made
unfolding smon_create_envir copy_envir stat_mode envir_option_stat
asked-made = refl

asked_stat : envir_option_stat asked ≢ 0
unfolding envir_option_stat
asked_stat = ground arith

abbrev shared : Envir
shared = record asked { count = 3 }

releases-count_example :
    (releases 2 shared ≡ some (record shared { count = 3 - 2 })) × (releases 3 shared ≡ none)
releases-count_example = releases-count 2 2 shared refl (omega arith) (omega arith)
