-- ===== src/Rapl/Tests.antt =====
-- A package counter that wraps.
use schedmon.Prelude.{◌≡◌, arith}
use schedmon.Rapl.{Rapl, smon_rapl_sub}
use schedmon.Rapl.Energy.{after, reported, smon_rapl_sub-after}

abbrev near_top : Rapl
near_top = record { pkg = 4294967290; pp0 = 100; pp1 = 0 }

abbrev used_up : Rapl
used_up = record { pkg = 10; pp0 = 5; pp1 = 0 }

smon_rapl_sub-after_example :
    smon_rapl_sub (after near_top used_up) near_top
    ≡ record { pkg = reported 4294967290 10; pp0 = reported 100 5; pp1 = reported 0 0 }
smon_rapl_sub-after_example =
    smon_rapl_sub-after near_top used_up (omega arith) (omega arith) (omega arith)
