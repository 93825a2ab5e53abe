-- ===== src/Device/Tests.antt =====
-- The device file at a buffer with one sample, and at a mapping of four pages.
use schedmon.Prelude.{◌≡◌, arith, ltb, ◌==◌, ◌&&◌, if◌then◌else◌, bit_or, some}
use schedmon.Ring.{Pages}
use schedmon.Reader.Tests.{ring, ring-Holds}
use schedmon.Device.{smon_poll}
use schedmon.Device.Laws.{smon_poll-Holds}

smon_poll-Holds_example : smon_poll 1 64 16 (some ring) ≡ (
    if 0 == ring.active
    then if 0 == 20 && ltb ring.items ring.batch then 0 else 16
    else if ltb ring.items ring.batch
    then 0
    else bit_or 1 64)
smon_poll-Holds_example = smon_poll-Holds 1 64 16 ring-Holds (omega arith)

abbrev zeros : Pages
zeros p o = 0
