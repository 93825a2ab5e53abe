-- ===== src/Rapl/Energy.antt =====
-- What the difference of two readings of the 32-bit energy counters is.
use schedmon.Prelude.{ℕ, ◌+◌, ◌-◌, ◌*◌, ◌/◌, ◌%◌, ◌^◌, ◌<◌, ◌≡◌, arith}
use schedmon.Ring.Index.{u32}
use schedmon.Rapl.{Rapl, sub64, smon_rapl_sub}

-- The readings of counters that go on from `before` by `used`.
abbrev pub after : Rapl → Rapl → Rapl
after before used = record {
  pkg = (before.pkg + used.pkg) % u32;
  pp0 = (before.pp0 + used.pp0) % u32;
  pp1 = (before.pp1 + used.pp1) % u32;
}

-- What is reported for `used` from a reading of `before`: each wrap takes 2^32 off, as a 64-bit
-- pattern.
abbrev pub reported : ℕ → ℕ → ℕ
reported before used = (used + (before + used) / u32 * (2 ^ 64 - u32)) % 2 ^ 64

sub64-reported :
    (before used : ℕ) → before < u32 → sub64 ((before + used) % u32) before ≡ reported before used
unfolding sub64
sub64-reported before used p = omega arith

-- The difference of two readings, the first below 2^32, is the energy used between them, less 2^32
-- for each time that the counter, of 32 bits, wrapped, as a 64-bit number; in each of the three
-- domains, whatever was used.
pub smon_rapl_sub-after :
    (before used : Rapl)
    → before.pkg < u32
    → before.pp0 < u32
    → before.pp1 < u32
    → smon_rapl_sub (after before used) before ≡ record {
      pkg = reported before.pkg used.pkg;
      pp0 = reported before.pp0 used.pp0;
      pp1 = reported before.pp1 used.pp1;
    }
unfolding smon_rapl_sub
smon_rapl_sub-after before used a b c =
    let pkg = sub64-reported before.pkg used.pkg a in
    let pp0 = sub64-reported before.pp0 used.pp0 b in
    let pp1 = sub64-reported before.pp1 used.pp1 c in
    λ i. record { pkg = pkg i; pp0 = pp0 i; pp1 = pp1 i }
