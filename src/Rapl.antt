-- ===== src/Rapl.antt =====
-- driver/rapl.c: the energy counters. The instruction that reads them is a parameter; values are
-- 64-bit patterns.
pub mod Energy
pub mod Tests
use schedmon.Prelude.{ℕ, ◌+◌, ◌-◌, ◌/◌, ◌%◌, ◌^◌, Bool, true, false, bit_and, ◌==◌, if◌then◌else◌}
use schedmon.Pmc.{Cpu, msr_read}

abbrev pub msr_rapl_power_unit : ℕ
msr_rapl_power_unit = 1542

abbrev pub msr_pkg_energy_status : ℕ
msr_pkg_energy_status = 1553

abbrev pub msr_pp0_energy_status : ℕ
msr_pp0_energy_status = 1593

abbrev pub msr_pp1_energy_status : ℕ
msr_pp1_energy_status = 1601

-- `struct smon_rapl`, and the units of struct smon_sample_info.
pub record Rapl : Type 0 where
  pub pkg : ℕ
  pub pp0 : ℕ
  pub pp1 : ℕ

pub record Units : Type 0 where
  pub power_units : ℕ
  pub energy_units : ℕ
  pub time_units : ℕ

-- `1 << k` of an `int`, stored in a `long long`.
unfoldable pub shift_one : ℕ → ℕ
shift_one k = if k == 31 then 2 ^ 64 - 2 ^ 31 else 2 ^ k

unfoldable pub smon_rapl_get_info : {S : Type 0} → Cpu S → S → Units
smon_rapl_get_info cpu s =
    let units_info = msr_read cpu s msr_rapl_power_unit in
    record {
      power_units = shift_one (bit_and units_info 15);
      energy_units = shift_one (bit_and (units_info / 2 ^ 8) 31);
      time_units = shift_one (bit_and (units_info / 2 ^ 16) 15);
    }

unfoldable pub smon_rapl_read : {S : Type 0} → Cpu S → S → Rapl
smon_rapl_read cpu s = record {
  pkg = msr_read cpu s msr_pkg_energy_status;
  pp0 = msr_read cpu s msr_pp0_energy_status;
  pp1 = msr_read cpu s msr_pp1_energy_status;
}

unfoldable pub sub64 : ℕ → ℕ → ℕ
sub64 a b = (a + 2 ^ 64 - b) % 2 ^ 64

unfoldable pub smon_rapl_sub : Rapl → Rapl → Rapl
smon_rapl_sub a b = record {
  pkg = sub64 a.pkg b.pkg;
  pp0 = sub64 a.pp0 b.pp0;
  pp1 = sub64 a.pp1 b.pp1;
}
