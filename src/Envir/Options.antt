-- ===== src/Envir/Options.antt =====
-- smon_create_envir: which options a new environment has.
use schedmon.Prelude.{
  ℕ, ◌-◌, ◌<◌, ◌≡◌, ◌≢◌, refl, arith, min, true, some, bit_and, bit_at, bit_at-bit_and, bit_and-bit,
}
use schedmon.Ring.Index.{u32}
use schedmon.Envir.{
  Envir, clear, stat_mode, copy_envir, smon_create_envir, envop_inh, envop_exe, envop_rap,
  envop_cpu, envop_fork, envop_sched, envop_stat, envir_option_inherit, envir_option_exec,
  envir_option_rapl, envir_option_cpu, envir_option_fork, envir_option_sched, envir_option_stat,
}

-- What the four masks of the stat mode leave of bit `i`.
cleared_bit :
    (i x : ℕ)
    → bit_at (clear (clear (clear (clear x envop_rap) envop_cpu) envop_fork) envop_sched) i
      ≡ min
          (min
            (min
              (min (bit_at x i) (bit_at (u32 - 1 - envop_rap) i))
              (bit_at (u32 - 1 - envop_cpu) i))
            (bit_at (u32 - 1 - envop_fork) i))
          (bit_at (u32 - 1 - envop_sched) i)
cleared_bit i x = simp bit_at-bit_and

-- An option that the masks drop, and one that they keep.
module _ (x : ℕ) where
  abbrev left : ℕ
  left = clear (clear (clear (clear x envop_rap) envop_cpu) envop_fork) envop_sched

  dropped :
      (bit_and left envop_rap ≡ 0)
      × (bit_and left envop_cpu ≡ 0)
      × (bit_and left envop_fork ≡ 0)
      × (bit_and left envop_sched ≡ 0)
  dropped = (
    omega (arith, bit_and-bit 2 left, cleared_bit 2 x),
    omega (arith, bit_and-bit 3 left, cleared_bit 3 x),
    omega (arith, bit_and-bit 4 left, cleared_bit 4 x),
    omega (arith, bit_and-bit 5 left, cleared_bit 5 x),
  )

  kept :
      (bit_and left envop_inh ≡ bit_and x envop_inh)
      × (bit_and left envop_exe ≡ bit_and x envop_exe)
      × (bit_and left envop_stat ≡ bit_and x envop_stat)
  kept = (
    omega (arith, bit_and-bit 0 left, bit_and-bit 0 x, cleared_bit 0 x),
    omega (arith, bit_and-bit 1 left, bit_and-bit 1 x, cleared_bit 1 x),
    omega (arith, bit_and-bit 6 left, bit_and-bit 6 x, cleared_bit 6 x),
  )

created_stat :
    (envir : Envir) {new : Envir}
    → smon_create_envir true envir ≡ some new
    → envir_option_stat envir ≢ 0
    → new ≡ stat_mode (copy_envir envir)
unfolding smon_create_envir copy_envir envir_option_stat
created_stat envir e s = ground arith

-- In stat mode an environment that is created has one event-set, neither RAPL, migration, fork
-- nor scheduling samples, and of the options inherit, exec and stat what was asked for.
smon_create_envir-stat :
    (envir : Envir) {new : Envir}
    → smon_create_envir true envir ≡ some new
    → envir_option_stat envir ≢ 0
    → (new.n_esids ≡ 1)
      × (envir_option_rapl new ≡ 0)
      × (envir_option_cpu new ≡ 0)
      × (envir_option_fork new ≡ 0)
      × (envir_option_sched new ≡ 0)
      × (envir_option_inherit new ≡ envir_option_inherit envir)
      × (envir_option_exec new ≡ envir_option_exec envir)
      × (envir_option_stat new ≡ envir_option_stat envir)
unfolding stat_mode copy_envir envir_option_rapl envir_option_cpu envir_option_fork
    envir_option_sched envir_option_inherit envir_option_exec envir_option_stat
smon_create_envir-stat envir e s =
    let (rapl, cpu, fork, sched) = dropped envir.options in
    let (inh, exe, stat) = kept envir.options in
    rw (created_stat envir e s) (refl, rapl, cpu, fork, sched, inh, exe, stat)

-- Outside stat mode a new environment has the options and event-sets that were asked for.
pub smon_create_envir-profile :
    (envir : Envir) {new : Envir}
    → smon_create_envir true envir ≡ some new
    → envir_option_stat envir ≡ 0
    → (new.n_esids ≡ envir.n_esids) × (new.options ≡ envir.options)
unfolding smon_create_envir copy_envir envir_option_stat
smon_create_envir-profile envir e s = ground arith

-- In either mode the sample time of an environment that is created is not 0, and its one user is
-- counted.
smon_create_envir-time :
    (envir : Envir) {new : Envir}
    → smon_create_envir true envir ≡ some new
    → (0 < new.sample_time) × (new.count ≡ 1)
unfolding smon_create_envir copy_envir stat_mode
smon_create_envir-time envir e = ground arith
