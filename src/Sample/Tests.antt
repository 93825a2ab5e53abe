-- ===== src/Sample/Tests.antt =====
-- A migration sample.
use schedmon.Prelude.{◌≡◌, refl, arith, some, ℕ, List, [], ◌∷◌, length}
use schedmon.Ring.{sample_size, sample_type_cpu}
use schedmon.Sample.{SampleCpu, cpu_bytes, fprint_sample_cpu}
use schedmon.Sample.Printed.{cpu, printed-bytes}

abbrev moved : SampleCpu
moved = record { timestamp = 5000000000; pid = 4242; old_cpu = 3; new_cpu = 0 }

abbrev padding_seen : List ℕ
padding_seen = 17 ∷ 0 ∷ 255 ∷ 136 ∷ []

printed-bytes_example :
    (fprint_sample_cpu (cpu_bytes padding_seen moved) ≡ 5000000000 ∷ 4242 ∷ 3 ∷ 0 ∷ [])
    × (sample_size sample_type_cpu ≡ some (length (cpu_bytes padding_seen moved)))
printed-bytes_example =
    printed-bytes (cpu padding_seen moved)
      (omega arith, omega arith, omega arith, omega arith, refl)
