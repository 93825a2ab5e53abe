-- ===== src/Task/Slices/Turns.antt =====
-- A task from one sample to the next: it runs for some slices, its sample is saved, and it is the turn
-- of the next event-set.
use native.Mathlib.Nat.{mod-add-mod, mod-eq_of_lt}
use schedmon.Prelude.{
  ℕ, suc, ◌+◌, ◌%◌, ◌<◌, ◌≡◌, refl, sym, ap, ◌∙◌, subst, arith, Option, some, List, [], ◌∷◌, length,
  ◌>>=◌, Returns, Returns-some, Returns-then, Returns-known,
}
use mathlib.Core.Option.{some-injective}
use schedmon.Ring.Index.{u32, add32}
use schedmon.Ring.{sample_type_pmc}
use schedmon.Event.{Events}
use schedmon.EvSet.{EvSet, EvSets}
use schedmon.Envir.{Envir, smon_envir_next_evset}
use schedmon.Pmc.{Cpu}
use schedmon.Task.{Task}
use schedmon.Task.Sampling.{Rbs, start_evset, stop_evset, smon_sample_save}
use schedmon.Task.Slices.{HasEvset, slices, slice, slice-HasEvset, slices-cons}
use schedmon.Sched.Safe.{IsSound, IsLive}
use schedmon.Sched.Safe.Steps.{sample_write-Returns}

next_evset :
    (envir : Envir) (id : ℕ)
    → id < envir.n_esids
    → envir.n_esids < u32
    → smon_envir_next_evset envir id ≡ some ((id + 1) % envir.n_esids)
unfolding smon_envir_next_evset
next_evset envir id p q = let exact : add32 id 1 ≡ id + 1 = omega arith in ground arith

module _ {S : Type 0} (cpu : Cpu S) (events : Events) (evsets : EvSets) (envir : Envir) where
  -- One sample for each list of slices.
  unfoldable pub samples_taken : List (List (S × ℕ × ℕ)) → Task → Rbs → Option (Task × Rbs)
  samples_taken [] task rbs = some (task, rbs)
  samples_taken (run ∷ runs) task rbs = slices cpu events evsets envir run task >>= λ task'.
      smon_sample_save envir task' rbs >>= λ saved. samples_taken runs saved.0 saved.1

  -- A run keeps the turn and the ring buffer of the task.
  abbrev SameTurn : Task → Task → Type 0
  SameTurn task task' = (task'.evset ≡ task.evset) × (task'.rb ≡ task.rb)

  slice-SameTurn :
      (evset : EvSet) (s : S) (on off : ℕ) (task : Task)
      → SameTurn task (slice cpu events evsets envir evset s on off task)
  unfolding slice start_evset stop_evset
  slice-SameTurn evset s on off task = (refl, refl)

  slices-SameTurn :
      {evset : EvSet} (run : List (S × ℕ × ℕ)) (task : Task)
      → HasEvset evsets envir task evset
      → Returns (SameTurn task) (slices cpu events evsets envir run task)
  unfolding slices
  slices-SameTurn [] task h = Returns-some (refl, refl)
  slices-SameTurn {evset} ((s, on, off) ∷ rest) task h =
      let here = slice-SameTurn evset s on off task in
      let after =
        slices-SameTurn rest (slice cpu events evsets envir evset s on off task)
          (slice-HasEvset cpu events evsets envir evset s on off task h) in
      record {
        result = after.result;
        runs = slices-cons cpu events evsets envir evset s on off rest task h ∙ after.runs;
        holds = (after.holds.0 ∙ here.0, after.holds.1 ∙ here.1);
      }

  has_evset :
      (task : Task) (sound : IsSound evsets envir) (turn : task.evset < envir.n_esids)
      → HasEvset evsets envir task (sound.named task.evset turn).evset
  has_evset task sound turn = record {
    esid = (sound.named task.evset turn).esid;
    turn = turn;
    bound = sound.bound;
    named = (sound.named task.evset turn).named;
    found = (sound.named task.evset turn).found;
  }

  sample_save-turn :
      (task : Task) (rbs : Rbs) (r : ℕ)
      → IsSound evsets envir
      → task.evset < envir.n_esids
      → task.rb ≡ some r
      → IsLive rbs r
      → Returns
          (λ saved.
            ((saved.0).evset ≡ (task.evset + 1) % envir.n_esids)
            × ((saved.0).rb ≡ some r)
            × IsLive saved.1 r)
          (smon_sample_save envir task rbs)
  unfolding smon_sample_save
  sample_save-turn task rbs r sound turn points live =
      Returns-then _ _
        (sample_write-Returns rbs task.rb sample_type_pmc _
          (λ q e. subst (IsLive rbs) (some-injective r q (sym points ∙ e)) live))
        (λ rbs' kept.
          Returns-known _ _ (next_evset envir task.evset turn sound.bound)
            (Returns-some (refl, points, kept r live)))

  -- The event-sets of an environment take turns round-robin: when all of them exist, it is the turn
  -- of a place of the environment, and the ring buffer of the task is not freed, a task runs through
  -- any number of samples, each of any slices of time, without a fault, and it is then the turn of
  -- the place that is as many places on as there were samples, counted round.
  pub samples_taken-turn :
      (runs : List (List (S × ℕ × ℕ))) (task : Task) (rbs : Rbs) (r : ℕ)
      → IsSound evsets envir
      → task.evset < envir.n_esids
      → task.rb ≡ some r
      → IsLive rbs r
      → Returns
          (λ saved. (saved.0).evset ≡ (task.evset + length runs) % envir.n_esids)
          (samples_taken runs task rbs)
  unfolding samples_taken
  samples_taken-turn [] task rbs r sound turn points live =
      let same : task.evset ≡ (task.evset + 0) % envir.n_esids =
        sym (mod-eq_of_lt turn) ∙ ap (λ x. x % envir.n_esids) (omega arith) in
      Returns-some same
  samples_taken-turn (run ∷ runs) task rbs r sound turn points live =
      Returns-then _ _ (slices-SameTurn run task (has_evset task sound turn)) (λ task' same.
        Returns-then _ _
          (sample_save-turn task' rbs r sound (omega (arith, same.0)) (same.1 ∙ points) live)
          (λ saved (next, points', live').
            let on : (saved.0).evset ≡ (task.evset + 1) % envir.n_esids =
              next ∙ ap (λ x. (x + 1) % envir.n_esids) same.0 in
            let after =
              samples_taken-turn runs saved.0 saved.1 r sound (omega (arith, on)) points' live' in
            let sum : task.evset + 1 + length runs ≡ task.evset + suc (length runs) = omega arith in
            record {
              result = after.result;
              runs = after.runs;
              holds =
                  after.holds
                  ∙ ap (λ x. (x + length runs) % envir.n_esids) on
                  ∙ mod-add-mod (task.evset + 1) envir.n_esids (length runs)
                  ∙ ap (λ x. x % envir.n_esids) sum;
            }))
