-- ===== src/Sched/Count/Samples.antt =====
-- What samples do to the counts, and to the pointers of a task: nothing.
use schedmon.Prelude.{
  ℕ, ◌≡◌, refl, arith, Option, none, some, List, Ends, Ends-bind, Ends-some, Ends-elim, deref,
  get_elem?, to_u32, pos,
}
use schedmon.Ring.{
  RingBuffer, sample_type_pmc, smon_rb_write, write_sized, put_record, put_on_next_page,
  smon_rb_stuff_page,
}
use schedmon.Task.{Task}
use schedmon.Task.Sampling.{
  Rbs, smon_sample_write, smon_sample_save, smon_sample_start, smon_sample_stop, start_evset,
  stop_evset,
}
use schedmon.Event.{Events}
use schedmon.EvSet.{EvSets, smon_get_evset}
use schedmon.Envir.{Envir, smon_envir_get_evset, smon_envir_next_evset}
use schedmon.Pmc.{Cpu}
use schedmon.Sched.Count.{IsEven, KeepsRefs, holds, IsEven-refl, store-IsEven}

pub smon_rb_write-active :
    (rb : RingBuffer) (type : ℕ) (sample : List ℕ)
    → (smon_rb_write rb type sample).active ≡ rb.active
unfolding smon_rb_write write_sized put_record put_on_next_page smon_rb_stuff_page
smon_rb_write-active rb type sample = ground arith

pub sample_write-IsEven :
    (ts : List (Option Task)) (rbs : Rbs) (r : Option ℕ) (type : ℕ) (sample : List ℕ)
    → Ends
        (λ rbs'. IsEven (λ rb. rb.active) holds rbs rbs' ts ts)
        (smon_sample_write rbs r type sample)
unfolding smon_sample_write
sample_write-IsEven ts rbs none type sample = Ends-some (IsEven-refl rbs ts)
sample_write-IsEven ts rbs (some r) type sample = Ends-bind (deref rbs r) _ (λ rb h.
    Ends-some (
      store-IsEven rbs ts r (smon_rb_write rb type sample) h (smon_rb_write-active rb type sample)))

pub sample_save-IsEven :
    (ts : List (Option Task)) (envir : Envir) (task : Task) (rbs : Rbs)
    → Ends
        (λ saved. KeepsRefs task saved.0 × IsEven (λ rb. rb.active) holds rbs saved.1 ts ts)
        (smon_sample_save envir task rbs)
unfolding smon_sample_save
sample_save-IsEven ts envir task rbs =
    Ends-bind (smon_sample_write rbs task.rb sample_type_pmc _) _ (λ rbs' h.
      Ends-bind (smon_envir_next_evset envir task.evset) _ (λ next k.
        Ends-some
          ((refl, refl), (sample_write-IsEven ts rbs task.rb sample_type_pmc _).holds rbs' h)))

module _ {S : Type 0} (cpu : Cpu S) where
  pub sample_start-refs :
      (events : Events) (evsets : EvSets) (tsc : ℕ) (envir : Envir) (task : Task) (s : S)
      → Ends
          (λ started. KeepsRefs task started.0)
          (smon_sample_start cpu events evsets tsc envir task s)
  unfolding smon_sample_start start_evset
  sample_start-refs events evsets tsc envir task s =
      Ends-bind (get_elem? envir.esids task.evset) _ (λ esid h.
        Ends-elim (smon_get_evset evsets (to_u32 esid)) _ _ (Ends-some (refl, refl))
          (λ evset k. Ends-some (refl, refl)))

  pub sample_stop-refs :
      (evsets : EvSets) (tsc : ℕ) (envir : Envir) (task : Task) (s : S)
      → Ends (λ stopped. KeepsRefs task stopped.0) (smon_sample_stop cpu evsets tsc envir task s)
  unfolding smon_sample_stop stop_evset
  sample_stop-refs evsets tsc envir task s =
      Ends-bind (smon_envir_get_evset evsets envir (pos task.evset)) _
        (λ evset h. Ends-some (refl, refl))
