-- ===== src/Profiling/Counts.antt =====
-- The counts of tool/src/profile.c: add_counts_pmc and add_counts_rapl. `pmc_counts` is an array of
-- MUX_EVSETS samples, read as a function; a place outside it is a fault. Nothing calls them yet.
use schedmon.Prelude.{
  ℕ, ◌+◌, ◌%◌, ◌^◌, ◌≡◌, ◌∙◌, arith, Bool, true, false, ◌&&◌, Option, none, some, List, [], ◌∷◌,
  ltb, ◌==◌, if◌then◌else◌, ◌>>=◌, Returns, Returns-some,
}
use schedmon.Sample.{SamplePmc, SampleRapl}
use schedmon.Task.Sampling.{add64}
use schedmon.Envir.{mux_evsets}

-- `counts[i] += ctrs[i]` for each of the counters.
unfoldable add_ctrs : List ℕ → List ℕ → List ℕ
add_ctrs (c ∷ counts) (v ∷ ctrs) = add64 c v ∷ add_ctrs counts ctrs
add_ctrs counts _ = counts

unfoldable add_pmc : SamplePmc → SamplePmc → SamplePmc
add_pmc sample count = record count {
  duration = add64 count.duration sample.duration;
  pmc = record {
    fx = add_ctrs count.pmc.fx sample.pmc.fx;
    gp = add_ctrs count.pmc.gp sample.pmc.gp;
  };
}

unfoldable add_counts_pmc : SamplePmc → (ℕ → SamplePmc) → Option (ℕ → SamplePmc)
add_counts_pmc sample counts =
    if ltb sample.evset mux_evsets
    then some (λ e. if e == sample.evset then add_pmc sample (counts e) else counts e)
    else none

unfoldable add_counts_rapl : SampleRapl → SampleRapl → SampleRapl
add_counts_rapl sample counts = record counts {
  duration = add64 counts.duration sample.duration;
  rapl = record {
    pkg = add64 counts.rapl.pkg sample.rapl.pkg;
    pp0 = add64 counts.rapl.pp0 sample.rapl.pp0;
    pp1 = add64 counts.rapl.pp1 sample.rapl.pp1;
  };
}

unfoldable add_all_pmc : List SamplePmc → (ℕ → SamplePmc) → Option (ℕ → SamplePmc)
add_all_pmc [] counts = some counts
add_all_pmc (s ∷ samples) counts =
    add_counts_pmc s counts >>= λ counts'. add_all_pmc samples counts'

abbrev all_named : List SamplePmc → Bool
all_named [] = true
all_named (s ∷ samples) = ltb s.evset mux_evsets && all_named samples

-- The durations of the samples of an event-set, together.
abbrev total : ℕ → List SamplePmc → ℕ
total e [] = 0
total e (s ∷ samples) = (if e == s.evset then s.duration else 0) + total e samples

add_pmc-total :
    (b : Bool) (s count : SamplePmc) (rest : ℕ)
    → ((if b then add_pmc s count else count).duration + rest) % 2 ^ 64
      ≡ (count.duration + ((if b then s.duration else 0) + rest)) % 2 ^ 64
unfolding add_pmc
add_pmc-total true s count rest = omega arith
add_pmc-total false s count rest = omega arith

-- Samples whose event-sets are below MUX_EVSETS are counted without a fault, and the count of each
-- event-set then lasts as long as its samples together, modulo 2^64.
add_all_pmc-total :
    (samples : List SamplePmc) (counts : ℕ → SamplePmc)
    → all_named samples ≡ true
    → Returns
        (λ counts'.
          (e : ℕ)
          → (counts' e).duration % 2 ^ 64 ≡ ((counts e).duration + total e samples) % 2 ^ 64)
        (add_all_pmc samples counts)
unfolding add_all_pmc add_counts_pmc
add_all_pmc-total [] counts h = Returns-some (λ e. omega arith)
add_all_pmc-total (s ∷ samples) counts h =
    let here : ltb s.evset mux_evsets ≡ true = ground arith in
    let rest : all_named samples ≡ true = ground arith in
    let next : ℕ → SamplePmc = λ e. if e == s.evset then add_pmc s (counts e) else counts e in
    let after = add_all_pmc-total samples next rest in
    rw here (record {
      result = after.result;
      runs = after.runs;
      holds = λ e. after.holds e ∙ add_pmc-total (e == s.evset) s (counts e) (total e samples);
    })
