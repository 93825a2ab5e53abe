-- ===== src/Profiling/Sampling/Delivery.antt =====
-- The sampling loop delivers what the buffer accepts, and ends when the last writer has left.
use native.Mathlib.Nat.{mod-eq_of_lt}
use schedmon.Prelude.{
  ℕ, ◌*◌, ◌%◌, ◌^◌, ◌≤◌, ◌<◌, ◌≡◌, refl, sym, ap, ◌∙◌, subst, arith, true, false, some, List, [],
  ◌∷◌, ◌++◌, length, ◌==◌, ◌>>=◌, ◌⊎◌, inl, inr, Bool-cases, append-nil, Returns, Returns-some,
  Returns-known,
}
use schedmon.Ring.Index.{page_size, u32}
use schedmon.Ring.{RingBuffer, sample_type_eof}
use schedmon.Ring.Layout.{Entry, samples}
use schedmon.Ring.Valid.{bytes_bounds}
use schedmon.Ring.Write.{Holds}
use schedmon.Reader.{Line, smon_rb_init}
use schedmon.Profiling.Sampling.{
  Act, drive, Poll, waits, stops, Session, sampling_turn, sampling_loop, start_sampling,
}
use schedmon.Profiling.Sampling.Rows.{NoEof}
use schedmon.Profiling.Sampling.Gains.{IsRuled, EofFits, ruled-May}
use schedmon.Profiling.Sampling.Going.{IsGoing, AllMay}
use schedmon.Profiling.Sampling.Turns.{IsPoll, Turn, sampling_turn-Turn}

true-ne-false : true ≡ false → ⊥
true-ne-false e = absurd (cc)

-- Each call of a list has the property in the state in which it is made.
abbrev pub AllCalls : (Act → RingBuffer → Type 0) → List Act → RingBuffer → Type 0
AllCalls P [] ring = Unit {0}
AllCalls P (a ∷ calls) ring = P a ring × AllCalls P calls (drive a ring)

AllCalls-AllMay :
    (calls : List Act) (ring : RingBuffer)
    → AllCalls IsRuled calls ring
    → AllCalls EofFits calls ring
    → AllMay calls ring
AllCalls-AllMay [] ring r f = tt
AllCalls-AllMay (a ∷ calls) ring r f =
    (ruled-May a ring r.0 f.0, AllCalls-AllMay calls (drive a ring) r.1 f.1)

module _ (pollin pollrdnorm pollhup : ℕ) (revents : ℕ → ℕ) (batch_size steps : ℕ) where
  -- Until the session ends, poll does not fail, and each call of the driver has the property.
  abbrev pub Throughout : (Act → RingBuffer → Type 0) → List Poll → Session → Type 0
  Throughout P [] s = Unit {0}
  Throughout P (stops ∷ polls) s = s.done ≡ true
  Throughout P (waits calls ∷ polls) s =
      (s.done ≡ true)
      ⊎ (AllCalls P calls s.ring
          × ((s' : Session)
              → sampling_turn pollin pollrdnorm pollhup revents batch_size steps (waits calls) s
                ≡ some s'
              → Throughout P polls s'))

  abbrev Allowed : List Poll → Session → Type 0
  Allowed [] s = Unit {0}
  Allowed (stops ∷ polls) s = s.done ≡ true
  Allowed (waits calls ∷ polls) s =
      (s.done ≡ true)
      ⊎ (AllMay calls s.ring
          × ((s' : Session)
              → sampling_turn pollin pollrdnorm pollhup revents batch_size steps (waits calls) s
                ≡ some s'
              → Allowed polls s'))

  Throughout-Allowed :
      (polls : List Poll) (s : Session)
      → Throughout IsRuled polls s
      → Throughout EofFits polls s
      → Allowed polls s
  Throughout-Allowed [] s r f = tt
  Throughout-Allowed (stops ∷ polls) s r f = r
  Throughout-Allowed (waits calls ∷ polls) s (inl over) f = inl over
  Throughout-Allowed (waits calls ∷ polls) s (inr r) (inl over) = inl over
  Throughout-Allowed (waits calls ∷ polls) s (inr r) (inr f) = inr (
    AllCalls-AllMay calls s.ring r.0 f.0,
    λ s' e. Throughout-Allowed polls s' (r.1 s' e) (f.1 s' e),
  )

module _ (pollin pollrdnorm pollhup : ℕ) (revents : ℕ → ℕ) (batch_size steps : ℕ)
    (poll : IsPoll pollin pollrdnorm pollhup revents) (before : List Line) where
  abbrev Ending : Session → Type 0
  Ending = Turn pollin pollrdnorm pollhup revents batch_size steps poll before

  sampling_loop-done :
      (polls : List Poll) (s : Session)
      → s.done ≡ true
      → sampling_loop pollin pollrdnorm pollhup revents batch_size steps polls s ≡ some s
  unfolding sampling_loop
  sampling_loop-done [] s e = refl
  sampling_loop-done (p ∷ polls) s e = rw e

  sampling_loop-open :
      (p : Poll) (polls : List Poll) (s : Session)
      → s.done ≡ false
      → s.err ≡ false
      → sampling_loop pollin pollrdnorm pollhup revents batch_size steps (p ∷ polls) s ≡ (
          sampling_turn pollin pollrdnorm pollhup revents batch_size steps p s >>= λ s'.
          sampling_loop pollin pollrdnorm pollhup revents batch_size steps polls s')
  unfolding sampling_loop
  sampling_loop-open p polls s e f = simp (e, f)

  sampling_loop-Turn :
      (polls : List Poll) {s : Session}
      → Ending s
      → Allowed pollin pollrdnorm pollhup revents batch_size steps polls s
      → Returns Ending (sampling_loop pollin pollrdnorm pollhup revents batch_size steps polls s)
  unfolding sampling_loop
  sampling_loop-Turn [] h allowed = Returns-some h
  sampling_loop-Turn (stops ∷ polls) {s} h over =
      subst (Returns Ending) (sym (sampling_loop-done (stops ∷ polls) s over)) (Returns-some h)
  sampling_loop-Turn (waits calls ∷ polls) {s} h allowed = elim (Bool-cases s.done) [
    | inl over ↦
        subst (Returns Ending) (sym (sampling_loop-done (waits calls ∷ polls) s over))
          (Returns-some h)
    | inr open_ ↦ elim allowed [
      | inl over ↦ absurd (true-ne-false (sym over ∙ open_))
      | inr a ↦
          let r =
            sampling_turn-Turn pollin pollrdnorm pollhup revents batch_size steps poll before calls
              h.0 open_ a.0 in
          subst (Returns Ending) (sym (sampling_loop-open (waits calls) polls s open_ h.0.good))
            (Returns-known _ _ r.runs (sampling_loop-Turn polls r.holds (a.1 r.result r.runs)))
    ]
  ]

-- Where the session starts: the buffer of the mapping, from which nothing is read yet, with the
-- task that has just been registered.
pub record IsStart (mmap_pages batch_size : ℕ) (ring : RingBuffer) (h : ℕ) (es : List Entry)
    : Type 0 where
  pub holds : Holds ring 0 h es
  pub pages : ring.n_pages ≡ mmap_pages
  pub counted : ring.items ≤ length (samples es)
  pub batch : ring.batch ≡ batch_size
  pub joined : 0 < ring.active
  pub few : ring.active < 2 ^ 31
  pub no_eof : NoEof (samples es)

abbrev pub first : ℕ → RingBuffer → Session
first mmap_pages ring = record {
  ring = ring;
  reader = smon_rb_init mmap_pages;
  lines = [];
  accepted = [];
  done = false;
  err = false;
}

first-IsGoing :
    {mmap_pages batch_size steps : ℕ} {ring : RingBuffer} {h : ℕ} {es : List Entry}
    → IsStart mmap_pages batch_size ring h es
    → mmap_pages * page_size ≤ steps
    → IsGoing (samples es) batch_size steps (first mmap_pages ring)
unfolding smon_rb_init
first-IsGoing {mmap_pages} {ring = ring} {h} {es} v f =
    let bytes : ring.size ≡ 2 ^ v.holds.valid.order * page_size =
      v.holds.valid.bytes ∙ ap (λ (n : ℕ). n * page_size) v.holds.valid.whole in
    let whole : mmap_pages * page_size % u32 ≡ mmap_pages * page_size = omega (
      arith,
      bytes_bounds v.holds.valid,
      v.holds.valid.bytes,
      ap (λ (n : ℕ). n * page_size) v.pages,
    ) in
    record {
      t = 0;
      h = h;
      row = es;
      holds = v.holds;
      sync = (
        v.holds.valid.order,
        v.holds.valid.whole,
        record {
          several = v.holds.valid.several;
          few = v.holds.valid.few;
          whole = sym v.pages ∙ v.holds.valid.whole;
          bytes = whole ∙ ap (λ (n : ℕ). n * page_size) (sym v.pages ∙ v.holds.valid.whole);
          cursor = sym (mod-eq_of_lt (omega (arith, bytes_bounds v.holds.valid, bytes)));
          behind = omega arith;
          used = refl;
        },
      );
      total = sym (append-nil (samples es));
      counted = v.counted;
      batch = v.batch;
      few = v.few;
      phase = inl (v.joined, v.no_eof);
      fuel = omega (arith, ap (λ (n : ℕ). n * page_size) v.pages, f);
      good = refl;
    }

-- Start with the buffer of the mapping, well formed, unread and without an EOF record, with at
-- least one task and fewer than 2^31, and with poll giving the driver's mask. Let poll not fail,
-- and the samples be of known types other than EOF and of their sizes, written while a task is
-- there; let tasks join only while another is there, and fewer than 2^31; and let the EOF record
-- of the last release find room in the buffer, which smon_release_rb does not see to. Then the
-- session delivers: it never stops with an error; it has ended exactly if no writer is left, so
-- the first poll after the last task has left ends it; what it has printed and what is left in
-- the buffer together are the samples that the buffer held and accepted, each once and in order;
-- and when it has ended only the EOF record is left. A byte of the mapping is one unit of fuel.
pub start_sampling-delivers :
    (pollin pollrdnorm pollhup : ℕ) (revents : ℕ → ℕ) (mmap_pages batch_size steps h : ℕ)
    {ring : RingBuffer} {es : List Entry} (polls : List Poll)
    → IsPoll pollin pollrdnorm pollhup revents
    → IsStart mmap_pages batch_size ring h es
    → mmap_pages * page_size ≤ steps
    → Throughout pollin pollrdnorm pollhup revents batch_size steps IsRuled polls
        (first mmap_pages ring)
    → Throughout pollin pollrdnorm pollhup revents batch_size steps EofFits polls
        (first mmap_pages ring)
    → (s : Session) × (left : List Line) × (start_sampling pollin pollrdnorm pollhup revents
          batch_size steps mmap_pages ring polls
        ≡ some s)
      × (s.err ≡ false)
      × (s.done ≡ (s.ring.active == 0))
      × (s.lines ++ left ≡ samples es ++ s.accepted)
      × ((s.done ≡ false) ⊎ (left ≡ (sample_type_eof, []) ∷ []))
unfolding start_sampling
start_sampling-delivers pollin pollrdnorm pollhup revents mmap_pages batch_size steps h {ring} {es}
      polls poll v f ruled fits =
    let g = first-IsGoing v f in
    let allowed =
      Throughout-Allowed pollin pollrdnorm pollhup revents batch_size steps polls
        (first mmap_pages ring) ruled fits in
    let live : (ring.active == 0) ≡ false = ground (arith, v.joined) in
    let r =
      sampling_loop-Turn pollin pollrdnorm pollhup revents batch_size steps poll (samples es) polls
        (g, sym live, inl refl) allowed in
    (r.result, samples r.holds.0.row, r.runs, r.holds.0.good, r.holds.1, r.holds.0.total, r.holds.2)
