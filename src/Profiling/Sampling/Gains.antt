-- ===== src/Profiling/Sampling/Gains.antt =====
-- What a call of the driver does to a buffer with a queue of samples.
use schedmon.Prelude.{
  ℕ, ◌+◌, ◌^◌, ◌≤◌, ◌<◌, ◌≡◌, refl, sym, ap, ◌∙◌, subst, arith, Bool, true, false, some, List, [],
  ◌∷◌, ◌++◌, length, ◌==◌, if◌then◌else◌, ◌⊎◌, inl, inr, append-nil, Bool-cases,
}
use schedmon.Ring.Index.{sub32}
use schedmon.Ring.{
  RingBuffer, header_size, sample_size, sample_type_eof, smon_rb_write, smon_rb_write_eof,
  smon_get_rb, smon_release_rb, smon_rb_stuff_page,
}
use schedmon.Ring.Layout.{Entry, samples}
use schedmon.Ring.Write.{
  Holds, accepts, accepts-has_room, IsCounted, smon_rb_write-IsCounted, smon_rb_write-offers, offer,
  sample_size_bounds,
}
use schedmon.Ring.Create.{smon_release_rb-offers, smon_release_rb-others, Holds-active, eof_sized}
use schedmon.Reader.{Line}
use schedmon.Profiling.Sampling.{Act, writes, joins, leaves, drive, gained}
use schedmon.Profiling.Sampling.Rows.{NoEof, EndsEof, NoEof-snoc, EndsEof-snoc}

-- While there are writers no EOF is in the queue, and once there are none left it ends with one.
abbrev pub IsPhase : ℕ → List Line → Type 0
IsPhase active queue = ((0 < active) × NoEof queue) ⊎ ((active ≡ 0) × EndsEof queue)

-- What the driver's other parts keep to: samples are of a type other than EOF and have its size, they
-- are written while a task is there, a task joins while another is there, with fewer than 2^31 then,
-- and it is one that is there that leaves.
unfoldable pub IsRuled : Act → RingBuffer → Type 0
IsRuled (writes kind sample) ring =
    (0 < ring.active)
    × (sample_size kind ≡ some (length sample))
    × ((kind == sample_type_eof) ≡ false)
IsRuled joins ring = (0 < ring.active) × (ring.active + 1 < 2 ^ 31)
IsRuled leaves ring = 0 < ring.active

-- If the call is the last release, there is room for its EOF record.
unfoldable pub EofFits : Act → RingBuffer → Type 0
EofFits (writes kind sample) ring = Unit {0}
EofFits joins ring = Unit {0}
EofFits leaves ring = (1 < ring.active) ⊎ (accepts ring header_size ≡ true)

-- Both.
unfoldable pub May : Act → RingBuffer → Type 0
May (writes kind sample) ring =
    (0 < ring.active)
    × (sample_size kind ≡ some (length sample))
    × ((kind == sample_type_eof) ≡ false)
May joins ring = (0 < ring.active) × (ring.active + 1 < 2 ^ 31)
May leaves ring = (0 < ring.active) × ((1 < ring.active) ⊎ (accepts ring header_size ≡ true))

pub ruled-May : (a : Act) (ring : RingBuffer) → IsRuled a ring → EofFits a ring → May a ring
unfolding IsRuled EofFits May
ruled-May (writes kind sample) ring r f = r
ruled-May joins ring r f = r
ruled-May leaves ring r f = (r, f)

pub record Gains (ring : RingBuffer) (t : ℕ) (queue : List Line) (gain : List Line)
    (out : RingBuffer) : Type 0 where
  pub head : ℕ
  pub row : List Entry
  pub holds : Holds out t head row
  pub queued : samples row ≡ queue ++ gain
  pub n_pages : out.n_pages ≡ ring.n_pages
  pub batch : out.batch ≡ ring.batch
  pub items : out.items ≤ ring.items + length gain
  pub few : out.active < 2 ^ 31
  pub phase : IsPhase out.active (samples row)

offer-gain :
    (room : Bool) (queue : List Line) (item : Line)
    → offer room queue item ≡ queue ++ (if room then item ∷ [] else [])
offer-gain true queue item = refl
offer-gain false queue item = sym (append-nil queue)

counted-gain :
    (taken : Bool) {ring out : RingBuffer} (item : Line)
    → IsCounted ring taken out
    → out.items ≤ ring.items + length (if taken then item ∷ [] else [])
counted-gain true item c = omega (arith, c.items)
counted-gain false item c = omega (arith, c.items)

NoEof-gain :
    (taken : Bool) (queue : List Line) (kind : ℕ) (sample : List ℕ)
    → NoEof queue
    → (kind == sample_type_eof) ≡ false
    → NoEof (queue ++ (if taken then (kind, sample) ∷ [] else []))
NoEof-gain true queue kind sample h k = NoEof-snoc queue kind sample h k
NoEof-gain false queue kind sample h k = subst NoEof (sym (append-nil queue)) h

accepts-active :
    (ring : RingBuffer) (active n : ℕ)
    → accepts (record ring { active = active }) n ≡ accepts ring n
unfolding accepts smon_rb_stuff_page
accepts-active ring active n = refl

running : (active : ℕ) (queue : List Line) → IsPhase active queue → 0 < active → NoEof queue
running active queue (inl p) h = p.1
running active queue (inr p) h = absurd (omega (arith, p.0))

release-IsCounted :
    (ring : RingBuffer)
    → ring.active ≡ 1
    → accepts ring header_size ≡ true
    → IsCounted (record ring { active = 0 }) true (smon_release_rb ring)
unfolding smon_release_rb smon_rb_write_eof
release-IsCounted ring one taken =
    let gone : sub32 ring.active 1 ≡ 0 = omega arith in
    let c = smon_rb_write-IsCounted (record ring { active = 0 }) sample_type_eof [] eof_sized in
    let counted =
      subst
        (λ b.
          IsCounted (record ring { active = 0 }) b
            (smon_rb_write (record ring { active = 0 }) sample_type_eof []))
        (accepts-active ring 0 header_size ∙ taken) c in
    rw gone (record {
      items = counted.items;
      batch = counted.batch;
      active = counted.active;
      n_pages = counted.n_pages;
    })

module _ {ring : RingBuffer} {t h : ℕ} {es : List Entry} (v : Holds ring t h es)
    (few : ring.active < 2 ^ 31) (phase : IsPhase ring.active (samples es)) where
  writes-Gains :
      (kind : ℕ) (sample : List ℕ)
      → May (writes kind sample) ring
      → Gains ring t
          (samples es)
          (gained (writes kind sample) ring)
          (drive (writes kind sample) ring)
  unfolding May gained drive
  writes-Gains kind sample (open_, sized, other) =
      let (h', es', v', q) = smon_rb_write-offers kind sample v sized in
      let c = smon_rb_write-IsCounted ring kind sample sized in
      let taken : Bool = accepts ring (length sample + header_size) in
      let room =
        accepts-has_room (length sample) v (sample_size_bounds kind (length sample) sized).0 in
      let queued : samples es' ≡ samples es ++ (if taken then (kind, sample) ∷ [] else []) =
        q
        ∙ ap (λ b. offer b (samples es) (kind, sample)) room
        ∙ offer-gain taken (samples es) (kind, sample) in
      record {
        head = h';
        row = es';
        holds = v';
        queued = queued;
        n_pages = c.n_pages;
        batch = c.batch;
        items = counted-gain taken (kind, sample) c;
        few = omega (arith, c.active, few);
        phase = inl (
          omega (arith, c.active, open_),
          subst NoEof (sym queued)
              (NoEof-gain taken (samples es) kind sample (running _ _ phase open_) other),
        );
      }

  joins-Gains : May joins ring → Gains ring t (samples es) [] (smon_get_rb ring)
  unfolding May smon_get_rb
  joins-Gains (open_, more) = record {
    head = h;
    row = es;
    holds = Holds-active _ v;
    queued = sym (append-nil (samples es));
    n_pages = refl;
    batch = refl;
    items = omega arith;
    few = omega (arith, more);
    phase = inl (omega (arith, more), running _ _ phase open_);
  }

  leaves-others : 1 < ring.active → Gains ring t (samples es) [] (smon_release_rb ring)
  leaves-others more = rw (smon_release_rb-others ring more (omega (arith, few))) (record {
    head = h;
    row = es;
    holds = Holds-active (sub32 ring.active 1) v;
    queued = sym (append-nil (samples es));
    n_pages = refl;
    batch = refl;
    items = omega arith;
    few = omega (arith, more);
    phase = inl (omega (arith, more), running _ _ phase (omega (arith, more)));
  })

  leaves-last :
      ring.active ≡ 1
      → accepts ring header_size ≡ true
      → Gains ring t (samples es) ((sample_type_eof, []) ∷ []) (smon_release_rb ring)
  leaves-last one taken =
      let (h', es', v', q) = smon_release_rb-offers v one in
      let room = accepts-has_room 0 v (omega arith) ∙ taken in
      let queued : samples es' ≡ samples es ++ (sample_type_eof, []) ∷ [] =
        q ∙ ap (λ b. offer b (samples es) (sample_type_eof, [])) room in
      let c = release-IsCounted ring one taken in
      record {
        head = h';
        row = es';
        holds = v';
        queued = queued;
        n_pages = c.n_pages;
        batch = c.batch;
        items = omega (arith, c.items);
        few = omega (arith, c.active);
        phase = inr (
          omega (arith, c.active),
          subst EndsEof (sym queued) (EndsEof-snoc (samples es) (running _ _ phase (omega arith))),
        );
      }

  -- Every call that the driver may make gives the queue what it gains.
  pub drive-Gains :
      (a : Act) → May a ring → Gains ring t (samples es) (gained a ring) (drive a ring)
  unfolding May gained drive
  drive-Gains (writes kind sample) m = writes-Gains kind sample m
  drive-Gains joins m = joins-Gains m
  drive-Gains leaves (open_, m) = elim (Bool-cases (ring.active == 1)) [
    | inl one ↦ elim m [
      | inl more ↦ absurd (ground arith)
      | inr taken ↦ rw (one, taken) (leaves-last (ground arith) taken)
    ]
    | inr others ↦ rw others (leaves-others (ground arith))
  ]
