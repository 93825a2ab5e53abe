-- ===== src/Cmd/Enabled.antt =====
-- `smon evset -a`: which general-purpose counters an event-set turns on.
use schedmon.Prelude.{
  ℕ, zero, suc, ◌+◌, ◌-◌, ◌<◌, ◌≡◌, refl, ap, ◌∙◌, arith, Bool, true, false, not, ◌==◌, none, some,
  List, [], ◌∷◌, ◌++◌, length, replicate, get_elem?, if◌then◌else◌, bit_and, bit_at, Option-cases,
  inl, inr, ℤ, negsuc, is_neg, subst,
}
use schedmon.EvSet.{EvSet, max_gp_ctrs}
use schedmon.Cmd.{
  EvsetOpt, evset_add_tag, evset_add_events, evset_add_fixed, evset_bad, EvsetScan, padded, set_ids,
  enable_fixed, set_fixed, scan_evset, no_evset, add_evset,
}
use schedmon.Cmd.Sets.{uses, enable_ids-uses, bit_at-zero, bit_at-pow, fixed_other}

abbrev pub event_lists : List EvsetOpt → ℕ
event_lists [] = 0
event_lists (evset_add_tag val ∷ opts) = event_lists opts
event_lists (evset_add_events ids ∷ opts) = suc (event_lists opts)
event_lists (evset_add_fixed val ∷ opts) = event_lists opts
event_lists (evset_bad ∷ opts) = event_lists opts

-- The ids of the first list of events of a command line.
abbrev pub events_given : List EvsetOpt → List ℤ
events_given [] = []
events_given (evset_add_tag val ∷ opts) = events_given opts
events_given (evset_add_events ids ∷ opts) = ids
events_given (evset_add_fixed val ∷ opts) = events_given opts
events_given (evset_bad ∷ opts) = events_given opts

-- The id at place `j` of a list, which is -1 behind its end.
abbrev pub id_at : List ℤ → ℕ → ℤ
id_at ids j = elim (get_elem? ids j) [ none ↦ negsuc 0 | some e ↦ e ]

-- An event-set has the ids in its first places and -1 in the others of the four, and the counters
-- of the ids that are not negative.
pub record HasIds (ids : List ℤ) (j : ℕ) (s : EvSet) : Type 0 where
  pub enabled : bit_at s.global_ctrl j ≡ (if is_neg (id_at ids j) then 0 else 1)
  pub event : get_elem? s.evids j ≡ some (id_at ids j)

uses-id_at :
    (ids : List ℤ) (i j k : ℕ) → i + k ≡ j → uses i ids j ≡ (if is_neg (id_at ids k) then 0 else 1)
uses-id_at [] i j k e = refl
uses-id_at (x ∷ ids) i j zero e =
    let here : (i == j) ≡ true = ground arith in
    let past = uses-past ids (suc i) j (omega arith) in
    rw here (negated (is_neg x) (uses (suc i) ids j) past)
  where
    uses-past : (ids : List ℤ) (i j : ℕ) → j < i → uses i ids j ≡ 0
    uses-past [] i j h = refl
    uses-past (x ∷ ids) i j h =
        let off : (i == j) ≡ false = ground arith in rw off (uses-past ids (suc i) j (omega arith))

    negated : (b : Bool) (n : ℕ) → n ≡ 0 → (if not b then 1 else n) ≡ (if b then 0 else 1)
    negated true n e = e
    negated false n e = refl
uses-id_at (x ∷ ids) i j (suc k) e =
    let off : (i == j) ≡ false = ground arith in rw off (uses-id_at ids (suc i) j k (omega arith))

id_at-replicate : (n j : ℕ) → j < n → get_elem? (replicate n (negsuc 0)) j ≡ some (negsuc 0)
id_at-replicate zero j h = absurd (omega arith)
id_at-replicate (suc n) zero h = refl
id_at-replicate (suc n) (suc j) h = id_at-replicate n j (omega arith)

-- The ids filled up with -1.
id_at-fill :
    (ids : List ℤ) (n j : ℕ)
    → j < length ids + n
    → get_elem? (ids ++ replicate n (negsuc 0)) j ≡ some (id_at ids j)
id_at-fill [] n j h = id_at-replicate n j (omega arith)
id_at-fill (x ∷ ids) n zero h = refl
id_at-fill (x ∷ ids) n (suc j) h = id_at-fill ids n j (omega arith)

id_at-padded :
    (ids : List ℤ) (j : ℕ) → j < max_gp_ctrs → get_elem? (padded ids) j ≡ some (id_at ids j)
unfolding padded
id_at-padded ids j h = id_at-fill ids (max_gp_ctrs - length ids) j (omega arith)

uses-padded :
    (ids : List ℤ) (j : ℕ)
    → j < max_gp_ctrs
    → uses 0 (padded ids) j ≡ (if is_neg (id_at ids j) then 0 else 1)
uses-padded ids j h =
    uses-id_at (padded ids) 0 j j (omega arith)
    ∙ ap (λ o. if is_neg (elim o [ none ↦ negsuc 0 | some e ↦ e ]) then 0 else 1)
        (id_at-padded ids j h)

set_fixed-low :
    (val : ℕ) (s : EvSet) (j : ℕ)
    → j < max_gp_ctrs
    → bit_at (set_fixed val s).global_ctrl j ≡ bit_at s.global_ctrl j
unfolding set_fixed
set_fixed-low val s j h =
    let tmp : ℕ = bit_and val 819 in
    let g0 : ℕ = enable_fixed tmp 3 32 s.global_ctrl in
    let g1 : ℕ = enable_fixed tmp 48 33 g0 in
    fixed_other tmp g1 768 34 j (bit_at-pow 34 j ∙ ground arith)
    ∙ (fixed_other tmp g0 48 33 j (bit_at-pow 33 j ∙ ground arith)
        ∙ fixed_other tmp s.global_ctrl 3 32 j (bit_at-pow 32 j ∙ ground arith))

set_ids-HasIds :
    (ids : List ℤ) (s : EvsetScan) (j : ℕ)
    → j < max_gp_ctrs
    → bit_at s.evset.global_ctrl j ≡ 0
    → HasIds ids j (set_ids ids s).evset
unfolding set_ids
set_ids-HasIds ids s j h z = record {
  enabled =
      omega (arith, enable_ids-uses 0 (padded ids) s.evset.global_ctrl j) ∙ uses-padded ids j h;
  event = id_at-padded ids j h;
}

set_fixed-HasIds :
    (ids : List ℤ) (val : ℕ) (s : EvSet) (j : ℕ)
    → j < max_gp_ctrs
    → HasIds ids j s
    → HasIds ids j (set_fixed val s)
unfolding set_fixed
set_fixed-HasIds ids val s j h a = record {
  enabled = set_fixed-low val s j h ∙ a.enabled;
  event = a.event;
}

module _ (j : ℕ) (h : j < max_gp_ctrs) where
  -- Without further event lists, the ids and their counters stay.
  scan_evset-rest :
      (ids : List ℤ) (opts : List EvsetOpt) (s : EvsetScan) {r : EvsetScan}
      → scan_evset s opts ≡ some r
      → event_lists opts ≡ 0
      → HasIds ids j s.evset
      → HasIds ids j r.evset
  unfolding scan_evset
  scan_evset-rest ids [] s {r} e n a =
      let same : s.evset ≡ r.evset = ground arith in subst (HasIds ids j) same a
  scan_evset-rest ids (evset_add_tag val ∷ opts) s e n a =
      scan_evset-rest ids opts _ e n (record { enabled = a.enabled; event = a.event })
  scan_evset-rest ids (evset_add_events is ∷ opts) s e n a = absurd (omega arith)
  scan_evset-rest ids (evset_add_fixed val ∷ opts) s e n a =
      scan_evset-rest ids opts _ e n (set_fixed-HasIds ids val s.evset j h a)
  scan_evset-rest ids (evset_bad ∷ opts) s e n a = absurd (ground arith)

  scan_evset-one :
      (opts : List EvsetOpt) (s : EvsetScan) {r : EvsetScan}
      → scan_evset s opts ≡ some r
      → event_lists opts ≡ 1
      → bit_at s.evset.global_ctrl j ≡ 0
      → HasIds (events_given opts) j r.evset
  unfolding scan_evset
  scan_evset-one [] s e n a = absurd (omega arith)
  scan_evset-one (evset_add_tag val ∷ opts) s e n a = scan_evset-one opts _ e n a
  scan_evset-one (evset_add_events [] ∷ opts) s e n a = absurd (ground arith)
  scan_evset-one (evset_add_events (i ∷ is) ∷ opts) s {r} e n a =
      scan_evset-rest (i ∷ is) opts (set_ids (i ∷ is) s) {r = r} (ground arith) (omega arith)
        (set_ids-HasIds (i ∷ is) s j h a)
  scan_evset-one (evset_add_fixed val ∷ opts) s e n a =
      scan_evset-one opts _ e n (set_fixed-low val s.evset j h ∙ a)
  scan_evset-one (evset_bad ∷ opts) s e n a = absurd (ground arith)

-- An event-set accepted with one list of events has, at each of its four places, the id that the
-- list gives there, or -1 behind the end of the list, and enables the general-purpose counter of
-- that place exactly if the id is not negative.
pub add_evset-HasIds :
    (opts : List EvsetOpt) {s : EvSet} (j : ℕ)
    → add_evset opts ≡ some s
    → event_lists opts ≡ 1
    → j < max_gp_ctrs
    → HasIds (events_given opts) j s
unfolding add_evset
add_evset-HasIds opts {s} j e n h = elim (Option-cases (scan_evset no_evset opts)) [
  | inl n ↦ absurd (ground arith)
  | inr (r, q) ↦
      let same : r.evset ≡ s = ground arith in
      subst (HasIds (events_given opts) j) same
        (scan_evset-one j h opts no_evset q n (bit_at-zero j))
]
