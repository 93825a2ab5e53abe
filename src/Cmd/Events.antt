-- ===== src/Cmd/Events.antt =====
-- `smon event -a`: which events it accepts, and what they count.
use schedmon.Prelude.{
  ℕ, suc, ◌+◌, ◌*◌, ◌^◌, ◌≤◌, ◌≡◌, arith, max, none, some, List, [], ◌∷◌, bit_and, bit_or, bit_at,
  bit_at-bit_or, bit_at-le, bit_and-mask, ◌↔◌, Option-cases, inl, inr,
}
use schedmon.Event.{Event}
use schedmon.Cmd.{
  EventOpt, event_add_tag, event_add_mode, event_add_evsel, event_add_umask, event_bad, EventScan,
  select, scan_event, no_event, end_event, add_event,
}

-- Whether a mode is given.
abbrev pub has_mode : List EventOpt → ℕ
has_mode [] = 0
has_mode (event_add_tag val ∷ opts) = has_mode opts
has_mode (event_add_mode val ∷ opts) = 1
has_mode (event_add_evsel val ∷ opts) = has_mode opts
has_mode (event_add_umask val ∷ opts) = has_mode opts
has_mode (event_bad ∷ opts) = has_mode opts

has_mode-le : (opts : List EventOpt) → has_mode opts ≤ 1
has_mode-le [] = omega arith
has_mode-le (event_add_tag val ∷ opts) = has_mode-le opts
has_mode-le (event_add_mode val ∷ opts) = omega arith
has_mode-le (event_add_evsel val ∷ opts) = has_mode-le opts
has_mode-le (event_add_umask val ∷ opts) = has_mode-le opts
has_mode-le (event_bad ∷ opts) = has_mode-le opts

-- Bit 22 of the bits that a suboption sets.
bits_evsel : (val : ℕ) → bit_at (bit_and val 255) 22 ≡ 0
bits_evsel val = omega (arith, bit_and-mask 8 val)

bits_umask : (val : ℕ) → bit_at (bit_and val 255 * 2 ^ 8) 22 ≡ 0
bits_umask val = omega (arith, bit_and-mask 8 val)

bits_mode : (val : ℕ) → bit_at (bit_and val 3 * 2 ^ 16) 22 ≡ 0
bits_mode val = omega (arith, bit_and-mask 2 val)

scan_event-enabled :
    (opts : List EventOpt) (s : EventScan) {r : EventScan}
    → scan_event s opts ≡ some r
    → bit_at r.event.perfevtsel 22 ≡ max (bit_at s.event.perfevtsel 22) (has_mode opts)
unfolding scan_event select
scan_event-enabled [] s e = grind (arith, bit_at-le s.event.perfevtsel 22)
scan_event-enabled (event_add_tag val ∷ opts) s e = scan_event-enabled opts _ e
scan_event-enabled (event_add_mode val ∷ opts) s e = omega (
  arith,
  scan_event-enabled opts _ e,
  bits_mode val,
  bit_at-bit_or (bit_or s.event.perfevtsel (bit_and val 3 * 2 ^ 16)) (2 ^ 22) 22,
  bit_at-bit_or s.event.perfevtsel (bit_and val 3 * 2 ^ 16) 22,
  bit_at-le s.event.perfevtsel 22,
  has_mode-le opts,
)
scan_event-enabled (event_add_evsel val ∷ opts) s e = omega (
  arith,
  scan_event-enabled opts _ e,
  bits_evsel val,
  bit_at-bit_or s.event.perfevtsel (bit_and val 255) 22,
)
scan_event-enabled (event_add_umask val ∷ opts) s e = omega (
  arith,
  scan_event-enabled opts _ e,
  bits_umask val,
  bit_at-bit_or s.event.perfevtsel (bit_and val 255 * 2 ^ 8) 22,
)
scan_event-enabled (event_bad ∷ opts) s e = ground arith

end_event-enabled :
    (s : EventScan) {e : Event}
    → end_event s ≡ some e
    → bit_at e.perfevtsel 22 ≡ bit_at s.event.perfevtsel 22
unfolding end_event select
end_event-enabled s h = ground (arith, bit_at-bit_or s.event.perfevtsel (3 * 2 ^ 16) 22)

-- An event that the command accepts has its enable bit set exactly when a mode was given: the
-- default, user and kernel mode, leaves it off.
pub add_event-enabled :
    (opts : List EventOpt) {e : Event}
    → add_event opts ≡ some e
    → bit_at e.perfevtsel 22 ≡ has_mode opts
unfolding add_event
add_event-enabled opts {e} h = elim (Option-cases (scan_event no_event opts)) [
  | inl n ↦ ground arith
  | inr (s, q) ↦ omega (
    arith,
    scan_event-enabled opts no_event q,
    end_event-enabled s {e = e} (ground arith),
    has_mode-le opts,
  )
]

-- How often a suboption is given.
abbrev pub tags : List EventOpt → ℕ
tags [] = 0
tags (event_add_tag val ∷ opts) = suc (tags opts)
tags (event_add_mode val ∷ opts) = tags opts
tags (event_add_evsel val ∷ opts) = tags opts
tags (event_add_umask val ∷ opts) = tags opts
tags (event_bad ∷ opts) = tags opts

abbrev pub evsels : List EventOpt → ℕ
evsels [] = 0
evsels (event_add_tag val ∷ opts) = evsels opts
evsels (event_add_mode val ∷ opts) = evsels opts
evsels (event_add_evsel val ∷ opts) = suc (evsels opts)
evsels (event_add_umask val ∷ opts) = evsels opts
evsels (event_bad ∷ opts) = evsels opts

abbrev pub umasks : List EventOpt → ℕ
umasks [] = 0
umasks (event_add_tag val ∷ opts) = umasks opts
umasks (event_add_mode val ∷ opts) = umasks opts
umasks (event_add_evsel val ∷ opts) = umasks opts
umasks (event_add_umask val ∷ opts) = suc (umasks opts)
umasks (event_bad ∷ opts) = umasks opts

scan_event-counts :
    (opts : List EventOpt) (s : EventScan) {r : EventScan}
    → scan_event s opts ≡ some r
    → (r.ftag ≡ s.ftag + tags opts)
      × (r.fevsel ≡ s.fevsel + evsels opts)
      × (r.fumask ≡ s.fumask + umasks opts)
unfolding scan_event
scan_event-counts [] s e = (grind arith, grind arith, grind arith)
scan_event-counts (event_add_tag val ∷ opts) s e =
    let (a, b, c) = scan_event-counts opts _ e in (omega arith, b, c)
scan_event-counts (event_add_mode val ∷ opts) s e = scan_event-counts opts _ e
scan_event-counts (event_add_evsel val ∷ opts) s e =
    let (a, b, c) = scan_event-counts opts _ e in (a, omega arith, c)
scan_event-counts (event_add_umask val ∷ opts) s e =
    let (a, b, c) = scan_event-counts opts _ e in (a, b, omega arith)
scan_event-counts (event_bad ∷ opts) s e = ground arith

-- The test that tag, evsel and umask were given is on the bits of how often each was: a command
-- line without unknown suboptions is refused exactly when the three counts have no bit in common.
pub add_event-none_iff :
    (opts : List EventOpt) {s : EventScan}
    → scan_event no_event opts ≡ some s
    → (add_event opts ≡ none) ↔ (bit_and (bit_and (tags opts) (evsels opts)) (umasks opts) ≡ 0)
unfolding add_event end_event
add_event-none_iff opts {s} e =
    let (a, b, c) = scan_event-counts opts no_event e in
    let tag : tags opts ≡ s.ftag = omega arith in
    let evsel : evsels opts ≡ s.fevsel = omega arith in
    let umask : umasks opts ≡ s.fumask = omega arith in
    rw (add_event, e, tag, evsel, umask) (λ h. ground arith, λ h. ground arith)
