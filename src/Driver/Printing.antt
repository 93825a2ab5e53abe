-- ===== src/Driver/Printing.antt =====
-- local_print_event and local_print_evset of tool/src/driver.c: the numbers of a line, beside the tag.
use schedmon.Prelude.{
  ℕ, ◌+◌, ◌*◌, ◌/◌, ◌%◌, ◌^◌, ◌<◌, ◌≡◌, refl, ap, ◌∙◌, arith, some, List, [], ◌∷◌, take, bit_and,
  bit_or, bit_and-mask, bit_and-shifted, bit_or-join, bit_or_comm, bit_or-zero, bit_or-high, ◌==◌,
  if◌then◌else◌, Bool-cases, inl, inr, ℤ,
}
use schedmon.Event.{Event}
use schedmon.EvSet.{EvSet}
use schedmon.Cmd.{
  event_add_tag, event_add_mode, event_add_evsel, event_add_umask, add_event, scan_event, end_event,
  select,
}

-- The id, the event select, the unit mask, the mode and the whole register; an `unsigned int` each.
unfoldable pub local_print_event : Event → ℕ → List ℕ
local_print_event event i =
    i
    ∷ bit_and event.perfevtsel 255
    ∷ (bit_and event.perfevtsel (255 * 2 ^ 8) / 2 ^ 8)
    ∷ (bit_and event.perfevtsel (15 * 2 ^ 16) / 2 ^ 16)
    ∷ (event.perfevtsel % 2 ^ 32)
    ∷ []

-- The id, the fixed counters and the events.
unfoldable pub local_print_evset : EvSet → ℕ → ℕ × ℕ × List ℤ
local_print_evset evset i = (i, bit_and evset.fixed_ctrl 4095, evset.evids)

-- A register with these parts: mode with the enable bit, mask and select.
abbrev pub register : ℕ → ℕ → ℕ → ℕ
register evsel umask mode = mode * 2 ^ 16 + (umask * 2 ^ 8 + evsel)

printed-parts :
    (tag : List ℕ) (i evsel umask mode : ℕ)
    → evsel < 256
    → umask < 256
    → mode < 128
    → local_print_event (record { tag = tag; perfevtsel = register evsel umask mode }) i
      ≡ i ∷ evsel ∷ umask ∷ (mode % 16) ∷ register evsel umask mode ∷ []
unfolding local_print_event
printed-parts tag i evsel umask mode e u m =
    let x : ℕ = register evsel umask mode in
    let low : bit_and x 255 ≡ evsel = bit_and-mask 8 x ∙ omega arith in
    let mid : bit_and x (255 * 2 ^ 8) / 2 ^ 8 ≡ umask =
      ap (λ (y : ℕ). y / 2 ^ 8)
        (bit_and-shifted 8 x 255 ∙ ap (λ (y : ℕ). y * 2 ^ 8) (bit_and-mask 8 (x / 2 ^ 8)))
      ∙ omega arith in
    let high : bit_and x (15 * 2 ^ 16) / 2 ^ 16 ≡ mode % 16 =
      ap (λ (y : ℕ). y / 2 ^ 16)
        (bit_and-shifted 16 x 15 ∙ ap (λ (y : ℕ). y * 2 ^ 16) (bit_and-mask 4 (x / 2 ^ 16)))
      ∙ omega arith in
    let whole : x % 2 ^ 32 ≡ x = omega arith in λ j. i ∷ low j ∷ mid j ∷ high j ∷ whole j ∷ []

-- The register that scan_event builds from the three options.
built :
    (evsel umask mode : ℕ)
    → bit_or
        (bit_or
          (bit_or (bit_or 0 (bit_and evsel 255)) (bit_and umask 255 * 2 ^ 8))
          (bit_and mode 3 * 2 ^ 16))
        (2 ^ 22)
      ≡ register (evsel % 256) (umask % 256) (64 + mode % 4)
built evsel umask mode =
    let e : bit_and evsel 255 ≡ evsel % 256 = bit_and-mask 8 evsel in
    let u : bit_and umask 255 ≡ umask % 256 = bit_and-mask 8 umask in
    let m : bit_and mode 3 ≡ mode % 4 = bit_and-mask 2 mode in
    let step1 : bit_or 0 (evsel % 256) ≡ evsel % 256 =
      bit_or_comm 0 (evsel % 256) ∙ bit_or-zero (evsel % 256) in
    let step2 : bit_or (evsel % 256) (umask % 256 * 2 ^ 8) ≡ umask % 256 * 2 ^ 8 + evsel % 256 =
      bit_or_comm (evsel % 256) (umask % 256 * 2 ^ 8)
      ∙ bit_or-join 8 (umask % 256) (evsel % 256) (omega arith) in
    let low : ℕ = umask % 256 * 2 ^ 8 + evsel % 256 in
    let step3 : bit_or low (mode % 4 * 2 ^ 16) ≡ mode % 4 * 2 ^ 16 + low =
      bit_or_comm low (mode % 4 * 2 ^ 16) ∙ bit_or-join 16 (mode % 4) low (omega arith) in
    let mid : ℕ = mode % 4 * 2 ^ 16 + low in
    let step4 : bit_or mid (1 * 2 ^ 22) ≡ 1 * 2 ^ 22 + mid =
      bit_or_comm mid (1 * 2 ^ 22) ∙ bit_or-join 22 1 mid (omega arith) in
    rw (e, u, m, step1, step2, step3) (step4 ∙ omega arith)

defaulted :
    (evsel umask : ℕ)
    → bit_or (register (evsel % 256) (umask % 256) 64) (3 * 2 ^ 16)
      ≡ register (evsel % 256) (umask % 256) 67
defaulted evsel umask = bit_or-high 16 64 3 (umask % 256 * 2 ^ 8 + evsel % 256) (omega arith)

no_mode :
    (evsel umask mode : ℕ)
    → (bit_and (register (evsel % 256) (umask % 256) (64 + mode % 4)) (3 * 2 ^ 16) == 0)
      ≡ (mode % 4 == 0)
no_mode evsel umask mode =
    let x : ℕ = register (evsel % 256) (umask % 256) (64 + mode % 4) in
    let bits : bit_and x (3 * 2 ^ 16) ≡ mode % 4 * 2 ^ 16 =
      bit_and-shifted 16 x 3
      ∙ ap (λ (y : ℕ). y * 2 ^ 16) (bit_and-mask 2 (x / 2 ^ 16))
      ∙ omega arith in
    ground (arith, bits)

-- An event added with `tag=`, `evsel=`, `umask=` and `mode=`, once each and in this order, is printed
-- with the select, the mask and the mode that were given, each cut to its bits; a mode of 0 is
-- printed as the default, 3.
pub local_print_event-add_event :
    (tag : List ℕ) (evsel umask mode i : ℕ)
    → (event : Event) × (add_event (
          event_add_tag tag
          ∷ event_add_evsel evsel
          ∷ event_add_umask umask
          ∷ event_add_mode mode
          ∷ [])
        ≡ some event)
      × (take 4 (local_print_event event i)
          ≡ i ∷ evsel % 256 ∷ umask % 256 ∷ (if mode % 4 == 0 then 3 else mode % 4) ∷ [])
unfolding add_event scan_event end_event select
local_print_event-add_event tag evsel umask mode i =
    let made = built evsel umask mode in
    let test = no_mode evsel umask mode in
    elim (Bool-cases (mode % 4 == 0)) [
      | inl zero_mode ↦
          let none_given : mode % 4 ≡ 0 = ground arith in
          rw (made, test, zero_mode, none_given, defaulted evsel umask)
            (
              _,
              refl,
              ap (take 4) (
                  printed-parts (take 63 tag) i (evsel % 256) (umask % 256) 67 (omega arith)
                    (omega arith) (omega arith)),
            )
      | inr given ↦
          rw (made, test, given)
            (
              _,
              refl,
              ap (take 4) (
                    printed-parts (take 63 tag) i (evsel % 256) (umask % 256) (64 + mode % 4)
                      (omega arith) (omega arith) (omega arith))
                  ∙ ap (λ (k : ℕ). i ∷ evsel % 256 ∷ umask % 256 ∷ k ∷ []) (omega arith),
            )
    ]
