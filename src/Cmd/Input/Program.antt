-- ===== src/Cmd/Input/Program.antt =====
-- The program that a command line names.
use mathlib.Core.Option
use mathlib.Core.Option.{some-injective}
use Prim.Native.String.{String}
use text.Mathlib.Text as Text
use schedmon.Prelude.{
  ℕ, suc, ◌+◌, ◌≤◌, ◌<◌, ◌≡◌, refl, subst, ap, arith, Bool, true, false, Option, none, some, List,
  [], ◌∷◌, length, get_elem?, ltb, if◌then◌else◌, ◌||◌, >>=-some, get_elem?-some, inl, inr,
  Option-cases, ◌⊎◌,
}
use schedmon.Cmd.{parse_event, parse_evset}
use schedmon.Cmd.Profile.{Profile, ProfileOpt, parse_profile, scan_profile, profile_defaults}
use schedmon.Cmd.Profile.Bounds.{parse_profile-IsProfile}
use schedmon.Cmd.Stat.{parse_stat, parse_stat-one}
use schedmon.Cmd.Roof.{Roof, parse_roof}
use schedmon.Cmd.Input.{
  cmd_roof, Run, SmonCmd, event_cmd, evset_cmd, run_cmd, Input, parsed, usage, unknown, rejected,
  from_parser, Getopt, profile_cmd, stat_cmd, roof_cmd, smon_parse_input,
}

-- What is parsed, if anything is, has the property.
record AllParsed (P : SmonCmd → Type 0) (i : Input) : Type 0 where
  pub holds : (c : SmonCmd) → i ≡ parsed c → P c

parsed-injective : (a b : SmonCmd) → parsed a ≡ parsed b → a ≡ b
parsed-injective a b e =
    ap (λ i. elim i [ parsed c ↦ c | usage ↦ a | unknown ↦ a | rejected ↦ a ]) e

module _ (P : SmonCmd → Type 0) where
  AllParsed-if :
      (b : Bool) (i j : Input) → AllParsed P i → AllParsed P j → AllParsed P (if b then i else j)
  AllParsed-if true i j h k = h
  AllParsed-if false i j h k = k

  AllParsed-from :
      (o : Option SmonCmd) → ((c : SmonCmd) → o ≡ some c → P c) → AllParsed P (from_parser o)
  unfolding from_parser
  AllParsed-from none h = record { holds = λ c e. absurd (cc) }
  AllParsed-from (some d) h = record { holds = λ c e. subst P (parsed-injective d c e) (h d refl) }

  AllParsed-usage : AllParsed P usage
  AllParsed-usage = record { holds = λ c e. absurd (cc) }

  AllParsed-unknown : AllParsed P unknown
  AllParsed-unknown = record { holds = λ c e. absurd (cc) }

-- A command that runs a program has it in the command line, and a profile or stat at most 32
-- event-sets.
abbrev pub IsRunnable : List String → Run → Type 0
IsRunnable argv r =
    (0 < r.argindex)
    × ((program : String) × (get_elem? argv r.argindex ≡ some program))
    × ((r.kind ≡ cmd_roof) ⊎ (r.profile.envir.n_esids ≤ 32))

abbrev IsRunnableCmd : List String → SmonCmd → Type 0
IsRunnableCmd argv (run_cmd r) = IsRunnable argv r
IsRunnableCmd argv (event_cmd c) = Unit {0}
IsRunnableCmd argv (evset_cmd c) = Unit {0}

word_at :
    (program : String) (argv : List String) (i : ℕ)
    → ltb i (length argv) ≡ true
    → (word : String) × (get_elem? (program ∷ argv) (i + 1) ≡ some word)
word_at program argv i h =
    let (word, e) = get_elem?-some argv i (ground arith) in
    let next : suc i ≡ i + 1 = omega arith in
    (word, subst (λ k. get_elem? (program ∷ argv) k ≡ some word) next e)

parse_profile-prog :
    (prog : Bool) (file : List ℕ) (opts : List ProfileOpt) {c : Profile}
    → parse_profile prog file opts ≡ some c
    → prog ≡ true
unfolding parse_profile
parse_profile-prog prog file opts e =
    elim (Option-cases (scan_profile (profile_defaults file) opts)) [
      | inl n ↦ absurd (ground arith)
      | inr (r, q) ↦ ground arith
    ]

parse_roof-prog :
    (prog : Bool) (cpumask : ℕ) (file : List ℕ) (opts : List ProfileOpt) {c : Roof}
    → parse_roof prog cpumask file opts ≡ some c
    → prog ≡ true
unfolding parse_roof
parse_roof-prog prog cpumask file opts e = ground arith

module _ (getopt : Getopt) (default_ofile : List ℕ) (cpumask count_mode : ℕ) (program : String)
    (argv : List String) where
  profile_cmd-IsRunnable :
      (c : SmonCmd)
      → profile_cmd getopt default_ofile cpumask count_mode argv ≡ some c
      → IsRunnableCmd (program ∷ argv) c
  unfolding profile_cmd
  profile_cmd-IsRunnable c e =
      let (opts, optind) = getopt.profile argv in
      let (r, p, q) = >>=-some (parse_profile (ltb optind (length argv)) default_ofile opts) _ e in
      subst (IsRunnableCmd (program ∷ argv)) (some-injective _ _ q) (
        omega arith,
        word_at program argv optind (parse_profile-prog _ default_ofile opts p),
        inr (parse_profile-IsProfile _ default_ofile opts p).few,
      )

  stat_cmd-IsRunnable :
      (c : SmonCmd)
      → stat_cmd getopt default_ofile cpumask count_mode argv ≡ some c
      → IsRunnableCmd (program ∷ argv) c
  unfolding stat_cmd
  stat_cmd-IsRunnable c e =
      let (opts, optind) = getopt.stat argv in
      let (r, p, q) =
        >>=-some (parse_stat (ltb optind (length argv)) cpumask default_ofile opts) _ e in
      let (prog, one) = parse_stat-one _ cpumask default_ofile opts p in
      subst (IsRunnableCmd (program ∷ argv)) (some-injective _ _ q)
        (omega arith, word_at program argv optind prog, inr (omega (arith, one)))

  roof_cmd-IsRunnable :
      (c : SmonCmd)
      → roof_cmd getopt default_ofile cpumask count_mode argv ≡ some c
      → IsRunnableCmd (program ∷ argv) c
  unfolding roof_cmd
  roof_cmd-IsRunnable c e =
      let (opts, optind) = getopt.roof argv in
      let (r, p, q) =
        >>=-some (parse_roof (ltb optind (length argv)) cpumask default_ofile opts) _ e in
      subst (IsRunnableCmd (program ∷ argv)) (some-injective _ _ q) (
        omega arith,
        word_at program argv optind (parse_roof-prog _ cpumask default_ofile opts p),
        inl refl,
      )

map-event :
    {A : Type 0} (f : A → SmonCmd) (P : SmonCmd → Type 0) (o : Option A)
    → ((a : A) → P (f a))
    → (c : SmonCmd) → Option.map f o ≡ some c
    → P c
map-event f P none h c e = absurd (cc)
map-event f P (some a) h c e = subst P (some-injective _ _ e) (h a)

module _ (getopt : Getopt) (default_ofile : List ℕ) (cpumask count_mode : ℕ) where
  smon_parse_input-AllParsed :
      (argv : List String)
      → AllParsed
          (IsRunnableCmd argv)
          (smon_parse_input getopt default_ofile cpumask count_mode argv)
  unfolding smon_parse_input
  smon_parse_input-AllParsed [] = AllParsed-usage _
  smon_parse_input-AllParsed (program ∷ []) = AllParsed-usage _
  smon_parse_input-AllParsed (program ∷ word ∷ args) =
      let P = IsRunnableCmd (program ∷ word ∷ args) in
      let event = parse_event (getopt.event (program ∷ word ∷ args)) in
      let evset = parse_evset (getopt.evset (program ∷ word ∷ args)) in
      let profile =
        profile_cmd-IsRunnable getopt default_ofile cpumask count_mode program (word ∷ args) in
      let stat =
        stat_cmd-IsRunnable getopt default_ofile cpumask count_mode program (word ∷ args) in
      let roof =
        roof_cmd-IsRunnable getopt default_ofile cpumask count_mode program (word ∷ args) in
      AllParsed-if P (Text.◌==◌ word "event") _ _
        (AllParsed-from P _ (map-event event_cmd P event (λ a. tt)))
        (AllParsed-if P (Text.◌==◌ word "evset") _ _
          (AllParsed-from P _ (map-event evset_cmd P evset (λ a. tt)))
          (AllParsed-if P (Text.◌==◌ word "profile") _ _ (AllParsed-from P _ profile) (
            AllParsed-if P (Text.◌==◌ word "stat") _ _ (AllParsed-from P _ stat) (
              AllParsed-if P (Text.◌==◌ word "roof") _ _ (AllParsed-from P _ roof) (
                AllParsed-if P (Text.◌==◌ word "help" || Text.◌==◌ word "--help") _ _
                  (AllParsed-usage P) (AllParsed-unknown P))))))

  -- When smon_parse_input accepts a command that runs a program, the command line has a word at the
  -- place that main takes the program from, after the tool's own name; and a profile or stat has at
  -- most 32 event-sets.
  pub smon_parse_input-IsRunnable :
      (argv : List String) (r : Run)
      → smon_parse_input getopt default_ofile cpumask count_mode argv ≡ parsed (run_cmd r)
      → IsRunnable argv r
  smon_parse_input-IsRunnable argv r e = (smon_parse_input-AllParsed argv).holds (run_cmd r) e
