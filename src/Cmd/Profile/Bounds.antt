-- ===== src/Cmd/Profile/Bounds.antt =====
-- What a `smon profile` that is accepted asks of the driver.
use schedmon.Prelude.{
  ℕ, zero, suc, ◌-◌, ◌≤◌, ◌<◌, ◌≡◌, refl, subst, arith, Bool, true, false, some, List, [], ◌∷◌,
  ◌++◌, length, length-append, replicate, bit_at, bit_at-bit_or, bit_at-le, ltb, if◌then◌else◌, ℤ,
  negsuc, is_neg, Bool-cases, Option-cases, inl, inr,
}
use schedmon.Envir.{mux_evsets, envop_inh, envop_rap, envop_cpu, envop_fork, envop_sched}
use schedmon.Cmd.Sets.{length-replicate}
use schedmon.Cmd.Profile.{
  ProfileOpt, opt_b, opt_c, opt_p, opt_t, opt_e, opt_f, opt_i, opt_m, opt_r, opt_s, opt_unknown,
  opt_o, Profile, default_mmap_pages, default_burst, esid_out_of_range, collect, set_esids,
  add_option, mmap_case, scan_profile, profile_defaults, parse_profile,
}

-- The first `n` ids name places of the table of event-sets.
abbrev pub AllIn : ℕ → List ℤ → Type 0
AllIn zero es = Unit {0}
AllIn (suc n) [] = Unit {0}
AllIn (suc n) (e ∷ es) = (esid_out_of_range e ≡ false) × (is_neg e ≡ false) × AllIn n es

pub record IsProfile (c : Profile) : Type 0 where
  pub few : c.envir.n_esids ≤ mux_evsets
  pub whole : length c.envir.esids ≡ mux_evsets
  pub within : AllIn c.envir.n_esids c.envir.esids
  pub batch : 0 < c.envir.batch_size
  pub pages : mmap_case c.mmap_pages ≡ true
  pub on_exec : bit_at c.envir.options 1 ≡ 1

AllIn-snoc :
    (es : List ℤ) (e : ℤ)
    → AllIn (length es) es
    → esid_out_of_range e ≡ false
    → is_neg e ≡ false
    → AllIn (length (es ++ e ∷ [])) (es ++ e ∷ [])
AllIn-snoc [] e a p q = (p, q, tt)
AllIn-snoc (x ∷ es) e (r, s, a) p q = (r, s, AllIn-snoc es e a p q)

AllIn-append : (es fs : List ℤ) → AllIn (length es) es → AllIn (length es) (es ++ fs)
AllIn-append [] fs a = tt
AllIn-append (e ∷ es) fs (p, q, a) = (p, q, AllIn-append es fs a)

collect-AllIn :
    (es stored : List ℤ) {r : List ℤ}
    → collect stored es ≡ some r
    → length stored ≤ mux_evsets
    → AllIn (length stored) stored
    → (length r ≤ mux_evsets) × AllIn (length r) r
unfolding collect
collect-AllIn [] stored {r} c h a =
    let same : stored ≡ r = ground arith in
    subst (λ r. (length r ≤ mux_evsets) × AllIn (length r) r) same (h, a)
collect-AllIn (e ∷ es) stored {r} c h a = elim (Bool-cases (is_neg e)) [
  | inl n ↦ let left : collect stored es ≡ some r = ground arith in collect-AllIn es stored left h a
  | inr n ↦
      let inside : esid_out_of_range e ≡ false = ground arith in
      let left : collect (stored ++ e ∷ []) es ≡ some r = ground arith in
      let room : length (stored ++ e ∷ []) ≤ mux_evsets =
        ground (arith, length-append stored (e ∷ [])) in
      collect-AllIn es (stored ++ e ∷ []) left room (AllIn-snoc stored e a inside n)
]

set_esids-IsProfile :
    (esids : List ℤ) (c : Profile)
    → length esids ≤ mux_evsets
    → AllIn (length esids) esids
    → IsProfile c
    → IsProfile (set_esids esids c)
unfolding set_esids
set_esids-IsProfile esids c h a v = record {
  few = h;
  whole = omega (
    arith,
    length-append esids (replicate (mux_evsets - length esids) (negsuc 0)),
    length-replicate (mux_evsets - length esids) (negsuc 0),
  );
  within = AllIn-append esids (replicate (mux_evsets - length esids) (negsuc 0)) a;
  batch = v.batch;
  pages = v.pages;
  on_exec = v.on_exec;
}

add_option-IsProfile : (op : ℕ) (c : Profile) → IsProfile c → IsProfile (add_option op c)
unfolding add_option
add_option-IsProfile op c v = record {
  few = v.few;
  whole = v.whole;
  within = v.within;
  batch = v.batch;
  pages = v.pages;
  on_exec = omega (arith, bit_at-bit_or c.envir.options op 1, bit_at-le op 1, v.on_exec);
}

batched : (tmp : ℕ) → 0 < (if ltb 0 tmp then tmp else default_burst)
batched tmp = ground arith

default_paged : mmap_case default_mmap_pages ≡ true
unfolding mmap_case
default_paged = refl

paged : (tmp : ℕ) → mmap_case (if mmap_case tmp then tmp else default_mmap_pages) ≡ true
paged tmp = elim (Bool-cases (mmap_case tmp)) [ inl e ↦ rw e e | inr e ↦ rw e default_paged ]

scan_profile-IsProfile :
    (opts : List ProfileOpt) (c : Profile) {r : Profile}
    → scan_profile c opts ≡ some r
    → IsProfile c
    → IsProfile r
unfolding scan_profile
scan_profile-IsProfile [] c {r} e v = let same : c ≡ r = ground arith in subst IsProfile same v
scan_profile-IsProfile (opt_b tmp ∷ opts) c e v = scan_profile-IsProfile opts _ e record {
  few = v.few;
  whole = v.whole;
  within = v.within;
  batch = batched tmp;
  pages = v.pages;
  on_exec = v.on_exec;
}
scan_profile-IsProfile (opt_c tmp ∷ opts) c e v = scan_profile-IsProfile opts _ e record {
  few = v.few;
  whole = v.whole;
  within = v.within;
  batch = v.batch;
  pages = v.pages;
  on_exec = v.on_exec;
}
scan_profile-IsProfile (opt_p tmp ∷ opts) c e v = scan_profile-IsProfile opts _ e record {
  few = v.few;
  whole = v.whole;
  within = v.within;
  batch = v.batch;
  pages = paged tmp;
  on_exec = v.on_exec;
}
scan_profile-IsProfile (opt_t tmp ∷ opts) c e v = scan_profile-IsProfile opts _ e record {
  few = v.few;
  whole = v.whole;
  within = v.within;
  batch = v.batch;
  pages = v.pages;
  on_exec = v.on_exec;
}
scan_profile-IsProfile (opt_o file ∷ opts) c e v = scan_profile-IsProfile opts _ e record {
  few = v.few;
  whole = v.whole;
  within = v.within;
  batch = v.batch;
  pages = v.pages;
  on_exec = v.on_exec;
}
scan_profile-IsProfile (opt_e [] ∷ opts) c e v = absurd (ground arith)
scan_profile-IsProfile (opt_e (i ∷ is) ∷ opts) c {r} e v =
    elim (Option-cases (collect [] (i ∷ is))) [
      | inl n ↦ absurd (ground arith)
      | inr (esids, q) ↦
          let left : scan_profile (set_esids esids c) opts ≡ some r = ground arith in
          let (few, inside) = collect-AllIn (i ∷ is) [] q (omega arith) tt in
          scan_profile-IsProfile opts (set_esids esids c) left
            (set_esids-IsProfile esids c few inside v)
    ]
scan_profile-IsProfile (opt_f ∷ opts) c e v =
    scan_profile-IsProfile opts _ e (add_option-IsProfile envop_fork c v)
scan_profile-IsProfile (opt_i ∷ opts) c e v =
    scan_profile-IsProfile opts _ e (add_option-IsProfile envop_inh c v)
scan_profile-IsProfile (opt_m ∷ opts) c e v =
    scan_profile-IsProfile opts _ e (add_option-IsProfile envop_cpu c v)
scan_profile-IsProfile (opt_r ∷ opts) c e v =
    scan_profile-IsProfile opts _ e (add_option-IsProfile envop_rap c v)
scan_profile-IsProfile (opt_s ∷ opts) c e v =
    scan_profile-IsProfile opts _ e (add_option-IsProfile envop_sched c v)
scan_profile-IsProfile (opt_unknown ∷ opts) c e v = scan_profile-IsProfile opts c e v

defaults-IsProfile : (file : List ℕ) → IsProfile (profile_defaults file)
unfolding profile_defaults
defaults-IsProfile file = record {
  few = omega arith;
  whole = refl;
  within = tt;
  batch = omega arith;
  pages = default_paged;
  on_exec = refl;
}

-- A profile that the command accepts starts on exec and has at most 32 event-set ids, each a place of
-- the table of event-sets, in an array of 32; its batch is not empty, and its pages are one of the
-- numbers that the command knows.
pub parse_profile-IsProfile :
    (prog : Bool) (file : List ℕ) (opts : List ProfileOpt) {c : Profile}
    → parse_profile prog file opts ≡ some c
    → IsProfile c
unfolding parse_profile
parse_profile-IsProfile prog file opts {c} e =
    elim (Option-cases (scan_profile (profile_defaults file) opts)) [
      | inl n ↦ absurd (ground arith)
      | inr (r, q) ↦
          let same : r ≡ c = ground arith in
          subst IsProfile same
            (scan_profile-IsProfile opts (profile_defaults file) q (defaults-IsProfile file))
    ]
