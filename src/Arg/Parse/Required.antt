-- ===== src/Arg/Parse/Required.antt =====
-- What a parse of arg.c that succeeds says of the options that are marked required.
mod Cases
pub mod Marking
pub mod Owing
use mathlib.Core.Path.{subst}
use mathlib.Core.List.{append_assoc}
use autolock.Base.{
  ℕ, zero, suc, ◌+◌, ◌*◌, ◌%◌, ◌^◌, ◌≤◌, ◌<◌, ◌≡◌, ◌≢◌, refl, sym, ap, ◌∙◌, Bool, true, false, not,
  ◌&&◌, ◌||◌, Option, none, some, List, [], ◌∷◌, ◌++◌, arith, Bool-cases, Option-cases, ◌⊎◌, inl,
  inr, ◌==◌, if◌then◌else◌,
}
use autolock.Arg.{Text, ArgOption, Parser, Store, Stop, kind_num, type_num, str_eq}
use autolock.Arg.Assign.{FloatOps, Assigned, Bad, done, bad, stop, assign_arg}
use autolock.Arg.Check.{check_arg_parser}
use autolock.Arg.Parse.{
  mark, find_option, find_flag, mark_option, mark_flag, is_flag, options, Reached, reached, ended,
  user_args_match, normalise, normalise_options, normalise_parsers, any_missing, any_parser_missing,
  finish, front, back, is_positional, run_main, reassemble, take_rest, positionals, Placed, placed,
  halted, hangs, strays, Outcome, parsed, exited, loops, faults, parse_arguments, mark_next,
  assign_rest,
}
use autolock.Arg.Parse.Required.Marking.{
  given, Kept, KeptAll, KeptParsers, options-Kept, KeptParsers-refl,
}
use autolock.Arg.Parse.Required.Owing.{
  lead, AllOptions, NotOwed, AllParsers, NoneOwed, run_main-NoneOwed,
}

-- What a parse that succeeds says of one descriptor.
abbrev pub Satisfied : List Text → ArgOption → Type 0
Satisfied argv d = (d.required ≡ 0) ⊎ (given argv d ≡ true)

given-normalise : (argv : List Text) (d : ArgOption) → given argv (normalise d) ≡ given argv d
unfolding normalise
given-normalise [] d = refl
given-normalise (x ∷ xs) d = ap (λ b. user_args_match d.args_begin x || b) (given-normalise xs d)

Kept-Satisfied :
    (argv : List Text) (d d' : ArgOption)
    → Kept argv (normalise d) d'
    → NotOwed d'
    → Satisfied argv d
unfolding normalise
Kept-Satisfied argv d d' k h = elim k.required as (λ _. Satisfied argv d) [
  | inr g ↦ inr (sym (given-normalise argv d) ∙ g)
  | inl r ↦ elim (Bool-cases (d.required == 0)) [
    | inl z ↦ inl (ground arith)
    | inr z ↦ absurd (h (ground arith))
  ]
]

Kept-is_positional :
    (argv : List Text) (d d' : ArgOption)
    → Kept argv (normalise d) d'
    → is_positional d' ≡ is_positional d
unfolding normalise
Kept-is_positional argv d d' k = ap (λ j. kind_num j == 2 || kind_num j == 3) k.kind

-- The two ends of a parse, put together.
lead-given :
    (argv : List Text) (ds ds' : List ArgOption)
    → KeptAll argv (normalise_options ds) ds'
    → AllOptions NotOwed (lead ds')
    → AllOptions (Satisfied argv) (lead ds)
unfolding normalise_options
lead-given argv [] ds' k h = tt
lead-given argv (d ∷ ds) [] k h = absurd k
lead-given argv (d ∷ ds) (d' ∷ ds') k h = elim (Bool-cases (is_positional d)) [
  | inl q ↦ rw q (
    Kept-Satisfied argv d d' k.0
        (subst (AllOptions NotOwed)
          (ap (λ b. if b then d' ∷ [] else d' ∷ lead ds') (Kept-is_positional argv d d' k.0 ∙ q))
          h).0,
    tt,
  )
  | inr q ↦
      let h' =
        subst (AllOptions NotOwed)
          (ap (λ b. if b then d' ∷ [] else d' ∷ lead ds') (Kept-is_positional argv d d' k.0 ∙ q))
          h in
      rw q (Kept-Satisfied argv d d' k.0 h'.0, lead-given argv ds ds' k.1 h'.1)
]

parsers-given :
    (argv : List Text) (ps ps' : List Parser)
    → KeptParsers argv (normalise_parsers ps) ps'
    → NoneOwed ps'
    → AllParsers (λ p. AllOptions (Satisfied argv) (lead p.args)) ps
unfolding normalise_parsers
parsers-given argv [] ps' k h = tt
parsers-given argv (p ∷ ps) [] k h = absurd k
parsers-given argv (p ∷ ps) (p' ∷ ps') k h =
    (lead-given argv p.args p'.args k.1 h.0, parsers-given argv ps ps' k.2 h.1)

parse_arguments-parsed :
    (fp : FloatOps) (ps : List Parser) (argv : List Text) (s : Store) (ps' : List Parser)
    (s' : Store)
    → parse_arguments fp ps argv s ≡ parsed ps' s'
    → (left : List Text) × (ps1 : List Parser) × (s1 : Store) × (options fp zero argv
          (normalise_parsers ps)
          s
        ≡ reached left ps1 s1)
      × (run_main fp [] ps1 left s1 ≡ parsed ps' s')
unfolding parse_arguments
parse_arguments-parsed fp ps argv s ps' s' e = elim (Option-cases (check_arg_parser ps)) [
  | inr (x, c) ↦ absurd (ground arith)
  | inl c ↦ elim (Reached-cases (options fp zero argv (normalise_parsers ps) s)) [
    | inl (left, ps1, s1, r) ↦ (left, ps1, s1, r, ground arith)
    | inr (x, r) ↦ absurd (ground arith)
  ]
]
  where
    Reached-cases :
        (r : Reached)
        → ((xs : List Text) × (qs : List Parser) × (t : Store) × (r ≡ reached xs qs t))
          ⊎ ((x : Stop) × (r ≡ ended x))
    Reached-cases (reached xs qs t) = inl (xs, qs, t, refl)
    Reached-cases (ended x) = inr (x, refl)

-- When `parseArguments` comes back, then in every parser each descriptor up to the first positional
-- one, that one with it, is not required or has one of its names among the arguments.
pub required_given :
    (fp : FloatOps) (ps : List Parser) (argv : List Text) (s : Store) (ps' : List Parser)
    (s' : Store)
    → parse_arguments fp ps argv s ≡ parsed ps' s'
    → AllParsers (λ p. AllOptions (Satisfied argv) (lead p.args)) ps
required_given fp ps argv s ps' s' e =
    let (left, ps1, s1, o, r) = parse_arguments-parsed fp ps argv s ps' s' e in
    parsers-given argv ps ps1
      (options-Kept fp argv zero argv (normalise_parsers ps) (normalise_parsers ps) s left ps1 s1
        (λ d g. g) (KeptParsers-refl argv (normalise_parsers ps)) o)
      (run_main-NoneOwed fp [] ps1 left s1 ps' s' r)
