-- ===== src/Arg/Parse/Required/Marking.antt =====
-- What the option loop of arg.c does to the descriptors: it marks the ones that are named.
use mathlib.Core.Path.{subst}
use autolock.Base.{
  ℕ, zero, suc, ◌≡◌, refl, sym, ap, ◌∙◌, Bool, true, false, ◌||◌, List, [], ◌∷◌, arith, Bool-cases,
  Option-cases, ◌⊎◌, inl, inr, ◌==◌,
}
use autolock.Arg.{Text, ArgOption, Parser, Store, type_num}
use autolock.Arg.Assign.{FloatOps, assign_arg}
use autolock.Arg.Parse.{
  mark, find_option, find_flag, mark_option, mark_flag, is_flag, options, reached, user_args_match,
}
use autolock.Arg.Parse.Required.Cases.{Assigned-cases}

-- One of the arguments is a name of the option.
abbrev pub given : List Text → ArgOption → Bool
given [] d = false
given (x ∷ xs) d = user_args_match d.args_begin x || given xs d

-- What has become of a descriptor: its name and kind are as they were; it is required as it was, or
-- it was named in `argv`.
pub record Kept (argv : List Text) (d d' : ArgOption) : Type 0 where
  pub names : d'.args_begin ≡ d.args_begin
  pub kind : d'.kind ≡ d.kind
  pub required : (d'.required ≡ d.required) ⊎ (given argv d ≡ true)

abbrev pub KeptAll : List Text → List ArgOption → List ArgOption → Type 0
KeptAll argv [] [] = Unit
KeptAll argv [] (d' ∷ ds') = ⊥
KeptAll argv (d ∷ ds) [] = ⊥
KeptAll argv (d ∷ ds) (d' ∷ ds') = Kept argv d d' × KeptAll argv ds ds'

abbrev pub KeptParsers : List Text → List Parser → List Parser → Type 0
KeptParsers argv [] [] = Unit
KeptParsers argv [] (p' ∷ ps') = ⊥
KeptParsers argv (p ∷ ps) [] = ⊥
KeptParsers argv (p ∷ ps) (p' ∷ ps') =
    (p'.main ≡ p.main) × KeptAll argv p.args p'.args × KeptParsers argv ps ps'

Kept-mark :
    (argv : List Text) (x : Text) (d d' : ArgOption)
    → user_args_match d'.args_begin x ≡ true
    → ((y : Text) → user_args_match d.args_begin x ≡ true → given argv d ≡ true)
    → Kept argv d d'
    → Kept argv d (mark d')
unfolding mark
Kept-mark argv x d d' m seen k = record {
  names = k.names;
  kind = k.kind;
  required = inr (seen x (ap (λ n. user_args_match n x) (sym k.names) ∙ m));
}

-- Every name of `x` is among the names that `argv` gives.
abbrev Seen : List Text → Text → Type 0
Seen argv x = (d : ArgOption) → user_args_match d.args_begin x ≡ true → given argv d ≡ true

KeptAll-mark :
    (argv : List Text) (x : Text) (ds ds' : List ArgOption)
    → Seen argv x
    → KeptAll argv ds ds'
    → KeptAll argv ds (mark_option x ds')
unfolding mark_option
KeptAll-mark argv x [] [] seen k = tt
KeptAll-mark argv x [] (d' ∷ ds') seen k = absurd k
KeptAll-mark argv x (d ∷ ds) [] seen k = absurd k
KeptAll-mark argv x (d ∷ ds) (d' ∷ ds') seen k =
    elim (Bool-cases (user_args_match d'.args_begin x)) [
      | inl m ↦ rw (m, mark_option) (Kept-mark argv x d d' m (λ y. seen d) k.0, k.1)
      | inr m ↦ rw (m, mark_option) (k.0, KeptAll-mark argv x ds ds' seen k.1)
    ]

KeptParsers-mark :
    (argv : List Text) (x : Text) (ps ps' : List Parser)
    → Seen argv x
    → KeptParsers argv ps ps'
    → KeptParsers argv ps (mark_flag x ps')
unfolding mark_flag
KeptParsers-mark argv x [] [] seen k = tt
KeptParsers-mark argv x [] (p' ∷ ps') seen k = absurd k
KeptParsers-mark argv x (p ∷ ps) [] seen k = absurd k
KeptParsers-mark argv x (p ∷ ps) (p' ∷ ps') seen k = elim (Option-cases (find_option x p'.args)) [
  | inl m ↦ rw (m, mark_flag) (k.0, k.1, KeptParsers-mark argv x ps ps' seen k.2)
  | inr (d, m) ↦ rw (m, mark_flag) (k.0, KeptAll-mark argv x p.args p'.args seen k.1, k.2)
]

-- The option loop keeps this, whatever part of `argv` it has still to read.
pub options-Kept :
    (fp : FloatOps) (argv : List Text) (skip : ℕ) (xs : List Text) (ps ps' : List Parser)
    (s : Store) (left : List Text) (ps'' : List Parser) (s' : Store)
    → ((d : ArgOption) → given xs d ≡ true → given argv d ≡ true)
    → KeptParsers argv ps ps'
    → options fp skip xs ps' s ≡ reached left ps'' s'
    → KeptParsers argv ps ps''
unfolding options
options-Kept fp argv skip [] ps ps' s left ps'' s' seen k e =
    subst (KeptParsers argv ps) (ground arith) k
options-Kept fp argv (suc skip) (x ∷ xs) ps ps' s left ps'' s' seen k e =
    options-Kept fp argv skip xs ps ps' s left ps'' s' (λ d g. seen d (ground arith)) k e
options-Kept fp argv zero (x ∷ xs) ps ps' s left ps'' s' seen k e = elim (Bool-cases (is_flag x)) [
  | inr q ↦ subst (KeptParsers argv ps) (ground arith) k
  | inl q ↦ elim (Option-cases (find_flag x ps')) [
    | inl f ↦ absurd (ground arith)
    | inr (d, f) ↦ elim (Bool-cases (type_num d.type == 11)) [
      | inl t ↦ subst (KeptParsers argv ps) (ground arith) k
      | inr t ↦ elim (Assigned-cases (assign_arg fp d xs s)) [
        | inl (n, s1, a) ↦
            options-Kept fp argv n xs ps (mark_flag x ps') s1 left ps'' s'
              (λ d' g. seen d' (ground arith))
              (KeptParsers-mark argv x ps ps' (λ d' g. seen d' (ground arith)) k) (ground arith)
        | inr a ↦ absurd (ground (arith, a))
      ]
    ]
  ]
]

KeptAll-refl : (argv : List Text) (ds : List ArgOption) → KeptAll argv ds ds
KeptAll-refl argv [] = tt
KeptAll-refl argv (d ∷ ds) =
    (record { names = refl; kind = refl; required = inl refl }, KeptAll-refl argv ds)

pub KeptParsers-refl : (argv : List Text) (ps : List Parser) → KeptParsers argv ps ps
KeptParsers-refl argv [] = tt
KeptParsers-refl argv (p ∷ ps) = (refl, KeptAll-refl argv p.args, KeptParsers-refl argv ps)
