-- ===== src/Arg/Check/Order.antt =====
-- What `checkArgDef` of arg.c accepts.
use autolock.Base.{
  ℕ, ◌≡◌, ◌≢◌, Bool, true, false, not, ◌&&◌, ◌||◌, Option, none, some, List, [], ◌∷◌, arith,
  Bool-cases, inl, inr, ◌∙◌, ◌==◌, leb, ltb, if◌then◌else◌,
}
use autolock.Arg.{
  ArgKind, kind_option, kind_help, kind_positional, kind_rest, kind_end, kind_num, ArgOption,
  Parser, Stop, bad_order, positional_not_main,
}
use autolock.Arg.Check.{Checked, good, refused, next, refuse, check_one, check_from, check_arg_def}

-- Help options stand among the others.
abbrev pub rank : ArgKind → ℕ
rank kind_help = 0
rank k = kind_num k

abbrev pub is_ordered : ℕ → List ArgOption → Bool
is_ordered low [] = true
is_ordered low (d ∷ ds) = leb low (rank d.kind) && is_ordered (rank d.kind) ds

abbrev pub has_positional : List ArgOption → Bool
has_positional [] = false
has_positional (d ∷ ds) = (rank d.kind == 2 || rank d.kind == 3) || has_positional ds

abbrev pub has_help : List ArgOption → Bool
has_help [] = false
has_help (d ∷ ds) = kind_num d.kind == 1 || has_help ds

abbrev pub accepted : Checked → Option Bool
accepted (good h) = some h
accepted (refused _) = none

-- One descriptor passes if it is not behind a later kind, and is positional only in the main parser.
abbrev passes : Bool → ℕ → ArgKind → Bool
passes main state k = leb state (rank k) && (main || not (rank k == 2 || rank k == 3))

check_one-passes :
    (main : Bool) (state : ℕ) (k : ArgKind)
    → state ≢ 1
    → passes main state k ≡ true
    → check_one main state k ≡ next (rank k) (kind_num k == 1)
unfolding check_one
check_one-passes main state kind_option h p = ground arith
check_one-passes main state k h p = ground arith

check_one-refuses :
    (main : Bool) (state : ℕ) (k : ArgKind)
    → state ≢ 1
    → passes main state k ≡ false
    → (e : Stop) × (check_one main state k ≡ refuse e)
unfolding check_one
check_one-refuses main state kind_option h p = (bad_order, ground arith)
check_one-refuses main state kind_help h p = (bad_order, ground arith)
check_one-refuses main state kind_positional h p =
    (if ltb 2 state then bad_order else positional_not_main, ground arith)
check_one-refuses main state kind_rest h p =
    (if ltb 3 state then bad_order else positional_not_main, ground arith)
check_one-refuses main state kind_end h p = (bad_order, ground arith)

rank-ne-one : (k : ArgKind) → rank k ≢ 1
rank-ne-one k = ground arith

abbrev expected : Bool → ℕ → Bool → List ArgOption → Option Bool
expected main state found ds =
    if is_ordered state ds && (main || not (has_positional ds))
    then some (found || has_help ds)
    else none

check_from-expected :
    (main : Bool) (state : ℕ) (found : Bool) (ds : List ArgOption)
    → state ≢ 1
    → accepted (check_from main state found ds) ≡ expected main state found ds
unfolding check_from
check_from-expected main state found [] h = ground arith
check_from-expected main state found (d ∷ ds) h = elim (Bool-cases (passes main state d.kind)) [
  | inl p ↦
      rw (check_one-passes main state d.kind h p, check_from)
        (check_from-expected main (rank d.kind) (found || (kind_num d.kind == 1)) ds
            (rank-ne-one d.kind)
          ∙ more p)
  | inr p ↦
      let (e, q) = check_one-refuses main state d.kind h p in rw (q, check_from) (ground arith)
]
  where
    more :
        passes main state d.kind ≡ true
        → expected main (rank d.kind) (found || (kind_num d.kind == 1)) ds
          ≡ expected main state found (d ∷ ds)
    more p = ground arith

-- `checkArgDef` accepts the descriptors of a parser exactly if options and help come before
-- positional ones, and these before the rest, and if only the main parser has positional ones or
-- a rest; it then says whether there is a help option.
pub check_arg_def-accepts :
    (p : Parser)
    → accepted (check_arg_def p) ≡ (
        if is_ordered 0 p.args && (p.main || not (has_positional p.args))
        then some (has_help p.args)
        else none)
unfolding check_arg_def
check_arg_def-accepts p = check_from-expected p.main 0 false p.args (λ e. absurd (omega arith))
