-- ===== src/Arg/Check.antt =====
-- `checkArgDef` and `checkArgParser` of arg.c: the order of the descriptors.
pub mod Order
use autolock.Base.{
  ℕ, Bool, true, false, not, ◌&&◌, ◌||◌, Option, none, some, List, [], ◌∷◌, ◌==◌, ltb,
  if◌then◌else◌,
}
use autolock.Arg.{
  ArgKind, kind_num, ArgOption, Parser, Stop, bad_order, positional_not_main, no_help,
}

pub data Checked : Type 0 where
  good : Bool → Checked
  refused : Stop → Checked

-- What one descriptor does to the loop: a new state, with whether it is a help option, or the end.
pub data Verdict : Type 0 where
  next : ℕ → Bool → Verdict
  refuse : Stop → Verdict

abbrev pub needs_main : Bool → ℕ → Verdict
needs_main main state =
    if (state == 2 || state == 3) && not main then refuse positional_not_main else next state false

pub check_one : Bool → ℕ → ArgKind → Verdict
check_one main state kind =
    let k = kind_num kind in
    if k == state
    then needs_main main state
    else if state == 0 && k == 1
    then next state true
    else if ltb k state
    then refuse bad_order
    else needs_main main k

pub check_from : Bool → ℕ → Bool → List ArgOption → Checked
unfolding check_one
check_from main state has_help [] = good has_help
check_from main state has_help (d ∷ ds) = elim (check_one main state d.kind) [
  | refuse e ↦ refused e
  | next state' found ↦ check_from main state' (has_help || found) ds
]

unfoldable pub check_arg_def : Parser → Checked
unfolding check_from
check_arg_def p = check_from p.main 0 false p.args

pub check_parsers : Bool → List Parser → Option Stop
unfolding check_arg_def
check_parsers has_help [] = if has_help then none else some no_help
check_parsers has_help (p ∷ ps) = elim (check_arg_def p) [
  | refused e ↦ some e
  | good found ↦ check_parsers (has_help || found) ps
]

unfoldable pub check_arg_parser : List Parser → Option Stop
unfolding check_parsers
check_arg_parser ps = check_parsers false ps
