-- ===== src/Arg/Parse.antt =====
-- `parseArguments` of arg.c, and the functions that build its list of parsers.
pub mod Options
pub mod Required
mod Tests
use Prim.Native.Nat.{bit_or}
use autolock.Base.{
  ℕ, zero, suc, ◌+◌, ◌*◌, ◌%◌, ◌^◌, Bool, true, false, not, ◌&&◌, ◌||◌, Option, none, some, List,
  [], ◌∷◌, ◌++◌, ◌==◌, ltb, if◌then◌else◌, get_or,
}
use autolock.Arg.{
  Text, str_eq, ArgType, type_num, ArgKind, kind_num, ArgOption, Parser, Store, Stop, missing_value,
  unknown_flag, more_expected, too_many, missing_required, assertion,
}
use autolock.Arg.Assign.{FloatOps, Assigned, done, bad, stop, assign_arg}
use autolock.Arg.Check.{check_arg_parser}

-- `createArgumentParser` and `addArgumentParser`; `none` is the definition of the main program.
unfoldable pub create_argument_parser : Parser → List Parser
create_argument_parser def = record def { main = true } ∷ []

unfoldable pub add_argument_parser : List Parser → Parser → Bool → List Parser
add_argument_parser ps def at_end =
    let p = record def { main = false } in if at_end then ps ++ p ∷ [] else p ∷ ps

pub user_args_match : List Text → Text → Bool
unfolding str_eq
user_args_match [] arg = false
user_args_match (a ∷ names) arg = str_eq a arg || user_args_match names arg

-- `required |= required << 1`
unfoldable pub mark : ArgOption → ArgOption
mark d = record d { required = bit_or d.required (d.required * 2 % 2 ^ 32) }

-- The descriptors are searched in order; the first that has the name is the one.
pub find_option : Text → List ArgOption → Option ArgOption
unfolding user_args_match
find_option arg [] = none
find_option arg (d ∷ ds) = if user_args_match d.args_begin arg then some d else find_option arg ds

pub find_flag : Text → List Parser → Option ArgOption
unfolding find_option
find_flag arg [] = none
find_flag arg (p ∷ ps) = elim (find_option arg p.args) [ some d ↦ some d | none ↦ find_flag arg ps ]

pub mark_option : Text → List ArgOption → List ArgOption
unfolding user_args_match mark
mark_option arg [] = []
mark_option arg (d ∷ ds) =
    if user_args_match d.args_begin arg then mark d ∷ ds else d ∷ mark_option arg ds

pub mark_flag : Text → List Parser → List Parser
unfolding find_option mark_option
mark_flag arg [] = []
mark_flag arg (p ∷ ps) = elim (find_option arg p.args) [
  | some _ ↦ record p { args = mark_option arg p.args } ∷ ps
  | none ↦ p ∷ mark_flag arg ps
]

abbrev pub is_flag : Text → Bool
is_flag arg = get_or arg 0 0 == b'-'

-- Where the option loop stops: at an argument, with what is left from it on; or with the program.
pub data Reached : Type 0 where
  reached : List Text → List Parser → Store → Reached
  ended : Stop → Reached

-- The option loop, `skip` being what `i += consumed` has still to pass over.
pub options : FloatOps → ℕ → List Text → List Parser → Store → Reached
options fp skip [] ps s = reached [] ps s
options fp (suc skip) (x ∷ xs) ps s = options fp skip xs ps s
options fp zero (x ∷ xs) ps s = elim (is_flag x) [
  | false ↦ reached (x ∷ xs) ps s
  | true ↦ elim (find_flag x ps) [
    | none ↦ ended unknown_flag
    | some d ↦ elim (type_num d.type == 11) [
      | true ↦ reached xs ps s
      | false ↦ elim (assign_arg fp d xs s) [
        | stop e ↦ ended e
        | bad _ ↦ ended missing_value
        | done n s' ↦ options fp n xs (mark_flag x ps) s'
      ]
    ]
  ]
]

-- Where the loop over the positional arguments stops: the descriptors passed and left, the one of
-- kind `KindEnd`, the arguments left. It runs for ever on a positional option that consumes
-- nothing (`hangs`), and leaves the array where a negative code moves `j` back (`strays`).
pub data Placed : Type 0 where
  placed : List ArgOption → List ArgOption → ArgOption → List Text → Store → Placed
  halted : Stop → Placed
  hangs strays : Placed

-- `required` is updated after `j` has moved: on the descriptor behind the one assigned.
abbrev pub mark_next : List ArgOption → ArgOption → List ArgOption × ArgOption
mark_next [] last = ([], mark last)
mark_next (d ∷ ds) last = (mark d ∷ ds, last)

pub positionals :
    FloatOps → List Text → List ArgOption → List ArgOption → ArgOption → Store → Placed
unfolding mark
positionals fp [] passed left last s = placed passed left last [] s
positionals fp (x ∷ xs) passed [] last s = placed passed [] last (x ∷ xs) s
positionals fp (x ∷ xs) passed (d ∷ ds) last s = elim (kind_num d.kind == 2) [
  | false ↦ placed passed (d ∷ ds) last (x ∷ xs) s
  | true ↦ elim (assign_arg fp d (x ∷ xs) s) [
    | stop e ↦ halted e
    | bad _ ↦ strays
    | done zero s' ↦ hangs
    | done (suc n) s' ↦
        positionals fp xs (passed ++ d ∷ []) (mark_next ds last).0 (mark_next ds last).1 s'
  ]
]

abbrev pub is_empty : List Text → Bool
is_empty [] = true
is_empty (x ∷ xs) = false

-- The variable number of arguments at the end.
pub assign_rest :
    FloatOps → List ArgOption → List ArgOption → ArgOption → List Text → Store → Placed
unfolding mark
assign_rest fp passed [] last argv s = halted assertion
assign_rest fp passed (d ∷ ds) last argv s = elim (assign_arg fp d argv s) [
  | stop e ↦ halted e
  | bad _ ↦ strays
  | done n s' ↦ placed (passed ++ d ∷ []) (mark_next ds last).0 (mark_next ds last).1 [] s'
]

-- The checks behind that loop, which compare the descriptor's type with numbers of kinds.
pub take_rest : FloatOps → Placed → Placed
unfolding assign_rest
take_rest fp (placed passed left last argv s) =
    let t = type_num (get_or left 0 last).type in
    if t == 2
    then halted more_expected
    else if t == 4 && not (is_empty argv)
    then halted too_many
    else if t == 6 && not (is_empty argv)
    then assign_rest fp passed left last argv s
    else placed passed left last argv s
take_rest fp p = p

-- The descriptors in front of the first positional one, and those from it on.
abbrev pub is_positional : ArgOption → Bool
is_positional d = kind_num d.kind == 2 || kind_num d.kind == 3

pub front : List ArgOption → List ArgOption
front [] = []
front (d ∷ ds) = if is_positional d then [] else d ∷ front ds

pub back : List ArgOption → List ArgOption
back [] = []
back (d ∷ ds) = if is_positional d then d ∷ ds else back ds

pub data Outcome : Type 0 where
  parsed : List Parser → Store → Outcome
  exited : Stop → Outcome
  loops faults : Outcome

pub any_missing : List ArgOption → Bool
any_missing [] = false
any_missing (d ∷ ds) = d.required == 1 || any_missing ds

pub any_parser_missing : List Parser → Bool
unfolding any_missing
any_parser_missing [] = false
any_parser_missing (p ∷ ps) = any_missing p.args || any_parser_missing ps

-- The last loop of `parseArguments`; the user's `doneParsing` functions run before it.
pub finish : List Parser → Store → Outcome
unfolding any_parser_missing
finish ps s = if any_parser_missing ps then exited missing_required else parsed ps s

-- The parser's array is put together again, between the parsers ahead and those behind.
pub reassemble : List Parser → Parser → List Parser → Placed → Outcome
unfolding finish front
reassemble before p after (placed passed left last argv s) =
    finish (before ++ record p { args = front p.args ++ (passed ++ left); last = last } ∷ after) s
reassemble before p after (halted e) = exited e
reassemble before p after hangs = loops
reassemble before p after strays = faults

-- The first parser that is marked `main` has the positional arguments; `before` are those ahead.
pub run_main : FloatOps → List Parser → List Parser → List Text → Store → Outcome
unfolding positionals take_rest reassemble back
run_main fp before [] argv s = exited assertion
run_main fp before (p ∷ ps) argv s =
    if p.main
    then reassemble before p ps (take_rest fp (positionals fp argv [] (back p.args) p.last s))
    else run_main fp (before ++ p ∷ []) ps argv s

pub normalise : ArgOption → ArgOption
normalise d = record d { required = if d.required == 0 then 0 else 1 }

pub normalise_options : List ArgOption → List ArgOption
unfolding normalise
normalise_options [] = []
normalise_options (d ∷ ds) = normalise d ∷ normalise_options ds

pub normalise_parsers : List Parser → List Parser
unfolding normalise_options
normalise_parsers [] = []
normalise_parsers (p ∷ ps) = record p { args = normalise_options p.args } ∷ normalise_parsers ps

-- `argv` is what stands behind the program's name.
unfoldable pub parse_arguments : FloatOps → List Parser → List Text → Store → Outcome
unfolding check_arg_parser normalise_parsers options run_main
parse_arguments fp ps argv s = elim (check_arg_parser ps) [
  | some e ↦ exited e
  | none ↦ elim (options fp zero argv (normalise_parsers ps) s) [
    | ended e ↦ exited e
    | reached argv' ps' s' ↦ run_main fp [] ps' argv' s'
  ]
]
