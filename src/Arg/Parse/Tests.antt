-- ===== src/Arg/Parse/Tests.antt =====
-- Runs of arg.c on a small command line, and the theorems at concrete arguments.
use autolock.Base.{
  ◌⊎◌, update, ℕ, zero, ◌+◌, ◌%◌, ◌^◌, ◌≡◌, refl, true, false, not, ◌&&◌, ◌||◌, none, some, List,
  [], ◌∷◌, arith, inl, inr, ltb, leb, if◌then◌else◌,
}
use autolock.Arg.{
  Text, ArgOption, Parser, Store, integer, increment, string, help, end_options, kind_option,
  kind_help, kind_positional, kind_end, missing_required,
}
use autolock.Arg.Number.{negate, strtoull}
use autolock.Arg.Number.Decimal.{decimal}
use autolock.Arg.Help.{concat_args}
use autolock.Arg.Assign.{FloatOps, assign_arg, store_integer, store_checked, overflows}
use autolock.Arg.Assign.Integers.{stores, holds, assign-decimal}
use autolock.Arg.Check.{check_arg_def, check_arg_parser}
use autolock.Arg.Check.Order.{accepted, is_ordered, has_positional, has_help, check_arg_def-accepts}
use autolock.Arg.Parse.{options, parse_arguments, parsed, exited, find_flag, run_main, mark_flag}
use autolock.Arg.Parse.Options.{repeat_flag, marks, increment_counts}
use autolock.Arg.Parse.Required.{Satisfied, required_given}
use autolock.Arg.Parse.Required.Owing.{AllParsers, AllOptions, lead}

abbrev floats : FloatOps
floats = record { strtod = λ _. none; to_float = λ v. v }

abbrev nothing : Store
nothing = record { num = λ _. 0; text = λ _. none; rest_args = λ _. none; warnings = [] }

-- `-n`, a required unsigned number of 2 bytes at 8
abbrev number : ArgOption
number = record {
  kind = kind_option;
  type = integer;
  args_begin = (b'-' ∷ b'n' ∷ []) ∷ [];
  required = 1;
  dest = 8;
  dest_sz = 2;
  is_unsigned = true;
}

-- `-v`, a counter of 4 bytes at 16
abbrev verbose : ArgOption
verbose = record {
  kind = kind_option;
  type = increment;
  args_begin = (b'-' ∷ b'v' ∷ []) ∷ [];
  required = 0;
  dest = 16;
  dest_sz = 4;
  is_unsigned = true;
}

abbrev help_option : ArgOption
help_option = record {
  kind = kind_help;
  type = help;
  args_begin = (b'-' ∷ b'h' ∷ []) ∷ [];
  required = 0;
  dest = 0;
  dest_sz = 0;
  is_unsigned = false;
}

-- A file's name, required.
abbrev file : ArgOption
file = record {
  kind = kind_positional;
  type = string;
  args_begin = [];
  required = 1;
  dest = 24;
  dest_sz = 8;
  is_unsigned = false;
}

abbrev end_option : ArgOption
end_option = record {
  kind = kind_end;
  type = end_options;
  args_begin = [];
  required = 0;
  dest = 0;
  dest_sz = 0;
  is_unsigned = false;
}

abbrev program : Parser
program = record { main = true; args = number ∷ verbose ∷ help_option ∷ []; last = end_option }

abbrev with_file : Parser
with_file = record program { args = number ∷ help_option ∷ file ∷ [] }

abbrev line : List Text
line = (b'-' ∷ b'v' ∷ []) ∷ (b'-' ∷ b'n' ∷ []) ∷ (b'1' ∷ b'2' ∷ []) ∷ []

-- The parsers and the variables after a parse.
abbrev result : List Parser × Store
result = elim (parse_arguments floats (program ∷ []) line nothing) [
  | parsed ps s ↦ (ps, s)
  | _ ↦ ([], nothing)
]

line-parsed : parse_arguments floats (program ∷ []) line nothing ≡ parsed result.0 result.1
unfolding parse_arguments check_arg_parser check_arg_def options assign_arg concat_args run_main
    mark_flag find_flag strtoull store_integer store_checked overflows
line-parsed = refl

line_values : (result.1.num 8 ≡ 12) × (result.1.num 16 ≡ 1)
unfolding parse_arguments check_arg_parser check_arg_def options assign_arg concat_args run_main
    mark_flag find_flag strtoull store_integer store_checked overflows
line_values = (refl, refl)

-- The first positional argument, marked required and given, is said to be missing.
file-missing :
    parse_arguments floats
      (with_file ∷ [])
      ((b'-' ∷ b'n' ∷ []) ∷ (b'1' ∷ []) ∷ (b'f' ∷ []) ∷ [])
      nothing
    ≡ exited missing_required
unfolding parse_arguments check_arg_parser check_arg_def options assign_arg concat_args run_main
    mark_flag find_flag strtoull store_integer store_checked overflows
file-missing = refl

assign-decimal_example :
    let d = record number { is_unsigned = false } in
    (assign_arg floats d (decimal 128 ∷ []) nothing
      ≡ stores d 128 (not (ltb 128 (holds d))) nothing)
    × ((d.is_unsigned ≡ true)
        ⊎ (assign_arg floats d ((b'-' ∷ decimal 128) ∷ []) nothing
            ≡ stores d (negate 128) (not (leb 128 32768)) nothing))
assign-decimal_example =
    assign-decimal floats (record number { is_unsigned = false }) 128 [] nothing refl (omega arith)
      (inr (inl refl)) (omega arith)

check_arg_def-accepts_example : accepted (check_arg_def program) ≡ (
    if is_ordered 0 program.args && (program.main || not (has_positional program.args))
    then some (has_help program.args)
    else none)
check_arg_def-accepts_example = check_arg_def-accepts program

increment_counts_example :
    (s' : Store) × (options floats zero (repeat_flag 3 (b'-' ∷ b'v' ∷ []) []) (program ∷ []) nothing
      ≡ options floats zero [] (marks 3 (b'-' ∷ b'v' ∷ []) (program ∷ [])) s')
    × ((a : ℕ) → s'.num a ≡ update (λ _. 0) 16 ((0 + 3) % 256 ^ 4) a)
    × (s'.text ≡ nothing.text)
    × (s'.rest_args ≡ nothing.rest_args)
unfolding find_flag
increment_counts_example =
    increment_counts floats 3 (b'-' ∷ b'v' ∷ []) [] (program ∷ []) nothing verbose refl refl refl
      (omega arith) (inr (inr (inl refl))) (omega arith)

required_given_example : AllParsers (λ p. AllOptions (Satisfied line) (lead p.args)) (program ∷ [])
required_given_example =
    required_given floats (program ∷ []) line nothing result.0 result.1 line-parsed
