-- ===== src/Arg.antt =====
-- The argument parser of user-dev/src/util/arg.h and arg.c: its option descriptors, the variables
-- that the options write, and the ways in which it ends the program.
pub mod Number
pub mod Assign
pub mod Check
pub mod Parse
mod Help
use autolock.Base.{
  ℕ, zero, suc, Bool, true, false, ◌&&◌, Option, List, [], ◌∷◌, ◌==◌, if◌then◌else◌,
}

-- A C string, as the codes before its terminator.
abbrev pub Text : Type 0
Text = List ℕ

-- `strcmp(a, b) == 0`
unfoldable pub str_eq : Text → Text → Bool
str_eq [] [] = true
str_eq [] (d ∷ ds) = false
str_eq (c ∷ cs) [] = false
str_eq (c ∷ cs) (d ∷ ds) = c == d && str_eq cs ds

pub data ArgType : Type 0 where
  integer character string boolean float rest help increment set toggle end_options : ArgType

abbrev pub type_num : ArgType → ℕ
type_num integer = 1
type_num character = 2
type_num string = 3
type_num boolean = 4
type_num float = 5
type_num rest = 6
type_num help = 7
type_num increment = 8
type_num set = 9
type_num toggle = 10
type_num end_options = 11

pub data ArgKind : Type 0 where
  kind_option kind_help kind_positional kind_rest kind_end : ArgKind

abbrev pub kind_num : ArgKind → ℕ
kind_num kind_option = 0
kind_num kind_help = 1
kind_num kind_positional = 2
kind_num kind_rest = 3
kind_num kind_end = 4

-- `ArgOption`; `dest` is the address of the variable, of `dest_sz` bytes.
pub record ArgOption : Type 0 where
  pub kind : ArgKind
  pub type : ArgType
  pub args_begin : List Text
  pub required : ℕ
  pub dest : ℕ
  pub dest_sz : ℕ
  pub is_unsigned : Bool

-- One node of the parser list with its definition: the descriptors before the one of kind
-- `KindEnd`, and that one.
pub record Parser : Type 0 where
  pub main : Bool
  pub args : List ArgOption
  pub last : ArgOption

pub data Warning : Type 0 where
  unparseable overflow : Warning

-- The variables behind the options, each by its address and by the type it is declared with, and
-- the warnings that were printed. `update` of one view leaves the other addresses alone.
pub record Store : Type 0 where
  pub num : ℕ → ℕ
  pub text : ℕ → Option Text
  pub rest_args : ℕ → Option (List Text)
  pub warnings : List Warning

-- Why the program was ended: by `argdie`, by the help option, by `die` or a failed `die_assert`.
pub data Stop : Type 0 where
  missing_value unknown_flag more_expected too_many missing_required : Stop
  bad_order positional_not_main no_help : Stop
  help_shown not_implemented assertion : Stop
