-- ===== src/Arg/Help/Tests.antt =====
-- The texts of arg.c for two options, and the theorem on the shorthand.
use autolock.Base.{ℕ, ◌≡◌, refl, false, [], ◌∷◌, suc, zero}
use autolock.Base.Exec.{value, died, outside}
use autolock.Arg.{Text, ArgOption, kind_option, kind_rest, kind_help, integer, rest, help}
use autolock.Arg.Help.{concat_args, arg2str, make_commandline}

-- -T, --threads
abbrev threads : ArgOption
threads = record {
  kind = kind_option;
  type = integer;
  args_begin = (b'-' ∷ b'T' ∷ []) ∷ (b'-' ∷ b'-' ∷ b't' ∷ []) ∷ [];
  required = 0;
  dest = 0;
  dest_sz = 4;
  is_unsigned = false;
}

abbrev names : ArgOption
names = record threads { kind = kind_rest; type = rest }

-- [-T|--t <int>]
threads_text :
    arg2str threads
    ≡ value (
        b'[' ∷ b'-' ∷ b'T' ∷ b'|' ∷ b'-' ∷ b'-' ∷ b't' ∷ b' ' ∷ b'<' ∷ b'i' ∷ b'n' ∷ b't' ∷ b'>'
        ∷ b']' ∷ [])
unfolding arg2str concat_args
threads_text = refl

-- [... <rest> ... without its bracket
rest_text :
    arg2str names
    ≡ value (
        b'[' ∷ b'.' ∷ b'.' ∷ b'.' ∷ b' ' ∷ b'<' ∷ b'r' ∷ b'e' ∷ b's' ∷ b't' ∷ b'>' ∷ b' ' ∷ b'.'
        ∷ b'.' ∷ b'.' ∷ [])
unfolding arg2str
rest_text = refl

-- The help option is [-h|--h], and not [-h].
help_text :
    arg2str (record threads {
      kind = kind_help;
      type = help;
      args_begin = (b'-' ∷ b'h' ∷ []) ∷ (b'-' ∷ b'-' ∷ b'h' ∷ []) ∷ [];
    })
    ≡ value (b'[' ∷ b'-' ∷ b'h' ∷ b'|' ∷ b'-' ∷ b'-' ∷ b'h' ∷ b']' ∷ [])
unfolding arg2str concat_args
help_text = refl

dashes : ℕ → Text
dashes zero = []
dashes (suc n) = b'-' ∷ dashes n

-- A name of 127 characters fits, and one of 128 does not.
long_names :
    (concat_args (dashes 127 ∷ []) ≡ value (dashes 127)) × (concat_args (dashes 128 ∷ []) ≡ died)
unfolding concat_args dashes
long_names = (refl, refl)

line_text :
    (make_commandline ((b'a' ∷ []) ∷ (b'b' ∷ b'c' ∷ []) ∷ [])
      ≡ value (b'a' ∷ b' ' ∷ b'b' ∷ b'c' ∷ []))
    × (make_commandline [] ≡ outside)
unfolding make_commandline
line_text = (refl, refl)
