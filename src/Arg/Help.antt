-- ===== src/Arg/Help.antt =====
-- The texts of user-dev/src/util/arg.c: the command line, the names of an option and its shorthand in
-- the usage message, each in a buffer of fixed size.
use autolock.Base.{
  ℕ, zero, suc, ◌+◌, ◌-◌, Bool, true, false, not, ◌&&◌, List, [], ◌∷◌, ◌++◌, length, ◌==◌, ltb,
  if◌then◌else◌,
}
use autolock.Base.Exec.{Exec, value, died, outside, die_assert, ◌>>=◌}
use autolock.Arg.{
  Text, ArgType, integer, character, string, boolean, float, rest, help, increment, set, toggle,
  end_options, ArgKind, kind_num, ArgOption,
}
pub mod Names
mod Ending
mod Parts
mod Shorthand
mod Tests

-- The bytes of a C string end at the first 0.
abbrev pub c_string : List ℕ → Text
c_string [] = []
c_string (c ∷ cs) = if c == 0 then [] else c ∷ c_string cs

abbrev pub take : ℕ → List ℕ → List ℕ
take zero cs = []
take (suc n) [] = []
take (suc n) (c ∷ cs) = c ∷ take n cs

abbrev pub drop_last : List ℕ → List ℕ
drop_last [] = []
drop_last (c ∷ []) = []
drop_last (c ∷ d ∷ cs) = c ∷ drop_last (d ∷ cs)

-- OUTBUF_LEN of `concat_args`, and of `arg2str`.
abbrev pub names_len : ℕ
names_len = 128

abbrev pub buffer_len : ℕ
buffer_len = 512

-- The loop of `concat_args`; `offset` is the length of what stands in the buffer.
abbrev pub concat_from : List ℕ → List Text → Exec (List ℕ)
concat_from buf [] = value buf
concat_from buf (n ∷ ns) =
    let filled = buf ++ take (names_len - length buf) n in
    die_assert (ltb (length buf) names_len)
      (die_assert (ltb (length filled) names_len) (concat_from (filled ++ b'|' ∷ []) ns))

-- The last sep_char is overwritten.
unfoldable pub concat_args : List Text → Exec Text
concat_args ns = concat_from [] ns >>= λ buf. value (drop_last buf)

abbrev pub type2fmt : ArgType → Text
type2fmt integer = b'<' ∷ b'i' ∷ b'n' ∷ b't' ∷ b'>' ∷ []
type2fmt character = b'<' ∷ b'c' ∷ b'h' ∷ b'a' ∷ b'r' ∷ b'>' ∷ []
type2fmt string = b'<' ∷ b's' ∷ b't' ∷ b'r' ∷ b'i' ∷ b'n' ∷ b'g' ∷ b'>' ∷ []
type2fmt boolean = b'<' ∷ b'b' ∷ b'o' ∷ b'o' ∷ b'l' ∷ b'>' ∷ []
type2fmt float = b'<' ∷ b'f' ∷ b'l' ∷ b'o' ∷ b'a' ∷ b't' ∷ b'>' ∷ []
type2fmt rest = b'<' ∷ b'r' ∷ b'e' ∷ b's' ∷ b't' ∷ b'>' ∷ []
type2fmt t = []

abbrev pub positional_kind : ArgOption → Bool
positional_kind d = kind_num d.kind == 2

abbrev pub rest_kind : ArgOption → Bool
rest_kind d = kind_num d.kind == 3

abbrev pub sep_char : ArgOption → ℕ
sep_char d = if positional_kind d then b':' else b' '

abbrev pub dots : Text
dots = b'.' ∷ b'.' ∷ b'.' ∷ []

-- `buf` is what stands in front of `p`; the rest of the buffer is `avail_length`.
abbrev pub avail : List ℕ → ℕ
avail buf = buffer_len - length buf

-- snprintf at `p`, and the assertion on what it returns.
abbrev pub print : List ℕ → Text → Exec (List ℕ)
print buf t = die_assert (ltb (length t) (avail buf)) (value (buf ++ t))

abbrev pub put_char : List ℕ → ℕ → Exec (List ℕ)
put_char buf c = die_assert (ltb 1 (avail buf)) (value (buf ++ c ∷ []))

-- The brackets around an argument.
abbrev pub opening : ArgOption → Text
opening d =
    if positional_kind d && not (d.required == 0)
    then b'<' ∷ []
    else if d.required == 0
    then b'[' ∷ []
    else []

abbrev pub close_bracket : ArgOption → List ℕ → Exec (List ℕ)
close_bracket d buf =
    if positional_kind d && not (d.required == 0)
    then put_char buf b'>'
    else if d.required == 0
    then put_char buf b']'
    else value buf

-- The names with the format of the value, by the cases of the switch.
abbrev pub print_value : ArgOption → List ℕ → Exec (List ℕ)
print_value d buf = concat_args d.args_begin >>= λ n. print buf (n ++ sep_char d ∷ type2fmt d.type)

abbrev pub print_names : ArgOption → List ℕ → Exec (List ℕ)
print_names d buf = concat_args d.args_begin >>= print buf

abbrev pub print_type : ArgType → ArgOption → List ℕ → Exec (List ℕ)
print_type integer d buf = print_value d buf
print_type character d buf = print_value d buf
print_type string d buf = print_value d buf
print_type boolean d buf = print_value d buf
print_type float d buf = print_value d buf
print_type rest d buf =
    die_assert (rest_kind d) (print buf (dots ++ sep_char d ∷ type2fmt rest ++ b' ' ∷ []))
print_type help d buf = print_names d buf
print_type toggle d buf = print_names d buf
print_type set d buf = print_names d buf
print_type increment d buf = print_names d buf
print_type end_options d buf = died

-- The dots of KindRest are copied with their terminator.
abbrev pub print_dots : ArgOption → List ℕ → Exec (List ℕ)
print_dots d buf =
    if rest_kind d
    then die_assert (ltb 4 (avail buf)) (value (buf ++ dots ++ 0 ∷ []))
    else value buf

-- The first test compares the kind with the number of the type Help.
unfoldable pub arg2str : ArgOption → Exec Text
arg2str d =
    if kind_num d.kind == 7
    then value (b'[' ∷ b'-' ∷ b'h' ∷ b']' ∷ [])
    else print_type d.type d (opening d)
      >>= print_dots d
      >>= close_bracket d
      >>= (λ buf. die_assert (ltb 0 (avail buf)) (value (c_string buf)))

-- The size that `makeCommandline` allocates.
abbrev pub line_size : List Text → ℕ
line_size [] = 2
line_size (a ∷ as_) = 1 + length a + line_size as_

-- The loop that copies: `strcpy_c` writes the terminator too, which the blank then overwrites.
abbrev pub copy_args : ℕ → List ℕ → List Text → Exec (List ℕ)
copy_args size line [] = value line
copy_args size line (a ∷ as_) =
    if ltb (length line + length a) size
    then copy_args size (line ++ a ++ b' ' ∷ []) as_
    else outside

-- `p[len - 1] = 0`, with len the length of what was copied.
abbrev pub end_line : List ℕ → Exec Text
end_line [] = outside
end_line (c ∷ cs) = value (drop_last (c ∷ cs))

unfoldable pub make_commandline : List Text → Exec Text
make_commandline argv = copy_args (line_size argv) [] argv >>= end_line
