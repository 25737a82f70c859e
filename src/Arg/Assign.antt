-- ===== src/Arg/Assign.antt =====
-- `assignArg` of arg.c: what one option, or one positional argument, writes.
pub mod Integers
use autolock.Base.{
  ℕ, zero, suc, ◌+◌, ◌-◌, ◌*◌, ◌%◌, ◌^◌, Bool, true, false, not, ◌&&◌, ◌||◌, Option, none, some,
  List, [], ◌∷◌, ◌==◌, ltb, if◌then◌else◌, update, get_or,
}
use autolock.Arg.{
  Text, ArgType, integer, string, float, rest, help, increment, set, toggle, kind_num, kind_rest,
  ArgOption, Store, Warning, unparseable, overflow, Stop, help_shown, not_implemented, assertion,
}
use autolock.Base.Exec.{value, died, outside, running}
use autolock.Arg.Help.{concat_args}
use autolock.Arg.Number.{strtoull, strtoll}

-- `strtod` and the cast to `float`, on bit patterns.
pub record FloatOps : Type 0 where
  pub strtod : Text → Option ℕ
  pub to_float : ℕ → ℕ

pub data Bad : Type 0 where
  bad_string bad_rest bad_float bad_int : Bad

-- The result of `assignArg`: the arguments consumed with the new variables, a negative code, or
-- the end of the program.
pub data Assigned : Type 0 where
  done : ℕ → Store → Assigned
  bad : Bad → Assigned
  stop : Stop → Assigned

-- `memcpy(desc->dest, &v, dest_sz)`
abbrev pub write : ArgOption → ℕ → Store → Store
write d v s = record s { num = update s.num d.dest (v % 256 ^ d.dest_sz) }

abbrev pub warn : Warning → Store → Store
warn w s = record s { warnings = w ∷ s.warnings }

-- The 64 bits of `CAST(int64_t, CAST(signed_T, v))` for a type of `w` bits.
abbrev pub sign_extend : ℕ → ℕ → ℕ
sign_extend w v = if ltb (v % 2 ^ w) (2 ^ (w - 1)) then v % 2 ^ w else v % 2 ^ w + 2 ^ 64 - 2 ^ w

-- I_CHECK_OVERFLOW_ERROR
unfoldable pub overflows : ℕ → Bool → Bool → ℕ → Bool
overflows w is_unsigned is_negative v =
    if (is_negative || not is_unsigned) && not (sign_extend w v == v)
    then true
    else not is_negative && is_unsigned && not (v % 2 ^ w == v)

unfoldable pub store_checked : ℕ → ArgOption → Bool → ℕ → Store → Assigned
store_checked w d minus v s =
    let s' = write d v s in
    done 1 (if overflows w d.is_unsigned minus v then warn overflow s' else s')

unfoldable pub store_integer : ArgOption → Bool → ℕ → Store → Assigned
store_integer d minus v s =
    if d.dest_sz == 8
    then done 1 (write d v s)
    else if d.dest_sz == 4
    then store_checked 32 d minus v s
    else if d.dest_sz == 2
    then store_checked 16 d minus v s
    else if d.dest_sz == 1
    then store_checked 8 d minus v s
    else bad bad_int

abbrev pub is_hex : Text → Bool
is_hex x = get_or x 0 0 == b'0' && get_or x 1 0 == b'x'

unfoldable pub assign_integer : ArgOption → Text → Store → Assigned
assign_integer d x s =
    let base = if is_hex x then 16 else 10 in
    let minus = if is_hex x then false else get_or x 0 0 == b'-' in
    elim (if d.is_unsigned then strtoull base x else strtoll base x) [
      | none ↦ done 1 (warn unparseable s)
      | some v ↦ store_integer d minus v s
    ]

pub assign_float : FloatOps → ArgOption → Text → Store → Assigned
assign_float fp d x s = elim (fp.strtod x) [
  | none ↦ done 1 (warn unparseable s)
  | some v ↦
      if d.dest_sz == 8
      then done 1 (write d v s)
      else if d.dest_sz == 4
      then done 1 (write d (fp.to_float v) s)
      else bad bad_float
]

-- `argv` is `argv + offset`, up to `argv_end`: it is empty where `argv[offset]` is NULL.
unfoldable pub assign_type : FloatOps → ArgType → ArgOption → List Text → Store → Assigned
unfolding assign_integer assign_float
assign_type fp increment d argv s = done 0 (write d ((s.num d.dest + 1) % 2 ^ 64) s)
assign_type fp string d [] s = bad bad_string
assign_type fp string d (x ∷ xs) s = done 1 (record s { text = update s.text d.dest (some x) })
assign_type fp rest d [] s = bad bad_rest
assign_type fp rest d (x ∷ xs) s =
    if kind_num d.kind == 3
    then done 1 (record s { rest_args = update s.rest_args d.dest (some (x ∷ xs)) })
    else stop assertion
assign_type fp set d argv s = done 0 (record s { num = update s.num d.dest 1 })
assign_type fp toggle d argv s = done 0 (write d (if s.num d.dest == 0 then 1 else 0) s)
assign_type fp float d [] s = bad bad_float
assign_type fp float d (x ∷ xs) s = assign_float fp d x s
assign_type fp integer d [] s = bad bad_int
assign_type fp integer d (x ∷ xs) s = assign_integer d x s
assign_type fp help d argv s = stop help_shown
assign_type fp t d argv s = stop not_implemented

-- The message for vvprint is made in any case: `concat_args` ends the program where the names do not
-- fit in its buffer. Behind it the further messages make the same text again.
unfoldable pub assign_arg : FloatOps → ArgOption → List Text → Store → Assigned
unfolding assign_type
assign_arg fp d argv s = elim (concat_args d.args_begin) [
  | value n ↦ assign_type fp d.type d argv s
  | died ↦ stop assertion
  | outside ↦ stop assertion
  | running ↦ stop assertion
]
