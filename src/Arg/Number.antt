-- ===== src/Arg/Number.antt =====
-- `strtoull` and `strtoll` as `assignArg` of arg.c calls them, in base 10 or 16: `none` where no
-- number was read (`end` is the start), and else the value as the bits of a 64-bit word.
pub mod Decimal
use autolock.Base.{
  ℕ, zero, suc, ◌+◌, ◌-◌, ◌*◌, ◌%◌, ◌^◌, Bool, true, false, ◌&&◌, ◌||◌, Option, none, some, List,
  [], ◌∷◌, ◌==◌, ltb, leb, if◌then◌else◌,
}
use mathlib.Core.Option
use autolock.Arg.{Text}

abbrev pub is_space : ℕ → Bool
is_space c = c == b' ' || (leb 9 c && leb c 13)

-- The value of a digit, any number from 36 on for what is none.
abbrev pub digit_value : ℕ → ℕ
digit_value c =
    if leb b'0' c && leb c b'9'
    then c - b'0'
    else if leb b'a' c && leb c b'z'
    then c - b'a' + 10
    else if leb b'A' c && leb c b'Z'
    then c - b'A' + 10
    else 99

pub skip_spaces : Text → Text
skip_spaces [] = []
skip_spaces (c ∷ cs) = if is_space c then skip_spaces cs else c ∷ cs

-- The number that the leading digits write, on top of what is read so far.
pub scan : ℕ → Option ℕ → Text → Option ℕ
scan base acc [] = acc
scan base acc (c ∷ cs) = elim (ltb (digit_value c) base) [
  | true ↦
      scan base (some (elim acc [ none ↦ digit_value c | some m ↦ m * base + digit_value c ])) cs
  | false ↦ acc
]

-- A hexadecimal prefix counts only in front of a digit.
pub skip_prefix : ℕ → Text → Text
skip_prefix base (z ∷ x ∷ h ∷ cs) =
    if base == 16 && z == b'0' && (x == b'x' || x == b'X') && ltb (digit_value h) 16
    then h ∷ cs
    else z ∷ x ∷ h ∷ cs
skip_prefix base cs = cs

abbrev pub negate : ℕ → ℕ
negate m = (2 ^ 64 - m) % 2 ^ 64

pub to_unsigned : Bool → ℕ → ℕ
to_unsigned minus m = if leb (2 ^ 64) m then 2 ^ 64 - 1 else if minus then negate m else m

pub to_signed : Bool → ℕ → ℕ
to_signed minus m =
    if minus
    then if ltb (2 ^ 63) m then 2 ^ 63 else negate m
    else if leb (2 ^ 63) m
    then 2 ^ 63 - 1
    else m

pub convert : (Bool → ℕ → ℕ) → ℕ → Bool → Text → Option ℕ
unfolding scan skip_prefix
convert to base minus cs = Option.map (to minus) (scan base none (skip_prefix base cs))

pub signed_text : (Bool → ℕ → ℕ) → ℕ → Text → Option ℕ
unfolding convert
signed_text to base [] = none
signed_text to base (c ∷ cs) =
    if c == b'-'
    then convert to base true cs
    else if c == b'+'
    then convert to base false cs
    else convert to base false (c ∷ cs)

unfoldable pub strtoull : ℕ → Text → Option ℕ
unfolding signed_text to_unsigned skip_spaces
strtoull base cs = signed_text to_unsigned base (skip_spaces cs)

unfoldable pub strtoll : ℕ → Text → Option ℕ
unfolding signed_text to_signed skip_spaces
strtoll base cs = signed_text to_signed base (skip_spaces cs)
