-- ===== src/Arg/Help/Parts.antt =====
-- How the shorthand of an option is made up, from its kind, its type and its names.
use mathlib.Core.Option
use mathlib.Core.Option.{Option}
use autolock.Base.{
  ℕ, ◌≡◌, refl, ap, ◌∙◌, inl, inr, Bool, true, false, not, ◌&&◌, none, some, List, [], ◌∷◌, ◌++◌,
  length, ◌==◌, ltb, if◌then◌else◌, Bool-cases,
}
use autolock.Base.Exec.{Exec, value, died, ◌>>=◌}
use autolock.Arg.{
  Text, ArgType, integer, character, string, boolean, float, rest, help, increment, set, toggle,
  end_options, ArgKind, kind_option, kind_help, kind_positional, kind_rest, kind_end, kind_num,
  ArgOption,
}
use autolock.Arg.Help.{names_len, type2fmt, rest_kind, sep_char, dots, opening}
use autolock.Arg.Help.Names.{join}
use autolock.Arg.Help.Ending.{ending}

-- The names with bars between them, if they fit in the buffer of concat_args.
abbrev pub names_of : ArgOption → Exec Text
names_of d = let n = join b'|' d.args_begin in if ltb (length n) names_len then value n else died

abbrev pub with_value : ArgOption → Exec Text
with_value d = names_of d >>= λ n. value (n ++ sep_char d ∷ type2fmt d.type)

abbrev pub middle : ArgType → ArgOption → Exec Text
middle integer d = with_value d
middle character d = with_value d
middle string d = with_value d
middle boolean d = with_value d
middle float d = with_value d
middle rest d =
    if rest_kind d then value (dots ++ sep_char d ∷ type2fmt rest ++ b' ' ∷ []) else died
middle help d = names_of d
middle toggle d = names_of d
middle set d = names_of d
middle increment d = names_of d
middle end_options d = died

abbrev pub parts : ArgOption → Exec Text
parts d = middle d.type d >>= λ m. value ((opening d ++ m) ++ ending d)

-- The same from the kind, the type, whether it is optional, and the names.
abbrev pub lead : ArgKind → Bool → Text
lead k true = b'[' ∷ []
lead kind_positional false = b'<' ∷ []
lead k false = []

abbrev pub trail : ArgKind → Bool → Text
trail kind_rest o = b'.' ∷ b'.' ∷ b'.' ∷ []
trail k true = b']' ∷ []
trail kind_positional false = b'>' ∷ []
trail k false = []

abbrev pub divider : ArgKind → ℕ
divider kind_positional = b':'
divider k = b' '

-- The word for a type that has a value.
abbrev pub word : ArgType → Option Text
word integer = some (b'i' ∷ b'n' ∷ b't' ∷ [])
word character = some (b'c' ∷ b'h' ∷ b'a' ∷ b'r' ∷ [])
word string = some (b's' ∷ b't' ∷ b'r' ∷ b'i' ∷ b'n' ∷ b'g' ∷ [])
word boolean = some (b'b' ∷ b'o' ∷ b'o' ∷ b'l' ∷ [])
word float = some (b'f' ∷ b'l' ∷ b'o' ∷ b'a' ∷ b't' ∷ [])
word t = none

abbrev pub valued_text : ArgKind → Option Text → Text → Text
valued_text k none n = n
valued_text k (some w) n = n ++ (divider k ∷ b'<' ∷ (w ++ b'>' ∷ []))

-- The names with bars between them, if these and a terminator fit in 128 bytes.
abbrev pub short_names : List Text → Option Text
short_names ns = if ltb (length (join b'|' ns)) 128 then some (join b'|' ns) else none

abbrev pub rest_text : ArgKind → Option Text
rest_text kind_rest =
    some (b'.' ∷ b'.' ∷ b'.' ∷ b' ' ∷ b'<' ∷ b'r' ∷ b'e' ∷ b's' ∷ b't' ∷ b'>' ∷ b' ' ∷ [])
rest_text k = none

-- The text between the brackets, if there is one.
abbrev pub inner : ArgType → ArgKind → List Text → Option Text
inner rest k ns = rest_text k
inner end_options k ns = none
inner t k ns = Option.map (valued_text k (word t)) (short_names ns)

abbrev pub text_or_die : (Text → Exec Text) → Option Text → Exec Text
text_or_die f none = died
text_or_die f (some m) = f m

abbrev pub shorthand : ArgKind → ArgType → Bool → List Text → Exec Text
shorthand k t o ns = text_or_die (λ m. value ((lead k o ++ m) ++ trail k o)) (inner t k ns)

opening-lead :
    (k : ArgKind) (o : Bool)
    → (if kind_num k == 2 && not o then b'<' ∷ [] else if o then b'[' ∷ [] else []) ≡ lead k o
opening-lead kind_option true = refl
opening-lead kind_option false = refl
opening-lead kind_help true = refl
opening-lead kind_help false = refl
opening-lead kind_positional true = refl
opening-lead kind_positional false = refl
opening-lead kind_rest true = refl
opening-lead kind_rest false = refl
opening-lead kind_end true = refl
opening-lead kind_end false = refl

ending-trail :
    (k : ArgKind) (o : Bool)
    → (if kind_num k == 3
        then dots
        else if kind_num k == 2 && not o
        then b'>' ∷ []
        else if o
        then b']' ∷ []
        else [])
      ≡ trail k o
ending-trail kind_option true = refl
ending-trail kind_option false = refl
ending-trail kind_help true = refl
ending-trail kind_help false = refl
ending-trail kind_positional true = refl
ending-trail kind_positional false = refl
ending-trail kind_rest true = refl
ending-trail kind_rest false = refl
ending-trail kind_end true = refl
ending-trail kind_end false = refl

sep_char-divider : (k : ArgKind) → (if kind_num k == 2 then b':' else b' ') ≡ divider k
sep_char-divider kind_option = refl
sep_char-divider kind_help = refl
sep_char-divider kind_positional = refl
sep_char-divider kind_rest = refl
sep_char-divider kind_end = refl

module _ (d : ArgOption) (f : Text → Exec Text) where
  named_inner :
      (names_of d >>= f)
      ≡ text_or_die f (Option.map (valued_text d.kind none) (short_names d.args_begin))
  named_inner = elim (Bool-cases (ltb (length (join b'|' d.args_begin)) names_len)) [
    | inl z ↦ rw z refl
    | inr z ↦ rw z refl
  ]

  valued_inner :
      (w : Text)
      → type2fmt d.type ≡ b'<' ∷ w ++ b'>' ∷ []
      → (with_value d >>= f)
        ≡ text_or_die f (Option.map (valued_text d.kind (some w)) (short_names d.args_begin))
  valued_inner w e = elim (Bool-cases (ltb (length (join b'|' d.args_begin)) names_len)) [
    | inl z ↦ rw z (
        ap (λ x. f (join b'|' d.args_begin ++ x))
          (ap (λ c. c ∷ type2fmt d.type) (sep_char-divider d.kind)
            ∙ ap (λ x. divider d.kind ∷ x) e))
    | inr z ↦ rw z refl
  ]

  rest_inner :
      (k : ArgKind)
      → ((if kind_num k == 3
            then value
                (dots ++ (if kind_num k == 2 then b':' else b' ') ∷ type2fmt rest ++ b' ' ∷ [])
            else died)
          >>= f)
        ≡ text_or_die f (rest_text k)
  rest_inner kind_option = refl
  rest_inner kind_help = refl
  rest_inner kind_positional = refl
  rest_inner kind_rest = refl
  rest_inner kind_end = refl

  middle-inner :
      (t : ArgType) → d.type ≡ t → (middle t d >>= f) ≡ text_or_die f (inner t d.kind d.args_begin)
  middle-inner integer e = valued_inner (b'i' ∷ b'n' ∷ b't' ∷ []) (ap type2fmt e)
  middle-inner character e = valued_inner (b'c' ∷ b'h' ∷ b'a' ∷ b'r' ∷ []) (ap type2fmt e)
  middle-inner string e =
      valued_inner (b's' ∷ b't' ∷ b'r' ∷ b'i' ∷ b'n' ∷ b'g' ∷ []) (ap type2fmt e)
  middle-inner boolean e = valued_inner (b'b' ∷ b'o' ∷ b'o' ∷ b'l' ∷ []) (ap type2fmt e)
  middle-inner float e = valued_inner (b'f' ∷ b'l' ∷ b'o' ∷ b'a' ∷ b't' ∷ []) (ap type2fmt e)
  middle-inner rest e = rest_inner d.kind
  middle-inner help e = named_inner
  middle-inner toggle e = named_inner
  middle-inner set e = named_inner
  middle-inner increment e = named_inner
  middle-inner end_options e = refl

pub parts-shorthand :
    (d : ArgOption) → parts d ≡ shorthand d.kind d.type (d.required == 0) d.args_begin
parts-shorthand d =
    middle-inner d (λ m. value ((opening d ++ m) ++ ending d)) d.type refl
    ∙ ap (λ x. text_or_die (λ m. value ((x ++ m) ++ ending d)) (inner d.type d.kind d.args_begin))
        (opening-lead d.kind (d.required == 0))
    ∙ ap
        (λ x.
          text_or_die (λ m. value ((lead d.kind (d.required == 0) ++ m) ++ x))
            (inner d.type d.kind d.args_begin))
        (ending-trail d.kind (d.required == 0))
