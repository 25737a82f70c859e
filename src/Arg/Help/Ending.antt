-- ===== src/Arg/Help/Ending.antt =====
-- What arg2str of arg.c does behind its switch: the dots, the bracket and the end of the text.
use autolock.Base.{
  ℕ, ◌≤◌, ◌≡◌, refl, sym, ap, ◌∙◌, inl, inr, arith, Bool, true, false, not, ◌&&◌, List, [], ◌∷◌,
  ◌++◌, length, length-append, append_assoc, append_nil, ◌==◌, ltb, if◌then◌else◌, Bool-cases,
}
use autolock.Base.Exec.{Exec, value, die_assert, ◌>>=◌}
use autolock.Arg.{Text, ArgOption}
use autolock.Arg.Help.{
  c_string, positional_kind, rest_kind, dots, avail, print, opening, close_bracket, print_dots,
}
use autolock.Arg.Help.Names.{join}

-- No terminator stands inside a text.
abbrev pub IsText : List ℕ → Type 0
IsText [] = Unit {0}
IsText (c ∷ cs) = ((c == 0) ≡ false) × IsText cs

abbrev pub AreTexts : List Text → Type 0
AreTexts [] = Unit {0}
AreTexts (n ∷ ns) = IsText n × AreTexts ns

-- What stands behind the names: the dots of the rest, whose terminator hides a bracket, or the
-- bracket that closes.
abbrev pub ending : ArgOption → Text
ending d =
    if rest_kind d
    then dots
    else if positional_kind d && not (d.required == 0)
    then b'>' ∷ []
    else if d.required == 0
    then b']' ∷ []
    else []

c_string-append : (xs ys : List ℕ) → IsText xs → c_string (xs ++ ys) ≡ xs ++ c_string ys
c_string-append [] ys h = refl
c_string-append (x ∷ xs) ys (h, hs) = rw h (ap (λ l. x ∷ l) (c_string-append xs ys hs))

pub IsText-append : (xs ys : List ℕ) → IsText xs → IsText ys → IsText (xs ++ ys)
IsText-append [] ys h k = k
IsText-append (x ∷ xs) ys (h, hs) k = (h, IsText-append xs ys hs k)

pub join-IsText : (ns : List Text) → AreTexts ns → IsText (join b'|' ns)
join-IsText [] h = tt
join-IsText (n ∷ []) (h, hs) = h
join-IsText (n ∷ m ∷ ns) (h, hs) =
    IsText-append n (b'|' ∷ join b'|' (m ∷ ns)) h (refl, join-IsText (m ∷ ns) hs)

-- The bytes that the two last steps append.
abbrev dot_bytes : ArgOption → List ℕ
dot_bytes d = if rest_kind d then dots ++ 0 ∷ [] else []

abbrev close_bytes : ArgOption → List ℕ
close_bytes d =
    if positional_kind d && not (d.required == 0)
    then b'>' ∷ []
    else if d.required == 0
    then b']' ∷ []
    else []

print_dots-bytes :
    (d : ArgOption) (buf : List ℕ)
    → length buf ≤ 200
    → print_dots d buf ≡ value (buf ++ dot_bytes d)
print_dots-bytes d buf h = elim (Bool-cases (rest_kind d)) [
  | inl r ↦ rw (r, room) (ap value (append_assoc buf dots (0 ∷ [])))
  | inr r ↦ rw r (ap value (sym (append_nil buf)))
]
  where
    room : ltb 4 (avail buf) ≡ true
    room = ground (arith, h)

close_bracket-bytes :
    (d : ArgOption) (buf : List ℕ)
    → length buf ≤ 300
    → close_bracket d buf ≡ value (buf ++ close_bytes d)
close_bracket-bytes d buf h = elim (Bool-cases (positional_kind d && not (d.required == 0))) [
  | inl r ↦ rw (r, room) refl
  | inr r ↦ elim (Bool-cases (d.required == 0)) [
    | inl z ↦ rw (r, z, room) refl
    | inr z ↦ rw (r, z) (ap value (sym (append_nil buf)))
  ]
]
  where
    room : ltb 1 (avail buf) ≡ true
    room = ground (arith, h)

-- What is done behind the switch.
abbrev pub behind_switch : ArgOption → Exec (List ℕ) → Exec Text
behind_switch d r =
    r
    >>= print_dots d
    >>= close_bracket d
    >>= (λ buf. die_assert (ltb 0 (avail buf)) (value (c_string buf)))

opening-short : (d : ArgOption) → length (opening d) ≤ 1
opening-short d = ground arith

opening-IsText : (d : ArgOption) → IsText (opening d)
opening-IsText d = elim (Bool-cases (positional_kind d && not (d.required == 0))) [
  | inl r ↦ rw r (refl, tt)
  | inr r ↦ elim (Bool-cases (d.required == 0)) [
    | inl z ↦ rw (r, z) (refl, tt)
    | inr z ↦ rw (r, z) tt
  ]
]

bytes-short : (d : ArgOption) → (length (dot_bytes d) ≤ 4) × (length (close_bytes d) ≤ 1)
bytes-short d = ground arith

c_string-bytes : (d : ArgOption) → c_string (dot_bytes d ++ close_bytes d) ≡ ending d
c_string-bytes d = elim (Bool-cases (rest_kind d)) [
  | inl r ↦ rw r refl
  | inr r ↦ elim (Bool-cases (positional_kind d && not (d.required == 0))) [
    | inl p ↦ rw (r, p) refl
    | inr p ↦ elim (Bool-cases (d.required == 0)) [
      | inl z ↦ rw (r, p, z) refl
      | inr z ↦ rw (r, p, z) refl
    ]
  ]
]

behind_switch-ending :
    (d : ArgOption) (buf : List ℕ)
    → length buf ≤ 200
    → IsText buf
    → behind_switch d (value buf) ≡ value (buf ++ ending d)
behind_switch-ending d buf h t =
    ap (λ r. r >>= close_bracket d >>= last) (print_dots-bytes d buf h)
    ∙ ap (λ r. r >>= last)
        (close_bracket-bytes d (buf ++ dot_bytes d)
          (omega (arith, h, length-append {0} buf (dot_bytes d), (bytes-short d).0)))
    ∙ ended
    ∙ ap (λ x. value (c_string x)) (append_assoc buf (dot_bytes d) (close_bytes d))
    ∙ ap value (
        c_string-append buf (dot_bytes d ++ close_bytes d) t
        ∙ ap (λ x. buf ++ x) (c_string-bytes d))
  where
    last : List ℕ → Exec Text
    last buf = die_assert (ltb 0 (avail buf)) (value (c_string buf))

    all : List ℕ
    all = (buf ++ dot_bytes d) ++ close_bytes d

    all-short : length all ≤ 205
    all-short = omega (
      arith,
      h,
      length-append {0} buf (dot_bytes d),
      length-append {0} (buf ++ dot_bytes d) (close_bytes d),
      (bytes-short d).0,
      (bytes-short d).1,
    )

    ended : last all ≡ value (c_string all)
    ended = asserted (ltb 0 (avail all)) (ground (arith, all-short)) (value (c_string all))
      where
        asserted : (b : Bool) → b ≡ true → (x : Exec Text) → die_assert b x ≡ x
        asserted b h x = rw h refl

-- One print, and then the end.
pub printed :
    (d : ArgOption) (m : List ℕ)
    → length m ≤ 140
    → IsText m
    → behind_switch d (print (opening d) m) ≡ value ((opening d ++ m) ++ ending d)
printed d m h t =
    ap (behind_switch d) (
      asserted (ltb (length m) (avail (opening d))) (ground (arith, h, opening-short d))
        (value (opening d ++ m)))
    ∙ behind_switch-ending d (opening d ++ m)
        (omega (arith, h, opening-short d, length-append {0} (opening d) m))
        (IsText-append (opening d) m (opening-IsText d) t)
  where
    asserted : (b : Bool) → b ≡ true → (x : Exec (List ℕ)) → die_assert b x ≡ x
    asserted b h x = rw h refl
