-- ===== src/Arg/Help/Names.antt =====
-- What concat_args and makeCommandline of arg.c put into their buffers.
use autolock.Base.{
  ℕ, zero, suc, ◌+◌, ◌-◌, ◌≤◌, ◌<◌, ◌≡◌, refl, sym, ap, ◌∙◌, inl, inr, arith, Bool, true, false,
  List, [], ◌∷◌, ◌++◌, length, length-append, append_assoc, append_nil, ltb, if◌then◌else◌,
  Bool-cases,
}
use autolock.Base.Exec.{Exec, value, died, outside, die_assert, ◌>>=◌}
use autolock.Arg.{Text}
use autolock.Arg.Help.{
  take, drop_last, names_len, concat_from, concat_args, line_size, copy_args, end_line,
  make_commandline,
}

-- Each text with a character behind it.
abbrev pub marked : ℕ → List Text → List ℕ
marked c [] = []
marked c (n ∷ ns) = n ++ c ∷ marked c ns

-- The texts with the character between them.
abbrev pub join : ℕ → List Text → Text
join c [] = []
join c (n ∷ []) = n
join c (n ∷ m ∷ ns) = n ++ c ∷ join c (m ∷ ns)

drop_last-append :
    (xs : List ℕ) (y : ℕ) (ys : List ℕ) → drop_last (xs ++ y ∷ ys) ≡ xs ++ drop_last (y ∷ ys)
drop_last-append [] y ys = refl
drop_last-append (x ∷ []) y ys = refl
drop_last-append (x ∷ z ∷ xs) y ys = ap (λ l. x ∷ l) (drop_last-append (z ∷ xs) y ys)

drop_last-cons :
    (c d : ℕ) (n : List ℕ) (xs : List ℕ) → drop_last (c ∷ n ++ d ∷ xs) ≡ c ∷ drop_last (n ++ d ∷ xs)
drop_last-cons c d [] xs = refl
drop_last-cons c d (e ∷ n) xs = refl

drop_last-marked : (c : ℕ) (ns : List Text) → drop_last (marked c ns) ≡ join c ns
drop_last-marked c [] = refl
drop_last-marked c (n ∷ []) = drop_last-append n c [] ∙ append_nil n
drop_last-marked c (n ∷ m ∷ ns) =
    drop_last-append n c (marked c (m ∷ ns))
    ∙ ap (λ l. n ++ l)
        (drop_last-cons c c m (marked c ns) ∙ ap (λ l. c ∷ l) (drop_last-marked c (m ∷ ns)))

length-marked :
    (c : ℕ) (n : Text) (ns : List Text)
    → length (marked c (n ∷ ns)) ≡ suc (length (join c (n ∷ ns)))
length-marked c n [] = omega (arith, length-append {0} n (c ∷ []))
length-marked c n (m ∷ ns) = omega (
  arith,
  length-append {0} n (c ∷ marked c (m ∷ ns)),
  length-append {0} n (c ∷ join c (m ∷ ns)),
  length-marked c m ns,
)

take_all : (k : ℕ) (cs : List ℕ) → length cs ≤ k → take k cs ≡ cs
take_all zero [] h = refl
take_all zero (c ∷ cs) h = absurd (omega (arith, h))
take_all (suc k) [] h = refl
take_all (suc k) (c ∷ cs) h = ap (λ l. c ∷ l) (take_all k cs (omega (arith, h)))

length-take_full : (k : ℕ) (cs : List ℕ) → k ≤ length cs → length (take k cs) ≡ k
length-take_full zero cs h = refl
length-take_full (suc k) [] h = absurd (omega (arith, h))
length-take_full (suc k) (c ∷ cs) h = omega (arith, length-take_full k cs (omega (arith, h)))

die_assert-true : (b : Bool) {x : Exec (List ℕ)} → b ≡ true → die_assert b x ≡ x
die_assert-true b h = rw h refl

die_assert-false : (b : Bool) (x : Exec (List ℕ)) → b ≡ false → die_assert b x ≡ died
die_assert-false b x h = rw h refl

concat_from-fits :
    (buf : List ℕ) (ns : List Text)
    → length buf + length (marked b'|' ns) ≤ names_len
    → concat_from buf ns ≡ value (buf ++ marked b'|' ns)
concat_from-fits buf [] h = ap value (sym (append_nil buf))
concat_from-fits buf (n ∷ ns) h =
    let e = length-append {0} n (b'|' ∷ marked b'|' ns) in
    let all = take_all (names_len - length buf) n (omega (arith, h, e)) in
    rw all (
      die_assert-true (ltb (length buf) names_len) (ground (arith, h, e))
      ∙ die_assert-true (ltb (length (buf ++ n)) names_len)
          (ground (arith, h, e, length-append {0} buf n))
      ∙ concat_from-fits ((buf ++ n) ++ b'|' ∷ []) ns
          (omega (arith, h, e, length-append {0} (buf ++ n) (b'|' ∷ []), length-append {0} buf n))
      ∙ ap value (append_assoc (buf ++ n) (b'|' ∷ []) (marked b'|' ns) ∙ append_assoc buf n _))

concat_from-overflows :
    (buf : List ℕ) (ns : List Text)
    → length buf ≤ names_len
    → names_len < length buf + length (marked b'|' ns)
    → concat_from buf ns ≡ died
concat_from-overflows buf [] w h = absurd (omega (arith, w, h))
concat_from-overflows buf (n ∷ ns) w h =
    let e = length-append {0} n (b'|' ∷ marked b'|' ns) in
    elim (Bool-cases (ltb (length buf) names_len)) [
      | inr full ↦ die_assert-false (ltb (length buf) names_len) _ full
      | inl room ↦
          die_assert-true (ltb (length buf) names_len) room
          ∙ elim (Bool-cases (ltb (length n) (names_len - length buf))) [
            | inl short ↦
                let all = take_all (names_len - length buf) n (ground (arith, short)) in
                rw all (
                  die_assert-true (ltb (length (buf ++ n)) names_len)
                    (ground (arith, short, length-append {0} buf n))
                  ∙ concat_from-overflows ((buf ++ n) ++ b'|' ∷ []) ns
                      (ground (
                        arith,
                        short,
                        length-append {0} (buf ++ n) (b'|' ∷ []),
                        length-append {0} buf n,
                      ))
                      (omega (
                        arith,
                        h,
                        e,
                        length-append {0} (buf ++ n) (b'|' ∷ []),
                        length-append {0} buf n,
                      )))
            | inr long ↦
                die_assert-false (ltb (length (buf ++ take (names_len - length buf) n)) names_len)
                  (concat_from ((buf ++ take (names_len - length buf) n) ++ b'|' ∷ []) ns)
                  (ground (
                    arith,
                    long,
                    room,
                    length-append {0} buf (take (names_len - length buf) n),
                    length-take_full (names_len - length buf) n (ground (arith, long)),
                  ))
          ]
    ]

-- concat_args gives the names with bars between them, if these and the terminator fit in its buffer
-- of 128 bytes; and else it ends the program. It never writes outside the buffer.
pub concat_args-join :
    (ns : List Text)
    → concat_args ns
      ≡ (if ltb (length (join b'|' ns)) names_len then value (join b'|' ns) else died)
unfolding concat_args
concat_args-join [] = refl
concat_args-join (n ∷ ns) = elim (Bool-cases (ltb (length (join b'|' (n ∷ ns))) names_len)) [
  | inl fits ↦
      ap (λ r. r >>= λ buf. value (drop_last buf))
        (concat_from-fits [] (n ∷ ns) (ground (arith, fits, length-marked b'|' n ns)))
      ∙ ap value (drop_last-marked b'|' (n ∷ ns))
      ∙ rw fits refl
  | inr long ↦
      ap (λ r. r >>= λ buf. value (drop_last buf))
        (concat_from-overflows [] (n ∷ ns) (omega arith)
          (ground (arith, long, length-marked b'|' n ns)))
      ∙ rw long refl
]

copy_args-marked :
    (size : ℕ) (line : List ℕ) (argv : List Text)
    → length line + length (marked b' ' argv) < size
    → copy_args size line argv ≡ value (line ++ marked b' ' argv)
copy_args-marked size line [] h = ap value (sym (append_nil line))
copy_args-marked size line (a ∷ argv) h =
    let e = length-append {0} a (b' ' ∷ marked b' ' argv) in
    let room : ltb (length line + length a) size ≡ true = ground (arith, h, e) in
    rw room (
      copy_args-marked size ((line ++ a) ++ b' ' ∷ []) argv
        (omega (arith, h, e, length-append {0} (line ++ a) (b' ' ∷ []), length-append {0} line a))
      ∙ ap value (
          append_assoc (line ++ a) (b' ' ∷ []) (marked b' ' argv)
          ∙ append_assoc line a (b' ' ∷ marked b' ' argv)))

line_size-marked : (argv : List Text) → line_size argv ≡ 2 + length (marked b' ' argv)
line_size-marked [] = refl
line_size-marked (a ∷ argv) =
    omega (arith, line_size-marked argv, length-append {0} a (b' ' ∷ marked b' ' argv))

end_line-drop_last : (line : List ℕ) → 0 < length line → end_line line ≡ value (drop_last line)
end_line-drop_last [] h = absurd (omega (arith, h))
end_line-drop_last (c ∷ line) h = refl

-- makeCommandline gives the arguments with a blank between them, and writes nothing outside the bytes
-- that it has allocated, if there is an argument; with none it writes in front of them.
pub make_commandline-join :
    (argv : List Text)
    → make_commandline argv ≡ (if ltb 0 (length argv) then value (join b' ' argv) else outside)
unfolding make_commandline
make_commandline-join [] = refl
make_commandline-join (a ∷ argv) =
    ap (λ r. r >>= end_line)
      (copy_args-marked (line_size (a ∷ argv)) [] (a ∷ argv)
        (omega (arith, line_size-marked (a ∷ argv))))
    ∙ end_line-drop_last (marked b' ' (a ∷ argv)) (omega (arith, length-marked b' ' a argv))
    ∙ ap value (drop_last-marked b' ' (a ∷ argv))
    ∙ counted (length argv) (value (join b' ' (a ∷ argv))) outside
  where
    counted : (k : ℕ) (x y : Exec Text) → x ≡ (if ltb 0 (suc k) then x else y)
    counted k x y = ground arith
