-- ===== src/Stats/Overflow.antt =====
-- Where the text does not fit into the buffer, the printers of stats.c end the program.
use autolock.Base.{
  ℕ, ◌<◌, ◌≤◌, ltb, ltb→lt, false, ◌≡◌, refl, ap, sym, ◌∙◌, arith, List, [], ◌∷◌, ◌++◌, length,
  length-append, append_assoc, Bool-cases, inl, inr,
}
use mathlib.Core.Path.{subst}
use autolock.Arg.{Text}
use autolock.Stats.{Exec, value, died, running, outside, ◌>>=◌, Flag, has}
use autolock.Stats.Values.{value_inj, bind-value}
use autolock.Stats.Print.{do_print, check_print, print_fields, print_percentiles}
use autolock.Stats.Appending.{
  join, when, field_text, percentile_text, Appends, do_print-Appends, check_print-Appends,
}

module _ (buflen : ℕ) where
  -- Where the computation `m` is to put the text `p` behind the text that is there, and it does not
  -- fit, it ends the program.
  abbrev pub Dies : (Text → Exec Text) → Exec Text → Type 0
  Dies m p =
      (text s : Text)
      → length text < buflen
      → p ≡ value s
      → buflen ≤ length (text ++ s)
      → m text ≡ died

  do_print-Dies : (piece : Text) → Dies (do_print buflen piece) (value piece)
  do_print-Dies piece text s small e long = rw (too_long _ (at e)) refl
    where
      at : value piece ≡ value s → buflen ≤ length (text ++ piece)
      at e = subst (λ x. buflen ≤ length (text ++ x)) (sym (value_inj e)) long

      too_long : (n : ℕ) → buflen ≤ n → ltb n buflen ≡ false
      too_long n le = ground arith

  pub skip-Dies : Dies value (value [])
  skip-Dies text s small e long =
      absurd (over (subst (λ x. buflen ≤ length (text ++ x)) (sym (value_inj e)) long))
    where
      over : buflen ≤ length (text ++ []) → ⊥
      over le = omega (arith, le, small, length-append text [])

  pub then-Dies :
      (m k : Text → Exec Text) (p q : Exec Text)
      → Appends buflen m p
      → Dies m p
      → Dies k q
      → Dies (λ text. m text >>= k) (join p q)
  then-Dies m k p q hm hd hk text s small e long =
      let (a, pa, g) = (bind-value p _ s).0 e in
      let (b, qb, ab) = (bind-value q _ s).0 g in
      let long' =
        subst (λ x. buflen ≤ length x)
          (ap (λ x. text ++ x) (sym (value_inj ab)) ∙ sym (append_assoc text a b)) long in
      elim (Bool-cases (ltb (length (text ++ a)) buflen)) [
        | inl c ↦
            rw ((hm text (text ++ a) small).1 (a, pa, refl, ltb→lt _ _ c))
              (hk (text ++ a) b (ltb→lt _ _ c) qb long')
        | inr c ↦ rw (hd text a small pa (over _ c)) refl
      ]
    where
      over : (n : ℕ) → ltb n buflen ≡ false → buflen ≤ n
      over n c = ground arith

  pub check_print-Dies :
      (to_print : ℕ) (f : Flag) (line : Text)
      → Dies (check_print buflen to_print f line) (value (when (has f to_print) line))
  check_print-Dies to_print f line = elim (Bool-cases (has f to_print)) [
    | inl q ↦ rw q (do_print-Dies line)
    | inr q ↦ rw q skip-Dies
  ]

  pub print_fields-Dies :
      (to_print : ℕ) (line : Flag → Text) (fs : List Flag)
      → Dies (print_fields buflen to_print line fs) (value (field_text to_print line fs))
  print_fields-Dies to_print line [] = skip-Dies
  print_fields-Dies to_print line (f ∷ fs) =
      then-Dies (check_print buflen to_print f (line f)) (print_fields buflen to_print line fs)
        (value (when (has f to_print) (line f))) (value (field_text to_print line fs))
        (check_print-Appends buflen to_print f (line f)) (check_print-Dies to_print f (line f))
        (print_fields-Dies to_print line fs)

  piece-Dies :
      (piece : Exec Text) (k : Text → Exec Text) (q : Exec Text)
      → Dies k q
      → Dies (λ text. piece >>= λ line. do_print buflen line text >>= k) (join piece q)
  piece-Dies (value line) k q h =
      then-Dies (do_print buflen line) k (value line) q (do_print-Appends buflen line)
        (do_print-Dies line) h
  piece-Dies died k q h = λ text s small e long. absurd (ground arith)
  piece-Dies outside k q h = λ text s small e long. absurd (ground arith)
  piece-Dies running k q h = λ text s small e long. absurd (ground arith)

  pub print_percentiles-Dies :
      (line : ℕ → Exec Text) (ps : List ℕ)
      → Dies (print_percentiles buflen line ps) (percentile_text line ps)
  print_percentiles-Dies line [] = skip-Dies
  print_percentiles-Dies line (p ∷ ps) =
      piece-Dies (line p) (print_percentiles buflen line ps) (percentile_text line ps)
        (print_percentiles-Dies line ps)
