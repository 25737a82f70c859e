-- ===== src/Stats/Appending.antt =====
-- How each printer of stats.c puts its text behind the text that is there.
use autolock.Base.{
  ℕ, ◌<◌, ltb, ltb→lt, Bool, true, false, ◌≡◌, refl, ap, sym, ◌∙◌, ◌↔◌, arith, List, [], ◌∷◌, ◌++◌,
  length, length-append, append_nil, append_assoc, Bool-cases, inl, inr, if◌then◌else◌,
}
use mathlib.Core.Path.{subst}
use autolock.Arg.{Text}
use autolock.Stats.{Exec, value, died, running, outside, ◌>>=◌, Flag, p_desc, p_percentiles, has}
use autolock.Stats.Values.{value_inj, die_assert-value, bind-value}
use autolock.Stats.Print.{fields, do_print, check_print, print_fields, print_percentiles}

-- Two texts, one behind the other.
abbrev pub join : Exec Text → Exec Text → Exec Text
join p q = p >>= λ a. q >>= λ b. value (a ++ b)

abbrev pub when : Bool → Text → Text
when true text = text
when false text = []

abbrev pub field_text : ℕ → (Flag → Text) → List Flag → Text
field_text to_print line [] = []
field_text to_print line (f ∷ fs) = when (has f to_print) (line f) ++ field_text to_print line fs

abbrev pub percentile_text : (ℕ → Exec Text) → List ℕ → Exec Text
percentile_text line [] = value []
percentile_text line (p ∷ ps) = join (line p) (percentile_text line ps)

-- The whole text: the lines that `to_print` asks for. There is none if a percentile is unknown.
abbrev pub report : ℕ → Text → (Flag → Text) → (ℕ → Exec Text) → List ℕ → Exec Text
report to_print desc line percentile ps =
    join (join (value (when (has p_desc to_print) desc)) (value (field_text to_print line fields)))
      (if has p_percentiles to_print then percentile_text percentile ps else value [])

module _ (buflen : ℕ) where
  -- The computation `m` puts the text `p` behind the text that is there, if there is one and it
  -- fits, and ends the program otherwise.
  abbrev pub Appends : (Text → Exec Text) → Exec Text → Type 0
  Appends m p =
      (text t : Text)
      → length text < buflen
      → (m text ≡ value t) ↔ ((s : Text) × (p ≡ value s) × (t ≡ text ++ s) × (length t < buflen))

  pub do_print-Appends : (piece : Text) → Appends (do_print buflen piece) (value piece)
  do_print-Appends piece text t small = (
    λ h.
        let (b, e) = (die_assert-value _ (value (text ++ piece)) t).0 h in
        (
          piece,
          refl,
          sym (value_inj e),
          subst (λ u. length u < buflen) (value_inj e) (ltb→lt _ _ b),
        ),
    λ (s, e, q, lt).
        let q' = q ∙ ap (λ u. text ++ u) (sym (value_inj e)) in
        (die_assert-value _ (value (text ++ piece)) t).1
          (fits _ (subst (λ u. length u < buflen) q' lt), ap value (sym q')),
  )
    where
      fits : (n : ℕ) → n < buflen → ltb n buflen ≡ true
      fits n lt = ground arith

  pub skip-Appends : Appends value (value [])
  skip-Appends text t small = (
    λ h. (
      [],
      refl,
      sym (value_inj h) ∙ sym (append_nil text),
      subst (λ u. length u < buflen) (value_inj h) small,
    ),
    λ (s, e, q, lt). ap value (sym (q ∙ ap (λ u. text ++ u) (sym (value_inj e)) ∙ append_nil text)),
  )

  pub then-Appends :
      (m k : Text → Exec Text) (p q : Exec Text)
      → Appends m p
      → Appends k q
      → Appends (λ text. m text >>= k) (join p q)
  then-Appends m k p q hm hk text t small = (
    λ h.
        let (u, e, g) = (bind-value (m text) k t).0 h in
        let (a, pa, ua, ul) = (hm text u small).0 e in
        let (b, qb, tb, tl) = (hk u t ul).0 g in
        (a ++ b, rw (pa, qb) refl, tb ∙ ap (λ x. x ++ b) ua ∙ append_assoc text a b, tl),
    λ (s, e, ts, lt).
        let (a, pa, g) = (bind-value p _ (s)).0 e in
        let (b, qb, ab) = (bind-value q _ s).0 g in
        let tab = ts ∙ ap (λ x. text ++ x) (sym (value_inj ab)) ∙ sym (append_assoc text a b) in
        let short = below (text ++ a) b (subst (λ x. length x < buflen) tab lt) in
        (bind-value (m text) k t).1 (
          text ++ a,
          (hm text (text ++ a) small).1 (a, pa, refl, short),
          (hk (text ++ a) t short).1 (b, qb, tab, lt),
        ),
  )
    where
      below : (x y : Text) → length (x ++ y) < buflen → length x < buflen
      below x y lt = omega (arith, lt, length-append x y)

  pub check_print-Appends :
      (to_print : ℕ) (f : Flag) (line : Text)
      → Appends (check_print buflen to_print f line) (value (when (has f to_print) line))
  check_print-Appends to_print f line = elim (Bool-cases (has f to_print)) [
    | inl q ↦ rw q (do_print-Appends line)
    | inr q ↦ rw q skip-Appends
  ]

  pub print_fields-Appends :
      (to_print : ℕ) (line : Flag → Text) (fs : List Flag)
      → Appends (print_fields buflen to_print line fs) (value (field_text to_print line fs))
  print_fields-Appends to_print line [] = skip-Appends
  print_fields-Appends to_print line (f ∷ fs) =
      then-Appends (check_print buflen to_print f (line f)) (print_fields buflen to_print line fs)
        (value (when (has f to_print) (line f))) (value (field_text to_print line fs))
        (check_print-Appends to_print f (line f)) (print_fields-Appends to_print line fs)

  pub piece-Appends :
      (piece : Exec Text) (k : Text → Exec Text) (q : Exec Text)
      → Appends k q
      → Appends (λ text. piece >>= λ line. do_print buflen line text >>= k) (join piece q)
  piece-Appends (value line) k q h =
      then-Appends (do_print buflen line) k (value line) q (do_print-Appends line) h
  piece-Appends died k q h =
      λ text t small. (λ e. absurd (ground arith), λ (s, e, o, l). absurd (ground arith))
  piece-Appends outside k q h =
      λ text t small. (λ e. absurd (ground arith), λ (s, e, o, l). absurd (ground arith))
  piece-Appends running k q h =
      λ text t small. (λ e. absurd (ground arith), λ (s, e, o, l). absurd (ground arith))

  pub print_percentiles-Appends :
      (line : ℕ → Exec Text) (ps : List ℕ)
      → Appends (print_percentiles buflen line ps) (percentile_text line ps)
  print_percentiles-Appends line [] = skip-Appends
  print_percentiles-Appends line (p ∷ ps) =
      piece-Appends (line p) (print_percentiles buflen line ps) (percentile_text line ps)
        (print_percentiles-Appends line ps)
