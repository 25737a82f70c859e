-- ===== src/Stats/Printing.antt =====
-- The printers of stats.c that give a line to a value, against the text that they are to print.
use autolock.Base.{
  ℕ, ◌<◌, ◌≤◌, ◌⊎◌, ltb, ltb→lt, true, false, ◌≡◌, refl, ap, sym, ◌∙◌, ◌↔◌, arith, List, [], length,
  Bool-cases, inl, inr, if◌then◌else◌,
}
use autolock.Arg.{Text}
use autolock.Stats.{Exec, value, died, ◌>>=◌, Flag, p_desc, p_percentiles, has, StatsResult}
use autolock.Stats.Floats.{Floats}
use autolock.Stats.Print.{
  Formats, fields, all_by_default, print_check, check_print, print_fields, print_percentiles,
  print_all_lines, field_piece, percentile_piece, cmp_field_piece, cmp_percentile_piece, prints_arr,
  prints_cmp_arr,
}
use autolock.Stats.Appending.{
  percentile_text, report, Appends, skip-Appends, then-Appends, check_print-Appends,
  print_fields-Appends, print_percentiles-Appends,
}
use autolock.Stats.Overflow.{
  Dies, skip-Dies, then-Dies, check_print-Dies, print_fields-Dies, print_percentiles-Dies,
}

-- What a printer makes of the whole text: it returns that text exactly if it fits into the buffer, and
-- where there is one that does not fit, it ends the program.
abbrev pub IsPrinted : ℕ → Exec Text → Exec Text → Text → Type 0
IsPrinted buflen printed whole t =
    ((printed ≡ value t) ↔ ((whole ≡ value t) × (length t < buflen)))
    × ((whole ≡ value t)
        ↔ ((printed ≡ value t) ⊎ ((whole ≡ value t) × (buflen ≤ length t) × (printed ≡ died))))

module _ (buflen : ℕ) where
  print_all_lines-fits :
      (to_print : ℕ) (desc : Text) (line : Flag → Text) (percentile : ℕ → Exec Text) (ps : List ℕ)
      (t : Text)
      → 0 < buflen
      → IsPrinted buflen
          (print_all_lines buflen to_print desc line percentile ps)
          (report to_print desc line percentile ps)
          t
  print_all_lines-fits to_print desc line percentile ps t pos = (
    (
      λ h. let (s, e, q, lt) = (whole [] t pos).0 h in (e ∙ ap value (sym q), lt),
      λ (e, lt). (whole [] t pos).1 (t, e, refl, lt),
    ),
    (
      λ e. elim (Bool-cases (ltb (length t) buflen)) [
        | inl c ↦ inl ((whole [] t pos).1 (t, e, refl, ltb→lt _ _ c))
        | inr c ↦ inr (e, over _ c, dies [] t pos e (over _ c))
      ],
      λ r. elim r [
        | inl h ↦ let (s, e, q, lt) = (whole [] t pos).0 h in e ∙ ap value (sym q)
        | inr (e, le, d) ↦ e
      ],
    ),
  )
    where
      over : (n : ℕ) → ltb n buflen ≡ false → buflen ≤ n
      over n c = ground arith

      last : Text → Exec Text
      last text =
          if has p_percentiles to_print
          then print_percentiles buflen percentile ps text
          else value text

      last-Appends :
          Appends buflen last
            (if has p_percentiles to_print then percentile_text percentile ps else value [])
      last-Appends = elim (Bool-cases (has p_percentiles to_print)) [
        | inl q ↦ rw (q, last) (print_percentiles-Appends buflen percentile ps)
        | inr q ↦ rw (q, last) (skip-Appends buflen)
      ]

      first : Text → Exec Text
      first text =
          check_print buflen to_print p_desc desc text >>= print_fields buflen to_print line fields

      whole : Appends buflen (λ text. first text >>= last) (report to_print desc line percentile ps)
      whole =
          then-Appends buflen first last _ _
            (then-Appends buflen (check_print buflen to_print p_desc desc)
              (print_fields buflen to_print line fields) _ _
              (check_print-Appends buflen to_print p_desc desc)
              (print_fields-Appends buflen to_print line fields))
            last-Appends

      last-Dies :
          Dies buflen last
            (if has p_percentiles to_print then percentile_text percentile ps else value [])
      last-Dies = elim (Bool-cases (has p_percentiles to_print)) [
        | inl q ↦ rw (q, last) (print_percentiles-Dies buflen percentile ps)
        | inr q ↦ rw (q, last) (skip-Dies buflen)
      ]

      dies : Dies buflen (λ text. first text >>= last) (report to_print desc line percentile ps)
      dies =
          then-Dies buflen first last _ _
            (then-Appends buflen (check_print buflen to_print p_desc desc)
              (print_fields buflen to_print line fields) _ _
              (check_print-Appends buflen to_print p_desc desc)
              (print_fields-Appends buflen to_print line fields))
            (then-Dies buflen (check_print buflen to_print p_desc desc)
              (print_fields buflen to_print line fields) _ _
              (check_print-Appends buflen to_print p_desc desc)
              (check_print-Dies buflen to_print p_desc desc)
              (print_fields-Dies buflen to_print line fields))
            last-Dies

-- With a buffer of at least one byte and results that were collected, stats_prints_arr and
-- stats_prints_cmp_arr return exactly when the whole text that `to_print` asks for, every line if it
-- is 0, is shorter than the buffer, and that text is then what they write: they return no text that was
-- cut off, and none that asks for an unknown percentile. Where that text is as long as the buffer or
-- longer, they end the program.
pub prints-fits :
    {D : Type 0} (fl : Floats D) (fmt : Formats D) (buflen to_print : ℕ) (a b : StatsResult D)
    (ps : List ℕ) (t : Text)
    → 0 < buflen
    → a.has_stats ≡ true
    → b.has_stats ≡ true
    → IsPrinted buflen
        (prints_arr fl fmt buflen a to_print ps)
        (report
          (all_by_default to_print)
          (fmt.desc_line a.desc)
          (field_piece fl fmt a)
          (percentile_piece fl fmt a)
          ps)
        t
      × IsPrinted buflen
          (prints_cmp_arr fl fmt buflen a b to_print ps)
          (report
            (all_by_default to_print)
            (fmt.cmp_desc_line a.desc b.desc)
            (cmp_field_piece fl fmt a b)
            (cmp_percentile_piece fl fmt a b)
            ps)
          t
unfolding prints_arr prints_cmp_arr
prints-fits fl fmt buflen to_print a b ps t pos ha hb = (
  rw (ha, print_check) (print_all_lines-fits buflen _ _ (field_piece fl fmt a) _ ps t pos),
  rw (ha, hb, print_check)
      (print_all_lines-fits buflen _ _ (cmp_field_piece fl fmt a b) _ ps t pos),
)
