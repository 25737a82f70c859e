-- ===== src/Stats/Csv.antt =====
-- stats_prints_csv_arr of stats.c and the fields of a result.
use autolock.Base.{
  ℕ, ◌==◌, ◌≡◌, refl, not, List, [], none, ◌∷◌, Bool-cases, inl, inr, if◌then◌else◌,
}
use autolock.Arg.{Text}
use autolock.Stats.{value, ◌>>=◌, Flag, has, StatsResult, p_csv_hdr_only, p_percentiles}
use autolock.Stats.Print.{
  Formats, fields, csv_field, csv_fields, csv_desc, csv_percentiles, end_row, newline,
  all_by_default, csv_row, csv_rows, prints_csv_arr, print_check,
}

module _ {D : Type 0} (fmt : Formats D) (buflen to_print : ℕ) (a b : StatsResult D) where
  csv_field-same :
      (i : ℕ) (f : Flag) (text : Text)
      → csv_field fmt buflen a to_print i f text ≡ csv_field fmt buflen b to_print i f text
  csv_field-same i f text = elim (Bool-cases (i == 0)) [
    | inl q ↦ rw (q, csv_field) refl
    | inr q ↦ rw (q, csv_field) refl
  ]

  csv_fields-same :
      (i : ℕ) (fs : List Flag) (text : Text)
      → csv_fields fmt buflen a to_print i fs text ≡ csv_fields fmt buflen b to_print i fs text
  csv_fields-same i [] text = refl
  csv_fields-same i (f ∷ fs) text =
      λ j. csv_field-same i f text j >>= (λ t. csv_fields-same i fs t j)

-- The same result with other values in the fields, but for the percentiles.
abbrev pub with_fields : {D : Type 0} → StatsResult D → D → D → D → D → D → D → D → StatsResult D
with_fields stats least most median mean geomean stdev variance = record stats {
  min = least;
  max = most;
  median = median;
  mean = mean;
  geomean = geomean;
  stdev = stdev;
  variance = variance;
}

module _ {D : Type 0} (fmt : Formats D) (buflen to_print : ℕ) (stats : StatsResult D)
    (least most median mean geomean stdev variance : D) where
  abbrev other : StatsResult D
  other = with_fields stats least most median mean geomean stdev variance

  csv_row-same :
      (ps : List ℕ) (i : ℕ) (text : Text)
      → csv_row fmt buflen stats to_print ps i text ≡ csv_row fmt buflen other to_print ps i text
  csv_row-same ps i text = λ j.
      csv_desc fmt buflen stats to_print i text
      >>= (λ t. csv_fields-same fmt buflen to_print stats other i fields t j)
      >>= (λ t.
          if has p_percentiles to_print
          then csv_percentiles fmt buflen stats to_print i ps t
          else value t)

  csv_rows-same :
      (ps : List ℕ) → csv_rows fmt buflen stats to_print ps ≡ csv_rows fmt buflen other to_print ps
  csv_rows-same ps = λ j. csv_row-same ps 0 [] j >>= λ header.
      if has p_csv_hdr_only to_print
      then end_row fmt buflen stats to_print 0 header
      else (end_row fmt buflen stats to_print newline header
          >>= (λ t. csv_row-same ps 1 t j)
          >>= end_row fmt buflen stats to_print newline
          >>= end_row fmt buflen stats to_print 0)

-- The csv text does not show min, max, median, mean, geomean, stdev and variance: results that
-- differ in nothing else have the same text, whatever `to_print` asks for and however large the
-- buffer is.
pub csv-same :
    {D : Type 0} (fmt : Formats D) (buflen to_print : ℕ) (stats : StatsResult D)
    (least most median mean geomean stdev variance : D) (ps : List ℕ)
    → prints_csv_arr fmt buflen stats to_print ps
      ≡ prints_csv_arr fmt buflen
          (with_fields stats least most median mean geomean stdev variance)
          to_print
          ps
unfolding prints_csv_arr
csv-same fmt buflen to_print stats least most median mean geomean stdev variance ps = λ j.
    if not (print_check stats none)
    then value []
    else csv_rows-same fmt buflen (all_by_default to_print) stats least most median mean geomean
        stdev variance ps j
