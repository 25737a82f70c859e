-- ===== src/Stats/Print.antt =====
-- The printers of user-dev/src/lib/stats/stats.c. The text that stands in the buffer is a list, its
-- length being nbytes_req; what snprintf makes of its arguments is a parameter.
use autolock.Base.{
  ℕ, ◌==◌, ltb, Bool, not, ◌&&◌, Option, none, some, List, [], ◌∷◌, ◌++◌, if◌then◌else◌, length,
}
use autolock.Arg.{Text}
use autolock.Stats.{
  Exec, value, die_assert, ◌>>=◌, Flag, p_desc, p_min, p_max, p_median, p_mean, p_geomean, p_stdev,
  p_variance, p_percentiles, p_csv_hdr, p_csv_hdr_only, print_all, has, StatsResult, get_percentile,
}
use autolock.Stats.Floats.{Floats}

-- The lines and the entries of stats.c, formatted.
pub record Formats (D : Type 0) : Type 0 where
  pub desc_line : Option Text → Text
  pub field_line : Flag → D → Text
  pub percentile_line : ℕ → D → Text
  -- Two results and their quotient.
  pub cmp_desc_line : Option Text → Option Text → Text
  pub cmp_field_line : Flag → D → D → D → Text
  pub cmp_percentile_line : ℕ → D → D → D → Text
  pub csv_desc : Option Text → Text
  pub csv_name : Flag → Text
  pub csv_percentile_name : ℕ → Text
  pub csv_number : D → Text

abbrev pub newline : ℕ
newline = 10

abbrev pub comma : ℕ
comma = 44

-- The fields that STATS_CHECK_PRINT is called for.
abbrev pub fields : List Flag
fields = p_min ∷ p_max ∷ p_median ∷ p_mean ∷ p_geomean ∷ p_stdev ∷ p_variance ∷ []

abbrev pub get_field : {D : Type 0} → Flag → StatsResult D → D
get_field p_min stats = stats.min
get_field p_max stats = stats.max
get_field p_median stats = stats.median
get_field p_mean stats = stats.mean
get_field p_geomean stats = stats.geomean
get_field p_stdev stats = stats.stdev
get_field f stats = stats.variance

-- stats_print_check: whether the results are there, and what to print.
abbrev pub all_by_default : ℕ → ℕ
all_by_default to_print = if to_print == 0 then print_all else to_print

abbrev pub print_check : {D : Type 0} → StatsResult D → Option (StatsResult D) → Bool
print_check stats none = stats.has_stats
print_check stats (some other) = stats.has_stats && other.has_stats

-- STATS_DO_PRINT: a piece of text behind the text that stands in the buffer.
abbrev pub do_print : ℕ → Text → Text → Exec Text
do_print buflen piece text = let t = text ++ piece in die_assert (ltb (length t) buflen) (value t)

-- STATS_CHECK_PRINT, with the line of the field.
abbrev pub check_print : ℕ → ℕ → Flag → Text → Text → Exec Text
check_print buflen to_print f line text =
    if has f to_print then do_print buflen line text else value text

abbrev pub print_fields : ℕ → ℕ → (Flag → Text) → List Flag → Text → Exec Text
print_fields buflen to_print line [] text = value text
print_fields buflen to_print line (f ∷ fs) text =
    check_print buflen to_print f (line f) text >>= print_fields buflen to_print line fs

abbrev pub print_percentiles : ℕ → (ℕ → Exec Text) → List ℕ → Text → Exec Text
print_percentiles buflen line [] text = value text
print_percentiles buflen line (p ∷ ps) text =
    line p >>= λ piece. do_print buflen piece text >>= print_percentiles buflen line ps

-- The description, the fields and the percentiles.
abbrev pub print_all_lines : ℕ → ℕ → Text → (Flag → Text) → (ℕ → Exec Text) → List ℕ → Exec Text
print_all_lines buflen to_print desc line percentile ps =
    check_print buflen to_print p_desc desc []
    >>= print_fields buflen to_print line fields
    >>= λ text.
        if has p_percentiles to_print
        then print_percentiles buflen percentile ps text
        else value text

module _ {D : Type 0} (fl : Floats D) (fmt : Formats D) where
  abbrev pub percentile_piece : StatsResult D → ℕ → Exec Text
  percentile_piece stats p = get_percentile stats p >>= λ x. value (fmt.percentile_line p x)

  abbrev pub cmp_percentile_piece : StatsResult D → StatsResult D → ℕ → Exec Text
  cmp_percentile_piece a b p = get_percentile a p >>= λ x.
      get_percentile b p >>= λ y. value (fmt.cmp_percentile_line p x y (fl.div x y))

  abbrev pub field_piece : StatsResult D → Flag → Text
  field_piece stats f = fmt.field_line f (get_field f stats)

  abbrev pub cmp_field_piece : StatsResult D → StatsResult D → Flag → Text
  cmp_field_piece a b f =
      fmt.cmp_field_line f (get_field f a) (get_field f b) (fl.div (get_field f a) (get_field f b))

  unfoldable pub prints_arr : ℕ → StatsResult D → ℕ → List ℕ → Exec Text
  prints_arr buflen stats to_print ps =
      if not (print_check stats none)
      then value []
      else print_all_lines buflen (all_by_default to_print) (fmt.desc_line stats.desc)
          (field_piece stats) (percentile_piece stats) ps

  unfoldable pub prints_cmp_arr : ℕ → StatsResult D → StatsResult D → ℕ → List ℕ → Exec Text
  prints_cmp_arr buflen a b to_print ps =
      if not (print_check a (some b))
      then value []
      else print_all_lines buflen (all_by_default to_print) (fmt.cmp_desc_line a.desc b.desc)
          (cmp_field_piece a b) (cmp_percentile_piece a b) ps

module _ {D : Type 0} (fmt : Formats D) (buflen : ℕ) (stats : StatsResult D) (to_print : ℕ) where
  -- A comma before an entry that does not start a line.
  abbrev pub separator : Text → Text
  separator [] = []
  separator (c ∷ []) = if c == newline then [] else comma ∷ []
  separator (c ∷ d ∷ text) = separator (d ∷ text)

  abbrev pub csv_print : Text → Text → Exec Text
  csv_print entry text = do_print buflen (separator text ++ entry) text

  -- In the row `i`, 0 for the header, 1 for the values.
  abbrev pub is_header : ℕ → Bool
  is_header i = (i == 0) && has p_csv_hdr to_print

  -- The macro opens the test of the row before that of the field, so that its `else` belongs to
  -- the test of the field, inside the header.
  abbrev pub csv_field : ℕ → Flag → Text → Exec Text
  csv_field i f text =
      if is_header i
      then (if has f to_print
          then csv_print (fmt.csv_name f) text
          else if not (i == 0)
          then csv_print (fmt.csv_number (get_field f stats)) text
          else value text)
      else value text

  abbrev pub csv_fields : ℕ → List Flag → Text → Exec Text
  csv_fields i [] text = value text
  csv_fields i (f ∷ fs) text = csv_field i f text >>= csv_fields i fs

  abbrev pub csv_percentile : ℕ → ℕ → Text → Exec Text
  csv_percentile i p text =
      if is_header i
      then csv_print (fmt.csv_percentile_name p) text
      else if not (i == 0)
      then (get_percentile stats p >>= λ x. csv_print (fmt.csv_number x) text)
      else value text

  abbrev pub csv_percentiles : ℕ → List ℕ → Text → Exec Text
  csv_percentiles i [] text = value text
  csv_percentiles i (p ∷ ps) text = csv_percentile i p text >>= csv_percentiles i ps

  abbrev pub csv_desc : ℕ → Text → Exec Text
  csv_desc i text =
      if is_header i
      then csv_print (fmt.csv_name p_desc) text
      else if not (i == 0)
      then csv_print (fmt.csv_desc stats.desc) text
      else value text

  -- A row, without the end of its line.
  abbrev pub csv_row : List ℕ → ℕ → Text → Exec Text
  csv_row ps i text = csv_desc i text >>= csv_fields i fields >>= λ t.
      if has p_percentiles to_print then csv_percentiles i ps t else value t

  abbrev pub end_row : ℕ → Text → Exec Text
  end_row c text = die_assert (ltb (length text) buflen) (value (text ++ (c ∷ [])))

  abbrev pub csv_rows : List ℕ → Exec Text
  csv_rows ps = csv_row ps 0 [] >>= λ header.
      if has p_csv_hdr_only to_print
      then end_row 0 header
      else (end_row newline header >>= csv_row ps 1 >>= end_row newline >>= end_row 0)

-- The text ends with a NUL, which is counted.
unfoldable pub prints_csv_arr :
    {D : Type 0} → Formats D → ℕ → StatsResult D → ℕ → List ℕ → Exec Text
prints_csv_arr fmt buflen stats to_print ps =
    if not (print_check stats none)
    then value []
    else csv_rows fmt buflen stats (all_by_default to_print) ps
