-- ===== src/Stats/Tests.antt =====
-- Results of small arrays, with natural numbers for the doubles and an insertion sort, and the
-- theorems at them.
use autolock.Base.{
  ℕ, Option, get_elem?, ltb, ◌+◌, ◌-◌, ◌*◌, ◌/◌, ◌≤◌, ◌<◌, ◌==◌, leb, ◌≡◌, refl, ◌↔◌, arith, Bool,
  true, false, none, some, List, [], ◌∷◌, pos, negsuc, if◌then◌else◌,
}
use autolock.Stats.{
  Exec, value, died, outside, StatsResult, idx_to_percentile, get_percentile_idx, num_percentiles,
  Flag, p_min, p_max, p_median,
}
use autolock.Stats.Floats.{Floats}
use autolock.Stats.Convert.{cvt_to_dbl}
use autolock.Stats.Calc.{gen_stats}
use autolock.Stats.Print.{
  Formats, all_by_default, field_piece, percentile_piece, cmp_field_piece, cmp_percentile_piece,
  prints_arr, prints_cmp_arr, prints_csv_arr,
}
use autolock.File.Ending.{Os, returned}
use autolock.Stats.Stream.{printf_arr}
use autolock.Stats.Percentiles.{percentile_idx-roundtrip}
use autolock.Stats.Appending.{report}
use autolock.Stats.Printing.{IsPrinted, prints-fits}

abbrev insert : ℕ → List ℕ → List ℕ
insert x [] = x ∷ []
insert x (y ∷ ys) = if leb x y then x ∷ y ∷ ys else y ∷ insert x ys

abbrev sort : List ℕ → List ℕ
sort [] = []
sort (x ∷ xs) = insert x (sort xs)

abbrev le : ℕ → ℕ → Type 0
le x y = x ≤ y

abbrev naturals : Floats ℕ
naturals = record {
  add = λ x y. x + y;
  sub = λ x y. x - y;
  mul = λ x y. x * y;
  div = λ x y. x / y;
  eq = λ x y. x == y;
  of_nat = λ n. n;
  of_int = λ z. elim z [ pos n ↦ n | negsuc n ↦ 0 ];
  to_nat = λ x. x;
  of_float_bits = λ b. b;
  of_double_bits = λ b. b;
  with_math = false;
  log = λ x. x;
  exp = λ x. x;
  sqrt = λ x. x;
  sort = sort;
}

-- The array 300, 7, 2 of two bytes each, at 16.
abbrev bytes : List ℕ
bytes = 44 ∷ 1 ∷ 7 ∷ 0 ∷ 2 ∷ 0 ∷ []

abbrev memory : ℕ → Option ℕ
memory a = if ltb a 16 then none else get_elem? bytes (a - 16)

abbrev enough : ℕ → ℕ → Bool
enough nmemb size = true

abbrev show : Exec (StatsResult ℕ) → List ℕ
show (value r) = r.min ∷ r.max ∷ r.median ∷ r.mean ∷ []
show x = []

-- Every line is a letter for the field, and the value.
abbrev letters : Flag → ℕ
letters p_min = 1
letters p_max = 2
letters p_median = 3
letters f = 9

abbrev formats : Formats ℕ
formats = record {
  desc_line = λ d. 0 ∷ [];
  field_line = λ f x. letters f ∷ x ∷ [];
  percentile_line = λ p x. 5 ∷ p ∷ x ∷ [];
  cmp_desc_line = λ d e. 0 ∷ [];
  cmp_field_line = λ f x y r. letters f ∷ x ∷ y ∷ r ∷ [];
  cmp_percentile_line = λ p x y r. 5 ∷ p ∷ x ∷ y ∷ r ∷ [];
  csv_desc = λ d. 7 ∷ [];
  csv_name = λ f. letters f ∷ [];
  csv_percentile_name = λ p. 5 ∷ p ∷ [];
  csv_number = λ x. x ∷ [];
}

abbrev result : StatsResult ℕ
result = record {
  desc = none;
  has_stats = true;
  min = 2;
  max = 300;
  median = 7;
  mean = 103;
  geomean = 0;
  stdev = 0;
  variance = 0;
  percentiles = 2 ∷ 2 ∷ 2 ∷ 2 ∷ 4 ∷ 5 ∷ 7 ∷ 70 ∷ 80 ∷ 90 ∷ 95 ∷ 99 ∷ 300 ∷ [];
}

gen_stats_values :
    (show (gen_stats naturals enough memory 16 3 2 true false) ≡ 2 ∷ 300 ∷ 7 ∷ 103 ∷ [])
    × (gen_stats naturals enough memory 16 3 3 true false ≡ died)
    × (gen_stats naturals enough memory 16 3 4 true true ≡ died)
    × (gen_stats naturals (λ nmemb size. false) memory 16 3 2 true false ≡ died)
    × (gen_stats naturals enough memory 16 4 2 true false ≡ outside)
    × (cvt_to_dbl naturals memory 16 2 false false ≡ value 300)
unfolding gen_stats
gen_stats_values = (refl, refl, refl, refl, refl, refl)

-- min, and the 50th percentile; the same in a buffer that is one byte too small; a percentile that
-- is not supported.
prints_values :
    (prints_arr naturals formats 6 result (2 + 256) (50 ∷ []) ≡ value (1 ∷ 2 ∷ 5 ∷ 50 ∷ 7 ∷ []))
    × (prints_arr naturals formats 5 result (2 + 256) (50 ∷ []) ≡ died)
    × (prints_arr naturals formats 64 result (2 + 256) (51 ∷ []) ≡ died)
    × (prints_arr naturals formats 64 (record result { has_stats = false }) 0 [] ≡ value [])
unfolding prints_arr
prints_values = (refl, refl, refl, refl)

-- The header names desc, min and max; the row of the values only has desc.
csv_values :
    prints_csv_arr formats 64 result (2 + 4 + 512) []
    ≡ value (9 ∷ 44 ∷ 1 ∷ 44 ∷ 2 ∷ 10 ∷ 7 ∷ 10 ∷ 0 ∷ [])
unfolding prints_csv_arr
csv_values = refl

-- An operating system that writes everything; the state counts what was written.
abbrev system : Os ℕ
system = record {
  errno = λ w. 0;
  open2 = λ path flags w. (pos 3, w);
  open3 = λ path flags mode w. (pos 3, w);
  read = λ fd buf count w. (pos 0, w);
  write = λ fd buf count w. (pos count, w + count);
  stat = λ path buf w. (pos 0, w);
  fstat = λ fd buf w. (pos 0, w);
  access = λ path mode w. (pos 0, w);
  close = λ fd w. (pos 0, w);
  fopen = λ path mode w. (some 64, w);
  fdopen = λ fd mode w. (some 64, w);
  fread = λ ptr size count fp w. (0, w);
  fwrite = λ ptr size count fp w. (count, w + size * count);
  fclose = λ fp w. (pos 0, w);
}

printf_values :
    printf_arr system (λ t w. (128, w)) 1 naturals formats none 0 result 258 (50 ∷ [])
    ≡ value (returned 5 5)
unfolding printf_arr prints_arr
printf_values = refl

percentile_idx-roundtrip_example :
    (idx_to_percentile 4 ≡ value 25) ↔ ((4 < num_percentiles) × (get_percentile_idx 25 ≡ 4))
percentile_idx-roundtrip_example = percentile_idx-roundtrip 4 25

prints-fits_example :
    IsPrinted 6
      (prints_arr naturals formats 6 result 258 (50 ∷ []))
      (report
        (all_by_default 258)
        (0 ∷ [])
        (field_piece naturals formats result)
        (percentile_piece naturals formats result)
        (50 ∷ []))
      (1 ∷ 2 ∷ 5 ∷ 50 ∷ 7 ∷ [])
    × IsPrinted 6
        (prints_cmp_arr naturals formats 6 result result 258 (50 ∷ []))
        (report
          (all_by_default 258)
          (0 ∷ [])
          (cmp_field_piece naturals formats result result)
          (cmp_percentile_piece naturals formats result result)
          (50 ∷ []))
        (1 ∷ 2 ∷ 5 ∷ 50 ∷ 7 ∷ [])
prints-fits_example =
    prints-fits naturals formats 6 258 result result (50 ∷ []) (1 ∷ 2 ∷ 5 ∷ 50 ∷ 7 ∷ [])
      (omega arith) refl refl
