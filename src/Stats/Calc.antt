-- ===== src/Stats/Calc.antt =====
-- The computations of user-dev/src/lib/stats/stats.c, on an array of doubles, and I_gen_stats.
use autolock.Base.{
  ℕ, ◌+◌, ◌-◌, ◌/◌, ◌%◌, ◌==◌, ltb, leb, Bool, true, not, ◌||◌, none, List, [], ◌∷◌, if◌then◌else◌,
  length, get_elem?,
}
use autolock.Stats.{
  Exec, value, died, die_assert, element, ◌>>=◌, supported_percentiles, StatsResult,
}
use autolock.Stats.Floats.{Floats}
use autolock.Stats.Convert.{Memory, cvt_all}

module _ {D : Type 0} (fl : Floats D) where
  abbrev pub calc_median : List D → Exec D
  calc_median xs =
      if length xs % 2 == 1
      then element (get_elem? xs (length xs / 2))
      else (element (get_elem? xs (length xs / 2)) >>= λ a.
          element (get_elem? xs (length xs / 2 - 1)) >>= λ b.
          value (fl.div (fl.add a b) (fl.of_nat 2)))

  -- The loops that sum up what `f` makes of each element.
  abbrev pub sum_from : (D → D) → D → List D → D
  sum_from f sum [] = sum
  sum_from f sum (x ∷ xs) = sum_from f (fl.add sum (f x)) xs

  abbrev pub calc_mean : List D → D
  calc_mean xs = fl.div (sum_from (λ x. x) (fl.of_nat 0) xs) (fl.of_nat (length xs))

  abbrev pub calc_geomean : List D → D
  calc_geomean xs =
      if fl.with_math
      then fl.exp (fl.div (sum_from fl.log (fl.of_nat 0) xs) (fl.of_nat (length xs)))
      else fl.of_nat 0

  abbrev pub calc_squared_sum : List D → D
  calc_squared_sum xs =
      sum_from (λ x. fl.mul (fl.sub x (calc_mean xs)) (fl.sub x (calc_mean xs))) (fl.of_nat 0) xs

  abbrev pub calc_stdev : List D → D
  calc_stdev xs =
      if leb (length xs) 1
      then fl.of_nat 0
      else if fl.with_math
      then fl.sqrt (fl.div (calc_squared_sum xs) (fl.of_nat (length xs - 1)))
      else fl.of_nat 0

  abbrev pub calc_variance : List D → D
  calc_variance xs =
      if leb (length xs) 1
      then fl.of_nat 0
      else fl.div (calc_squared_sum xs) (fl.of_nat (length xs - 1))

  -- dbl_idx, with nelem_mul.
  abbrev pub get_dbl_idx : ℕ → ℕ → D
  get_dbl_idx nelem p = fl.mul (fl.of_nat p) (fl.div (fl.of_nat (nelem - 1)) (fl.of_nat 100))

  abbrev pub calc_percentile : List D → ℕ → Exec D
  calc_percentile xs p =
      let dbl_idx = get_dbl_idx (length xs) p in
      let idx = fl.to_nat dbl_idx in
      if fl.eq dbl_idx (fl.of_nat idx) || leb (length xs) (idx + 1)
      then element (get_elem? xs idx)
      else (element (get_elem? xs idx) >>= λ lo. element (get_elem? xs (idx + 1)) >>= λ hi.
          let remainder = fl.sub dbl_idx (fl.of_nat idx) in
          value (fl.add (fl.mul lo (fl.sub (fl.of_nat 1) remainder)) (fl.mul hi remainder)))

  abbrev pub calc_percentiles : List D → List ℕ → Exec (List D)
  calc_percentiles xs [] = value []
  calc_percentiles xs (p ∷ ps) =
      calc_percentile xs p >>= λ y. calc_percentiles xs ps >>= λ ys. value (y ∷ ys)

  -- The struct after the memset, with has_stats set.
  abbrev pub no_stats : StatsResult D
  no_stats = record {
    desc = none;
    has_stats = true;
    min = fl.of_nat 0;
    max = fl.of_nat 0;
    median = fl.of_nat 0;
    mean = fl.of_nat 0;
    geomean = fl.of_nat 0;
    stdev = fl.of_nat 0;
    variance = fl.of_nat 0;
    percentiles = zeros supported_percentiles;
  }
    where
      zeros : List ℕ → List D
      zeros [] = []
      zeros (p ∷ ps) = fl.of_nat 0 ∷ zeros ps

  -- The struct for the sorted array, with what may lie outside it.
  abbrev pub fill : List D → D → D → D → List D → StatsResult D
  fill xs least most median percentiles = record no_stats {
    min = least;
    max = most;
    median = median;
    mean = calc_mean xs;
    geomean = calc_geomean xs;
    stdev = calc_stdev xs;
    variance = calc_variance xs;
    percentiles = percentiles;
  }

  abbrev pub calc_sorted : List D → Exec (StatsResult D)
  calc_sorted xs = element (get_elem? xs 0) >>= λ least.
      element (get_elem? xs (length xs - 1)) >>= λ most. calc_median xs >>= λ median.
      calc_percentiles xs supported_percentiles >>= λ percentiles.
      value (fill xs least most median percentiles)

  abbrev pub calc_stats : List D → Exec (StatsResult D)
  calc_stats xs = die_assert (ltb 0 (length xs)) (calc_sorted (fl.sort xs))

  -- `calloc` says whether calloc gives memory for a number of objects of a size; safe_calloc ends the
  -- program where it does not.
  unfoldable pub gen_stats :
      (ℕ → ℕ → Bool) → Memory → ℕ → ℕ → ℕ → Bool → Bool → Exec (StatsResult D)
  gen_stats calloc mem addr nelem elem_sz is_unsigned is_fp_based =
      if nelem == 0
      then value no_stats
      else die_assert (leb elem_sz 8) (
          die_assert (not is_fp_based || not is_unsigned) (
            if calloc nelem 8
            then cvt_all fl mem addr nelem elem_sz is_unsigned is_fp_based >>= calc_stats
            else died))
