-- ===== src/Stats.antt =====
-- The statistics of benchmark results: user-dev/src/lib/stats/stats.h, the struct, its supported
-- percentiles and the access to them. Floating-point numbers are a parameter `D`.
use autolock.Base.{
  ℕ, zero, suc, ◌+◌, ◌-◌, ◌*◌, ◌/◌, ◌%◌, ◌^◌, ◌==◌, ltb, leb, Bool, true, false, Option, none, some,
  List, [], ◌∷◌, ℤ, if◌then◌else◌, length, get_elem?,
}
pub use autolock.Base.Exec.{Exec, value, died, outside, running, die_assert, element, ◌>>=◌}
use autolock.Arg.{Text}
mod Floats
pub mod Convert
mod Calc
mod Print
mod Values
mod Percentiles
mod Ordered
mod Elements
mod Ranges
mod Appending
mod Overflow
mod Printing
mod Csv
mod Stream
mod Tests

-- I_percentiles.
abbrev pub supported_percentiles : List ℕ
supported_percentiles = 0 ∷ 1 ∷ 5 ∷ 10 ∷ 25 ∷ 33 ∷ 50 ∷ 66 ∷ 75 ∷ 90 ∷ 95 ∷ 99 ∷ 100 ∷ []

abbrev pub num_percentiles : ℕ
num_percentiles = length supported_percentiles

abbrev pub idx_to_percentile : ℕ → Exec ℕ
idx_to_percentile idx =
    die_assert (ltb idx num_percentiles) (element (get_elem? supported_percentiles idx))

-- What to print, the constants STATS_P_, and their bits in to_print.
pub data Flag : Type 0 where
  p_desc p_min p_max p_median p_mean p_geomean p_stdev p_variance p_percentiles p_csv_hdr
        p_csv_hdr_only :
      Flag

abbrev pub bit : Flag → ℕ
bit p_desc = 0
bit p_min = 1
bit p_max = 2
bit p_median = 3
bit p_mean = 4
bit p_geomean = 5
bit p_stdev = 6
bit p_variance = 7
bit p_percentiles = 8
bit p_csv_hdr = 9
bit p_csv_hdr_only = 10

-- STATS_P_all: every bit but the last two.
abbrev pub print_all : ℕ
print_all = 2 ^ 32 - 1 - 2 ^ 9 - 2 ^ 10

abbrev pub has : Flag → ℕ → Bool
has f to_print = (to_print / 2 ^ bit f) % 2 == 1

pub record StatsResult (D : Type 0) : Type 0 where
  pub desc : Option Text
  pub has_stats : Bool
  pub min : D
  pub max : D
  pub median : D
  pub mean : D
  pub geomean : D
  pub stdev : D
  pub variance : D
  pub percentiles : List D

-- The loop over the rest `ps` of the percentiles, the first of them at `i`.
abbrev pub percentile_idx_from : ℕ → List ℕ → ℕ → ℕ
percentile_idx_from i [] percentile = i
percentile_idx_from i (v ∷ ps) percentile =
    if leb percentile v
    then (if ltb percentile v then num_percentiles else i)
    else percentile_idx_from (suc i) ps percentile

abbrev pub get_percentile_idx : ℕ → ℕ
get_percentile_idx = percentile_idx_from 0 supported_percentiles

abbrev pub get_percentile : {D : Type 0} → StatsResult D → ℕ → Exec D
get_percentile stats percentile =
    let idx = get_percentile_idx percentile in
    die_assert (ltb idx num_percentiles) (element (get_elem? stats.percentiles idx))

-- stats_set_desc; it warns where a description stands already.
abbrev pub set_desc : {D : Type 0} → StatsResult D → Option Text → StatsResult D
set_desc stats desc = record stats { desc = desc }
