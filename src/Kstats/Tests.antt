-- ===== src/Kstats/Tests.antt =====
-- Buffers of statistics with two entries, the first with one task.
use autolock.Base.{
  ℕ, ◌==◌, ◌+◌, ◌*◌, ◌≤◌, ◌≡◌, refl, [], ◌∷◌, pos, negsuc, length, arith, some, if◌then◌else◌,
}
use autolock.Base.Exec.{value, died}
use autolock.Kstats.{
  parse_stats, stats_entry_cmp, get_stats, get_buf_size, get_alloc_size, AutoLockStats,
}
use autolock.Kstats.Entries.{Laid, Parsed, parse_stats-Parsed, get_stats-fits}

-- Entries at 100, with a time of 1 s and 5 ns, and at 128, with one of 7 ns.
abbrev memory : ℕ → ℕ
memory a =
    if a == 100
    then 1
    else if a == 108
    then 5
    else if a == 120
    then 1
    else if a == 136
    then 7
    else 0

parse_values :
    (parse_stats memory 100 52 ≡ value (100 ∷ 128 ∷ []))
    × (parse_stats memory 100 0 ≡ value [])
    × (parse_stats memory 100 51 ≡ died)
    × (stats_entry_cmp memory 100 128 ≡ pos 1)
    × (get_stats memory 100 (negsuc 0) ≡ died)
    × (get_alloc_size 8 ≡ 5392672)
unfolding parse_stats get_stats
parse_values = (refl, refl, refl, refl, refl, refl)

parse_stats-Parsed_example : Parsed memory 100 52 (parse_stats memory 100 52)
parse_stats-Parsed_example = parse_stats-Parsed memory 100 52

abbrev collected : AutoLockStats
collected = record { entries = 100 ∷ []; base_ptr = some 100 }

collected_values : get_stats memory 100 (pos 28) ≡ value collected
unfolding get_stats parse_stats
collected_values = refl

get_stats-fits_example :
    Laid memory 100 28 collected.entries
    × (get_buf_size 1 + length collected.entries * 8 ≤ get_alloc_size 1)
get_stats-fits_example = get_stats-fits 1 (omega arith) collected_values (omega arith, tt)
