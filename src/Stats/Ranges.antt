-- ===== src/Stats/Ranges.antt =====
-- I_gen_stats of stats.c has a result for every array of a numeric type, and that result bounds the
-- elements.
use autolock.Base.{ℕ, ◌≤◌, ◌≡◌, true, List, [], ◌∷◌}
use autolock.Stats.{StatsResult}
use autolock.Stats.Floats.{Floats}
use autolock.Stats.Ordered.{All, IsFloats}

abbrev IsPercentiles : List ℕ → Type 0
IsPercentiles [] = Unit
IsPercentiles (p ∷ ps) = (p ≤ 100) × IsPercentiles ps

module _ {D : Type 0} (fl : Floats D) (le : D → D → Type 0) (law : IsFloats fl le) where
  -- The struct that I_gen_stats fills for the elements `xs`.
  abbrev pub IsWithin : StatsResult D → List D → Type 0
  IsWithin r xs = (r.has_stats ≡ true) × All (λ x. le r.min x × le x r.max) xs
