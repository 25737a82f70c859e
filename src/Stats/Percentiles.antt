-- ===== src/Stats/Percentiles.antt =====
-- The search of stats.h for a supported percentile, against the table.
use autolock.Base.{
  ℕ, zero, suc, ◌+◌, ◌<◌, ◌≤◌, ◌≡◌, refl, ◌∙◌, ◌↔◌, arith, some, List, [], ◌∷◌, length, get_elem?,
  ltb→lt,
}
use autolock.Stats.{
  Exec, value, element, supported_percentiles, num_percentiles, idx_to_percentile,
  percentile_idx_from, get_percentile_idx,
}
use autolock.Stats.Values.{die_assert-value, element-value}

-- Each element is at least `lo`, and larger than the one in front of it.
abbrev IsIncreasing : ℕ → List ℕ → Type 0
IsIncreasing lo [] = Unit
IsIncreasing lo (v ∷ ps) = (lo ≤ v) × IsIncreasing (suc v) ps

get_elem-le : (lo k p : ℕ) (ps : List ℕ) → IsIncreasing lo ps → get_elem? ps k ≡ some p → lo ≤ p
get_elem-le lo k p [] inc q = absurd (ground arith)
get_elem-le lo zero p (v ∷ ps) inc q = ground arith
get_elem-le lo (suc k) p (v ∷ ps) inc q = omega (arith, inc.0, get_elem-le (suc v) k p ps inc.1 q)

idx_from-get_elem :
    (i lo k p : ℕ) (ps : List ℕ)
    → IsIncreasing lo ps
    → get_elem? ps k ≡ some p
    → percentile_idx_from i ps p ≡ i + k
idx_from-get_elem i lo k p [] inc q = absurd (ground arith)
idx_from-get_elem i lo zero p (v ∷ ps) inc q = ground arith
idx_from-get_elem i lo (suc k) p (v ∷ ps) inc q =
    ground
      (arith, get_elem-le (suc v) k p ps inc.1 q, idx_from-get_elem (suc i) (suc v) k p ps inc.1 q)

le-idx_from :
    (i p : ℕ) (ps : List ℕ) → i + length ps ≡ num_percentiles → i ≤ percentile_idx_from i ps p
le-idx_from i p [] e = omega arith
le-idx_from i p (v ∷ ps) e = ground (arith, le-idx_from (suc i) p ps (omega arith))

get_elem-idx_from :
    (i k p : ℕ) (ps : List ℕ)
    → i + length ps ≡ num_percentiles
    → k < length ps
    → percentile_idx_from i ps p ≡ i + k
    → get_elem? ps k ≡ some p
get_elem-idx_from i k p [] e lt q = absurd (omega arith)
get_elem-idx_from i zero p (v ∷ ps) e lt q = ground (arith, le-idx_from (suc i) p ps (omega arith))
get_elem-idx_from i (suc k) p (v ∷ ps) e lt q =
    ground (arith, get_elem-idx_from (suc i) k p ps (omega arith) (omega arith))

value-idx_to_percentile :
    (i p : ℕ)
    → (idx_to_percentile i ≡ value p)
      ↔ ((i < num_percentiles) × (get_elem? supported_percentiles i ≡ some p))
value-idx_to_percentile i p = (
  λ h. let (b, e) = (die_assert-value _ (entry i) p).0 h in (ltb→lt _ _ b, (element-value _ p).0 e),
  λ h. (die_assert-value _ (entry i) p).1 (ground arith, (element-value _ p).1 h.1),
)
  where
    entry : ℕ → Exec ℕ
    entry j = element (get_elem? supported_percentiles j)

increasing : IsIncreasing 0 supported_percentiles
increasing = ground arith

-- The search finds the place of a percentile in the table if it has one, and only then: it gives a
-- place of the table exactly for the percentile that stands there.
pub percentile_idx-roundtrip :
    (i p : ℕ)
    → (idx_to_percentile i ≡ value p) ↔ ((i < num_percentiles) × (get_percentile_idx p ≡ i))
percentile_idx-roundtrip i p = (
  λ h. (
    ((value-idx_to_percentile i p).0 h).0,
    idx_from-get_elem 0 0 i p supported_percentiles increasing ((value-idx_to_percentile i p).0 h).1
        ∙ omega arith,
  ),
  λ h.
      (value-idx_to_percentile i p).1
        (h.0, get_elem-idx_from 0 i p supported_percentiles refl h.0 (h.1 ∙ omega arith)),
)
