-- ===== src/Stats/Ordered.antt =====
-- What stats.c relies on in doubles and in the sorting of the C library.
use autolock.Base.{
  ℕ, ◌-◌, ◌<◌, ◌≤◌, ◌≡◌, ap, ◌∙◌, arith, some_inj, some, List, [], ◌∷◌, length, get_elem?,
}
use mathlib.Core.Path.{subst}
use autolock.Stats.Floats.{Floats}
use autolock.Stats.Calc.{get_dbl_idx}

module _ {D : Type 0} where
  abbrev pub All : (D → Type 0) → List D → Type 0
  All P [] = Unit
  All P (x ∷ xs) = P x × All P xs

  -- Each element is at most the next one.
  abbrev pub IsSorted : (D → D → Type 0) → List D → Type 0
  IsSorted le [] = Unit
  IsSorted le (x ∷ []) = Unit
  IsSorted le (x ∷ y ∷ xs) = le x y × IsSorted le (y ∷ xs)

-- For the doubles that the program meets, none of them NaN: an order, a sort that puts the elements
-- into that order and loses none, and a rounding that keeps the rank of a percentile below the
-- number of elements.
pub record IsFloats {D : Type 0} (fl : Floats D) (le : D → D → Type 0) : Type 1 where
  pub le_refl : (x : D) → le x x
  pub le_trans : (x y z : D) → le x y → le y z → le x z
  pub length-sort : (xs : List D) → length (fl.sort xs) ≡ length xs
  pub sort-IsSorted : (xs : List D) → IsSorted le (fl.sort xs)
  pub sort-All : (P : D → Type 0) (xs : List D) → All P (fl.sort xs) → All P xs
  pub get_dbl_idx-lt :
      (nelem p : ℕ) → p ≤ 100 → 0 < nelem → fl.to_nat (get_dbl_idx fl nelem p) < nelem

module _ {D : Type 0} (le : D → D → Type 0) (le_refl : (x : D) → le x x)
    (le_trans : (x y z : D) → le x y → le y z → le x z) where
  sorted-first : (x : D) (xs : List D) → IsSorted le (x ∷ xs) → All (le x) xs
  sorted-first x [] s = tt
  sorted-first x (y ∷ xs) s = (s.0, widen y xs s.0 (sorted-first y xs s.1))
    where
      widen : (z : D) (ys : List D) → le x z → All (le z) ys → All (le x) ys
      widen z [] h a = tt
      widen z (y ∷ ys) h a = (le_trans x z y h a.0, widen z ys h a.1)

  sorted-last :
      (x : D) (xs : List D) (hi : D)
      → IsSorted le (x ∷ xs)
      → get_elem? (x ∷ xs) (length xs) ≡ some hi
      → All (λ y. le y hi) (x ∷ xs)
  sorted-last x [] hi s q = (subst (le x) (some_inj q) (le_refl x), tt)
  sorted-last x (y ∷ xs) hi s q =
      (le_trans x y hi s.0 (sorted-last y xs hi s.1 q).0, sorted-last y xs hi s.1 q)

  both : (P Q : D → Type 0) (xs : List D) → All P xs → All Q xs → All (λ x. P x × Q x) xs
  both P Q [] p q = tt
  both P Q (x ∷ xs) p q = ((p.0, q.0), both P Q xs p.1 q.1)

  -- Between the first and the last element.
  pub sorted-All :
      (xs : List D) (lo hi : D)
      → IsSorted le xs
      → get_elem? xs 0 ≡ some lo
      → get_elem? xs (length xs - 1) ≡ some hi
      → All (λ x. le lo x × le x hi) xs
  sorted-All [] lo hi s f l = tt
  sorted-All (x ∷ xs) lo hi s f l =
      both (le lo) (λ y. le y hi) (x ∷ xs)
        (subst (λ z. All (le z) (x ∷ xs)) (some_inj f) (le_refl x, sorted-first x xs s))
        (sorted-last x xs hi s (ap (λ i. get_elem? (x ∷ xs) i) (omega arith) ∙ l))
