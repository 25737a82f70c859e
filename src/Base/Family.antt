-- ===== src/Base/Family.antt =====
-- Families `ℕ → A` indexed by thread: the update at one index, and weighted sums over the first
-- `n` threads.
use Prim.Native.Nat.{ℕ, zero, suc, ◌+◌, ◌*◌, ◌≤◌, ◌<◌}
use mathlib.Core.Path.{◌≡◌, refl, subst}
use mathlib.Core.Bool.{Bool, true, false}
use mathlib.Core.Logic.{inl, inr}
use native.Mathlib.Decide.{dec_lt}
use native.Mathlib.Omega.{arith}
use autolock.Base.Tests.{◌==◌, ==_iff, if◌then◌else◌, Bool-cases}

abbrev pub update {ℓ} : {A : Type ℓ} → (ℕ → A) → ℕ → A → ℕ → A
update f i a j = if i == j then a else f j

-- What holds of the new value at `i`, and of the others, holds of all.
pub update-all {ℓ κ} :
    {A : Type ℓ} (P : ℕ → A → Type κ) (f : ℕ → A) (i : ℕ) (a : A)
    → P i a
    → ((j : ℕ) → (i == j) ≡ false → P j (f j))
    → (j : ℕ) → P j (update f i a j)
update-all P f i a own others j = elim (Bool-cases (i == j)) [
  | inl e ↦ rw e (subst (λ k. P k a) ((==_iff i j).0 e) own)
  | inr e ↦ rw e (others j e)
]

-- The same for a relation between different indices.
pub update-pairs {ℓ κ} :
    {A : Type ℓ} (R : ℕ → A → ℕ → A → Type κ) (f : ℕ → A) (i : ℕ) (a : A)
    → ((j : ℕ) → (i == j) ≡ false → R i a j (f j))
    → ((j : ℕ) → (i == j) ≡ false → R j (f j) i a)
    → ((j k : ℕ) → (i == j) ≡ false → (i == k) ≡ false → (j == k) ≡ false → R j (f j) k (f k))
    → (j k : ℕ) → (j == k) ≡ false
    → R j (update f i a j) k (update f i a k)
update-pairs R f i a left right old =
    update-all (λ j x. (k : ℕ) → (j == k) ≡ false → R j x k (update f i a k)) f i a
      (λ k ne. rw ne (left k ne))
      (λ j other k.
        update-all (λ k y. (j == k) ≡ false → R j (f j) k y) f i a (λ _. right j other)
          (λ k third ne. old j k other third ne) k)

-- 1 for true.
abbrev pub one_if : Bool → ℕ
one_if true = 1
one_if false = 0

pub one_if-le : (b : Bool) → one_if b ≤ 1
one_if-le true = omega arith
one_if-le false = omega arith

module _ {ℓ} {A : Type ℓ} (w : A → ℕ) where
  unfoldable pub sum_over : ℕ → (ℕ → A) → ℕ
  sum_over zero f = 0
  sum_over (suc n) f = w (f n) + sum_over n f

  sum_over-update_out :
      (n : ℕ) (f : ℕ → A) (i : ℕ) (a : A) → n ≤ i → sum_over n (update f i a) ≡ sum_over n f
  unfolding sum_over
  sum_over-update_out zero f i a h = refl
  sum_over-update_out (suc n) f i a h = ground (arith, sum_over-update_out n f i a)

  -- One thread's change moves the sum by the change of its weight.
  pub sum_over-update :
      (n : ℕ) (f : ℕ → A) (i : ℕ) (a : A)
      → i < n
      → sum_over n (update f i a) + w (f i) ≡ sum_over n f + w a
  unfolding sum_over
  sum_over-update zero f i a h = absurd (omega arith)
  sum_over-update (suc n) f i a h = elim (dec_lt i n) [
    | yes p ↦ ground (arith, sum_over-update n f i a p)
    | no p ↦ ground (arith, sum_over-update_out n f i a)
  ]

  -- A member's weight is part of the sum.
  pub le-sum_over : (n : ℕ) (f : ℕ → A) (i : ℕ) → i < n → w (f i) ≤ sum_over n f
  unfolding sum_over
  le-sum_over zero f i h = absurd (omega arith)
  le-sum_over (suc n) f i h = elim (dec_lt i n) [
    | yes p ↦ ground (arith, le-sum_over n f i p)
    | no p ↦ ground arith
  ]

  -- Two different members' weights are both part of the sum.
  pub add-le-sum_over :
      (n : ℕ) (f : ℕ → A) (i j : ℕ) → i < j → j < n → w (f i) + w (f j) ≤ sum_over n f
  unfolding sum_over
  add-le-sum_over zero f i j h k = absurd (omega arith)
  add-le-sum_over (suc n) f i j h k = elim (dec_lt j n) [
    | yes p ↦ ground (arith, add-le-sum_over n f i j h p)
    | no p ↦ ground (arith, le-sum_over n f i)
  ]

  pub add-le-sum_over_ne :
      (n : ℕ) (f : ℕ → A) (i j : ℕ)
      → (i == j) ≡ false
      → i < n
      → j < n
      → w (f i) + w (f j) ≤ sum_over n f
  add-le-sum_over_ne n f i j e h k = elim (dec_lt i j) [
    | yes lt ↦ add-le-sum_over n f i j lt k
    | no ge ↦ ground (arith, add-le-sum_over n f j i)
  ]

  pub sum_over-le : (b : ℕ) → ((a : A) → w a ≤ b) → (n : ℕ) (f : ℕ → A) → sum_over n f ≤ n * b
  unfolding sum_over
  sum_over-le b h zero f = omega arith
  sum_over-le b h (suc n) f = omega (arith, h (f n), sum_over-le b h n f)

  -- A positive sum has a member of positive weight.
  pub sum_over-pos : (n : ℕ) (f : ℕ → A) → 0 < sum_over n f → (i : ℕ) × (i < n) × (0 < w (f i))
  unfolding sum_over
  sum_over-pos zero f h = absurd (omega arith)
  sum_over-pos (suc n) f h = elim (dec_lt 0 (w (f n))) [
    | yes p ↦ (n, omega arith, p)
    | no p ↦ let (i, lt, pos) = sum_over-pos n f (omega arith) in (i, omega arith, pos)
  ]

  pub sum_over-eq-zero : (n : ℕ) (f : ℕ → A) → ((i : ℕ) → w (f i) ≡ 0) → sum_over n f ≡ 0
  unfolding sum_over
  sum_over-eq-zero zero f h = refl
  sum_over-eq-zero (suc n) f h = omega (arith, h n, sum_over-eq-zero n f h)

  pub sum_over-const : (n : ℕ) (a : A) → sum_over n (λ _. a) ≡ n * w a
  unfolding sum_over
  sum_over-const zero a = omega arith
  sum_over-const (suc n) a = grind (arith, sum_over-const n a)

  pub sum_over-eq-zero_below :
      (n : ℕ) (f : ℕ → A) → ((i : ℕ) → i < n → w (f i) ≡ 0) → sum_over n f ≡ 0
  unfolding sum_over
  sum_over-eq-zero_below zero f h = refl
  sum_over-eq-zero_below (suc n) f h =
      omega (arith, h n (omega arith), sum_over-eq-zero_below n f (λ i lt. h i (omega arith)))

-- A weight that is never greater has a sum that is not.
pub sum_over_mono {ℓ} :
    {A : Type ℓ} (w v : A → ℕ)
    → ((a : A) → w a ≤ v a)
    → (n : ℕ) (f : ℕ → A) → sum_over w n f ≤ sum_over v n f
unfolding sum_over
sum_over_mono w v h zero f = omega arith
sum_over_mono w v h (suc n) f = omega (arith, h (f n), sum_over_mono w v h n f)
