-- ===== src/Base/Integers.antt =====
-- Signed numbers over the native ones, under the library's names.
use Prim.Native.Nat.{ℕ, zero, suc}
use mathlib.Core.Path.{◌≡◌, refl}
use mathlib.Core.Logic.{◌⊎◌, inl, inr}
use mathlib.Core.Bool.{Bool, true, false}

-- `negsuc n` is `- (n + 1)`.
pub data ℤ : Type 0 where
  pos : ℕ → ℤ
  negsuc : ℕ → ℤ

abbrev pub is_negative : ℤ → Bool
is_negative (pos n) = false
is_negative (negsuc n) = true

-- The sign of an answer, with the equation kept.
pub ℤ-cases : (z : ℤ) → (z ≡ pos 0) ⊎ ((n : ℕ) × (z ≡ pos (suc n))) ⊎ ((n : ℕ) × (z ≡ negsuc n))
ℤ-cases (pos zero) = inl refl
ℤ-cases (pos (suc n)) = inr (inl (n, refl))
ℤ-cases (negsuc n) = inr (inr (n, refl))
