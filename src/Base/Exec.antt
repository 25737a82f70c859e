-- ===== src/Base/Exec.antt =====
-- Code that may end the program by die of user-dev/src/util/error-util.h.
use mathlib.Core.Bool.{Bool, true, false}
use mathlib.Core.Option.{Option, none, some}

-- A value, the end of the program by die, a read outside an array, or a loop that used up its fuel.
pub data Exec {ℓ} (A : Type ℓ) : Type ℓ where
  value : A → Exec A
  died : Exec A
  outside : Exec A
  running : Exec A

infixl 5 ◌>>=◌
abbrev pub ◌>>=◌ {ℓ} : {A B : Type ℓ} → Exec A → (A → Exec B) → Exec B
value a >>= f = f a
died >>= f = died
outside >>= f = outside
running >>= f = running

abbrev pub die_assert {ℓ} : {A : Type ℓ} → Bool → Exec A → Exec A
die_assert true x = x
die_assert false x = died

abbrev pub element {ℓ} : {A : Type ℓ} → Option A → Exec A
element none = outside
element (some a) = value a
