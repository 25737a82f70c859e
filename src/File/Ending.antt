-- ===== src/File/Ending.antt =====
-- How a call of file-util.c ends, and the operating system that it calls.
use autolock.Base.{ℕ, ℤ, Bool, Option, if◌then◌else◌}
use autolock.Arg.{Text}

-- `died e` is I_errdie with the error number `e` behind a call, and `failed e` the same at an
-- err_assert; `running` is a loop that used up its fuel.
pub data Ending (W A : Type 0) : Type 0 where
  returned : A → W → Ending W A
  died : ℕ → W → Ending W A
  failed : ℕ → W → Ending W A
  running : W → Ending W A

infixl 5 ◌>>=◌
abbrev pub ◌>>=◌ : {W A B : Type 0} → (W → Ending W A) → (A → W → Ending W B) → W → Ending W B
◌>>=◌ m f w = elim (m w) [
  | returned a w' ↦ f a w'
  | died e w' ↦ died e w'
  | failed e w' ↦ failed e w'
  | running w' ↦ running w'
]

-- The functions of the C library that file-util.c calls, on the states `W` of the world: memory,
-- files and errno. A stream is the address of a FILE.
pub record Os (W : Type 0) : Type 0 where
  pub errno : W → ℕ
  pub open2 : Text → ℕ → W → ℤ × W
  pub open3 : Text → ℕ → ℕ → W → ℤ × W
  pub read : ℕ → ℕ → ℕ → W → ℤ × W
  pub write : ℕ → ℕ → ℕ → W → ℤ × W
  pub stat : Text → ℕ → W → ℤ × W
  pub fstat : ℕ → ℕ → W → ℤ × W
  pub access : Text → ℕ → W → ℤ × W
  pub close : ℕ → W → ℤ × W
  pub fopen : Text → Text → W → Option ℕ × W
  pub fdopen : ℕ → Text → W → Option ℕ × W
  pub fread : ℕ → ℕ → ℕ → ℕ → W → ℕ × W
  pub fwrite : ℕ → ℕ → ℕ → ℕ → W → ℕ × W
  pub fclose : ℕ → W → ℤ × W

abbrev pub eagain : ℕ
eagain = 11

-- errdie(NULL), where the condition does not hold.
abbrev pub err_assert : {W : Type 0} → Os W → Bool → W → Ending W Unit
err_assert os c w = if c then returned tt w else failed (os.errno w) w
