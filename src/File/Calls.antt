-- ===== src/File/Calls.antt =====
-- The functions of file-util.c that make one call. Their last arguments, the place of the call and
-- the message, only go to the error stream.
use autolock.Base.{
  ℕ, ℤ, pos, negsuc, zero, suc, Bool, true, false, not, ◌&&◌, ◌==◌, Option, none, some,
  if◌then◌else◌, is_negative,
}
use autolock.Arg.{Text}
use autolock.File.Ending.{Ending, returned, died, Os, eagain}

-- The test that each of them makes of what it got.
abbrev pub checked : {W A : Type 0} → Os W → (A → Bool) → (W → A × W) → W → Ending W A
checked os bad call w =
    let (ret, w') = call w in
    if bad ret && not (os.errno w' == eagain) then died (os.errno w') w' else returned ret w'

abbrev pub is_null : Option ℕ → Bool
is_null none = true
is_null (some p) = false

abbrev pub is_nonzero : ℤ → Bool
is_nonzero (pos zero) = false
is_nonzero (pos (suc n)) = true
is_nonzero (negsuc n) = true

module _ {W : Type 0} (os : Os W) where
  abbrev pub safe_open2 : Text → ℕ → W → Ending W ℤ
  safe_open2 path flags = checked os is_negative (os.open2 path flags)

  -- The code calls open(path, mode).
  abbrev pub safe_open3 : Text → ℕ → ℕ → W → Ending W ℤ
  safe_open3 path flags mode = checked os is_negative (os.open2 path mode)

  abbrev pub safe_read : ℕ → ℕ → ℕ → W → Ending W ℤ
  safe_read fd buf count = checked os is_negative (os.read fd buf count)

  abbrev pub safe_write : ℕ → ℕ → ℕ → W → Ending W ℤ
  safe_write fd buf count = checked os is_negative (os.write fd buf count)

  abbrev pub safe_stat : Text → ℕ → W → Ending W ℤ
  safe_stat path buf = checked os is_negative (os.stat path buf)

  abbrev pub safe_fstat : ℕ → ℕ → W → Ending W ℤ
  safe_fstat fd buf = checked os is_negative (os.fstat fd buf)

  abbrev pub safe_access : Text → ℕ → W → Ending W ℤ
  safe_access path mode = checked os is_negative (os.access path mode)

  abbrev pub safe_close : ℕ → W → Ending W ℤ
  safe_close fd = checked os is_negative (os.close fd)

  abbrev pub check_open2 : Text → ℕ → W → Ending W ℤ
  check_open2 path flags = checked os is_negative (os.open2 path flags)

  abbrev pub check_open3 : Text → ℕ → ℕ → W → Ending W ℤ
  check_open3 path flags mode = checked os is_negative (os.open3 path flags mode)

  abbrev pub check_access : Text → ℕ → W → Ending W ℤ
  check_access path mode = checked os is_negative (os.access path mode)

  abbrev pub safe_fopen : Text → Text → W → Ending W (Option ℕ)
  safe_fopen path mode = checked os is_null (os.fopen path mode)

  abbrev pub safe_fdopen : ℕ → Text → W → Ending W (Option ℕ)
  safe_fdopen fd mode = checked os is_null (os.fdopen fd mode)

  abbrev pub check_fopen : Text → Text → W → Ending W (Option ℕ)
  check_fopen path mode = checked os is_null (os.fopen path mode)

  abbrev pub safe_fread : ℕ → ℕ → ℕ → ℕ → W → Ending W ℕ
  safe_fread ptr size nmemb stream =
      checked os (λ ret. not (ret == nmemb)) (os.fread ptr size nmemb stream)

  abbrev pub safe_fwrite : ℕ → ℕ → ℕ → ℕ → W → Ending W ℕ
  safe_fwrite ptr size nmemb stream =
      checked os (λ ret. not (ret == nmemb)) (os.fwrite ptr size nmemb stream)

  abbrev pub safe_fclose : ℕ → W → Ending W ℤ
  safe_fclose stream = checked os is_nonzero (os.fclose stream)
