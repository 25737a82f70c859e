-- ===== src/File/Loops.antt =====
-- The loops of file-util.c, which repeat a call until it is done. The first number is fuel.
use autolock.Base.{ℕ, ℤ, pos, negsuc, zero, suc, ◌+◌, ◌-◌, ◌%◌, ◌^◌, ◌==◌, true, false}
use autolock.Arg.{Text}
use autolock.File.Ending.{Ending, returned, running, Os, eagain, err_assert, ◌>>=◌}
use autolock.File.Calls.{safe_open2, safe_open3, safe_read, safe_write}

-- count - done, on a size_t.
abbrev pub remaining : ℕ → ℕ → ℕ
remaining count done = (count + 2 ^ 64 - done % 2 ^ 64) % 2 ^ 64

module _ {W : Type 0} (os : Os W) where
  unfoldable pub ensure_open2 : ℕ → Text → ℕ → W → Ending W ℤ
  ensure_open2 zero path flags = running
  ensure_open2 (suc k) path flags = safe_open2 os path flags >>= λ fd. elim fd [
    | pos n ↦ returned (pos n)
    | negsuc n ↦ λ w. (err_assert os (os.errno w == eagain) >>= λ _. ensure_open2 k path flags) w
  ]

  unfoldable pub ensure_open3 : ℕ → Text → ℕ → ℕ → W → Ending W ℤ
  ensure_open3 zero path flags mode = running
  ensure_open3 (suc k) path flags mode = safe_open3 os path flags mode >>= λ fd. elim fd [
    | pos n ↦ returned (pos n)
    | negsuc n ↦
        λ w. (err_assert os (os.errno w == eagain) >>= λ _. ensure_open3 k path flags mode) w
  ]

  module _ (fd buf count : ℕ) where
    -- With `nread` bytes read.
    unfoldable pub ensure_read : ℕ → ℕ → W → Ending W ℕ
    ensure_read zero nread = running
    ensure_read (suc k) nread = elim (nread == count) [
      | true ↦ returned nread
      | false ↦ safe_read os fd (buf + nread) (remaining count nread) >>= λ ret. elim ret [
        | pos zero ↦ returned nread
        | pos (suc n) ↦ ensure_read k (nread + suc n)
        | negsuc n ↦ λ w. (err_assert os (os.errno w == eagain) >>= λ _. ensure_read k nread) w
      ]
    ]

    -- With `nwrote` the position; the code adds `count` to it.
    unfoldable pub ensure_write : ℕ → ℕ → W → Ending W ℕ
    ensure_write zero nwrote = running
    ensure_write (suc k) nwrote = elim (nwrote == count) [
      | true ↦ returned nwrote
      | false ↦ safe_write os fd (buf + nwrote) (remaining count nwrote) >>= λ ret. elim ret [
        | pos zero ↦ returned nwrote
        | pos (suc n) ↦ ensure_write k (nwrote + count)
        | negsuc n ↦ λ w. (err_assert os (os.errno w == eagain) >>= λ _. ensure_write k nwrote) w
      ]
    ]
