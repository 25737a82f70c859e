-- ===== src/File/Opening.antt =====
-- The loops of file-util.c that repeat an open.
use autolock.Base.{ℕ, ℤ, negsuc, zero, suc, false, ◌<◌, ◌≡◌, ◌≢◌, refl, arith, is_negative}
use autolock.Arg.{Text}
use autolock.File.Ending.{Ending, returned, died, failed, running, Os, eagain}
use autolock.File.Cases.{checked-cases, assert-cases}
use autolock.File.Loops.{ensure_open2, ensure_open3}

module _ {W : Type 0} (os : Os W) where
  -- A descriptor, or the end of the program on an error that is not EAGAIN.
  unfoldable pub IsOpened : Ending W ℤ → Type 0
  IsOpened (returned fd v) = is_negative fd ≡ false
  IsOpened (died e v) = e ≢ eagain
  IsOpened (failed e v) = ⊥
  IsOpened (running v) = ⊥

  module _ (again : W → ℕ)
      (blocks : (path : Text) (flags n : ℕ) (w : W)
        → (os.open2 path flags w).0 ≡ negsuc n
        → os.errno (os.open2 path flags w).1 ≡ eagain
        → again (os.open2 path flags w).1 < again w) where
    open2-IsOpened :
        (path : Text) (flags k : ℕ) (w : W)
        → again w < k
        → IsOpened (ensure_open2 os k path flags w)
    unfolding ensure_open2 IsOpened
    open2-IsOpened path flags zero w fuel = absurd (omega arith)
    open2-IsOpened path flags (suc k) w fuel =
        checked-cases os IsOpened (os.open2 path flags) _ w (λ q. refl) (λ n q. refl)
          (λ n q e.
            assert-cases os IsOpened _ _ e
              (open2-IsOpened path flags k _ (omega (arith, blocks path flags n w q e))))
          (λ d v ne. ne)

    open3-IsOpened :
        (path : Text) (flags mode k : ℕ) (w : W)
        → again w < k
        → IsOpened (ensure_open3 os k path flags mode w)
    unfolding ensure_open3 IsOpened
    open3-IsOpened path flags mode zero w fuel = absurd (omega arith)
    open3-IsOpened path flags mode (suc k) w fuel =
        checked-cases os IsOpened (os.open2 path mode) _ w (λ q. refl) (λ n q. refl)
          (λ n q e.
            assert-cases os IsOpened _ _ e
              (open3-IsOpened path flags mode k _ (omega (arith, blocks path mode n w q e))))
          (λ d v ne. ne)

    -- Where open blocks finitely often, and `again` bounds how often, I_ensure_open2 and
    -- I_ensure_open3 end, with a descriptor that is not negative, or by ending the program on an
    -- error other than EAGAIN; their assertion never fails.
    pub ensure_open-IsOpened :
        (path : Text) (flags mode k : ℕ) (w : W)
        → again w < k
        → IsOpened (ensure_open2 os k path flags w) × IsOpened (ensure_open3 os k path flags mode w)
    ensure_open-IsOpened path flags mode k w fuel =
        (open2-IsOpened path flags k w fuel, open3-IsOpened path flags mode k w fuel)
