-- ===== src/File/Errors.antt =====
-- The error branches of the calls of file-util.c, and of the loops that repeat an open.
use autolock.Base.{
  ℕ, Bool, true, false, not, ◌&&◌, ◌==◌, ◌≡◌, ◌≢◌, refl, arith, inl, inr, Bool-cases, is_negative,
}
use autolock.Arg.{Text}
use autolock.File.Ending.{Ending, returned, died, failed, running, Os, eagain}
use autolock.File.Calls.{
  checked, is_null, is_nonzero, safe_open2, safe_open3, safe_read, safe_write, safe_stat,
  safe_fstat, safe_access, safe_close, check_open2, check_open3, check_access, safe_fopen,
  safe_fdopen, check_fopen, safe_fread, safe_fwrite, safe_fclose,
}

-- What is to be known of the way a call ended, given what the system answered to it: the program
-- goes on with that answer where it is not bad, or where the error is only that the call would
-- block; it ends, with the error number of the system, in all other cases, and only there.
unfoldable pub IsChecked : {W A : Type 0} → Os W → (A → Bool) → A × W → Ending W A → Type 0
IsChecked os bad (a, w) (returned b v) =
    (a ≡ b) × (w ≡ v) × ((bad a && not (os.errno w == eagain)) ≡ false)
IsChecked os bad (a, w) (died e v) = (bad a ≡ true) × (e ≡ os.errno w) × (w ≡ v) × (e ≢ eagain)
IsChecked os bad (a, w) (failed e v) = ⊥
IsChecked os bad (a, w) (running v) = ⊥

checked-IsChecked :
    {W A : Type 0} (os : Os W) (bad : A → Bool) (call : W → A × W) (w : W)
    → IsChecked os bad (call w) (checked os bad call w)
unfolding IsChecked
checked-IsChecked os bad call w = elim (Bool-cases (bad (call w).0)) [
  | inl b ↦ elim (Bool-cases (os.errno (call w).1 == eagain)) [
    | inl e ↦ rw (b, e) (refl, refl, rw (b, e) refl)
    | inr e ↦ rw (b, e) (b, refl, refl, λ q. absurd (ground (arith, e, q)))
  ]
  | inr b ↦ rw b (refl, refl, rw b refl)
]

module _ {W : Type 0} (os : Os W) (w : W) where
  module _ (path mode : Text) (flags perm fd buf count size : ℕ) where
    -- Every function that makes one call, with what the system answers to the call that it makes.
    unfoldable pub AllChecked : Type 0
    AllChecked =
        IsChecked os is_negative (os.open2 path flags w) (safe_open2 os path flags w)
        × IsChecked os is_negative (os.open2 path perm w) (safe_open3 os path flags perm w)
        × IsChecked os is_negative (os.read fd buf count w) (safe_read os fd buf count w)
        × IsChecked os is_negative (os.write fd buf count w) (safe_write os fd buf count w)
        × IsChecked os is_negative (os.stat path buf w) (safe_stat os path buf w)
        × IsChecked os is_negative (os.fstat fd buf w) (safe_fstat os fd buf w)
        × IsChecked os is_negative (os.access path perm w) (safe_access os path perm w)
        × IsChecked os is_negative (os.close fd w) (safe_close os fd w)
        × IsChecked os is_negative (os.open2 path flags w) (check_open2 os path flags w)
        × IsChecked os is_negative (os.open3 path flags perm w) (check_open3 os path flags perm w)
        × IsChecked os is_negative (os.access path perm w) (check_access os path perm w)
        × IsChecked os is_null (os.fopen path mode w) (safe_fopen os path mode w)
        × IsChecked os is_null (os.fdopen fd mode w) (safe_fdopen os fd mode w)
        × IsChecked os is_null (os.fopen path mode w) (check_fopen os path mode w)
        × IsChecked os (λ n. not (n == count)) (os.fread buf size count fd w)
            (safe_fread os buf size count fd w)
        × IsChecked os (λ n. not (n == count)) (os.fwrite buf size count fd w)
            (safe_fwrite os buf size count fd w)
        × IsChecked os is_nonzero (os.fclose fd w) (safe_fclose os fd w)

    -- Each function that makes one call returns what the system answered, unless the answer is an
    -- error and errno is not EAGAIN, and it ends the program with errno in exactly those cases: an
    -- error is a negative number for a descriptor or a status, NULL for a stream, a count other than
    -- the one asked for in fread and fwrite, and any status but 0 in fclose. The call that
    -- I_safe_open3 makes is open with `mode` as the flags.
    pub calls-AllChecked : AllChecked
    unfolding AllChecked
    calls-AllChecked = (
      checked-IsChecked os _ (os.open2 path flags) w,
      checked-IsChecked os _ (os.open2 path perm) w,
      checked-IsChecked os _ (os.read fd buf count) w,
      checked-IsChecked os _ (os.write fd buf count) w,
      checked-IsChecked os _ (os.stat path buf) w,
      checked-IsChecked os _ (os.fstat fd buf) w,
      checked-IsChecked os _ (os.access path perm) w,
      checked-IsChecked os _ (os.close fd) w,
      checked-IsChecked os _ (os.open2 path flags) w,
      checked-IsChecked os _ (os.open3 path flags perm) w,
      checked-IsChecked os _ (os.access path perm) w,
      checked-IsChecked os _ (os.fopen path mode) w,
      checked-IsChecked os _ (os.fdopen fd mode) w,
      checked-IsChecked os _ (os.fopen path mode) w,
      checked-IsChecked os _ (os.fread buf size count fd) w,
      checked-IsChecked os _ (os.fwrite buf size count fd) w,
      checked-IsChecked os _ (os.fclose fd) w,
    )
