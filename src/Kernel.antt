-- ===== src/Kernel.antt =====
-- The thread-local page that a thread shares with the kernel
-- (user-dev/src/autolock-impls/sys/autolock-kernel-abi.h, autolock-kernel-api.h), and the test by
-- which the kernel's scheduler passes a task over
-- (linux-dev/patches/v1-0002-Implement-autolock.patch).
-- A pointer is a number. A C function's int32_t result is 0 (I_SUCCESS) or 1 (I_FAILURE).
use autolock.Base.{
  ℕ, ◌-◌, ◌^◌, Bool, true, false, not, ◌&&◌, Option, none, some, ◌==◌, leb, if◌then◌else◌, ◌≡◌,
  refl, ◌⊎◌, inl, inr, Bool-cases, arith,
}

abbrev pub i_success : ℕ
i_success = 0

abbrev pub i_failure : ℕ
i_failure = 1

-- `struct kernel_autolock_abi`; `none` is a NULL `watch_mem`.
pub record KernelAutolock : Type 0 where
  pub watch_mem : Option ℕ
  pub watch_for : ℕ
  pub watch_neq : ℕ

-- What the two system calls of `autolock_init_kernel_state` give: the descriptor and the address,
-- as the bits of an int32_t and of a pointer, and the page as the kernel hands it out.
pub record Syscalls : Type 0 where
  pub fd : ℕ
  pub map : ℕ
  pub page : KernelAutolock

abbrev pub map_failed : ℕ
map_failed = 2 ^ 64 - 1

-- The thread-local pointer `I_kernel_autolock` is `none` while it is NULL; the result is both what
-- the function returns and what the pointer is afterwards.
unfoldable pub autolock_init_kernel_state : Syscalls → Option KernelAutolock → Option KernelAutolock
autolock_init_kernel_state sys (some k) = some k
autolock_init_kernel_state sys none =
    if leb (2 ^ 31) sys.fd then none else if sys.map == map_failed then none else some sys.page

-- A thread's page after a call is the one it had, or the one the kernel has handed out.
pub init_kernel_state-cases :
    (sys : Syscalls) (p : Option KernelAutolock)
    → (autolock_init_kernel_state sys p ≡ none)
      ⊎ ((k : KernelAutolock) × (autolock_init_kernel_state sys p ≡ some k)
          × ((p ≡ some k) ⊎ (k ≡ sys.page)))
unfolding autolock_init_kernel_state
init_kernel_state-cases sys (some k) = inr (k, refl, inl refl)
init_kernel_state-cases sys none = elim (Bool-cases (leb (2 ^ 31) sys.fd)) [
  | inl f ↦ inl (ground arith)
  | inr f ↦ elim (Bool-cases (sys.map == map_failed)) [
    | inl m ↦ inl (ground arith)
    | inr m ↦ inr (sys.page, ground arith, inr refl)
  ]
]

abbrev pub set_watch_mem : Option ℕ → KernelAutolock → KernelAutolock
set_watch_mem p k = record k { watch_mem = p }

abbrev pub set_watch_for : ℕ → KernelAutolock → KernelAutolock
set_watch_for v k = record k { watch_for = v }

abbrev pub set_watch_neq : ℕ → KernelAutolock → KernelAutolock
set_watch_neq v k = record k { watch_neq = v }

-- `__auto_lock_check_mem`: `read` is the kernel's read of user memory, `none` where it fails.
unfoldable pub check_mem : (ℕ → Option ℕ) → KernelAutolock → Bool
check_mem read k = elim k.watch_mem [
  | none ↦ false
  | some p ↦ elim (read p) [
    | none ↦ false
    | some cur ↦ if k.watch_neq == 0 then not (k.watch_for == cur) else k.watch_for == cur
  ]
]

abbrev pub is_armed : KernelAutolock → Bool
is_armed k = elim k.watch_mem [ none ↦ false | some _ ↦ true ]

-- `auto_lock_dont_sched`: whether the scheduler skips the task.
unfoldable pub dont_sched : (ℕ → Option ℕ) → Option KernelAutolock → Bool
unfolding check_mem
dont_sched read none = false
dont_sched read (some k) = is_armed k && check_mem read k

-- `auto_lock_sched`: the kernel disarms a task that it schedules.
unfoldable pub sched : Option KernelAutolock → Option KernelAutolock
sched none = none
sched (some k) = some (set_watch_mem none k)

-- `autolock_release_kernel_state` leaves the page to the end of the process.
abbrev pub autolock_release_kernel_state : ℕ
autolock_release_kernel_state = i_success
