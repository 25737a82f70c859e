-- ===== src/Spin/Invariant/Local.antt =====
-- What a thread's place in lock-base.h says of its own kernel page.
use autolock.Base.{ℕ, ◌≡◌, ◌⊎◌, true, false, Option, none, some, arith}
use autolock.Kernel.{KernelAutolock}
use autolock.Spin.{
  Config, UserLock, Thread, Env, Pc, idle, try_load, sched_load, sched_disarm, sched_xchg,
  sched_arm, sched_failed, spinning, yield_call, add_waiter, futex_waiting, sub_waiter, dispatch,
  unlocked,
}

-- The page is not armed.
abbrev pub IsQuiet : Option KernelAutolock → Type 0
IsQuiet none = Unit
IsQuiet (some k) = k.watch_mem ≡ none

-- The page waits for the lock at `a` to be unlocked, or is not armed.
abbrev pub Watches : Config → ℕ → Option KernelAutolock → Type 0
Watches c a none = ⊥
Watches c a (some k) =
    (k.watch_for ≡ unlocked c) × (k.watch_neq ≡ 0) × ((k.watch_mem ≡ none) ⊎ (k.watch_mem ≡ some a))

abbrev pub Slow : Config → ℕ → Option KernelAutolock → Type 0
Slow c a k = elim c.with_autolock [ true ↦ Watches c a k | false ↦ IsQuiet k ]

abbrev pub IsLocal : Config → ℕ → Pc → Option KernelAutolock → Type 0
IsLocal c a (sched_load _) k = Slow c a k
IsLocal c a (sched_disarm _) k = Slow c a k
IsLocal c a (sched_xchg _) k = Slow c a k × IsQuiet k
IsLocal c a (sched_arm _) k = Slow c a k
IsLocal c a (sched_failed _) k = Slow c a k
IsLocal c a yield_call k = Slow c a k
IsLocal c a add_waiter k = Slow c a k
IsLocal c a futex_waiting k = Slow c a k
IsLocal c a sub_waiter k = Slow c a k
IsLocal c a _ k = IsQuiet k

-- Every step keeps it: `lock` disarms before it tries to take the lock, and arms again only when
-- that failed.
pub dispatch-IsLocal :
    (c : Config) (e : Env) (p : Pc) (l : UserLock) (t : Thread)
    → e.sys.page.watch_mem ≡ none
    → IsLocal c l.addr p t.kernel
    → let (l', t') = dispatch c e p l t in IsLocal c l'.addr t'.pc t'.kernel
unfolding dispatch
dispatch-IsLocal c e idle l t b h = h
dispatch-IsLocal c e (try_load x) l t b h = ground arith
dispatch-IsLocal c e (sched_failed spinning) l t b h = ground arith
dispatch-IsLocal c e p l t b h = ground arith
