-- ===== src/Spin/Invariant/Count.antt =====
-- What one step of a thread does to the word of the lock, to its holder, and to `waiters`.
use autolock.Base.{ℕ, ◌+◌, ◌^◌, ◌≤◌, ◌<◌, ◌≡◌, ◌⊎◌, arith, ◌==◌, if◌then◌else◌}
use autolock.Spin.{
  Config, UserLock, Thread, Env, Pc, idle, try_load, sched_failed, spinning, critical,
  futex_waiting, sub_waiter, dispatch, locked, unlocked,
}

-- 1 for the thread that has the lock
abbrev pub holds : Pc → ℕ
holds critical = 1
holds _ = 0

-- 1 for a thread that `waiters` counts
abbrev pub waits : Pc → ℕ
waits futex_waiting = 1
waits sub_waiter = 1
waits _ = 0

-- 1 if the lock is free
abbrev pub free : Config → UserLock → ℕ
free c l = if l.mem == unlocked c then 1 else 0

abbrev pub IsWord : Config → UserLock → Type 0
IsWord c l = (l.mem ≡ locked c) ⊎ (l.mem ≡ unlocked c)

-- A step hands the lock over between the free word and the thread, and forges none.
pub dispatch-holds :
    (c : Config) (e : Env) (p : Pc) (l : UserLock) (t : Thread)
    → IsWord c l
    → holds p + free c l ≤ 1
    → let (l', t') = dispatch c e p l t in
      IsWord c l' × (holds t'.pc + free c l' ≡ holds p + free c l)
unfolding dispatch
dispatch-holds c e idle l t w h = ground arith
dispatch-holds c e (try_load x) l t w h = ground arith
dispatch-holds c e (sched_failed spinning) l t w h = ground arith
dispatch-holds c e p l t w h = ground arith

-- `waiters` moves with the threads that it counts; it does not wrap.
pub dispatch-waits :
    (c : Config) (e : Env) (p : Pc) (l : UserLock) (t : Thread)
    → waits p ≤ l.waiters
    → l.waiters + 1 < waits p + 2 ^ 32
    → let (l', t') = dispatch c e p l t in l'.waiters + waits p ≡ l.waiters + waits t'.pc
unfolding dispatch
dispatch-waits c e idle l t w h = ground arith
dispatch-waits c e (try_load x) l t w h = ground arith
dispatch-waits c e (sched_failed spinning) l t w h = ground arith
dispatch-waits c e p l t w h = ground arith

pub dispatch-addr :
    (c : Config) (e : Env) (p : Pc) (l : UserLock) (t : Thread)
    → (dispatch c e p l t).0.addr ≡ l.addr
unfolding dispatch
dispatch-addr c e idle l t = ground arith
dispatch-addr c e (sched_failed spinning) l t = ground arith
dispatch-addr c e p l t = ground arith
