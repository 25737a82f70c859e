-- ===== src/Spin/Safety.antt =====
-- What every reachable state of the threads on one lock of lock-base.h satisfies.
use autolock.Base.{
  ℕ, zero, suc, ◌+◌, ◌*◌, ◌^◌, ◌<◌, ◌≡◌, ◌≢◌, ◌||◌, refl, ◌⊎◌, inl, inr, Option, none, some, arith,
  Bool, true, false, add-le-sum_over, le-sum_over, sum_over-pos, dec_lt, if◌then◌else◌,
}
use mathlib.Core.Path.{subst}
use autolock.Kernel.{KernelAutolock, dont_sched, i_success, i_failure}
use autolock.Spin.{
  Config, UserLock, Thread, Env, Pc, idle, try_load, sched_load, spinning, Stage, critical,
  yield_call, add_waiter, futex_waiting, unlock_load, unlock_wake, System, Reach, step, dispatch,
  locked, pause_iters,
}
use autolock.Spin.Invariant.{
  Inv, Reach-Inv, holders, holds, waiting, waits, IsQuiet, IsLocal, Watches, IsWord, free,
}

-- In every reachable state of fewer than 2^32 threads, in every configuration, two threads that
-- are between an acquisition and the store of `unlock` are one thread.
pub mutual_exclusion :
    {c : Config} {n : ℕ} {s : System}
    → n < 2 ^ 32
    → Reach c n s
    → (i j : ℕ) → i < n
    → j < n
    → (s.threads i).pc ≡ critical
    → (s.threads j).pc ≡ critical
    → i ≡ j
mutual_exclusion {n} {s} few r i j hi hj pi pj = elim (dec_lt i j) [
  | yes lt ↦ absurd (two i j lt hj pi pj)
  | no ge ↦ elim (dec_lt j i) [ yes lt ↦ absurd (two j i lt hi pj pi) | no le ↦ omega arith ]
]
  where
    two : (a b : ℕ) → a < b → b < n → (s.threads a).pc ≡ critical → (s.threads b).pc ≡ critical → ⊥
    two a b lt hb pa pb =
        ground
          (arith, (Reach-Inv few r).held, add-le-sum_over (λ t. holds t.pc) n s.threads a b lt hb)

holder-locked :
    {c : Config} {n : ℕ} {s : System} (inv : Inv c n s) (i : ℕ)
    → i < n
    → (s.threads i).pc ≡ critical
    → s.lock.mem ≡ locked c
holder-locked {n} {s} inv i lt p =
    ground (arith, inv.word, inv.held, le-sum_over (λ t. holds t.pc) n s.threads i lt)

quiet-runs :
    (read : ℕ → Option ℕ) (k : Option KernelAutolock) → IsQuiet k → dont_sched read k ≡ false
unfolding dont_sched
quiet-runs read none h = refl
quiet-runs read (some k) h = ground arith

-- In every reachable state of fewer than 2^32 threads, in every configuration, a thread that has the
-- lock is not passed over by the kernel's scheduler, whatever the kernel reads, and the word of the
-- lock says locked.
pub holder_runs :
    {c : Config} {n : ℕ} {s : System}
    → n < 2 ^ 32
    → Reach c n s
    → (read : ℕ → Option ℕ) (i : ℕ) → i < n
    → (s.threads i).pc ≡ critical
    → (s.lock.mem ≡ locked c) × (dont_sched read (s.threads i).kernel ≡ false)
holder_runs {c} {s} few r read i lt p = (
  holder-locked (Reach-Inv few r) i lt p,
  quiet-runs read (s.threads i).kernel
      (subst (λ q. IsLocal c s.lock.addr q (s.threads i).kernel) p ((Reach-Inv few r).locals i)),
)

IsQuiet-or_Watches :
    (c : Config) (a : ℕ) (p : Pc) (k : Option KernelAutolock)
    → IsLocal c a p k
    → IsQuiet k ⊎ Watches c a k
IsQuiet-or_Watches c a idle k h = ground arith
IsQuiet-or_Watches c a p k h = ground arith

parked-locked :
    (c : Config) (l : UserLock) (k : Option KernelAutolock) (read : ℕ → Option ℕ)
    → read l.addr ≡ some l.mem
    → IsWord c l
    → IsQuiet k ⊎ Watches c l.addr k
    → dont_sched read k ≡ true
    → l.mem ≡ locked c
unfolding dont_sched
parked-locked c l none read h w q d = cc
parked-locked c l (some k) read h w (inl q) d = ground arith
parked-locked c l (some k) read h w (inr q) d = ground arith

pos_holds : (p : Pc) → 0 < holds p → p ≡ critical
pos_holds critical h = refl
pos_holds p h = absurd (omega arith)

-- In every reachable state of fewer than 2^32 threads, in every configuration, where the kernel reads
-- the word of the lock and passes a thread over, some thread has the lock, and that one is not passed
-- over: autolock cannot deadlock the lock.
pub parked_has_runner :
    {c : Config} {n : ℕ} {s : System}
    → n < 2 ^ 32
    → Reach c n s
    → (read : ℕ → Option ℕ) → read s.lock.addr ≡ some s.lock.mem
    → (i : ℕ) → i < n
    → dont_sched read (s.threads i).kernel ≡ true
    → (j : ℕ) × (j < n)
      × ((s.threads j).pc ≡ critical)
      × (dont_sched read (s.threads j).kernel ≡ false)
parked_has_runner {c} {n} {s} few r read h i lt d =
    let (j, in_n, pos) = sum_over-pos (λ t. holds t.pc) n s.threads one_holder in
    let p = pos_holds (s.threads j).pc pos in (j, in_n, p, (holder_runs few r read j in_n p).1)
  where
    inv : Inv c n s
    inv = Reach-Inv few r

    is_locked : s.lock.mem ≡ locked c
    is_locked =
        parked-locked c s.lock (s.threads i).kernel read h inv.word
          (IsQuiet-or_Watches c s.lock.addr (s.threads i).pc (s.threads i).kernel (inv.locals i)) d

    one_holder : 0 < holders n s.threads
    one_holder = ground (arith, inv.held, is_locked)

waiters_exact :
    {c : Config} {n : ℕ} {s : System}
    → n < 2 ^ 32
    → Reach c n s
    → s.lock.waiters ≡ waiting n s.threads
waiters_exact few r = (Reach-Inv few r).counted

-- In every reachable state of fewer than 2^32 threads `waiters` is exactly the number of threads
-- between its increment and its decrement, and so an `unlock` that looks at it goes on to `futex_wake`
-- whenever a thread is in `futex_wait`.
pub waiter_woken :
    {c : Config} {n : ℕ} {s : System}
    → n < 2 ^ 32
    → Reach c n s
    → (e : Env) (i j : ℕ) → j < n
    → (s.threads i).pc ≡ unlock_load
    → (s.threads j).pc ≡ futex_waiting
    → (s.lock.waiters ≡ waiting n s.threads) × ((step c e s.lock (s.threads i)).1.pc ≡ unlock_wake)
unfolding step dispatch
waiter_woken {n} {s} few r e i j lt pi pj = (
  waiters_exact few r,
  rw pi (ground (arith, waiters_exact few r, pj, le-sum_over (λ t. waits t.pc) n s.threads j lt)),
)

-- What a call of `trylock` that is over has done: failed and nothing held, or succeeded and the
-- lock held.
abbrev pub Returned : Thread → Type 0
Returned t = ((t.pc ≡ idle) × (t.ret ≡ i_failure)) ⊎ ((t.pc ≡ critical) × (t.ret ≡ i_success))

-- `trylock` never waits: whatever other threads do to the lock in between, a call returns after
-- one or two steps of its own. It leaves the kernel page alone.
pub trylock_returns :
    (c : Config) (e e' : Env) (l l' : UserLock) (t : Thread)
    → t.pc ≡ try_load false
    → let t1 = (step c e l t).1 in
      let t2 = (step c e' l' t1).1 in
      (Returned t1 ⊎ Returned t2) × (t1.kernel ≡ t.kernel) × (t2.kernel ≡ t.kernel)
unfolding step dispatch
trylock_returns c e e' l l' t p = rw p (ground arith)

-- The page after an acquisition in the loop: not armed, and without autolock as it was.
abbrev pub Released : Bool → Thread → Thread → Type 0
Released true t t' = IsQuiet t'.kernel
Released false t t' = t'.kernel ≡ t.kernel

module _ (c : Config) (e : Env) where
  -- the thread alone, for `k` steps
  pub alone : ℕ → UserLock × Thread → UserLock × Thread
  alone zero s = s
  alone (suc k) s = let (l, t) = s in alone k (step c e l t)

  -- A thread that finds the lock free and is not disturbed has it after three steps of the retry
  -- loop, in either loop, with the kernel page disarmed, and `lock` returns success.
  free-acquired :
      (st : Stage) (l : UserLock) (t : Thread)
      → t.pc ≡ sched_load st
      → l.mem ≢ locked c
      → let (l', t') = alone 3 (l, t) in
        (l'.mem ≡ locked c)
        × (t'.pc ≡ critical)
        × (t'.ret ≡ i_success)
        × Released c.with_autolock t t'
  unfolding alone step dispatch
  free-acquired st l t p free = rw p (ground arith)

  alone_three : (k : ℕ) (x : UserLock × Thread) → alone (3 * suc k) x ≡ alone (3 * k) (alone 3 x)
  unfolding alone
  alone_three k x = subst (λ m. alone m x ≡ alone (3 * k) (alone 3 x)) (three k) refl
    where
      three : (k : ℕ) → suc (suc (suc (3 * k))) ≡ 3 * suc k
      three k = omega arith

  spin_round :
      (l : UserLock) (t : Thread)
      → t.pc ≡ sched_load spinning
      → l.mem ≡ locked c
      → (c.with_yield || c.with_futex) ≡ true
      → let (l', t') = alone 3 (l, t) in
        (l'.mem ≡ locked c)
        × (t.tries < pause_iters → (t'.pc ≡ sched_load spinning) × (t'.tries ≡ t.tries + 1))
        × (t.tries ≡ pause_iters → t'.pc ≡ (if c.with_yield then yield_call else add_waiter))
  unfolding alone step dispatch
  spin_round l t p taken w = rw p (rw (taken, alone) (ground arith))

  -- A thread that finds the lock taken again and again leaves the pausing loop after at most 129
  -- rounds, if the configuration has a next way to wait: for the yielding loop if it has one, and
  -- else for the futex.
  pub spin_bounded :
      (k : ℕ) (l : UserLock) (t : Thread)
      → t.pc ≡ sched_load spinning
      → l.mem ≡ locked c
      → t.tries + k ≡ pause_iters
      → (c.with_yield || c.with_futex) ≡ true
      → (alone (3 * suc k) (l, t)).1.pc ≡ (if c.with_yield then yield_call else add_waiter)
  unfolding alone
  spin_bounded zero l t p taken h w =
      rw (alone_three 0 (l, t)) ((spin_round l t p taken w).2 (omega arith))
  spin_bounded (suc k) l t p taken h w =
      let (taken', more, last) = spin_round l t p taken w in
      let (p', count) = more (omega arith) in
      rw (alone_three (suc k) (l, t))
        (spin_bounded k (alone 3 (l, t)).0 (alone 3 (l, t)).1 p' taken' (omega arith) w)
