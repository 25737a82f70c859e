-- ===== src/Ops/Invariant.antt =====
-- What the threads on a lock of lock_ops add up to.
use autolock.Base.{
  sum_over_mono, sum_over-le, sum_over-update, le-sum_over, update, arith, ℕ, ◌+◌, ◌≤◌, ◌<◌, ◌≡◌,
  ◌⊎◌, Bool, false, not, ◌==◌, one_if, sum_over,
}
use autolock.Ops.{
  LockBase, Attempt, single, Pc, idle, load, exchange, add_waiter, futex, sleeping, sub_waiter,
  critical, Thread, System, locked,
}

abbrev pub holds : Pc → ℕ
holds critical = 1
holds p = 0

-- Whether the thread is counted in `waiters`.
abbrev pub counted : Pc → ℕ
counted futex = 1
counted sleeping = 1
counted sub_waiter = 1
counted p = 0

-- Whether the thread is in the part of `lock` for the futex.
abbrev pub in_futex : Pc → ℕ
in_futex add_waiter = 1
in_futex p = counted p

abbrev pub sleeps : Pc → ℕ
sleeps sleeping = 1
sleeps p = 0

abbrev pub awake_in : Attempt → ℕ
awake_in single = 0
awake_in a = 1

-- Whether the thread is awake in `lock`, has the lock, or is in `unlock`.
abbrev pub awake : Pc → ℕ
awake idle = 0
awake sleeping = 0
awake (load a) = awake_in a
awake (exchange a) = awake_in a
awake p = 1

abbrev pub is_free : LockBase → ℕ
is_free l = one_if (not (l.mem == locked))

abbrev pub total : (Pc → ℕ) → ℕ → (ℕ → Thread) → ℕ
total w n ts = sum_over (λ t. w t.pc) n ts

pub record Inv (with_futex : Bool) (n : ℕ) (s : System) : Type 0 where
  pub held : total holds n s.threads + is_free s.lock ≡ 1
  pub waiters : s.lock.waiters ≡ total counted n s.threads
  pub woken : (total sleeps n s.threads ≡ 0) ⊎ (0 < total awake n s.threads)
  pub spins : with_futex ≡ false → total in_futex n s.threads ≡ 0

sleeps-le_counted : (p : Pc) → sleeps p ≤ counted p
sleeps-le_counted sleeping = omega arith
sleeps-le_counted p = omega arith

counted-le_in_futex : (p : Pc) → counted p ≤ in_futex p
counted-le_in_futex add_waiter = omega arith
counted-le_in_futex p = omega arith

counted-le : (p : Pc) → counted p ≤ 1
counted-le futex = omega arith
counted-le sleeping = omega arith
counted-le sub_waiter = omega arith
counted-le p = omega arith

holds-le_awake : (p : Pc) → holds p ≤ awake p
holds-le_awake critical = omega arith
holds-le_awake p = omega arith

module _ (n : ℕ) (ts : ℕ → Thread) where
  pub sleepers-counted : total sleeps n ts ≤ total counted n ts
  sleepers-counted =
      sum_over_mono (λ t. sleeps t.pc) (λ t. counted t.pc) (λ t. sleeps-le_counted t.pc) n ts

  pub counted-futex : total counted n ts ≤ total in_futex n ts
  counted-futex =
      sum_over_mono (λ t. counted t.pc) (λ t. in_futex t.pc) (λ t. counted-le_in_futex t.pc) n ts

  pub holders-awake : total holds n ts ≤ total awake n ts
  holders-awake = sum_over_mono (λ t. holds t.pc) (λ t. awake t.pc) (λ t. holds-le_awake t.pc) n ts

  pub total-counted-le : total counted n ts ≤ n
  total-counted-le = omega (arith, sum_over-le (λ t. counted t.pc) 1 (λ t. counted-le t.pc) n ts)

  -- A step of the thread `i` moves each total by what its place weighs.
  pub total-update :
      (w : Pc → ℕ) (i : ℕ) (t : Thread)
      → i < n
      → total w n (update ts i t) + w (ts i).pc ≡ total w n ts + w t.pc
  total-update w i t lt = sum_over-update (λ t. w t.pc) n ts i t lt

  pub le-total : (w : Pc → ℕ) (i : ℕ) → i < n → w (ts i).pc ≤ total w n ts
  le-total w i lt = le-sum_over (λ t. w t.pc) n ts i lt
