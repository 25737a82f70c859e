-- ===== src/Ops/Steps.antt =====
-- The steps of one thread keep the invariant of the locks of lock_ops.
use autolock.Base.{ℕ, ◌+◌, ◌^◌, ◌<◌, ◌≡◌, refl, update}
use autolock.Ops.{
  Config, idle, load, exchange, add_waiter, futex, sleeping, sub_waiter, critical, load_waiters, Pc,
  wake, Thread, Env, System, dispatch, rouse, Wakes,
}
use autolock.Ops.Invariant.{Inv}
use autolock.Ops.Settle.{Turn}
use autolock.Ops.Locking.{
  idle-Inv, load-Inv, exchange-Inv, add-Inv, futex-Inv, sleeping-Inv, sub-Inv,
}
use autolock.Ops.Unlocking.{critical-Inv, waiters-Inv, wake-Inv}

module _ (c : Config) (n : ℕ) (few : n + 1 < 2 ^ 32) (s : System) (i : ℕ) (lt : i < n)
    (inv : Inv c.with_futex n s) (e : Env) where
  abbrev u : Thread
  u = s.threads i

  abbrev v : Turn c n s i
  v = record { few = few; lt = lt; inv = inv }

  pub step-Inv :
      Wakes n s e.woken
      → (p : Pc) → u.pc ≡ p
      → (let (l, t) = dispatch c e p s.lock u in
          Inv c.with_futex n
            (record { lock = l; threads = rouse p e.woken (update s.threads i t) }))
  unfolding rouse dispatch
  step-Inv h idle q = idle-Inv v e q
  step-Inv h (load a) q = load-Inv v e a q
  step-Inv h (exchange a) q = exchange-Inv v e a q
  step-Inv h add_waiter q = add-Inv v e q
  step-Inv h futex q = futex-Inv v e q
  step-Inv h sleeping q = sleeping-Inv v e q
  step-Inv h sub_waiter q = sub-Inv v e q
  step-Inv h critical q = critical-Inv v e q
  step-Inv h load_waiters q = waiters-Inv v e q
  step-Inv h wake q = wake-Inv v e e.woken q h _ refl
