-- ===== src/Ops/Unlocking.antt =====
-- The steps of lock_ops::unlock, with futex_wake, keep the invariant.
use autolock.Base.{
  sum_over-eq-zero_below, ℕ, ◌+◌, ◌<◌, ◌≡◌, refl, sym, ap, ◌∙◌, ◌⊎◌, inl, inr, arith, true, false,
  Option, none, some, ◌==◌, ==_iff, if◌then◌else◌, update, Bool-cases,
}
use mathlib.Core.Path.{subst}
use autolock.Ops.{
  Config, LockBase, Pc, idle, sleeping, sub_waiter, critical, load_waiters, wake, Thread, Env,
  System, goto, unlocked, dispatch, rouse, Wakes,
}
use autolock.Ops.Invariant.{
  holds, counted, in_futex, sleeps, awake, is_free, total, Inv, sleepers-counted, counted-futex,
  total-update, le-total,
}
use autolock.Ops.Settle.{Turn, settle, calm}

module _ {c : Config} {n : ℕ} {s : System} {i : ℕ} (v : Turn c n s i) (e : Env) where
  abbrev u : Thread
  u = s.threads i

  abbrev at : Pc → System
  at p = let (l, t) = dispatch c e p s.lock u in record { lock = l; threads = update s.threads i t }

  pub critical-Inv : u.pc ≡ critical → Inv c.with_futex n (at critical)
  unfolding dispatch
  critical-Inv q = elim (Bool-cases c.with_futex) [
    | inl f ↦
        let t = goto u load_waiters in
        subst (λ x. Inv c.with_futex n (record { lock = freed; threads = update s.threads i x }))
          (chosen f)
          (settle v freed t (omega (arith, held, ap holds q)) (omega (arith, ap counted q))
            (calm v t (omega arith) (omega (arith, ap awake q))) (λ _. refl))
    | inr f ↦
        let t = record u { ret = 0; pc = idle } in
        subst (λ x. Inv c.with_futex n (record { lock = freed; threads = update s.threads i x }))
          (spun f)
          (settle v freed t (omega (arith, held, ap holds q)) (omega (arith, ap counted q))
            (inl (
              omega (
                arith,
                v.inv.spins f,
                sleepers-counted n s.threads,
                counted-futex n s.threads,
                total-update n s.threads sleeps i t v.lt,
                le-total n s.threads sleeps i v.lt,
              )))
            (λ _. refl))
  ]
    where
      freed : LockBase
      freed = record s.lock { mem = unlocked }

      held : is_free s.lock ≡ 0
      held = omega (arith, v.inv.held, le-total n s.threads holds i v.lt, ap holds q)

      chosen :
          c.with_futex ≡ true
          → goto u load_waiters
            ≡ (if c.with_futex then goto u load_waiters else record u { ret = 0; pc = idle })
      chosen f = rw f refl

      spun :
          c.with_futex ≡ false
          → record u { ret = 0; pc = idle }
            ≡ (if c.with_futex then goto u load_waiters else record u { ret = 0; pc = idle })
      spun f = rw f refl

  pub waiters-Inv : u.pc ≡ load_waiters → Inv c.with_futex n (at load_waiters)
  unfolding dispatch
  waiters-Inv q = elim (Bool-cases (s.lock.waiters == 0)) [
    | inl nobody ↦
        let t = record u { ret = 0; pc = idle } in
        rw nobody (
          settle v s.lock t (omega (arith, ap holds q)) (omega (arith, ap counted q))
            (inl (
              omega (
                arith,
                v.inv.waiters,
                (==_iff s.lock.waiters 0).0 nobody,
                sleepers-counted n s.threads,
                total-update n s.threads sleeps i t v.lt,
                le-total n s.threads sleeps i v.lt,
              )))
            (λ _. refl))
    | inr some_wait ↦ rw some_wait (
        settle v s.lock (goto u wake) (omega (arith, ap holds q)) (omega (arith, ap counted q))
          (calm v (goto u wake) (omega arith) (omega (arith, ap awake q))) (λ _. refl))
  ]

  -- futex_wake wakes nobody only if nobody sleeps.
  wake_none-Inv :
      (t : Thread)
      → u.pc ≡ wake
      → t.pc ≡ idle
      → Wakes n s none
      → Inv c.with_futex n (record { lock = s.lock; threads = update s.threads i t })
  wake_none-Inv t q p nobody =
      settle v s.lock t (omega (arith, ap holds q, ap holds p))
        (omega (arith, ap counted q, ap counted p))
        (inl (
          omega (
            arith,
            total-update n s.threads sleeps i t v.lt,
            le-total n s.threads sleeps i v.lt,
            ap sleeps p,
            sum_over-eq-zero_below (λ t. sleeps t.pc) n s.threads
                (λ j lt_j. no_sleep j lt_j (sleeps-cases (s.threads j).pc)),
          )))
        (λ _. ap in_futex p)
    where
      sleeps-cases : (p : Pc) → (sleeps p ≡ 0) ⊎ (p ≡ sleeping)
      sleeps-cases sleeping = inr refl
      sleeps-cases p = inl (ground arith)

      no_sleep :
          (j : ℕ)
          → j < n
          → (sleeps (s.threads j).pc ≡ 0) ⊎ ((s.threads j).pc ≡ sleeping)
          → sleeps (s.threads j).pc ≡ 0
      no_sleep j lt_j (inl z) = z
      no_sleep j lt_j (inr z) = absurd (nobody j lt_j z)

  module _ (t : Thread) (j : ℕ) (q : u.pc ≡ wake) (p : t.pc ≡ idle) (lt_j : j < n)
      (asleep : (s.threads j).pc ≡ sleeping) where
    abbrev after : ℕ → Thread
    after = update s.threads i t

    abbrev roused : ℕ → Thread
    roused = update after j (goto (after j) sub_waiter)

    still : (after j).pc ≡ sleeping
    still = elim (Bool-cases (i == j)) [
      | inl same ↦ absurd (clash (sym (ap (λ k. (s.threads k).pc) ((==_iff i j).0 same)) ∙ q))
      | inr other ↦ rw other asleep
    ]
      where
        clash : (s.threads j).pc ≡ wake → ⊥
        clash z = sleeping-ne (sym asleep ∙ z)
          where
            sleeping-ne : sleeping ≡ wake → ⊥
            sleeping-ne z = ground arith

    -- A weight that the woken thread keeps.
    kept :
        (w : Pc → ℕ)
        → total w n roused + w u.pc + w sleeping ≡ total w n s.threads + w t.pc + w sub_waiter
    kept w = omega (
      arith,
      total-update n s.threads w i t v.lt,
      total-update n after w j (goto (after j) sub_waiter) lt_j,
      ap w still,
    )

    wake_some-Inv : Inv c.with_futex n (record { lock = s.lock; threads = roused })
    wake_some-Inv = record {
      held = omega (arith, v.inv.held, kept holds, ap holds q, ap holds p);
      waiters = omega (arith, v.inv.waiters, kept counted, ap counted q, ap counted p);
      woken = inr (omega (arith, le-total n roused awake j lt_j, ap awake here));
      spins = λ z. omega (arith, v.inv.spins z, kept in_futex, ap in_futex q, ap in_futex p);
    }
      where
        same : (k : ℕ) → (k == k) ≡ true
        same k = ground arith

        here : (roused j).pc ≡ sub_waiter
        here = rw (same j) refl

  pub wake-Inv :
      (w : Option ℕ)
      → u.pc ≡ wake
      → Wakes n s w
      → (t : Thread) → t.pc ≡ idle
      → Inv c.with_futex n (record { lock = s.lock; threads = rouse wake w (update s.threads i t) })
  unfolding rouse
  wake-Inv none q h t p = wake_none-Inv t q p h
  wake-Inv (some j) q (lt_j, asleep) t p = wake_some-Inv t j q p lt_j asleep
