-- ===== src/Ops/Locking.antt =====
-- The steps of lock_ops::try_lock and lock_ops::lock keep the invariant.
use autolock.Base.{
  ℕ, ◌≤◌, ◌≡◌, refl, ap, inl, inr, arith, false, not, ◌==◌, one_if, update, Bool-cases,
}
use autolock.Ops.{
  Config, Attempt, single, first, Pc, idle, load, exchange, add_waiter, futex, sleeping, sub_waiter,
  Thread, Env, System, goto, locked, dispatch,
}
use autolock.Ops.Invariant.{
  holds, counted, in_futex, sleeps, awake, awake_in, Inv, holders-awake, total-counted-le,
  total-update, le-total,
}
use autolock.Ops.Settle.{Turn, settle, calm, try_failed}

module _ {c : Config} {n : ℕ} {s : System} {i : ℕ} (v : Turn c n s i) (e : Env) where
  abbrev u : Thread
  u = s.threads i

  abbrev at : Pc → System
  at p = let (l, t) = dispatch c e p s.lock u in record { lock = l; threads = update s.threads i t }

  pub idle-Inv : u.pc ≡ idle → Inv c.with_futex n (at idle)
  unfolding dispatch
  idle-Inv q =
      settle v s.lock _ (omega (arith, ap holds q)) (omega (arith, ap counted q))
        (calm v _ (omega arith) (omega (arith, ap awake q))) (λ _. refl)

  pub load-Inv : (a : Attempt) → u.pc ≡ load a → Inv c.with_futex n (at (load a))
  unfolding dispatch
  load-Inv a q = elim (Bool-cases (s.lock.mem == locked)) [
    | inl taken ↦ rw taken (try_failed v e a (load a) s.lock q refl refl refl refl refl refl)
    | inr free ↦ rw free (
        settle v s.lock (goto u (exchange a)) (omega (arith, ap holds q))
          (omega (arith, ap counted q))
          (calm v (goto u (exchange a)) (omega arith) (omega (arith, ap awake q))) (λ _. refl))
  ]

  pub exchange-Inv : (a : Attempt) → u.pc ≡ exchange a → Inv c.with_futex n (at (exchange a))
  unfolding dispatch
  exchange-Inv a q = elim (Bool-cases (s.lock.mem == locked)) [
    | inl taken ↦ rw taken (
        try_failed v e a (exchange a) (record s.lock { mem = locked }) q refl refl refl refl
          (rw taken refl) refl)
    | inr free ↦ rw free (
        settle v (record s.lock { mem = locked }) _
          (omega (arith, ap holds q, ap (λ b. one_if (not b)) free)) (omega (arith, ap counted q))
          (calm v _ (omega arith) (omega (arith, ap awake q, awake_in-le a))) (λ _. refl))
  ]
    where
      awake_in-le : (a : Attempt) → awake_in a ≤ 1
      awake_in-le single = omega arith
      awake_in-le a = omega arith

  pub add-Inv : u.pc ≡ add_waiter → Inv c.with_futex n (at add_waiter)
  unfolding dispatch
  add-Inv q =
      settle v _ (goto u futex) (omega (arith, ap holds q))
        (omega (arith, ap counted q, v.inv.waiters, v.few, total-counted-le n s.threads))
        (calm v (goto u futex) (omega arith) (omega (arith, ap awake q)))
        (λ z.
          absurd
            (omega (arith, v.inv.spins z, ap in_futex q, le-total n s.threads in_futex i v.lt)))

  pub futex-Inv : u.pc ≡ futex → Inv c.with_futex n (at futex)
  unfolding dispatch
  futex-Inv q = elim (Bool-cases (s.lock.mem == locked)) [
    | inl taken ↦ rw taken (
        settle v s.lock (goto u sleeping) (omega (arith, ap holds q)) (omega (arith, ap counted q))
          (inr (
            omega (
              arith,
              v.inv.held,
              ap (λ b. one_if (not b)) taken,
              holders-awake n (update s.threads i (goto u sleeping)),
              total-update n s.threads holds i (goto u sleeping) v.lt,
              ap holds q,
            )))
          (waiting q sleeping refl))
    | inr free ↦ rw free (
        settle v s.lock (goto u sub_waiter) (omega (arith, ap holds q))
          (omega (arith, ap counted q))
          (calm v (goto u sub_waiter) (omega arith) (omega (arith, ap awake q)))
          (waiting q sub_waiter refl))
  ]
    where
      waiting : u.pc ≡ futex → (p : Pc) → in_futex p ≡ 1 → c.with_futex ≡ false → in_futex p ≡ 0
      waiting q p w z =
          absurd (omega (arith, v.inv.spins z, ap in_futex q, le-total n s.threads in_futex i v.lt))

  pub sleeping-Inv : u.pc ≡ sleeping → Inv c.with_futex n (at sleeping)
  unfolding dispatch
  sleeping-Inv q = elim (Bool-cases e.interrupted) [
    | inl up ↦ rw up (
        settle v s.lock (goto u sub_waiter) (omega (arith, ap holds q))
          (omega (arith, ap counted q))
          (calm v (goto u sub_waiter) (omega arith) (omega (arith, ap awake q)))
          (waiting q sub_waiter))
    | inr down ↦ rw down (
        settle v s.lock (goto u sleeping) (omega (arith, ap holds q)) (omega (arith, ap counted q))
          (calm v (goto u sleeping) (omega (arith, ap sleeps q)) (omega (arith, ap awake q)))
          (waiting q sleeping))
  ]
    where
      waiting : u.pc ≡ sleeping → (p : Pc) → c.with_futex ≡ false → in_futex p ≡ 0
      waiting q p z =
          absurd (omega (arith, v.inv.spins z, ap in_futex q, le-total n s.threads in_futex i v.lt))

  pub sub-Inv : u.pc ≡ sub_waiter → Inv c.with_futex n (at sub_waiter)
  unfolding dispatch
  sub-Inv q =
      settle v _ (goto u (load first)) (omega (arith, ap holds q))
        (omega (
          arith,
          ap counted q,
          v.inv.waiters,
          v.few,
          total-counted-le n s.threads,
          le-total n s.threads counted i v.lt,
        ))
        (calm v (goto u (load first)) (omega arith) (omega (arith, ap awake q))) (λ _. refl)
