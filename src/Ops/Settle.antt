-- ===== src/Ops/Settle.antt =====
-- A step of one thread of lock_ops that wakes no other keeps the invariant, if what the thread adds
-- to the sums changes as the lock does.
use autolock.Base.{ℕ, ◌+◌, ◌^◌, ◌≤◌, ◌<◌, ◌≡◌, ap, ◌⊎◌, inl, inr, arith, false, update}
use autolock.Ops.{Config, LockBase, Attempt, Pc, Thread, Env, System, failed}
use autolock.Ops.Invariant.{
  holds, counted, in_futex, sleeps, awake, awake_in, is_free, total, Inv, total-update, le-total,
}
use autolock.Ops.Failed.{failed-Failed}

-- The thread i of fewer than 2^32 - 1, before its step.
pub record Turn (c : Config) (n : ℕ) (s : System) (i : ℕ) : Type 0 where
  pub few : n + 1 < 2 ^ 32
  pub lt : i < n
  pub inv : Inv c.with_futex n s

module _ {c : Config} {n : ℕ} {s : System} {i : ℕ} (v : Turn c n s i) where
  abbrev u : Thread
  u = s.threads i

  -- A step that wakes nobody.
  pub settle :
      (l : LockBase) (t : Thread)
      → holds t.pc + is_free l ≡ holds u.pc + is_free s.lock
      → l.waiters + counted u.pc ≡ s.lock.waiters + counted t.pc
      → (total sleeps n (update s.threads i t) ≡ 0) ⊎ (0 < total awake n (update s.threads i t))
      → (c.with_futex ≡ false → in_futex t.pc ≡ 0)
      → Inv c.with_futex n (record { lock = l; threads = update s.threads i t })
  settle l t h w wo sp = record {
    held = omega (arith, v.inv.held, h, total-update n s.threads holds i t v.lt);
    waiters = omega (arith, v.inv.waiters, w, total-update n s.threads counted i t v.lt);
    woken = wo;
    spins = λ z. omega (arith, v.inv.spins z, sp z, total-update n s.threads in_futex i t v.lt);
  }

  pub calm :
      (t : Thread)
      → sleeps t.pc ≤ sleeps u.pc
      → awake u.pc ≤ awake t.pc
      → (total sleeps n (update s.threads i t) ≡ 0) ⊎ (0 < total awake n (update s.threads i t))
  calm t a b = elim v.inv.woken [
    | inl none_sleeps ↦ inl (
        omega (
          arith,
          none_sleeps,
          a,
          total-update n s.threads sleeps i t v.lt,
          le-total n s.threads sleeps i v.lt,
        ))
    | inr some_awake ↦ inr (
        omega (
          arith,
          some_awake,
          b,
          total-update n s.threads awake i t v.lt,
          le-total n s.threads awake i v.lt,
        ))
  ]

  pub try_failed :
      (e : Env) (a : Attempt) (p : Pc) (l : LockBase)
      → u.pc ≡ p
      → holds p ≡ 0
      → counted p ≡ 0
      → sleeps p ≡ 0
      → awake p ≡ awake_in a
      → is_free l ≡ is_free s.lock
      → l.waiters ≡ s.lock.waiters
      → Inv c.with_futex n (record { lock = l; threads = update s.threads i (failed c e a u) })
  try_failed e a p l q h w sl aw fr same =
      let f = failed-Failed c e a u in
      settle l (failed c e a u) (omega (arith, f.holds, h, ap holds q, fr))
        (omega (arith, f.counted, w, ap counted q, same))
        (calm (failed c e a u) (omega (arith, f.sleeps)) (omega (arith, f.awake, aw, ap awake q)))
        f.spins
