-- ===== src/Ops/Failed.antt =====
-- Where a thread of lock_ops::lock goes on when its try_lock has failed.
use autolock.Base.{◌≡◌, refl, sym, inl, inr, arith, false, Bool-cases}
use autolock.Ops.{
  Config, Attempt, single, first, raw, yielding, Pc, load, Thread, Env, behind_loops,
  start_yielding, reached, counted_if, failed,
}
use autolock.Ops.Invariant.{holds, counted, in_futex, sleeps, awake, awake_in}

-- Where a thread stands after a `try_lock` that has failed.
pub record Failed (c : Config) (a : Attempt) (p : Pc) : Type 0 where
  pub holds : holds p ≡ 0
  pub counted : counted p ≡ 0
  pub sleeps : sleeps p ≡ 0
  pub awake : awake p ≡ awake_in a
  pub spins : c.with_futex ≡ false → in_futex p ≡ 0

at_loops : (c : Config) (a : Attempt) → awake_in a ≡ 1 → Failed c a (behind_loops c)
at_loops c a w = elim (Bool-cases c.with_futex) [
  | inl f ↦ rw f (record {
    holds = refl;
    counted = refl;
    sleeps = refl;
    awake = sym w;
    spins = λ z. absurd (ground (arith, f, z));
  })
  | inr f ↦
      rw f
        (record { holds = refl; counted = refl; sleeps = refl; awake = sym w; spins = λ _. refl })
]

at_load : (c : Config) (a b : Attempt) → awake_in a ≡ awake_in b → Failed c a (load b)
at_load c a b w = record {
  holds = refl;
  counted = refl;
  sleeps = refl;
  awake = sym w;
  spins = λ _. refl;
}

pub failed-Failed :
    (c : Config) (e : Env) (a : Attempt) (t : Thread) → Failed c a (failed c e a t).pc
unfolding failed
failed-Failed c e single t = record {
  holds = refl;
  counted = refl;
  sleeps = refl;
  awake = refl;
  spins = λ _. refl;
}
failed-Failed c e first t = at_load c first raw refl
failed-Failed c e raw t = elim (Bool-cases (reached c.max_raw_iter t)) [
  | inl over ↦ rw over (at_yielding (counted_if c.max_raw_iter t))
  | inr more ↦ rw more (at_load c raw raw refl)
]
  where
    at_yielding : (u : Thread) → Failed c raw (start_yielding c u).pc
    at_yielding u = elim (Bool-cases c.with_yield) [
      | inl y ↦ simp y (at_load c raw yielding refl)
      | inr y ↦ simp y (at_loops c raw refl)
    ]
failed-Failed c e yielding t = elim (Bool-cases (reached c.max_yield_iter t)) [
  | inl over ↦ rw over (at_loops c yielding refl)
  | inr more ↦ rw more (at_load c yielding yielding refl)
]
