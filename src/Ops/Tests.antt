-- ===== src/Ops/Tests.antt =====
-- Runs of a lock of lock_ops with two threads, and the theorems at their states.
use autolock.Base.{ℕ, zero, suc, ◌<◌, ◌≡◌, refl, ap, arith, false, none, some}
use autolock.Ops.{
  Config, Env, System, idle, critical, sleeping, sub_waiter, dispatch, failed, rouse, init, destroy,
  success, locked, advance, Wakes, Reach, start, later, futex_spinlock,
}
use autolock.Ops.Invariant.{counted, sleeps, awake, total}
use autolock.Ops.Safety.{ops_mutual_exclusion, sleeper_has_waker}

-- A lock that tries once before it sleeps.
abbrev short : Config
short = record futex_spinlock { max_raw_iter = 1 }

abbrev env : Env
env = record { tries = false; time = 7; interrupted = false; woken = none }

abbrev first : System
first = record {
  lock = (init (record { mem = 5; waiters = 5 })).0;
  threads = λ i. record { pc = idle; iter_count = 0; backoff = 0; ret = 0 };
}

record Run : Type 0 where
  last : System
  reach : Reach short 2 last

begin : Run
begin = record {
  last = first;
  reach = start (record { mem = refl; waiters = refl; pc = λ i. refl });
}

nobody_sleeps :
    (s : System) → sleeps (s.threads 0).pc ≡ 0 → sleeps (s.threads 1).pc ≡ 0 → Wakes 2 s none
nobody_sleeps s a b zero lt z = absurd (omega (arith, a, ap sleeps z))
nobody_sleeps s a b (suc zero) lt z = absurd (omega (arith, b, ap sleeps z))
nobody_sleeps s a b (suc (suc j)) lt z = absurd (omega arith)

-- A step of the thread `i` while nobody sleeps.
move :
    (i : ℕ)
    → i < 2
    → (r : Run) → sleeps (r.last.threads 0).pc ≡ 0
    → sleeps (r.last.threads 1).pc ≡ 0
    → Run
move i lt r a b = record {
  last = advance short env r.last i;
  reach = later i env lt (nobody_sleeps r.last a b) r.reach;
}

taken : Run
unfolding begin move dispatch rouse
taken =
    move 0 (omega arith) (move 0 (omega arith) (move 0 (omega arith) begin refl refl) refl refl)
      refl refl

taken_values : ((taken.last.threads 0).pc ≡ critical) × (taken.last.lock.mem ≡ locked)
unfolding taken begin move dispatch rouse
taken_values = (refl, refl)

asleep : Run
unfolding taken begin move dispatch rouse failed
asleep =
    move 1 (omega arith)
      (move 1 (omega arith)
        (move 1 (omega arith)
          (move 1 (omega arith) (move 1 (omega arith) taken refl refl) refl refl) refl refl)
        refl refl)
      refl refl

asleep_values :
    ((asleep.last.threads 0).pc ≡ critical)
    × ((asleep.last.threads 1).pc ≡ sleeping)
    × (asleep.last.lock.waiters ≡ 1)
unfolding asleep taken begin move dispatch rouse failed
asleep_values = (refl, refl, refl)

ops_mutual_exclusion_example :
    (◌≡◌ {A = ℕ} 0 0)
    × (asleep.last.lock.mem ≡ locked)
    × (asleep.last.lock.waiters ≡ total counted 2 asleep.last.threads)
ops_mutual_exclusion_example =
    ops_mutual_exclusion 0 0 (omega arith) asleep.reach (omega arith) (omega arith) asleep_values.0
      asleep_values.0

sleeper_has_waker_example : (j : ℕ) × (j < 2) × (0 < awake (asleep.last.threads j).pc)
sleeper_has_waker_example =
    sleeper_has_waker 1 (omega arith) asleep.reach (omega arith) asleep_values.1

-- Thread 0 unlocks, and wakes thread 1: `unlock` returns a failure, as the result of futex_wake is
-- the number of threads that it woke.
woken_values :
    let e = record env { woken = some 1 } in
    let s = advance short e (advance short e (advance short e asleep.last 0) 0) 0 in
    ((s.threads 0).pc ≡ idle) × ((s.threads 0).ret ≡ 1) × ((s.threads 1).pc ≡ sub_waiter)
unfolding asleep taken begin move dispatch rouse failed
woken_values = (refl, refl, refl)

destroy_values : (destroy (init first.lock).0).1 ≡ success
destroy_values = refl
