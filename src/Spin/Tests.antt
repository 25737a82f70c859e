-- ===== src/Spin/Tests.antt =====
-- Runs of lock-base.h on small systems, and the theorems at concrete states.
use autolock.Base.{
  ℕ, zero, suc, ◌<◌, ◌≡◌, refl, Option, none, some, arith, true, false, dec_lt, ◌==◌, if◌then◌else◌,
  List, [], ◌∷◌,
}
use autolock.Kernel.{KernelAutolock, dont_sched, sched, autolock_init_kernel_state, i_success}
use autolock.Spin.{
  Config, UserLock, Thread, Env, idle, sched_load, spinning, critical, add_waiter, futex_waiting,
  unlock_load, unlock_wake, System, act, Start, Reach, start, later, step, dispatch, init,
}
use autolock.Spin.Invariant.{waiting}
use autolock.Spin.Safety.{
  mutual_exclusion, holder_runs, parked_has_runner, waiter_woken, alone, spin_bounded,
}

abbrev blank : KernelAutolock
blank = record { watch_mem = none; watch_for = 0; watch_neq = 0 }

abbrev env : Env
env = record {
  blocking = true;
  time = 77;
  sys = record { fd = 3; map = 4096; page = blank };
  woken = 0;
}

-- backoff_yield_futex_autolock and futex_autolock of spin-comparisons.h
abbrev full : Config
full = record {
  with_autolock = true;
  with_yield = true;
  with_backoff = true;
  with_futex = true;
  interpose = false;
}

abbrev futex_only : Config
futex_only = record full { with_yield = false; with_backoff = false }

abbrev free_lock : UserLock
free_lock = record { addr = 640; mem = 1; waiters = 0 }

abbrev fresh : Thread
fresh = record { pc = idle; kernel = none; backoff = 0; tries = 0; ret = 0 }

abbrev fresh_system : System
fresh_system = record { lock = free_lock; threads = λ _. fresh }

first : (c : Config) → c.interpose ≡ false → Start c fresh_system
unfolding sched
first c e = record { mem = rw e; waiters = refl; pc = λ i. refl; kernel = λ i. refl }

record Run (c : Config) (n : ℕ) : Type 0 where
  last : System
  reach : Reach c n last

turn : {c : Config} {n : ℕ} → Run c n → ℕ → Run c n
unfolding dec_lt
turn {c} {n} r i = elim (dec_lt i n) [
  | yes lt ↦ record { last = _; reach = later r.reach (act i env lt refl) }
  | no _ ↦ r
]

run : {c : Config} {n : ℕ} → Run c n → List ℕ → Run c n
unfolding turn
run r [] = r
run r (i ∷ is) = run (turn r i) is

repeat : ℕ → ℕ → List ℕ → List ℕ
repeat zero i is = is
repeat (suc k) i is = i ∷ repeat k i is

abbrev begin : Run full 2
begin = record { last = fresh_system; reach = start (first full refl) }

abbrev begin_futex : Run futex_only 2
begin_futex = record { last = fresh_system; reach = start (first futex_only refl) }

-- Thread 0 has the lock, and thread 1 has armed its page.
abbrev parked : Run full 2
parked = run begin (0 ∷ 0 ∷ 0 ∷ 1 ∷ 1 ∷ 1 ∷ 1 ∷ 1 ∷ [])

-- Thread 1 has gone to the futex, and thread 0 has stored the free word.
abbrev waking : Run futex_only 2
waking = run begin_futex (0 ∷ 0 ∷ 0 ∷ repeat 391 1 (0 ∷ []))

-- The kernel's read of the word of the lock.
abbrev read : ℕ → Option ℕ
read a = if a == 640 then some 0 else none

waking_places :
    ((waking.last.threads 1).pc ≡ futex_waiting)
    × ((waking.last.threads 0).pc ≡ unlock_load)
    × (waking.last.lock.waiters ≡ 1)
unfolding run repeat step dispatch autolock_init_kernel_state
waking_places = (refl, refl, refl)

init_frees :
    init full env.sys none (record free_lock { mem = 9; waiters = 5 })
    ≡ (free_lock, some blank, i_success)
unfolding init
init_frees = refl

mutual_exclusion_example : ◌≡◌ {A = ℕ} 0 0
unfolding run step
mutual_exclusion_example =
    mutual_exclusion (omega arith) parked.reach 0 0 (omega arith) (omega arith) refl refl

holder_runs_example : (◌≡◌ {A = ℕ} 0 0) × (dont_sched read none ≡ false)
unfolding run step
holder_runs_example = holder_runs (omega arith) parked.reach read 0 (omega arith) refl

parked_has_runner_example :
    (j : ℕ) × (j < 2)
    × ((parked.last.threads j).pc ≡ critical)
    × (dont_sched read (parked.last.threads j).kernel ≡ false)
unfolding run step dont_sched
parked_has_runner_example =
    parked_has_runner (omega arith) parked.reach read refl 1 (omega arith) refl

waiter_woken_example :
    (waking.last.lock.waiters ≡ waiting 2 waking.last.threads)
    × ((step futex_only env waking.last.lock (waking.last.threads 0)).1.pc ≡ unlock_wake)
unfolding run repeat step dispatch autolock_init_kernel_state
waiter_woken_example = waiter_woken (omega arith) waking.reach env 0 1 (omega arith) refl refl

spin_bounded_example :
    (alone futex_only env 9
      (record free_lock { mem = 0 }, record fresh { pc = sched_load spinning; tries = 126 })).1.pc
    ≡ add_waiter
spin_bounded_example =
    spin_bounded futex_only env 2 (record free_lock { mem = 0 })
      (record fresh { pc = sched_load spinning; tries = 126 }) refl refl refl refl
