-- ===== src/Spin/Custom/Tests.antt =====
-- Runs of the custom locks on two threads, and the theorems at concrete states.
use autolock.Base.{
  ◌≤◌, ◌≢◌, ◌⊎◌, ℕ, ◌<◌, ◌≡◌, refl, Option, none, some, arith, true, false, dec_lt, ◌==◌,
  if◌then◌else◌, List, [], ◌∷◌,
}
use autolock.Kernel.{
  KernelAutolock, Syscalls, dont_sched, check_mem, sched, autolock_init_kernel_state,
}
use autolock.Spin
use autolock.Spin.Custom.{
  Variant, UserAutolock, Thread, idle, critical, sched_load, System, act, Start, Reach, start,
  later, step, init,
}
use autolock.Spin.Custom.Refines.{
  config, spin_lock, spin_thread, spin_pair, custom_is_spin, custom_parked_has_runner,
}

abbrev blank : KernelAutolock
blank = record { watch_mem = none; watch_for = 0; watch_neq = 0 }

abbrev env : Spin.Env
env = record {
  blocking = true;
  time = 77;
  sys = record { fd = 3; map = 4096; page = blank };
  woken = 0;
}

-- The custom backoff lock.
abbrev backoff : Variant
backoff = record { backoff = true; interpose = false }

abbrev fresh : Thread
fresh = record { pc = idle; kernel = none; backoff_iter = 0; ret = 0 }

abbrev free_lock : UserAutolock
free_lock = record { addr = 640; mem = 1 }

abbrev fresh_system : System
fresh_system = record { lock = free_lock; threads = λ _. fresh }

first : Start backoff fresh_system
unfolding sched
first = record { mem = refl; pc = λ i. refl; kernel = λ i. refl }

record Run (v : Variant) (n : ℕ) : Type 0 where
  last : System
  reach : Reach v n last

turn : {v : Variant} {n : ℕ} → Run v n → ℕ → Run v n
unfolding dec_lt
turn {v} {n} r i = elim (dec_lt i n) [
  | yes lt ↦ record { last = _; reach = later r.reach (act i env lt refl) }
  | no _ ↦ r
]

run : {v : Variant} {n : ℕ} → Run v n → List ℕ → Run v n
unfolding turn
run r [] = r
run r (i ∷ is) = run (turn r i) is

abbrev begin : Run backoff 2
begin = record { last = fresh_system; reach = start first }

-- Thread 0 has the lock, and thread 1 has armed its page.
abbrev parked : Run backoff 2
parked = run begin (0 ∷ 0 ∷ 0 ∷ 1 ∷ 1 ∷ 1 ∷ 1 ∷ 1 ∷ [])

-- The kernel's read of the word of the lock.
abbrev read : ℕ → Option ℕ
read a = if a == 640 then some 0 else none

custom_is_spin_example :
    (spin_pair (step backoff env free_lock (record fresh { pc = sched_load }))
      ≡ Spin.step
          (config backoff)
          env
          (spin_lock free_lock)
          (spin_thread (record fresh { pc = sched_load })))
    × ((sys : Syscalls) (k : Option KernelAutolock)
        → let (l1, k1, r1) = init backoff sys k free_lock in
          (spin_lock l1, k1, r1) ≡ Spin.init (config backoff) sys k (spin_lock free_lock))
custom_is_spin_example = custom_is_spin backoff env free_lock (record fresh { pc = sched_load })

custom_parked_has_runner_example :
    (j : ℕ) × (j < 2)
    × ((parked.last.threads j).pc ≡ critical)
    × (dont_sched read (parked.last.threads j).kernel ≡ false)
    × ((k : ℕ) → (2 ≤ k) ⊎ ((parked.last.threads k).pc ≢ critical) ⊎ (k ≡ j))
unfolding run step dont_sched check_mem autolock_init_kernel_state
custom_parked_has_runner_example =
    custom_parked_has_runner (omega arith) parked.reach read refl 1 (omega arith) refl
