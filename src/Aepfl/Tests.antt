-- ===== src/Aepfl/Tests.antt =====
-- Runs of the array lock with two threads, and the theorem at their states.
use autolock.Base.{ℕ, zero, suc, ◌+◌, ◌<◌, ◌≡◌, refl, arith, Bool, true, false, none, some}
use autolock.Kernel.{KernelAutolock, i_success}
use autolock.Aepfl.{
  Thread, Env, idle, critical, pause_near, dispatch, note, next, init, destroy, System, Start,
  Reach, start, later,
}
use autolock.Aepfl.Invariant.{phase_at}
use autolock.Aepfl.Safety.{has_it, aepfl_safe, three_steps, trylock_takes_held}

abbrev page : KernelAutolock
page = record { watch_mem = none; watch_for = 0; watch_neq = 0 }

abbrev env : Bool → Env
env tries = record {
  tries = tries;
  spurious = false;
  flags_addr = λ c. 64 + c;
  sys = record { fd = 3; map = 4096; page = page };
}

abbrev fresh : Thread
fresh = record { pc = idle; kernel = none; slot = 0; flag_mem = 0; cur_tail = 0; cur_head = 0 }

abbrev first : System
first = record {
  lock = (init (record { tail = 5; head = 5; flags = λ c. 5 })).0;
  threads = λ i. fresh;
  history = record { turn = λ i. 0; issued = 0; served = 0 };
}

first-Start : Start first
first-Start = record {
  tail = refl;
  head = refl;
  flags = λ c. refl;
  pc = λ i. refl;
  issued = refl;
  served = refl;
}

record Run : Type 0 where
  last : System
  reach : Reach true 2 last

-- Steps of the thread `i`.
run : ℕ → (i : ℕ) → i < 2 → Run → Run
run zero i lt r = r
run (suc n) i lt r = run n i lt (record { last = _; reach = later i (env false) lt refl r.reach })

-- Thread 0 has the lock, and thread 1 waits with its page armed.
abbrev waiting : Run
waiting =
    run 8 1 (omega arith)
      (run 2 0 (omega arith) (record { last = first; reach = start first-Start }))

waiting_values :
    ((waiting.last.threads 0).pc ≡ critical)
    × ((waiting.last.threads 1).pc ≡ pause_near)
    × ((waiting.last.threads 1).kernel ≡ some (record page { watch_mem = some 65; watch_for = 1 }))
unfolding run dispatch note
waiting_values = (refl, refl, refl)

-- When thread 0 has unlocked, thread 1 has it.
abbrev passed : Run
passed = run 2 1 (omega arith) (run 3 0 (omega arith) waiting)

passed_values :
    ((passed.last.threads 0).pc ≡ idle)
    × ((passed.last.threads 1).pc ≡ critical)
    × ((passed.last.threads 1).kernel ≡ some (record page { watch_for = 1 }))
    × (passed.last.lock.flags 0 ≡ 0)
    × (passed.last.lock.flags 1 ≡ 1)
unfolding run dispatch note
passed_values = (refl, refl, refl, refl, refl)

has_it_values : has_it (phase_at passed.last 1) ≡ true
unfolding run dispatch note
has_it_values = refl

-- While thread 0 has the lock, `trylock` of another thread takes it too: it compares the tail with
-- itself.
trylock_takes_held_example :
    let (m, u) = three_steps true (env true) waiting.last.lock fresh in
    (u.pc ≡ critical) × (m ≡ record waiting.last.lock { tail = next waiting.last.lock.tail })
trylock_takes_held_example =
    trylock_takes_held true (env true) waiting.last.lock fresh refl refl refl

destroy_values : ((destroy first.lock).1 ≡ i_success) × ((init first.lock).1 ≡ i_success)
destroy_values = (refl, refl)

aepfl_safe_example : (◌≡◌ {A = ℕ} 1 1) × (passed.last.history.turn 1 ≡ passed.last.history.served)
aepfl_safe_example = aepfl_safe 1 1 (omega arith) passed.reach has_it_values has_it_values
