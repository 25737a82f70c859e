-- ===== src/Clh/Tests.antt =====
-- Runs of the CLH lock with two threads, and the theorem at their states.
use autolock.Base.{
  ◌⊎◌, false, ℕ, zero, suc, ◌≡◌, ◌≢◌, refl, Bool, true, none, some, ◌==◌, if◌then◌else◌,
}
use autolock.Kernel.{KernelAutolock}
use autolock.Clh.{
  idle, critical, pause_next, wild, Env, System, dispatch, note, Start, Reach, start, later,
}
use autolock.Clh.Invariant.{phase_at}
use autolock.Clh.Safety.{has_it, clh_safe}

abbrev page : KernelAutolock
page = record { watch_mem = none; watch_for = 0; watch_neq = 0 }

-- The first node is at 64.
abbrev first : System
first = record {
  lock = record { tail = 64; head = none; heap = λ p. if p == 64 then some 1 else none };
  threads = λ i. record { pc = idle; kernel = none; node = 0; prev = 0; target = 0 };
  history = record { order = λ k. 64; issued = 0; served = 0; freed = 0; turn = λ i. 0 };
}

first-Start : Start first
first-Start = record {
  free = refl;
  pc = λ i. refl;
  first = refl;
  issued = refl;
  served = refl;
  freed = refl;
}

-- aligned_alloc gives `p`.
abbrev gives : ℕ → Env
gives p = record { alloc = some p; sys = record { fd = 3; map = 4096; page = page } }

record Run (a : Bool) : Type 0 where
  last : System
  reach : Reach a last

begin : {a : Bool} → Run a
begin = record { last = first; reach = start first-Start }

-- A step of a thread that allocates nothing, and a call of `lock` with a node at `p`.
abbrev quiet : Env
quiet = record { alloc = none; sys = record { fd = 3; map = 4096; page = page } }

go : {a : Bool} → ℕ → ℕ → Run a → Run a
go zero i r = r
go (suc k) i r = go k i (record { last = _; reach = later i quiet tt r.reach })

-- Thread 0 takes the free lock.
abbrev taken : Run true
taken = go 4 0 (record { last = _; reach = later 0 (gives 128) refl (start first-Start) })

taken_values :
    ((taken.last.threads 0).pc ≡ critical)
    × (taken.last.lock.heap 64 ≡ none)
    × (taken.last.lock.head ≡ some 128)
unfolding go dispatch note
taken_values = (refl, refl, refl)

-- Thread 1 is given the freed node at 64, and waits for the one at 128 with its page armed. When
-- thread 0 has unlocked, it has the lock.
abbrev passed : Run true
passed =
    go 4 1
      (go 2 0 (go 7 1 (record { last = _; reach = later 1 (gives 64) taken_values.1 taken.reach })))

waiting_values :
    let s =
      (go 7 1 (record { last = _; reach = later 1 (gives 64) taken_values.1 taken.reach })).last in
    ((s.threads 1).pc ≡ pause_next)
    × ((s.threads 1).kernel ≡ some (record page { watch_mem = some 128; watch_for = 1 }))
unfolding go dispatch note
waiting_values = (refl, refl)

passed_values :
    ((passed.last.threads 0).pc ≡ idle)
    × ((passed.last.threads 1).pc ≡ critical)
    × ((passed.last.threads 1).kernel ≡ some (record page { watch_for = 1 }))
    × (passed.last.lock.heap 128 ≡ none)
    × (passed.last.lock.head ≡ some 64)
unfolding go dispatch note
passed_values = (refl, refl, refl, refl, refl)

has_it_values : has_it (phase_at passed.last 1) ≡ true
unfolding go dispatch note
has_it_values = refl

clh_safe_example :
    ((passed.last.threads 0).pc ≢ wild)
    × ((has_it (phase_at passed.last 1) ≡ false)
        ⊎ (has_it (phase_at passed.last 1) ≡ false)
        ⊎ ((◌≡◌ {A = ℕ} 1 1) × (passed.last.history.turn 1 ≡ suc passed.last.history.served)))
clh_safe_example = clh_safe 1 1 0 passed.reach
