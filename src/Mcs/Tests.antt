-- ===== src/Mcs/Tests.antt =====
-- Runs of the MCS lock with two threads, whose nodes are at 16 and 32.
use autolock.Base.{
  ℕ, zero, suc, ◌≡◌, refl, Bool, true, false, none, some, ◌==◌, if◌then◌else◌, update,
}
use autolock.Kernel.{KernelAutolock, i_success}
use autolock.Mcs.{
  McsLock, Thread, Env, idle, critical, wake, wait, futex, sleeping, dispatch, entered, init,
  destroy,
}
use autolock.Mcs.Waiting.{System, step, Reach, start, later, lock_waits_for_nobody}

abbrev page : KernelAutolock
page = record { watch_mem = none; watch_for = 0; watch_neq = 0 }

abbrev env : Bool → ℕ → Env
env t p = record {
  tries = t;
  arg = p;
  spurious = false;
  woken = false;
  sys = record { fd = 3; map = 4096; page = page };
}

abbrev empty : McsLock
empty = record { tail = none; nodes = λ p. record { mem = 7; next = some 7 } }

abbrev first : McsLock × (ℕ → Thread)
first = (empty, λ i. record { pc = idle; kernel = none; node = 0; tail = 0; next = 0 })

-- `n` steps of the thread `i`, the first of which may be a call.
go : Bool → Bool → ℕ → ℕ → McsLock × (ℕ → Thread) → McsLock × (ℕ → Thread)
go a tries zero i s = s
go a tries (suc n) i (l, ts) =
    let (l', t) = dispatch a (env tries (if i == 0 then 16 else 32)) (ts i).pc l (ts i) in
    go a tries n i (l', update ts i t)

-- Thread 0 has the lock after four steps, and leaves it in two.
taken_values :
    ((go true false 4 0 first).0.tail ≡ some 16) × (((go true false 4 0 first).1 0).pc ≡ critical)
unfolding go dispatch
taken_values = (refl, refl)

left_values :
    ((go true false 6 0 first).0.tail ≡ none) × (((go true false 6 0 first).1 0).pc ≡ idle)
unfolding go dispatch
left_values = (refl, refl)

-- `trylock` takes a free lock, and leaves one that is taken alone.
tried_values :
    (((go true true 4 0 first).1 0).pc ≡ critical)
    × (((go true true 1 1 (go true true 4 0 first)).1 1).pc ≡ idle)
unfolding go dispatch
tried_values = (refl, refl)

-- Thread 1 comes while thread 0 has the lock, and has it too: its word is 0, and the loop ends on a
-- word that is not 1.
both : McsLock × (ℕ → Thread)
both = go true false 11 1 (go true false 4 0 first)

both_values :
    ((both.1 0).pc ≡ critical)
    × ((both.1 1).pc ≡ critical)
    × ((both.1 1).kernel ≡ some page)
    × ((both.0.nodes 16).next ≡ some 32)
unfolding both go dispatch
both_values = (refl, refl, refl, refl)

-- `unlock` of thread 0 goes on to wake through a `next` that it has not set, and changes no node.
unlocking_values :
    (((go true false 1 0 both).1 0).pc ≡ wake)
    × (((go true false 1 0 both).1 0).next ≡ 0)
    × (((go true false 2 0 both).0.nodes 32).mem ≡ 0)
unfolding both go dispatch
unlocking_values = (refl, refl, refl)

init_values :
    ((init true (env false 0).sys none empty).2 ≡ i_success) × ((destroy empty).1 ≡ i_success)
unfolding init
init_values = (refl, refl)

record Run : Type 0 where
  last : System
  reach : Reach true last

abbrev move : ℕ → Run → Run
move i r =
    let e = env false (if i == 0 then 16 else 32) in
    record { last = step true e r.last i; reach = later i e r.reach }

abbrev moves : ℕ → ℕ → Run → Run
moves zero i r = r
moves (suc n) i r = moves n i (move i r)

-- Thread 0 has the lock, and thread 1 is in the loop.
abbrev behind : Run
behind = moves 9 1 (
    moves 4 0
      (record { last = record { lock = first.0; threads = first.1 }; reach = start (λ i. refl) }))

behind_values : ((behind.last.threads 0).pc ≡ critical) × ((behind.last.threads 1).pc ≡ wait)
unfolding step dispatch
behind_values = (refl, refl)

lock_waits_for_nobody_example :
    ((behind.last.threads 1).pc ≡ futex → ⊥)
    × ((behind.last.threads 1).pc ≡ sleeping → ⊥)
    × ((behind.last.threads 1).pc ≡ wait
        → ((step true (env false 32) behind.last 1).threads 1).pc ≡ entered true)
lock_waits_for_nobody_example = lock_waits_for_nobody (env false 32) 1 behind.reach
