-- ===== src/Cptltkt/Tests.antt =====
-- Runs of the lock of Cptltkt.antt on two sockets.
use autolock.Base.{◌⊎◌, ℕ, zero, suc, ◌+◌, ◌%◌, ◌≡◌, ◌<◌, arith, refl, true, false, none, some}
use autolock.Kernel.{KernelAutolock, i_success}
use autolock.Cptltkt.System.{System, note, Start, Reach, start, later}
use autolock.Cptltkt.Invariant.{phase_at, granted}
use autolock.Cptltkt.Safety.{has_it, cptltkt_safe}
use autolock.Cptltkt.{
  CptltktLock, Layout, Thread, Env, idle, critical, dispatch, cleared, init, trylock,
}

abbrev page : KernelAutolock
page = record { watch_mem = none; watch_for = 0; watch_neq = 0 }

abbrev two : Layout
two = record { num_numa_nodes = 2; grant_addr = λ i. 64 + i; grants_addr = λ i. 96 + i }

abbrev env : ℕ → Env
env i = record { socket = i % 2; sys = record { fd = 3; map = 4096; page = page } }

-- `n` steps of a thread on the socket `i`.
go : ℕ → ℕ → CptltktLock → Thread → CptltktLock × Thread
go zero i l t = (l, t)
go (suc n) i l t = let r = dispatch true two (env i) t.pc l t in go n i r.0 r.1

abbrev fresh : Thread
fresh = record { pc = idle; kernel = none; local_lock = 0; req_num = 0; next_grant = 0 }

-- A thread on socket 0 has the free lock after 14 steps.
taken_values :
    let (l, t) = go 14 0 cleared fresh in
    (t.pc ≡ critical)
    × (t.kernel ≡ some (record page { watch_for = 0 }))
    × (l.cur_psl ≡ some 0)
    × ((l.per_socket_lock 0).requests ≡ 1)
    × (l.inter_socket_lock.request ≡ 1)
unfolding go dispatch
taken_values = (refl, refl, refl, refl, refl)

-- `unlock` with somebody waiting at socket 0: with the batch at 1 the socket keeps the lock, with the
-- batch at 0 the next number of the lock between the sockets has its turn.
abbrev held : ℕ → CptltktLock
held n = record cleared {
  per_socket_lock =
      λ i. record { grant = 0; requests = 2; socket_grant = 0; batch_count = n; owner_req_num = 0 };
  cur_psl = some 0;
}

kept_values :
    let (l, t) = go 4 0 (held 1) (record fresh { pc = critical }) in
    (t.pc ≡ idle)
    × (l.per_socket_lock 0
        ≡ record { grant = 1; requests = 2; socket_grant = 1; batch_count = 0; owner_req_num = 0 })
    × (l.inter_socket_lock.grants 1 ≡ 0)
unfolding go dispatch
kept_values = (refl, refl, refl)

released_values :
    let (l, t) = go 4 0 (held 0) (record fresh { pc = critical }) in
    (t.pc ≡ idle)
    × (l.per_socket_lock 0 ≡ record {
      grant = 1;
      requests = 2;
      socket_grant = 0;
      batch_count = 100;
      owner_req_num = 0;
    })
    × (l.inter_socket_lock.grants 1 ≡ 1)
unfolding go dispatch
released_values = (refl, refl, refl)

init_values : ((init false (env 0).sys none (held 3)).2 ≡ i_success) × (trylock (held 3) ≡ none)
unfolding init
init_values = (refl, refl)

first : System
first = record {
  lock = cleared;
  threads = λ i. fresh;
  history = record {
    granted = λ k. 0;
    asked = λ k. 0;
    turn = λ i. 0;
    queued = λ k. false;
    number = λ k. 0;
    served = 0;
    issued = 0;
  };
}

first-Start : Start first
unfolding first
first-Start = record {
  lock = refl;
  pc = λ i. refl;
  granted = λ k. refl;
  asked = λ k. refl;
  queued = λ k. refl;
  served = refl;
  issued = refl;
}

record Run : Type 0 where
  last : System
  reach : Reach true two 2 last

-- Steps of the thread `i`.
run : ℕ → (i : ℕ) → i < 2 → Run → Run
run zero i lt r = r
run (suc n) i lt r =
    run n i lt (record { last = _; reach = later i (env 0) lt (omega arith) r.reach })

abbrev taken : Run
taken = run 14 0 (omega arith) (record { last = first; reach = start first-Start })

has_it_values : has_it (phase_at taken.last 0) ≡ true
unfolding run first dispatch note
has_it_values = refl

-- Thread 0 has the lock.
cptltkt_safe_example :
    (◌≡◌ {A = ℕ} 0 0)
    × (taken.last.history.turn 0 ≡ taken.last.history.granted (taken.last.threads 0).local_lock)
    × (taken.last.history.number (taken.last.threads 0).local_lock ≡ taken.last.history.served)
    × ((taken.last.lock.cur_psl ≡ some (taken.last.threads 0).local_lock)
        ⊎ (phase_at taken.last 0 ≡ granted))
cptltkt_safe_example =
    cptltkt_safe 0 0 (omega arith) (omega arith) (omega arith) taken.reach has_it_values
      has_it_values
