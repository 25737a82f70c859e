-- ===== src/Bench.antt =====
-- The two benchmark loops of user-dev/src/locks/lock-bench.h, which are also the tests of the
-- locks, and the count that user-dev/src/locks/lock-runner.c expects of them. The lock is abstract:
-- `lock` waits until nobody holds it and takes it in one step.
pub mod Counts
pub mod Total
pub mod Progress
mod Tests
use autolock.Base.{
  ℕ, ◌+◌, ◌-◌, ◌*◌, ◌%◌, ◌^◌, ◌<◌, ◌≡◌, Bool, true, false, ◌==◌, if◌then◌else◌, update,
}

-- BENCH_TOTAL_WORK, BENCH_PER_THREAD_WORK
pub data BenchType : Type 0 where
  total_work per_thread_work : BenchType

-- What the loops read of `run_params_t`; `outer_iter` is the total of BENCH_TOTAL_WORK.
pub record RunParams : Type 0 where
  pub bench_type : BenchType
  pub outer_iter : ℕ
  pub cs_iter : ℕ
  pub extra_iter : ℕ

-- Where a thread stands in its loop: `working` is in front of the load of `++(*state)`, `storing`
-- behind it with what it has read.
pub data Pc : Type 0 where
  locking checking working : Pc
  storing : ℕ → Pc
  unlocking : Pc  -- at the end of a round
  leaving : Pc  -- at the `unlock` in front of the `break`
  finished : Pc

-- A thread: the rounds to do, the loop counter `i`, and `local_state`.
pub record Thread : Type 0 where
  pub pc : Pc
  pub outer : ℕ
  pub i : ℕ
  pub local_state : ℕ

-- The lock and what it guards.
pub record Shared : Type 0 where
  pub held : Bool
  pub global_state : ℕ

abbrev goto : Thread → Pc → Thread
goto t p = record t { pc = p }

-- The extra work, done outside of the lock.
abbrev extra_work : RunParams → Thread → Thread
extra_work p t = record t { local_state = (t.local_state + p.extra_iter) % 2 ^ 32 }

-- The end of a round of I_bench_per_thread_work.
abbrev next_round : RunParams → Thread → Thread
next_round p t = record (extra_work p t) {
  outer = t.outer - 1;
  pc = if t.outer - 1 == 0 then finished else locking;
}

pub dispatch : RunParams → Pc → Shared → Thread → Shared × Thread
dispatch p locking s t = if s.held then (s, t) else (
  record s { held = true },
  elim p.bench_type [
    | total_work ↦ goto t checking
    | per_thread_work ↦ record t { i = p.cs_iter; pc = working }
  ],
)
dispatch p checking s t = (
  s,
  if p.outer_iter == s.global_state
      then goto t leaving
      else record t { i = p.cs_iter; pc = working },
)
dispatch p working s t = (s, goto t (if t.i == 0 then unlocking else storing s.global_state))
dispatch p (storing v) s t =
    (record s { global_state = (v + 1) % 2 ^ 64 }, record t { i = t.i - 1; pc = working })
dispatch p unlocking s t = (
  record s { held = false },
  elim p.bench_type [
    | total_work ↦ goto (extra_work p t) locking
    | per_thread_work ↦ next_round p t
  ],
)
dispatch p leaving s t = (record s { held = false }, goto t finished)
dispatch p finished s t = (s, t)

pub step : RunParams → Shared → Thread → Shared × Thread
unfolding dispatch
step p s t = dispatch p t.pc s t

-- A thread at the start of its loop.
pub begin : RunParams → Thread
begin p = record {
  pc = elim p.bench_type [
    | total_work ↦ locking
    | per_thread_work ↦ if p.outer_iter == 0 then finished else locking
  ];
  outer = p.outer_iter;
  i = 0;
  local_state = 0;
}

-- `n` threads on one lock and one counter, in any order.
pub record System : Type 0 where
  pub shared : Shared
  pub threads : ℕ → Thread

abbrev pub advance : RunParams → System → ℕ → System
advance p s i =
    let (h, t) = step p s.shared (s.threads i) in
    record { shared = h; threads = update s.threads i t }

-- The state after `run_params_reset` and the initialisation of the lock.
abbrev pub reset : RunParams → System
reset p = record { shared = record { held = false; global_state = 0 }; threads = λ _. begin p }

pub data Reach (p : RunParams) (n : ℕ) : System → Type 0 where
  start : Reach p n (reset p)
  later : {s : System} (i : ℕ) → i < n → Reach p n s → Reach p n (advance p s i)

-- `get_expected_count`, on the `uint64_t` of `global_counter_t`
unfoldable pub get_expected_count : ℕ → RunParams → ℕ
get_expected_count num_threads p = elim p.bench_type [
  | total_work ↦ p.outer_iter
  | per_thread_work ↦ num_threads * p.outer_iter % 2 ^ 64 * p.cs_iter % 2 ^ 64
]
