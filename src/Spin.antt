-- ===== src/Spin.antt =====
-- The configurable user lock of user-dev/src/autolock-impls/locks/internal/lock-base.h: one atomic
-- access to the lock, or one update of the kernel page, is one step of a thread.
pub mod Invariant
pub mod Safety
pub mod Comparisons
pub mod Custom
mod Tests
use autolock.Base.{
  ℕ, ◌+◌, ◌-◌, ◌%◌, ◌^◌, ◌<◌, ◌≡◌, Bool, ◌||◌, Option, none, some, ◌==◌, ltb, if◌then◌else◌, update,
}
use autolock.Kernel.{
  KernelAutolock, Syscalls, autolock_init_kernel_state, autolock_release_kernel_state,
  set_watch_mem, set_watch_for, set_watch_neq, sched, i_success, i_failure,
}

-- I_WITH_AUTOLOCK, I_WITH_YIELD, I_WITH_BACKOFF, I_WITH_FUTEX, I_USE_FOR_SHARED_LIBRARY_INTERPOSE
pub record Config : Type 0 where
  pub with_autolock : Bool
  pub with_yield : Bool
  pub with_backoff : Bool
  pub with_futex : Bool
  pub interpose : Bool

abbrev pub unlocked : Config → ℕ
unlocked c = if c.interpose then 0 else 1

abbrev pub locked : Config → ℕ
locked c = if c.interpose then 1 else 0

-- `I_user_lock_base_t`, with the address of `mem`
pub record UserLock : Type 0 where
  pub addr : ℕ
  pub mem : ℕ
  pub waiters : ℕ

abbrev pub pause_iters : ℕ
pause_iters = 128

abbrev pub yield_iters : ℕ
yield_iters = 4

-- The two loops of `lock` that try again: the first pauses, the second yields.
pub data Stage : Type 0 where
  spinning yielding : Stage

-- Where a thread stands. `try_*` is inside `trylock`, called for itself (`false`) or by `lock`
-- (`true`); `sched_*` is inside `trylock_maybe_sched`.
pub data Pc : Type 0 where
  idle : Pc
  try_load : Bool → Pc
  try_xchg : Bool → Pc
  failed : Pc  -- `lock`, after the first `trylock` has failed
  sched_load : Stage → Pc
  sched_disarm : Stage → Pc
  sched_xchg : Stage → Pc
  sched_arm : Stage → Pc
  sched_failed : Stage → Pc  -- behind the call of `trylock_maybe_sched` in the loop
  yield_call : Pc
  add_waiter : Pc
  futex_waiting : Pc
  sub_waiter : Pc
  critical : Pc  -- between the return of an acquisition and the store of `unlock`
  unlock_load : Pc
  unlock_wake : Pc
  fault : Pc  -- a write through a NULL `k_autolock_mem`

-- A thread, with the locals of `lock`; `tries` is `-iter_count`, `ret` what the last call returned.
pub record Thread : Type 0 where
  pub pc : Pc
  pub kernel : Option KernelAutolock
  pub backoff : ℕ
  pub tries : ℕ
  pub ret : ℕ

-- What comes from outside at a step: the call that an idle thread makes, the time stamp, the
-- results of the system calls.
pub record Env : Type 0 where
  pub blocking : Bool
  pub time : ℕ
  pub sys : Syscalls
  pub woken : ℕ

abbrev pub goto : Thread → Pc → Thread
goto t p = record t { pc = p }

abbrev pub return : Thread → ℕ → Pc → Thread
return t r p = record t { ret = r; pc = p }

abbrev pub arm : Config → Option ℕ → Thread → Thread
arm c p t =
    if c.with_autolock
    then record t { kernel = elim t.kernel [ none ↦ none | some k ↦ some (set_watch_mem p k) ] }
    else t

abbrev pub next_backoff : ℕ → ℕ
next_backoff b = (b + (b + 1)) % 256

-- `init`; the second part is the return value.
unfoldable pub init :
    Config → Syscalls → Option KernelAutolock → UserLock → UserLock × Option KernelAutolock × ℕ
unfolding autolock_init_kernel_state
init c sys k l =
    let l' = record l { mem = unlocked c; waiters = if c.with_futex then 0 else l.waiters } in
    if c.with_autolock
    then elim (autolock_init_kernel_state sys k) [
      | none ↦ (l', none, i_failure)
      | some k' ↦ (l', some k', i_success)
    ]
    else (l', k, i_success)

-- `destroy`, which changes nothing.
abbrev pub destroy : Config → ℕ
destroy c = if c.with_autolock then autolock_release_kernel_state else i_success

-- The set-up of `lock` behind its failed `trylock`.
pub set_up : Config → Env → Thread → Thread
set_up c e t = record t {
  pc = sched_load spinning;
  backoff = if c.with_backoff then e.time % 32 else t.backoff;
  tries = if c.with_yield || c.with_futex then 0 else t.tries;
}

abbrev pub watch_unlocked : Config → KernelAutolock → KernelAutolock
watch_unlocked c k = set_watch_neq 0 (set_watch_for (unlocked c) k)

pub prepare : Config → Env → Thread → Thread
unfolding set_up autolock_init_kernel_state
prepare c e t =
    if c.with_autolock
    then elim (autolock_init_kernel_state e.sys t.kernel) [
      | none ↦ goto t fault
      | some k ↦ set_up c e (record t { kernel = some (watch_unlocked c k) })
    ]
    else set_up c e t

-- The pauses of one round have no effect that the model sees; the rest of the round counts it.
pub after_spin : Config → Thread → Thread
after_spin c t =
    let t' = record t { backoff = if c.with_backoff then next_backoff t.backoff else t.backoff } in
    if c.with_yield || c.with_futex
    then if ltb pause_iters (t.tries + 1)
      then if c.with_yield
        then record t' { tries = if c.with_futex then 0 else t.tries + 1; pc = yield_call }
        else record t' { tries = t.tries + 1; pc = add_waiter }
      else record t' { tries = t.tries + 1; pc = sched_load spinning }
    else goto t' (sched_load spinning)

pub after_yield : Config → Thread → Thread
after_yield c t =
    if c.with_futex
    then record t {
      tries = t.tries + 1;
      pc = if ltb yield_iters (t.tries + 1) then add_waiter else yield_call;
    }
    else goto t yield_call

-- A `trylock` that fails returns I_FAILURE, to its caller or to `lock`.
abbrev pub try_failed : Bool → Thread → Thread
try_failed blocking t = return t i_failure (if blocking then failed else idle)

pub dispatch : Config → Env → Pc → UserLock → Thread → UserLock × Thread
unfolding prepare after_spin after_yield
dispatch c e idle l t = (l, goto t (try_load e.blocking))
dispatch c e (try_load b) l t =
    (l, if l.mem == locked c then try_failed b t else goto t (try_xchg b))
dispatch c e (try_xchg b) l t = (
  record l { mem = locked c },
  if l.mem == locked c then try_failed b t else return t i_success critical,
)
dispatch c e failed l t = (l, prepare c e t)
dispatch c e (sched_load s) l t =
    (l, goto t (if l.mem == locked c then sched_arm s else sched_disarm s))
dispatch c e (sched_disarm s) l t = (l, goto (arm c none t) (sched_xchg s))
dispatch c e (sched_xchg s) l t = (
  record l { mem = locked c },
  if l.mem == locked c then goto t (sched_arm s) else return t i_success critical,
)
dispatch c e (sched_arm s) l t = (l, goto (arm c (some l.addr) t) (sched_failed s))
dispatch c e (sched_failed spinning) l t = (l, after_spin c t)
dispatch c e (sched_failed yielding) l t = (l, after_yield c t)
dispatch c e yield_call l t = (l, goto t (sched_load yielding))
dispatch c e add_waiter l t =
    (record l { waiters = (l.waiters + 1) % 2 ^ 32 }, goto t futex_waiting)
dispatch c e futex_waiting l t = (l, goto t sub_waiter)
dispatch c e sub_waiter l t = (
  record l { waiters = (l.waiters + 2 ^ 32 - 1) % 2 ^ 32 },
  record t { tries = 0; pc = sched_load spinning },
)
dispatch c e critical l t = (
  record l { mem = unlocked c },
  if c.with_futex then goto t unlock_load else return t i_success idle,
)
dispatch c e unlock_load l t =
    (l, if l.waiters == 0 then return t i_success idle else goto t unlock_wake)
dispatch c e unlock_wake l t = (l, return t (if e.woken == 0 then i_success else i_failure) idle)
dispatch c e fault l t = (l, goto t fault)

pub step : Config → Env → UserLock → Thread → UserLock × Thread
unfolding dispatch
step c e l t = dispatch c e t.pc l t

-- `n` threads on one lock, in any order. The kernel hands out blank pages, and disarms a thread
-- that it schedules.
pub record System : Type 0 where
  pub lock : UserLock
  pub threads : ℕ → Thread

abbrev pub advance : Config → Env → System → ℕ → System
advance c e s i =
    let (l, t) = step c e s.lock (s.threads i) in
    record { lock = l; threads = update s.threads i t }

abbrev pub schedule : System → ℕ → System
schedule s i = record s {
  threads = update s.threads i (record (s.threads i) { kernel = sched (s.threads i).kernel });
}

pub data Step (c : Config) (n : ℕ) (s : System) : System → Type 0 where
  act : (i : ℕ) (e : Env) → i < n → e.sys.page.watch_mem ≡ none → Step c n s (advance c e s i)
  resched : (i : ℕ) → i < n → Step c n s (schedule s i)

-- Every thread starts with no kernel page, or with one that is not armed.
pub record Start (c : Config) (s : System) : Type 0 where
  pub mem : s.lock.mem ≡ unlocked c
  pub waiters : s.lock.waiters ≡ 0
  pub pc : (i : ℕ) → (s.threads i).pc ≡ idle
  pub kernel : (i : ℕ) → sched (s.threads i).kernel ≡ (s.threads i).kernel

pub data Reach (c : Config) (n : ℕ) : System → Type 0 where
  start : {s : System} → Start c s → Reach c n s
  later : {s t : System} → Reach c n s → Step c n s t → Reach c n t
