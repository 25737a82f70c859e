-- ===== src/Spin/Custom.antt =====
-- The two hand-written locks of user-dev/src/autolock-impls/locks, custom-spin-autolock.h and
-- custom-backoff-autolock.h, on the operations of internal/autolock-common-user-api.h. As for
-- lock-base.h, one atomic access or one update of the kernel page is one step of a thread.
pub mod Refines
mod Tests
use autolock.Base.{ℕ, ◌+◌, ◌%◌, ◌<◌, ◌≡◌, Bool, Option, none, some, ◌==◌, if◌then◌else◌, update}
use autolock.Kernel.{
  KernelAutolock, Syscalls, autolock_init_kernel_state, autolock_release_kernel_state,
  set_watch_mem, set_watch_for, set_watch_neq, sched, i_success, i_failure,
}
use autolock.Spin.{Env}

-- Which of the two locks, and whether I_USE_FOR_SHARED_LIBRARY_INTERPOSE is defined.
pub record Variant : Type 0 where
  pub backoff : Bool
  pub interpose : Bool

abbrev pub unlocked : Variant → ℕ
unlocked v = if v.interpose then 0 else 1

abbrev pub locked : Variant → ℕ
locked v = if v.interpose then 1 else 0

-- `I_user_autolock_t`, with the address of `mem`
pub record UserAutolock : Type 0 where
  pub addr : ℕ
  pub mem : ℕ

-- `try_*` is inside `trylock`, called for itself (`false`) or by `lock` (`true`); `sched_*` is
-- inside `trylock_maybe_sched`.
pub data Pc : Type 0 where
  idle : Pc
  try_load : Bool → Pc
  try_xchg : Bool → Pc
  failed : Pc
  sched_load sched_disarm sched_xchg sched_arm : Pc
  pausing : Pc  -- behind the failed `trylock_maybe_sched` in the loop of `lock`
  critical : Pc
  fault : Pc  -- a write through a NULL `k_autolock_mem`

-- A thread, with the local `custom_backoff_iter` of `lock`; `ret` is what the last call returned.
pub record Thread : Type 0 where
  pub pc : Pc
  pub kernel : Option KernelAutolock
  pub backoff_iter : ℕ
  pub ret : ℕ

-- `I_user_autolock_init`; the last part is the return value.
unfoldable pub init :
    Variant
    → Syscalls
    → Option KernelAutolock
    → UserAutolock
    → UserAutolock × Option KernelAutolock × ℕ
unfolding autolock_init_kernel_state
init v sys k l =
    let l' = record l { mem = unlocked v } in
    elim (autolock_init_kernel_state sys k) [
      | none ↦ (l', none, i_failure)
      | some k' ↦ (l', some k', i_success)
    ]

-- `I_user_autolock_destroy`, which changes nothing.
abbrev pub destroy : ℕ
destroy = autolock_release_kernel_state

abbrev watch : Option ℕ → Thread → Thread
watch p t = record t { kernel = elim t.kernel [ none ↦ none | some k ↦ some (set_watch_mem p k) ] }

-- `I_user_autolock_trylock`
pub trylock : Variant → Bool → UserAutolock → Thread → UserAutolock × Thread
trylock v b l t = (
  l,
  if l.mem == locked v
      then record t { ret = i_failure; pc = if b then failed else idle }
      else record t { pc = try_xchg b },
)

pub trylock_exchange : Variant → Bool → UserAutolock → Thread → UserAutolock × Thread
trylock_exchange v b l t = (
  record l { mem = locked v },
  if l.mem == locked v
      then record t { ret = i_failure; pc = if b then failed else idle }
      else record t { ret = i_success; pc = critical },
)

-- `I_internal_user_autolock_trylock_maybe_sched`: the load, the disarming, the exchange, the arming.
pub maybe_sched : Variant → UserAutolock → Thread → UserAutolock × Thread
maybe_sched v l t =
    (l, if l.mem == locked v then record t { pc = sched_arm } else record t { pc = sched_disarm })

pub maybe_sched_exchange : Variant → UserAutolock → Thread → UserAutolock × Thread
maybe_sched_exchange v l t = (
  record l { mem = locked v },
  if l.mem == locked v
      then record t { pc = sched_arm }
      else record t { ret = i_success; pc = critical },
)

-- `lock` between its failed `trylock` and its loop.
pub prepare : Variant → Env → Thread → Thread
unfolding autolock_init_kernel_state
prepare v e t = elim (autolock_init_kernel_state e.sys t.kernel) [
  | none ↦ record t { pc = fault }
  | some k ↦ record t {
    kernel = some (set_watch_neq 0 (set_watch_for (unlocked v) k));
    backoff_iter = if v.backoff then e.time % 32 else t.backoff_iter;
    pc = sched_load;
  }
]

-- The pauses have no effect that the model sees.
pub pause : Variant → Thread → Thread
pause v t = record t {
  backoff_iter =
      if v.backoff then (t.backoff_iter + (t.backoff_iter + 1)) % 256 else t.backoff_iter;
  pc = sched_load;
}

pub dispatch : Variant → Env → Pc → UserAutolock → Thread → UserAutolock × Thread
unfolding trylock trylock_exchange maybe_sched maybe_sched_exchange prepare pause
dispatch v e idle l t = (l, record t { pc = try_load e.blocking })
dispatch v e (try_load b) l t = trylock v b l t
dispatch v e (try_xchg b) l t = trylock_exchange v b l t
dispatch v e failed l t = (l, prepare v e t)
dispatch v e sched_load l t = maybe_sched v l t
dispatch v e sched_disarm l t = (l, record (watch none t) { pc = sched_xchg })
dispatch v e sched_xchg l t = maybe_sched_exchange v l t
dispatch v e sched_arm l t = (l, record (watch (some l.addr) t) { pc = pausing })
dispatch v e pausing l t = (l, pause v t)
dispatch v e critical l t = (record l { mem = unlocked v }, record t { ret = i_success; pc = idle })
dispatch v e fault l t = (l, t)

pub step : Variant → Env → UserAutolock → Thread → UserAutolock × Thread
unfolding dispatch
step v e l t = dispatch v e t.pc l t

-- `n` threads on one lock, in any order.
pub record System : Type 0 where
  pub lock : UserAutolock
  pub threads : ℕ → Thread

abbrev pub advance : Variant → Env → System → ℕ → System
advance v e s i =
    let (l, t) = step v e s.lock (s.threads i) in
    record { lock = l; threads = update s.threads i t }

abbrev pub schedule : System → ℕ → System
schedule s i = record s {
  threads = update s.threads i (record (s.threads i) { kernel = sched (s.threads i).kernel });
}

pub data Step (v : Variant) (n : ℕ) (s : System) : System → Type 0 where
  act : (i : ℕ) (e : Env) → i < n → e.sys.page.watch_mem ≡ none → Step v n s (advance v e s i)
  resched : (i : ℕ) → i < n → Step v n s (schedule s i)

pub record Start (v : Variant) (s : System) : Type 0 where
  pub mem : s.lock.mem ≡ unlocked v
  pub pc : (i : ℕ) → (s.threads i).pc ≡ idle
  pub kernel : (i : ℕ) → sched (s.threads i).kernel ≡ (s.threads i).kernel

pub data Reach (v : Variant) (n : ℕ) : System → Type 0 where
  start : {s : System} → Start v s → Reach v n s
  later : {s t : System} → Reach v n s → Step v n s t → Reach v n t
