-- ===== src/Ticket.antt =====
-- The simple ticket lock of
-- user-dev/src/autolock-impls/locks/internal/simple-ticket-lock-base.h: one access to one of the
-- two counters, or one update of the kernel page, is one step of a thread.
pub mod Invariant
pub mod Safety
mod Progress
mod Tests
use autolock.Base.{
  ℕ, ◌+◌, ◌-◌, ◌*◌, ◌%◌, ◌^◌, ◌<◌, ◌≡◌, Bool, true, Option, none, some, ◌==◌, leb, if◌then◌else◌,
  update,
}
use autolock.Kernel.{
  KernelAutolock, Syscalls, autolock_init_kernel_state, autolock_release_kernel_state,
  set_watch_mem, set_watch_for, set_watch_neq, sched, i_success, i_failure,
}

-- `simple_ticket_lock_base_t`, with the address of `cur_count`
pub record TicketLock : Type 0 where
  pub addr : ℕ
  pub cur_count : ℕ
  pub next_count : ℕ

-- Where a thread stands: `try_*` is inside `trylock`; from `first_load` to `disarm` it is inside
-- `lock`, behind its fetch-and-add.
pub data Pc : Type 0 where
  idle : Pc
  try_load try_cas : Pc
  first_load init_page set_mem set_for set_neq spin_load waiting disarm : Pc
  critical : Pc
  unlock_store : Pc  -- `unlock`, between the load and the store of its `+= 1`
  fault : Pc  -- a write through a NULL `k_autolock_mem`

-- A thread, with the locals of the calls; `ret` is what the last call returned.
pub record Thread : Type 0 where
  pub pc : Pc
  pub kernel : Option KernelAutolock
  pub ticket_num : ℕ
  pub cur_num : ℕ
  pub ret : ℕ

-- What comes from outside at a step: whether an idle thread calls `lock` or `trylock`, whether the
-- weak compare-and-swap fails for no reason, the results of the system calls.
pub record Env : Type 0 where
  pub blocking : Bool
  pub spurious : Bool
  pub sys : Syscalls

abbrev pub goto : Thread → Pc → Thread
goto t p = record t { pc = p }

abbrev pub return : Thread → ℕ → Pc → Thread
return t r p = record t { ret = r; pc = p }

abbrev on_page : (KernelAutolock → KernelAutolock) → Thread → Thread
on_page f t = record t { kernel = elim t.kernel [ none ↦ none | some k ↦ some (f k) ] }

-- `init`, with I_WITH_AUTOLOCK first; the last part is the return value.
unfoldable pub init :
    Bool → Syscalls → Option KernelAutolock → TicketLock → TicketLock × Option KernelAutolock × ℕ
unfolding autolock_init_kernel_state
init with_autolock sys k l =
    let l' = record l { next_count = 0; cur_count = 0 } in
    if with_autolock
    then elim (autolock_init_kernel_state sys k) [
      | none ↦ (l', none, i_failure)
      | some k' ↦ (l', some k', i_success)
    ]
    else (l', k, i_success)

-- `destroy`, which changes nothing, also without autolock.
abbrev pub destroy : ℕ
destroy = autolock_release_kernel_state

-- How a thread waits that has read `cur_num` after the subtraction: so many pauses, or a yield
-- behind one pause.
pub data Wait : Type 0 where
  pauses : ℕ → Wait
  yields : Wait

-- The tests are those of `s_cur_num`, the same bits as an int32_t.
abbrev pub wait_of : ℕ → Wait
wait_of cur_num =
    if leb (2 ^ 31) cur_num
    then if leb cur_num (2 ^ 32 - 2)
      then yields
      else pauses (1 + 2 ^ ((2 ^ 32 - cur_num) % 2 ^ 32 % 32))
    else pauses 1

pub prepare : Env → Thread → Thread
unfolding autolock_init_kernel_state
prepare e t = elim (autolock_init_kernel_state e.sys t.kernel) [
  | none ↦ goto t fault
  | some k ↦ record t { kernel = some k; pc = set_mem }
]

pub dispatch : Bool → Env → Pc → TicketLock → Thread → TicketLock × Thread
unfolding prepare
dispatch a e idle l t =
    if e.blocking
    then (
      record l { next_count = (l.next_count + 1) % 2 ^ 32 },
      record t { ticket_num = l.next_count; pc = first_load },
    )
    else (l, record t { ticket_num = l.next_count; pc = try_load })
dispatch a e try_load l t = (
  l,
  if t.ticket_num == l.cur_count
      then record t { cur_num = l.cur_count; pc = try_cas }
      else record t { cur_num = l.cur_count; ret = 1; pc = idle },
)
dispatch a e try_cas l t =
    if e.spurious
    then (l, return t 1 idle)
    else if l.next_count == t.ticket_num
    then (record l { next_count = (t.ticket_num + 1) % 2 ^ 32 }, return t 0 critical)
    else (l, return t 1 idle)
dispatch a e first_load l t = (
  l,
  if t.ticket_num == l.cur_count
      then record t { cur_num = l.cur_count; ret = 0; pc = critical }
      else record t { cur_num = l.cur_count; pc = if a then init_page else spin_load },
)
dispatch a e init_page l t = (l, prepare e t)
dispatch a e set_mem l t = (l, goto (on_page (set_watch_mem (some l.addr)) t) set_for)
dispatch a e set_for l t = (l, goto (on_page (set_watch_for t.ticket_num) t) set_neq)
dispatch a e set_neq l t = (l, goto (on_page (set_watch_neq 0) t) spin_load)
dispatch a e spin_load l t =
    let d = (l.cur_count + 2 ^ 32 - t.ticket_num) % 2 ^ 32 in
    (l, record t { cur_num = d; pc = if d == 0 then disarm else waiting })
dispatch a e waiting l t = (l, goto t spin_load)
dispatch a e disarm l t =
    (l, return (if a then on_page (set_watch_mem none) t else t) i_success critical)
dispatch a e critical l t = (l, record t { cur_num = l.cur_count; pc = unlock_store })
dispatch a e unlock_store l t = (record l { cur_count = (t.cur_num + 1) % 2 ^ 32 }, return t 0 idle)
dispatch a e fault l t = (l, goto t fault)

pub step : Bool → Env → TicketLock → Thread → TicketLock × Thread
unfolding dispatch
step a e l t = dispatch a e t.pc l t

-- `n` threads on one lock, in any order. The kernel hands out blank pages, and disarms a thread
-- that it schedules.
pub record System : Type 0 where
  pub lock : TicketLock
  pub threads : ℕ → Thread

abbrev pub advance : Bool → Env → System → ℕ → System
advance a e s i =
    let (l, t) = step a e s.lock (s.threads i) in
    record { lock = l; threads = update s.threads i t }

abbrev pub schedule : System → ℕ → System
schedule s i = record s {
  threads = update s.threads i (record (s.threads i) { kernel = sched (s.threads i).kernel });
}

-- The steps of threads that call `lock` and `unlock`, and not `trylock`.
pub data Step (a : Bool) (n : ℕ) (s : System) : System → Type 0 where
  act :
      (i : ℕ) (e : Env)
      → i < n
      → e.blocking ≡ true
      → e.sys.page.watch_mem ≡ none
      → Step a n s (advance a e s i)
  resched : (i : ℕ) → i < n → Step a n s (schedule s i)

-- The counters are equal, as `init` leaves them, or as they are whenever the lock is free.
pub record Start (s : System) : Type 0 where
  pub equal : s.lock.next_count ≡ s.lock.cur_count
  pub word : s.lock.cur_count < 2 ^ 32
  pub pc : (i : ℕ) → (s.threads i).pc ≡ idle
  pub kernel : (i : ℕ) → sched (s.threads i).kernel ≡ (s.threads i).kernel

pub data Reach (a : Bool) (n : ℕ) : System → Type 0 where
  start : {s : System} → Start s → Reach a n s
  later : {s t : System} → Reach a n s → Step a n s t → Reach a n t
