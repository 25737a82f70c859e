-- ===== src/Aepfl.antt =====
-- The array lock of user-dev/src/autolock-impls/locks/internal/aepfl-lock-base.h, with the loops of
-- lock-wait-common.h: one access to a word that threads share, or one update of the kernel page, is
-- one step of a thread.
use autolock.Base.{
  ℕ, suc, ◌+◌, ◌-◌, ◌%◌, ◌^◌, ◌≤◌, ◌<◌, ◌≡◌, Bool, true, false, Option, none, some, ◌==◌, leb,
  if◌then◌else◌, update,
}
use autolock.Kernel.{
  KernelAutolock, Syscalls, autolock_init_kernel_state, set_watch_mem, set_watch_for, set_watch_neq,
  i_success, i_failure,
}
mod Invariant
mod Steps
mod Safety
mod Tests

abbrev pub aepfl_unlocked : ℕ
aepfl_unlocked = 1

abbrev pub aepfl_locked : ℕ
aepfl_locked = 0

abbrev pub max_threads : ℕ
max_threads = 128

abbrev pause_bound : ℕ
pause_bound = 2

-- `I_aepfl_lock_base_t`.
pub record AepflLock : Type 0 where
  pub tail : ℕ
  pub head : ℕ
  pub flags : ℕ → ℕ

-- Where a thread stands: `try_*` is inside `trylock`; from `check` to `disarm` it is inside `lock`,
-- behind its fetch-and-add; behind `critical`, in `unlock`.
pub data Pc : Type 0 where
  idle : Pc
  try_load try_exchange : Pc
  check : Pc
  init_page set_mem set_for set_neq : Pc
  load_head pause_near pause_once yielding disarm : Pc
  critical : Pc
  store_locked store_unlocked : Pc
  fault : Pc  -- a write through the NULL that the set-up of the page returned

-- A thread with the locals of the calls; `flag_mem` is the place in `flags` that it points to.
pub record Thread : Type 0 where
  pub pc : Pc
  pub kernel : Option KernelAutolock
  pub slot : ℕ
  pub flag_mem : ℕ
  pub cur_tail : ℕ
  pub cur_head : ℕ

-- What comes from outside at a step: whether an idle thread calls `trylock` or `lock`, whether a weak
-- exchange fails without a reason, where the flags are, and the results of the system calls.
pub record Env : Type 0 where
  pub tries : Bool
  pub spurious : Bool
  pub flags_addr : ℕ → ℕ
  pub sys : Syscalls

abbrev pub goto : Thread → Pc → Thread
goto t p = record t { pc = p }

abbrev on_page : (KernelAutolock → KernelAutolock) → Thread → Thread
on_page f t = record t { kernel = elim t.kernel [ none ↦ none | some k ↦ some (f k) ] }

-- The new value of `*slot_mem` in I_aepfl_lock_base_fetch_add_slot, and its result.
abbrev pub next : ℕ → ℕ
next n = (n + 1) % 2 ^ 32

abbrev pub slot_of : ℕ → ℕ
slot_of n = n % max_threads

abbrev pub get_next_slot : ℕ → ℕ
get_next_slot slot = (slot + 1) % max_threads

-- `destroy`, and `init`, which does not prepare the page; the last part is the return value.
abbrev pub destroy : AepflLock → AepflLock × ℕ
destroy l = (l, i_success)

abbrev pub init : AepflLock → AepflLock × ℕ
init l = (
  record { tail = 0; head = 0; flags = λ c. if c == 0 then aepfl_unlocked else aepfl_locked },
  i_success,
)

abbrev pub prepare : Option KernelAutolock → Thread → Thread
prepare none t = goto t fault
prepare (some k) t = record t { kernel = some k; pc = set_mem }

abbrev pub has_lock : Bool → Pc
has_lock with_autolock = if with_autolock then disarm else critical

-- Where a thread goes that has loaded its flag: `taken` if it is locked, and else `free`.
abbrev pub look : Pc → Pc → AepflLock → Thread → Thread
look taken free l t = goto t (if l.flags t.flag_mem == aepfl_locked then taken else free)

-- With I_WITH_AUTOLOCK first. `lock_wait` with a number of rounds leaves its loop after the first
-- one, as the counter it tests comes from below 0.
pub dispatch : Bool → Env → Pc → AepflLock → Thread → AepflLock × Thread
unfolding autolock_init_kernel_state
dispatch a e idle l t = if e.tries then (l, record t { cur_tail = l.tail; pc = try_load }) else (
  record l { tail = next l.tail },
  record t { slot = slot_of l.tail; flag_mem = slot_of l.tail; pc = check },
)
dispatch a e try_load l t =
    (l, record t { cur_head = l.tail; pc = if t.cur_tail == l.tail then try_exchange else idle })
dispatch a e try_exchange l t =
    if e.spurious
    then (l, goto t idle)
    else if l.tail == t.cur_tail
    then (record l { tail = next t.cur_tail }, goto t critical)
    else (l, record t { cur_tail = l.tail; pc = idle })
dispatch a e check l t = (l, look (if a then init_page else load_head) critical l t)
dispatch a e init_page l t = (l, prepare (autolock_init_kernel_state e.sys t.kernel) t)
dispatch a e set_mem l t =
    (l, goto (on_page (set_watch_mem (some (e.flags_addr t.flag_mem))) t) set_for)
dispatch a e set_for l t = (l, goto (on_page (set_watch_for aepfl_unlocked) t) set_neq)
dispatch a e set_neq l t = (l, goto (on_page (set_watch_neq 0) t) load_head)
dispatch a e load_head l t =
    let slot = (t.slot + 2 ^ 32 - l.head) % 2 ^ 32 in
    (l, record t { slot = slot; pc = if leb slot pause_bound then pause_near else pause_once })
dispatch a e pause_near l t = (l, look pause_near (has_lock a) l t)
dispatch a e pause_once l t = (l, look yielding (has_lock a) l t)
dispatch a e yielding l t = (l, look yielding (has_lock a) l t)
dispatch a e disarm l t = (l, goto (on_page (set_watch_mem none) t) critical)
dispatch a e critical l t =
    (record l { head = next l.head }, record t { slot = slot_of l.head; pc = store_locked })
dispatch a e store_locked l t = (
  record l { flags = update l.flags t.slot aepfl_locked },
  record t { slot = get_next_slot t.slot; pc = store_unlocked },
)
dispatch a e store_unlocked l t =
    (record l { flags = update l.flags t.slot aepfl_unlocked }, goto t idle)
dispatch a e fault l t = (l, goto t fault)

-- For the theorems only: the number of each thread's call of `lock`, and how many calls there were,
-- and how many of these are over.
pub record History : Type 0 where
  pub turn : ℕ → ℕ
  pub issued : ℕ
  pub served : ℕ

pub note : Pc → ℕ → History → History
note idle i h = record h { turn = update h.turn i h.issued; issued = suc h.issued }
note store_unlocked i h = record h { served = suc h.served }
note p i h = h

pub record System : Type 0 where
  pub lock : AepflLock
  pub threads : ℕ → Thread
  pub history : History

abbrev pub advance : Bool → Env → System → ℕ → System
advance a e s i =
    let (l, t) = dispatch a e (s.threads i).pc s.lock (s.threads i) in
    record { lock = l; threads = update s.threads i t; history = note (s.threads i).pc i s.history }

-- As `init` leaves the lock.
pub record Start (s : System) : Type 0 where
  pub tail : s.lock.tail ≡ 0
  pub head : s.lock.head ≡ 0
  pub flags : (c : ℕ) → s.lock.flags c ≡ (if c == 0 then aepfl_unlocked else aepfl_locked)
  pub pc : (i : ℕ) → (s.threads i).pc ≡ idle
  pub issued : s.history.issued ≡ 0
  pub served : s.history.served ≡ 0

-- What `n` threads reach that call `lock` and `unlock`, and not `trylock`.
pub data Reach (a : Bool) (n : ℕ) : System → Type 0 where
  start : {s : System} → Start s → Reach a n s
  later :
      {s : System} (i : ℕ) (e : Env)
      → i < n
      → e.tries ≡ false
      → Reach a n s
      → Reach a n (advance a e s i)
