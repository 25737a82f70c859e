-- ===== src/Ops.antt =====
-- The class lock_ops of user-dev/src/locks/lock-base.h, on which gen_lock of lock-decls.c builds the
-- locks of the driver: one access to a word that threads share, or one system call, is one step of a
-- thread.
use autolock.Base.{
  ℕ, ◌+◌, ◌-◌, ◌%◌, ◌^◌, ◌≤◌, ◌<◌, ◌≡◌, Bool, true, false, not, Option, none, some, List, [], ◌∷◌,
  ◌==◌, leb, if◌then◌else◌, update,
}
mod Invariant
mod Failed
mod Settle
mod Locking
mod Unlocking
mod Steps
mod Safety
mod Tests

abbrev pub unlocked : ℕ
unlocked = 1

abbrev pub locked : ℕ
locked = 0

abbrev pub success : ℕ
success = 0

abbrev pub failure : ℕ
failure = 1

-- The parameters of the template.
pub record Config : Type 0 where
  pub max_raw_iter : ℕ
  pub max_yield_iter : ℕ
  pub with_backoff : Bool
  pub with_yield : Bool
  pub with_futex : Bool

-- `lock_base_t`.
pub record LockBase : Type 0 where
  pub mem : ℕ
  pub waiters : ℕ

-- The places from which `try_lock` is called: from outside, in front of the loops of `lock`, and in
-- its two loops.
pub data Attempt : Type 0 where
  single first raw yielding : Attempt

-- Where a thread stands: `load` and `exchange` are inside `try_lock`, from `add_waiter` to
-- `sub_waiter` it is in the last part of `lock`, and behind `critical` in `unlock`.
pub data Pc : Type 0 where
  idle : Pc
  load exchange : Attempt → Pc
  add_waiter futex sleeping sub_waiter : Pc
  critical : Pc
  load_waiters wake : Pc

-- A thread with the locals of `lock`; `ret` is what the last call returned.
pub record Thread : Type 0 where
  pub pc : Pc
  pub iter_count : ℕ
  pub backoff : ℕ
  pub ret : ℕ

-- What comes from outside at a step: whether an idle thread calls `try_lock` or `lock`, the time,
-- whether a sleep is interrupted, and whom a call of futex_wake would wake.
pub record Env : Type 0 where
  pub tries : Bool
  pub time : ℕ
  pub interrupted : Bool
  pub woken : Option ℕ

abbrev pub goto : Thread → Pc → Thread
goto t p = record t { pc = p }

abbrev return : Thread → ℕ → Pc → Thread
return t r p = record t { ret = r; pc = p }

abbrev pub init : LockBase → LockBase × ℕ
init l = (record { mem = unlocked; waiters = 0 }, success)

abbrev pub destroy : LockBase → LockBase × ℕ
destroy l = (l, success)

pub backoff_init : Config → ℕ → ℕ
backoff_init c time = if c.with_backoff then time % 32 else 0

pub backoff_next : Config → ℕ → ℕ
backoff_next c backoff = if c.with_backoff then (backoff + backoff + 1) % 512 else 0

-- Behind the loops: the futex, or the loops once more.
abbrev pub behind_loops : Config → Pc
behind_loops c = if c.with_futex then add_waiter else load first

-- In front of the loop that yields.
pub start_yielding : Config → Thread → Thread
start_yielding c t =
    if c.with_yield
    then record t {
      iter_count = if c.max_yield_iter == 0 then t.iter_count else 0;
      pc = load yielding;
    }
    else goto t (behind_loops c)

abbrev count : Thread → Thread
count t = record t { iter_count = (t.iter_count + 1) % 2 ^ 32 }

-- Whether a loop with so many rounds, or with 0 rounds if it has no end, is left.
abbrev reached : ℕ → Thread → Bool
reached rounds t = if rounds == 0 then false else leb rounds (count t).iter_count

abbrev counted_if : ℕ → Thread → Thread
counted_if rounds t = if rounds == 0 then t else count t

-- What follows on a `try_lock` that has failed.
pub failed : Config → Env → Attempt → Thread → Thread
unfolding backoff_init backoff_next start_yielding
failed c e single t = return t failure idle
failed c e first t = record t {
  iter_count = if c.max_raw_iter == 0 then t.iter_count else 0;
  backoff = if c.with_backoff then backoff_init c e.time else t.backoff;
  pc = load raw;
}
failed c e raw t =
    let u = counted_if c.max_raw_iter t in
    if reached c.max_raw_iter t then start_yielding c u else record u {
      backoff = if c.with_backoff then backoff_next c u.backoff else u.backoff;
      pc = load raw;
    }
failed c e yielding t =
    let u = counted_if c.max_yield_iter t in
    goto u (if reached c.max_yield_iter t then behind_loops c else load yielding)

pub dispatch : Config → Env → Pc → LockBase → Thread → LockBase × Thread
unfolding failed
dispatch c e idle l t = (l, goto t (load (if e.tries then single else first)))
dispatch c e (load a) l t = (l, if l.mem == locked then failed c e a t else goto t (exchange a))
dispatch c e (exchange a) l t = (
  record l { mem = locked },
  if l.mem == locked then failed c e a t else return t success critical,
)
dispatch c e add_waiter l t = (record l { waiters = (l.waiters + 1) % 2 ^ 32 }, goto t futex)
dispatch c e futex l t = (l, goto t (if l.mem == locked then sleeping else sub_waiter))
dispatch c e sleeping l t = (l, goto t (if e.interrupted then sub_waiter else sleeping))
dispatch c e sub_waiter l t =
    (record l { waiters = (l.waiters + 2 ^ 32 - 1) % 2 ^ 32 }, goto t (load first))
dispatch c e critical l t = (
  record l { mem = unlocked },
  if c.with_futex then goto t load_waiters else return t success idle,
)
dispatch c e load_waiters l t = (l, if l.waiters == 0 then return t success idle else goto t wake)
dispatch c e wake l t = (l, return t (elim e.woken [ none ↦ success | some j ↦ failure ]) idle)

-- The locks that gen_lock declares in lock-decls.c.
abbrev pub spinlock : Config
spinlock = record {
  max_raw_iter = 0;
  max_yield_iter = 0;
  with_backoff = false;
  with_yield = false;
  with_futex = false;
}

abbrev pub yield_spinlock : Config
yield_spinlock = record {
  max_raw_iter = 16;
  max_yield_iter = 0;
  with_backoff = false;
  with_yield = true;
  with_futex = false;
}

abbrev pub futex_spinlock : Config
futex_spinlock = record {
  max_raw_iter = 16;
  max_yield_iter = 4;
  with_backoff = false;
  with_yield = false;
  with_futex = true;
}

abbrev pub futex_yield_spinlock : Config
futex_yield_spinlock = record futex_spinlock { with_yield = true }

abbrev pub with_backoff : Config → Config
with_backoff c = record c { with_backoff = true }

abbrev pub gen_locks : List Config
gen_locks =
    spinlock
    ∷ with_backoff spinlock
    ∷ yield_spinlock
    ∷ with_backoff yield_spinlock
    ∷ futex_spinlock
    ∷ with_backoff futex_spinlock
    ∷ futex_yield_spinlock
    ∷ with_backoff futex_yield_spinlock
    ∷ []

pub record System : Type 0 where
  pub lock : LockBase
  pub threads : ℕ → Thread

-- futex_wake ends the sleep of one thread.
pub rouse : Pc → Option ℕ → (ℕ → Thread) → ℕ → Thread
rouse wake (some j) ts = update ts j (goto (ts j) sub_waiter)
rouse p woken ts = ts

abbrev pub advance : Config → Env → System → ℕ → System
advance c e s i =
    let (l, t) = dispatch c e (s.threads i).pc s.lock (s.threads i) in
    record { lock = l; threads = rouse (s.threads i).pc e.woken (update s.threads i t) }

-- Whom a futex_wake of a step wakes, or would wake: a thread that sleeps, if there is one among the
-- `n`.
abbrev pub Wakes : ℕ → System → Option ℕ → Type 0
Wakes n s none = (j : ℕ) → j < n → (s.threads j).pc ≡ sleeping → ⊥
Wakes n s (some j) = (j < n) × ((s.threads j).pc ≡ sleeping)

-- As `init` leaves the lock.
pub record Start (s : System) : Type 0 where
  pub mem : s.lock.mem ≡ unlocked
  pub waiters : s.lock.waiters ≡ 0
  pub pc : (i : ℕ) → (s.threads i).pc ≡ idle

pub data Reach (c : Config) (n : ℕ) : System → Type 0 where
  start : {s : System} → Start s → Reach c n s
  later :
      {s : System} (i : ℕ) (e : Env)
      → i < n
      → Wakes n s e.woken
      → Reach c n s
      → Reach c n (advance c e s i)
