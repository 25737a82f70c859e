-- ===== src/Clh.antt =====
-- The CLH queue lock of user-dev/src/autolock-impls/locks/internal/clh-lock-base.h, with the loops
-- of lock-wait-common.h: one access to a word that threads share, or one update of the kernel page,
-- is one step of a thread.
use autolock.Base.{
  ℕ, zero, suc, ◌+◌, ◌≡◌, Bool, true, false, not, Option, none, some, ◌==◌, if◌then◌else◌, update,
}
use autolock.Kernel.{
  KernelAutolock, Syscalls, autolock_init_kernel_state, set_watch_mem, set_watch_for, set_watch_neq,
  i_success, i_failure,
}
mod Invariant
mod Others
mod Leaving
mod Steps
mod Entering
mod Moves
mod Safety
mod Tests

abbrev pub clh_unlocked : ℕ
clh_unlocked = 1

abbrev pub clh_locked : ℕ
clh_locked = 0

-- `I_clh_lock_base_t`, and the nodes: what stands in the one at an address, `none` where no node is
-- allocated. A NULL `head` is `none`.
pub record ClhLock : Type 0 where
  pub tail : ℕ
  pub head : Option ℕ
  pub heap : ℕ → Option ℕ

-- Where a thread stands. From `swap` to `set_head` it is inside `lock`; the three waiting loops are
-- `pause_next`, `pause_once` and `yielding`.
pub data Pc : Type 0 where
  idle : Pc
  swap check : Pc
  init_page set_for set_neq set_mem : Pc
  compare_head pause_next pause_once yielding : Pc
  disarm free_prev set_head : Pc
  critical : Pc
  unlock_store : Pc  -- `unlock`, between the load of `head` and the store
  fault : Pc  -- a write through a NULL that aligned_alloc or the set-up of the page returned
  wild : Pc  -- an access to a node that is not allocated, or through a NULL `head`

-- A thread with the locals of the calls: `node`, `prev_node`, and the `head` that `unlock` has read.
pub record Thread : Type 0 where
  pub pc : Pc
  pub kernel : Option KernelAutolock
  pub node : ℕ
  pub prev : ℕ
  pub target : ℕ

-- What comes from outside at a step: the result of aligned_alloc, and of the system calls.
pub record Env : Type 0 where
  pub alloc : Option ℕ
  pub sys : Syscalls

abbrev pub goto : Thread → Pc → Thread
goto t p = record t { pc = p }

abbrev on_page : (KernelAutolock → KernelAutolock) → Thread → Thread
on_page f t = record t { kernel = elim t.kernel [ none ↦ none | some k ↦ some (f k) ] }

-- The value of `trylock`, which does not look at the lock.
abbrev pub trylock : ClhLock → ℕ
trylock l = i_failure

-- `init` once the first node stands at `p`, with I_WITH_AUTOLOCK first; the last part is the return
-- value. `destroy` frees the last node.
abbrev pub init :
    Bool → Syscalls → ℕ → Option KernelAutolock → ClhLock → ClhLock × Option KernelAutolock × ℕ
unfolding autolock_init_kernel_state
init with_autolock sys p k l =
    let l' = record l { tail = p; head = none; heap = update l.heap p (some clh_unlocked) } in
    if with_autolock
    then elim (autolock_init_kernel_state sys k) [
      | none ↦ (l', none, i_failure)
      | some k' ↦ (l', some k', i_success)
    ]
    else (l', k, i_success)

abbrev pub destroy : ClhLock → ClhLock
destroy l = record l { heap = update l.heap l.tail none }

-- I_clh_lock_base_node_new.
abbrev pub node_new : Env → ClhLock → Thread → ClhLock × Thread
node_new e l t = elim e.alloc [
  | none ↦ (l, goto t fault)
  | some p ↦
      (record l { heap = update l.heap p (some clh_locked) }, record t { node = p; pc = swap })
]

-- Each of the following takes what the thread has loaded. A load of `prev_node->mem`, and where the
-- thread goes if the lock is taken and if it is not:
abbrev pub load_prev : Pc → Pc → Option ℕ → ClhLock → Thread → ClhLock × Thread
load_prev taken free none l t = (l, goto t wild)
load_prev taken free (some v) l t = (l, goto t (if v == clh_locked then taken else free))

-- autolock_init_kernel_state;
abbrev pub prepare : Option KernelAutolock → ClhLock → Thread → ClhLock × Thread
prepare none l t = (l, goto t fault)
prepare (some k) l t = (l, record t { kernel = some k; pc = set_for })

-- `head`, compared with the node in front;
abbrev pub compare_with : Option ℕ → ClhLock → Thread → ClhLock × Thread
compare_with none l t = (l, goto t pause_once)
compare_with (some h) l t = (l, goto t (if h == t.prev then pause_next else pause_once))

-- the node in front, to be freed;
abbrev pub node_free : Option ℕ → ClhLock → Thread → ClhLock × Thread
node_free none l t = (l, goto t wild)
node_free (some v) l t = (record l { heap = update l.heap t.prev none }, goto t set_head)

-- `head`, to be unlocked, and then the node there.
abbrev pub load_head : Option ℕ → ClhLock → Thread → ClhLock × Thread
load_head none l t = (l, goto t wild)
load_head (some h) l t = (l, record t { target = h; pc = unlock_store })

abbrev pub store_unlocked : Option ℕ → ClhLock → Thread → ClhLock × Thread
store_unlocked none l t = (l, goto t wild)
store_unlocked (some v) l t =
    (record l { heap = update l.heap t.target (some clh_unlocked) }, goto t idle)

abbrev pub has_lock : Bool → Pc
has_lock a = if a then disarm else free_prev

-- With I_WITH_AUTOLOCK first. `lock_wait` with a number of rounds leaves the loop after the first
-- one, as the counter it tests comes from below 0.
pub dispatch : Bool → Env → Pc → ClhLock → Thread → ClhLock × Thread
unfolding autolock_init_kernel_state
dispatch a e idle l t = node_new e l t
dispatch a e swap l t = (record l { tail = t.node }, record t { prev = l.tail; pc = check })
dispatch a e check l t =
    load_prev (if a then init_page else compare_head) free_prev (l.heap t.prev) l t
dispatch a e init_page l t = prepare (autolock_init_kernel_state e.sys t.kernel) l t
dispatch a e set_for l t = (l, goto (on_page (set_watch_for clh_unlocked) t) set_neq)
dispatch a e set_neq l t = (l, goto (on_page (set_watch_neq 0) t) set_mem)
dispatch a e set_mem l t = (l, goto (on_page (set_watch_mem (some t.prev)) t) compare_head)
dispatch a e compare_head l t = compare_with l.head l t
dispatch a e pause_next l t = load_prev pause_next (has_lock a) (l.heap t.prev) l t
dispatch a e pause_once l t = load_prev yielding (has_lock a) (l.heap t.prev) l t
dispatch a e yielding l t = load_prev yielding (has_lock a) (l.heap t.prev) l t
dispatch a e disarm l t = (l, goto (on_page (set_watch_mem none) t) free_prev)
dispatch a e free_prev l t = node_free (l.heap t.prev) l t
dispatch a e set_head l t = (record l { head = some t.node }, goto t critical)
dispatch a e critical l t = load_head l.head l t
dispatch a e unlock_store l t = store_unlocked (l.heap t.target) l t
dispatch a e fault l t = (l, goto t fault)
dispatch a e wild l t = (l, goto t wild)

-- For the theorems only, the history of the queue: the node that was put into it as the `k`-th, the
-- first being the 0-th; how many were put in; up to which one they are unlocked, and below which
-- they are freed; and the turn of each thread.
pub record History : Type 0 where
  pub order : ℕ → ℕ
  pub issued : ℕ
  pub served : ℕ
  pub freed : ℕ
  pub turn : ℕ → ℕ

pub note : Pc → ℕ → Thread → History → History
note swap i t h = record h {
  order = update h.order (suc h.issued) t.node;
  issued = suc h.issued;
  turn = update h.turn i (suc h.issued);
}
note free_prev i t h = record h { freed = suc h.freed }
note unlock_store i t h = record h { served = suc h.served }
note p i t h = h

pub record System : Type 0 where
  pub lock : ClhLock
  pub threads : ℕ → Thread
  pub history : History

abbrev pub advance : Bool → Env → System → ℕ → System
advance a e s i =
    let (l, t) = dispatch a e (s.threads i).pc s.lock (s.threads i) in
    record {
      lock = l;
      threads = update s.threads i t;
      history = note (s.threads i).pc i (s.threads i) s.history;
    }

-- What malloc returns is not allocated already.
abbrev pub IsFresh : Env → ClhLock → Type 0
IsFresh e l = elim e.alloc [ none ↦ Unit | some p ↦ l.heap p ≡ none ]

-- As `init` leaves the lock.
pub record Start (s : System) : Type 0 where
  pub free : s.lock.heap s.lock.tail ≡ some clh_unlocked
  pub pc : (i : ℕ) → (s.threads i).pc ≡ idle
  pub first : s.history.order 0 ≡ s.lock.tail
  pub issued : s.history.issued ≡ 0
  pub served : s.history.served ≡ 0
  pub freed : s.history.freed ≡ 0

pub data Reach (a : Bool) : System → Type 0 where
  start : {s : System} → Start s → Reach a s
  later : {s : System} (i : ℕ) (e : Env) → IsFresh e s.lock → Reach a s → Reach a (advance a e s i)
