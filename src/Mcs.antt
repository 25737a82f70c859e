-- ===== src/Mcs.antt =====
-- The MCS queue lock of user-dev/src/autolock-impls/locks/internal/mcs-lock-base.h, with futex_wait
-- and futex_wake of util/sched-util.h: one access to a word that threads share, or one update of the
-- kernel page, is one step of a thread. As in autolock-export.h, clh-lock-base.h stands in front,
-- of which the code uses two constants.
use autolock.Base.{ℕ, Bool, true, false, not, Option, none, some, ◌==◌, if◌then◌else◌, update}
use autolock.Kernel.{
  KernelAutolock, Syscalls, autolock_init_kernel_state, set_watch_mem, set_watch_for, set_watch_neq,
  i_success, i_failure,
}
use autolock.Clh.{clh_locked, clh_unlocked}
mod Waiting
mod Tests

abbrev pub mcs_unlocked : ℕ
mcs_unlocked = 0

-- `I_mcs_node_t`; a NULL `next` is `none`.
pub record McsNode : Type 0 where
  pub mem : ℕ
  pub next : Option ℕ

-- `I_mcs_lock_base_t`, and what stands in the nodes at their addresses, which the callers give.
pub record McsLock : Type 0 where
  pub tail : Option ℕ
  pub nodes : ℕ → McsNode

-- Where a thread stands: in `lock` from `store_mem` to `disarm`, in `trylock` from `try_store_mem` to
-- `try_exchange`, in `unlock` from `remove` to `wake`.
pub data Pc : Type 0 where
  idle : Pc
  store_mem store_next swap : Pc
  init_page set_mem set_for set_neq : Pc
  link wait futex sleeping disarm : Pc
  try_store_mem try_store_next try_exchange : Pc
  critical : Pc
  remove await_next wake : Pc
  fault : Pc  -- a write through the NULL that the set-up of the page returned

-- A thread with its argument `node`, and the locals `tail` of `lock` and `next` of `unlock`,
-- which is not initialised.
pub record Thread : Type 0 where
  pub pc : Pc
  pub kernel : Option KernelAutolock
  pub node : ℕ
  pub tail : ℕ
  pub next : ℕ

-- What comes from outside at a step: the call that a thread makes, with the node that it gives;
-- whether a weak exchange fails without a reason; and the results of the system calls, `woken` being
-- whether one of them ends a sleep.
pub record Env : Type 0 where
  pub tries : Bool
  pub arg : ℕ
  pub spurious : Bool
  pub woken : Bool
  pub sys : Syscalls

abbrev pub goto : Thread → Pc → Thread
goto t p = record t { pc = p }

abbrev on_page : (KernelAutolock → KernelAutolock) → Thread → Thread
on_page f t = record t { kernel = elim t.kernel [ none ↦ none | some k ↦ some (f k) ] }

abbrev store : (McsNode → McsNode) → ℕ → McsLock → McsLock
store f p l = record l { nodes = update l.nodes p (f (l.nodes p)) }

abbrev points_to : Option ℕ → ℕ → Bool
points_to none p = false
points_to (some q) p = q == p

-- `destroy`, and `init` with I_WITH_AUTOLOCK first; the last part is the return value.
abbrev pub destroy : McsLock → McsLock × ℕ
destroy l = (l, i_success)

abbrev pub init :
    Bool → Syscalls → Option KernelAutolock → McsLock → McsLock × Option KernelAutolock × ℕ
unfolding autolock_init_kernel_state
init with_autolock sys k l =
    let l' = record l { tail = none } in
    if with_autolock
    then elim (autolock_init_kernel_state sys k) [
      | none ↦ (l', none, i_failure)
      | some k' ↦ (l', some k', i_success)
    ]
    else (l', k, i_success)

-- The first step of a call: `trylock` looks at the tail, `lock` begins with its node.
abbrev begin : Env → McsLock → Thread → Thread
begin e l t =
    if e.tries
    then elim l.tail [
      | none ↦ record t { node = e.arg; pc = try_store_mem }
      | some p ↦ record t { node = e.arg }
    ]
    else record t { node = e.arg; pc = store_mem }

-- Each of the following takes what the thread has loaded: the old tail,
abbrev swapped : Bool → Option ℕ → Thread → Thread
swapped with_autolock none t = goto t critical
swapped with_autolock (some p) t = record t {
  tail = p;
  pc = if with_autolock then init_page else link;
}

-- autolock_init_kernel_state,
abbrev prepare : Option KernelAutolock → Thread → Thread
prepare none t = goto t fault
prepare (some k) t = record t { kernel = some k; pc = set_mem }

-- the tail for the weak exchange of `trylock`,
abbrev exchanged : Bool → Option ℕ → McsLock → Thread → McsLock × Thread
exchanged spurious none l t =
    if spurious then (l, goto t idle) else (record l { tail = some t.node }, goto t critical)
exchanged spurious (some p) l t = (l, goto t idle)

-- and `node->next` in `unlock`: before the exchange, which does not set the local `next`, and in the
-- loop behind it, which does.
abbrev look : Option ℕ → Thread → Thread
look none t = goto t remove
look (some q) t = goto t wake

abbrev follow : Option ℕ → Thread → Thread
follow none t = goto t await_next
follow (some q) t = record t { next = q; pc = wake }

abbrev pub entered : Bool → Pc
entered with_autolock = if with_autolock then disarm else critical

-- With I_WITH_AUTOLOCK first. `lock_wait` leaves its loop after the first round, as the counter it
-- tests comes from below 0. futex_wait sleeps only if the word has the value that is expected.
unfoldable pub dispatch : Bool → Env → Pc → McsLock → Thread → McsLock × Thread
unfolding autolock_init_kernel_state
dispatch a e idle l t = (l, begin e l t)
dispatch a e store_mem l t =
    (store (λ n. record n { mem = mcs_unlocked }) t.node l, goto t store_next)
dispatch a e store_next l t = (store (λ n. record n { next = none }) t.node l, goto t swap)
dispatch a e swap l t = (record l { tail = some t.node }, swapped a l.tail t)
dispatch a e init_page l t = (l, prepare (autolock_init_kernel_state e.sys t.kernel) t)
dispatch a e set_mem l t = (l, goto (on_page (set_watch_mem (some t.node)) t) set_for)
dispatch a e set_for l t = (l, goto (on_page (set_watch_for clh_locked) t) set_neq)
dispatch a e set_neq l t = (l, goto (on_page (set_watch_neq 0) t) link)
dispatch a e link l t = (store (λ n. record n { next = some t.node }) t.tail l, goto t wait)
dispatch a e wait l t =
    (l, goto t (if (l.nodes t.node).mem == clh_unlocked then futex else entered a))
dispatch a e futex l t =
    (l, goto t (if (l.nodes t.node).mem == mcs_unlocked then sleeping else entered a))
dispatch a e sleeping l t = (l, goto t (if e.woken then entered a else sleeping))
dispatch a e disarm l t = (l, goto (on_page (set_watch_mem none) t) critical)
dispatch a e try_store_mem l t =
    (store (λ n. record n { mem = mcs_unlocked }) t.node l, goto t try_store_next)
dispatch a e try_store_next l t =
    (store (λ n. record n { next = none }) t.node l, goto t try_exchange)
dispatch a e try_exchange l t = exchanged e.spurious l.tail l t
dispatch a e critical l t = (l, look (l.nodes t.node).next t)
dispatch a e remove l t =
    if points_to l.tail t.node
    then (record l { tail = none }, goto t idle)
    else (l, goto t await_next)
dispatch a e await_next l t = (l, follow (l.nodes t.node).next t)
dispatch a e wake l t = (l, goto t idle)
dispatch a e fault l t = (l, goto t fault)
