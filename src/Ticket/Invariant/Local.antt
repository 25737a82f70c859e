-- ===== src/Ticket/Invariant/Local.antt =====
-- What a thread's place in simple-ticket-lock-base.h says of its ticket and of its kernel page.
use autolock.Base.{
  ℕ, ◌+◌, ◌-◌, ◌%◌, ◌^◌, ◌<◌, ◌≡◌, sym, ◌⊎◌, inl, inr, Bool, true, false, Option, none, some, arith,
  ◌==◌, if◌then◌else◌,
}
use mathlib.Core.Path.{subst}
use autolock.Kernel.{KernelAutolock, sched, init_kernel_state-cases}
use autolock.Spin.Invariant.{IsQuiet}
use autolock.Ticket.{
  TicketLock, Thread, Env, Pc, idle, try_load, try_cas, first_load, init_page, set_mem, set_for,
  set_neq, spin_load, waiting, disarm, critical, unlock_store, fault, dispatch, prepare,
}

abbrev pub has_ticket : Pc → Bool
has_ticket idle = false
has_ticket try_load = false
has_ticket try_cas = false
has_ticket p = true

abbrev pub uses : Thread → ℕ
uses t = if has_ticket t.pc then 1 else 0

-- Whether a thread has the ticket `k`.
abbrev pub uses_ticket : ℕ → Thread → ℕ
uses_ticket k t = if has_ticket t.pc then (if t.ticket_num == k then 1 else 0) else 0

-- How far behind `c` the number `k` comes, with the wrap-around.
abbrev pub behind : ℕ → ℕ → ℕ
behind c k = (k + 2 ^ 32 - c) % 2 ^ 32

-- The page waits for the ticket, or is not armed.
abbrev pub Watches : ℕ → ℕ → Option KernelAutolock → Type 0
Watches addr k none = ⊥
Watches addr k (some p) =
    (p.watch_for ≡ k) × (p.watch_neq ≡ 0) × ((p.watch_mem ≡ none) ⊎ (p.watch_mem ≡ some addr))

-- The page during the set-up: there is one; it is armed for this lock, or not armed.
abbrev pub HasPage : Option KernelAutolock → Type 0
HasPage none = ⊥
HasPage (some p) = Unit

abbrev pub Arms : ℕ → Option KernelAutolock → Type 0
Arms addr none = ⊥
Arms addr (some p) = (p.watch_mem ≡ none) ⊎ (p.watch_mem ≡ some addr)

abbrev pub ArmsFor : ℕ → ℕ → Option KernelAutolock → Type 0
ArmsFor addr k none = ⊥
ArmsFor addr k (some p) = (p.watch_for ≡ k) × ((p.watch_mem ≡ none) ⊎ (p.watch_mem ≡ some addr))

-- Past the set-up, without autolock the page is as it was.
abbrev pub Slow : Bool → TicketLock → Thread → Type 0
Slow a l t = elim a [ true ↦ Watches l.addr t.ticket_num t.kernel | false ↦ IsQuiet t.kernel ]

abbrev pub IsWord : ℕ → Type 0
IsWord k = k < 2 ^ 32

-- What a thread's place says of its ticket and of its kernel page.
abbrev pub IsLocal : Bool → TicketLock → Pc → Thread → Type 0
IsLocal a l idle t = IsQuiet t.kernel
IsLocal a l try_load t = ⊥
IsLocal a l try_cas t = ⊥
IsLocal a l first_load t = IsWord t.ticket_num × IsQuiet t.kernel
IsLocal a l init_page t = (a ≡ true) × IsWord t.ticket_num × IsQuiet t.kernel
IsLocal a l set_mem t = (a ≡ true) × IsWord t.ticket_num × HasPage t.kernel × IsQuiet t.kernel
IsLocal a l set_for t = (a ≡ true) × IsWord t.ticket_num × Arms l.addr t.kernel
IsLocal a l set_neq t = (a ≡ true) × IsWord t.ticket_num × ArmsFor l.addr t.ticket_num t.kernel
IsLocal a l spin_load t = IsWord t.ticket_num × Slow a l t
IsLocal a l waiting t = IsWord t.ticket_num × Slow a l t
IsLocal a l disarm t = (t.ticket_num ≡ l.cur_count) × Slow a l t
IsLocal a l critical t = (t.ticket_num ≡ l.cur_count) × IsQuiet t.kernel
IsLocal a l unlock_store t =
    (t.ticket_num ≡ l.cur_count) × (t.cur_num ≡ l.cur_count) × IsQuiet t.kernel
IsLocal a l fault t = IsWord t.ticket_num

prepare-IsLocal :
    (e : Env) (l : TicketLock) (t : Thread)
    → e.sys.page.watch_mem ≡ none
    → IsWord t.ticket_num
    → IsQuiet t.kernel
    → IsLocal true l (prepare e t).pc (prepare e t)
unfolding prepare
prepare-IsLocal e l t b w q =
    elim (init_kernel_state-cases e.sys t.kernel)
      as (λ _. IsLocal true l (prepare e t).pc (prepare e t)) [
        | inl h ↦ ground arith
        | inr (k, h, g) ↦ ground arith
      ]

-- Every step keeps it for the thread that moves.
pub dispatch-IsLocal :
    (a : Bool) (e : Env) (p : Pc) (l : TicketLock) (t : Thread)
    → e.blocking ≡ true
    → e.sys.page.watch_mem ≡ none
    → IsWord l.cur_count
    → IsWord l.next_count
    → IsLocal a l p t
    → let (l', t') = dispatch a e p l t in IsLocal a l' t'.pc t'
unfolding dispatch
dispatch-IsLocal a e idle l t bl b wc wn h = ground arith
dispatch-IsLocal a e set_mem l t bl b wc wn h = ground arith
dispatch-IsLocal a e set_for l t bl b wc wn h = ground arith
dispatch-IsLocal a e set_neq l t bl b wc wn h = ground arith
dispatch-IsLocal a e init_page l t bl b wc wn h =
    subst (λ b. IsLocal b l (prepare e t).pc (prepare e t)) (sym h.0)
      (prepare-IsLocal e l t b h.1 h.2)
dispatch-IsLocal a e p l t bl b wc wn h = ground arith

abbrev pub moves_counter : Pc → Bool
moves_counter idle = true
moves_counter unlock_store = true
moves_counter p = false

pub dispatch-stays :
    (a : Bool) (e : Env) (p : Pc) (l : TicketLock) (t : Thread)
    → moves_counter p ≡ false
    → IsLocal a l p t
    → let (l', t') = dispatch a e p l t in
      (l' ≡ l) × (has_ticket p ≡ true) × (has_ticket t'.pc ≡ true) × (t'.ticket_num ≡ t.ticket_num)
unfolding dispatch prepare
dispatch-stays a e idle l t m h = absurd (ground arith)
dispatch-stays a e p l t m h = ground arith

-- A thread that is not the one served keeps its facts when `cur_count` moves.
pub IsLocal-serve :
    (a : Bool) (l : TicketLock) (c : ℕ) (p : Pc) (t : Thread)
    → (has_ticket p ≡ true → t.ticket_num ≡ l.cur_count → ⊥)
    → IsLocal a l p t
    → IsLocal a (record l { cur_count = c }) p t
IsLocal-serve a l c idle t other h = h
IsLocal-serve a l c p t other h = ground arith

pub IsLocal-issue :
    (a : Bool) (l : TicketLock) (m : ℕ) (p : Pc) (t : Thread)
    → IsLocal a l p t
    → IsLocal a (record l { next_count = m }) p t
IsLocal-issue a l m idle t h = h
IsLocal-issue a l m p t h = ground arith

pub sched-IsLocal :
    (a : Bool) (l : TicketLock) (p : Pc) (t : Thread)
    → IsLocal a l p t
    → IsLocal a l p (record t { kernel = sched t.kernel })
unfolding sched
sched-IsLocal a l idle t h = ground arith
sched-IsLocal a l p t h = ground arith
